-- ===== src/Admission/Entered.antt =====
-- What `enter` gives the caller: a place in the service, a place in line, or a refusal.
use simple_serving.Prelude.{
  ℕ, true, false, Option, none, some, [], ◌∷◌, ◌++◌, ◌≡◌, refl, sym, ◌∙◌, arith, ◌⊎◌, inl, inr,
  length, if◌then◌else◌,
}
use simple_serving.Errors.{Result, ok, err, Code, queue_full}
use simple_serving.Config.{ServiceClass}
use simple_serving.Line.{ticket, grant, counts}
use simple_serving.Admission.{Admission, has_room, owner_full, enter}
use simple_serving.Admission.Invariant.{IsCapped, IsSound, SameLimits, IsSettled}
use simple_serving.Admission.Enter.{
  new_active-IsSound, new_waiting-IsSound, enter_cases, new_active_tickets, new_active-IsSettled,
  new_waiting_tickets, same_active, same_waiting, new_waiting-IsSettled,
}

pair_of_ok :
    {a b : Admission} {i j : ℕ}
    → ◌≡◌ {A = Result (Admission × ℕ)} (ok (a, i)) (ok (b, j))
    → (a ≡ b) × (i ≡ j)
pair_of_ok h = (cc, cc)

owner_at_cap :
    (a : Admission) (owner : Option ℕ)
    → IsCapped a
    → owner_full a.per_key_waiting a.owner_waiting owner ≡ true
    → (o : ℕ) × (owner ≡ some o) × (a.owner_waiting o ≡ a.per_key_waiting)
owner_at_cap a none v h = absurd (ground arith)
owner_at_cap a (some o) v h = (o, refl, ground (arith, v.owner_waiting o))

-- What `enter` returns: the ticket stands last on the heap, active exactly if it had room.
abbrev pub Entered : Admission → ServiceClass → Option ℕ → Admission → ℕ → Type 0
Entered a cls owner b i =
    IsSound b
    × IsSettled b
    × SameLimits a b
    × (i ≡ length a.tickets)
    × (b.tickets
        ≡ a.tickets
          ++ (if has_room a (ticket cls owner) then grant (ticket cls owner) else ticket cls owner)
            ∷ [])

-- From sound counters with no waiting ticket that has room: an accepted request keeps the
-- counters exact, every cap, and leaves no waiting ticket with room. Its ticket is put last on
-- the heap, whose other tickets stay, and it is active at once exactly if there was room for it.
pub enter_accepted :
    (a b : Admission) (cls : ServiceClass) (owner : Option ℕ) (i : ℕ)
    → IsSound a
    → IsSettled a
    → enter a cls owner ≡ ok (b, i)
    → Entered a cls owner b i
enter_accepted a b cls owner i v z h = elim (enter_cases a cls owner) [
  | inl (r, e) ↦
      let (p, q) = pair_of_ok (sym e ∙ h) in
      rw (← p, ← q)
        (
          new_active-IsSound a cls owner r v,
          new_active-IsSettled a cls owner z,
          same_active a cls owner,
          refl,
          rw r (new_active_tickets a cls owner),
        )
  | inr (inl (r, x, y, e)) ↦
      let (p, q) = pair_of_ok (sym e ∙ h) in
      rw (← p, ← q)
        (
          new_waiting-IsSound a cls owner x y v,
          new_waiting-IsSettled a cls owner r z,
          same_waiting a cls owner,
          refl,
          rw r (new_waiting_tickets a cls owner),
        )
  | inr (inr (r, x, e)) ↦ absurd (ground arith)
]

-- From sound counters: a request is refused only with `queue_full`, without room, and at a
-- Waiting cap that is reached: its class's, or its own key's.
pub enter_refused :
    (a : Admission) (cls : ServiceClass) (owner : Option ℕ) (code : Code)
    → IsSound a
    → enter a cls owner ≡ err code
    → (code ≡ queue_full)
      × (has_room a (ticket cls owner) ≡ false)
      × ((counts a.line cls ≡ (a.limits cls).waiting)
          ⊎ ((o : ℕ) × (owner ≡ some o) × (a.owner_waiting o ≡ a.per_key_waiting)))
enter_refused a cls owner code v h = elim (enter_cases a cls owner) [
  | inl (r, e) ↦ absurd (ground arith)
  | inr (inl (r, x, y, e)) ↦ absurd (ground arith)
  | inr (inr (r, x, e)) ↦ (
    ground arith,
    r,
    elim x [
      | inl q ↦ inl (ground (arith, v.capped.waiting cls))
      | inr q ↦ inr (owner_at_cap a owner v.capped q)
    ],
  )
]
