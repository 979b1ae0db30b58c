-- ===== src/CountPlaces/Runs.antt =====
-- `enter`, and every history of calls.
use simple_serving.Prelude.{
  ℕ, ◌+◌, ◌≤◌, true, false, Option, none, some, List, [], ◌∷◌, ◌++◌, ◌≡◌, refl, ◌∙◌, sym, subst,
  arith, ◌⊎◌, ◌↔◌, inl, inr, get_elem?, set, count, count-append, count-set, length,
  set-append_last, get_elem?-append, get_elem?-set_inv, positions-set_same, ltb,
}
use simple_serving.Errors.{Result, ok, err, Code, queue_full}
use simple_serving.Config.{ServiceClass, reader, agent, internal, external, Config}
use simple_serving.Line.{Ticket, waiting, pending, cancelled, ticket, grant, add, owner_up}
use simple_serving.Line.Laws.{Holds-none, Holds-add, Holds-skip, waits_in}
use simple_serving.Admission.{owner_full}
use simple_serving.Admission.Invariant.{runs_in}
use simple_serving.CountPlaces.{CountPlaces, init, total, run, enter, leave}
use simple_serving.CountPlaces.Invariant.{
  here_for, IsSound, IsSettled, SameLimits, SameLimits-refl, SameLimits-trans,
}
use simple_serving.CountPlaces.Filling.{count_leave_total}

module _ (p : CountPlaces) (cls : ServiceClass) (owner : Option ℕ) where
  made : CountPlaces
  made = record p {
    tickets = p.tickets ++ ticket cls owner ∷ [];
    by_owner = owner_up p.by_owner owner;
  }

  unfoldable pub new_running : CountPlaces
  unfolding made run
  new_running = run made (length p.tickets) (ticket cls owner)

  unfoldable pub new_waiting : CountPlaces
  unfolding made
  new_waiting = record made { line = add p.line cls (length p.tickets) }

  pub enter_cases :
      ((owner_full p.per_key p.by_owner owner ≡ true) × (enter p cls owner ≡ err queue_full))
      ⊎ (((owner_full p.per_key p.by_owner owner ≡ false)
            × (ltb (total p.running) p.places ≡ true)
            × (enter p cls owner ≡ ok (new_running, length p.tickets)))
          ⊎ ((owner_full p.per_key p.by_owner owner ≡ false)
              × (ltb (total p.running) p.places ≡ false)
              × (enter p cls owner ≡ ok (new_waiting, length p.tickets))))
  unfolding enter new_running new_waiting
  enter_cases = ground arith

  new_running-IsSound :
      owner_full p.per_key p.by_owner owner ≡ false
      → ltb (total p.running) p.places ≡ true
      → IsSound p
      → IsSound new_running
  unfolding new_running ticket grant
  new_running-IsSound o r v =
      let t = grant (ticket cls owner) in
      rw (set-append_last p.tickets (ticket cls owner) t) (record {
        counted = record {
          line = Holds-skip p.line p.tickets t v.counted.line refl;
          running =
              λ c. ground (arith, v.counted.running c, count-append (runs_in c) p.tickets (t ∷ []));
          by_owner = λ k.
              ground (arith, v.counted.by_owner k, count-append (here_for k) p.tickets (t ∷ []));
        };
        capped = record {
          running = ground (arith, v.capped.running);
          by_owner = λ k. ground (arith, v.capped.by_owner k);
        };
      })

  new_running-IsSettled :
      ltb (total p.running) p.places ≡ true → IsSettled p → IsSettled new_running
  unfolding new_running grant
  new_running-IsSettled r z j u g w =
      elim (get_elem?-append p.tickets (grant (ticket cls owner)) j u
        (rw (set-append_last p.tickets (ticket cls owner) (grant (ticket cls owner))) at g)) [
          | inl old ↦ absurd (ground (arith, z j u old w))
          | inr new ↦ absurd (ground arith)
        ]

  new_waiting-IsSound :
      owner_full p.per_key p.by_owner owner ≡ false → IsSound p → IsSound new_waiting
  unfolding new_waiting ticket
  new_waiting-IsSound o v =
      let t = ticket cls owner in
      record {
        counted = record {
          line = Holds-add p.line p.tickets t v.counted.line refl;
          running =
              λ c. ground (arith, v.counted.running c, count-append (runs_in c) p.tickets (t ∷ []));
          by_owner = λ k.
              ground (arith, v.counted.by_owner k, count-append (here_for k) p.tickets (t ∷ []));
        };
        capped = record {
          running = v.capped.running;
          by_owner = λ k. ground (arith, v.capped.by_owner k);
        };
      }

pub pair_of_ok :
    {a b : CountPlaces} {i j : ℕ}
    → ◌≡◌ {A = Result (CountPlaces × ℕ)} (ok (a, i)) (ok (b, j))
    → (a ≡ b) × (i ≡ j)
pair_of_ok h = (cc, cc)

abbrev pub Kept : CountPlaces → CountPlaces → Type 0
Kept p q = IsSound q × IsSettled q × SameLimits p q

enter-Kept :
    (p q : CountPlaces) (cls : ServiceClass) (owner : Option ℕ) (i : ℕ)
    → IsSound p
    → IsSettled p
    → enter p cls owner ≡ ok (q, i)
    → Kept p q
unfolding new_running new_waiting
enter-Kept p q cls owner i v z h = elim (enter_cases p cls owner) [
  | inl (o, e) ↦ absurd (ground arith)
  | inr (inl (o, r, e)) ↦
      let (same, _) = pair_of_ok (sym e ∙ h) in
      rw (← same) (
        new_running-IsSound p cls owner o r v,
        new_running-IsSettled p cls owner r z,
        record { places = refl; per_key = refl },
      )
  | inr (inr (o, r, e)) ↦
      let (same, _) = pair_of_ok (sym e ∙ h) in
      rw (← same) (
        new_waiting-IsSound p cls owner o v,
        (λ j u g w. ground arith),
        record { places = refl; per_key = refl },
      )
]

-- From sound counters: a count is refused only with `queue_full`, and exactly when it belongs to
-- an outside key that has reached its own cap, waiting counts included.
pub count-enter_refused :
    (p : CountPlaces) (cls : ServiceClass) (owner : Option ℕ) (code : Code)
    → IsSound p
    → (enter p cls owner ≡ err code) ↔ (
        (code ≡ queue_full)
        × ((o : ℕ) × (owner ≡ some o) × (count (here_for o) p.tickets ≡ p.per_key)))
count-enter_refused p cls none code v =
    ((λ h. absurd (unfold enter in ground arith)), (λ (e, (o, x, n)). absurd (ground arith)))
count-enter_refused p cls (some o) code v = (
  (λ h.
      unfold enter in
      (ground arith, (o, refl, ground (arith, v.counted.by_owner o, v.capped.by_owner o)))),
  (λ (e, (k, x, n)). unfold enter in ground (arith, v.counted.by_owner k)),
)

-- The task that awaits `granted` is cancelled, and a pending future with it.
unfoldable pub cancel : CountPlaces → ℕ → Ticket → CountPlaces
cancel p i t = record p { tickets = set p.tickets i (record t { granted = cancelled }) }

cancel-Kept :
    (p : CountPlaces) (i : ℕ) (t : Ticket)
    → get_elem? p.tickets i ≡ some t
    → IsSound p
    → IsSettled p
    → Kept p (cancel p i t)
unfolding cancel
cancel-Kept p i t g v z =
    let u : Ticket = record t { granted = cancelled } in
    (
      record {
        counted = record {
          line = record {
            queues = λ c.
                v.counted.line.queues c
                ∙ sym (positions-set_same (waits_in c) 0 p.tickets i t u g refl);
          };
          running =
              λ c. ground (arith, v.counted.running c, count-set (runs_in c) p.tickets i t u g);
          by_owner =
              λ k. ground (arith, v.counted.by_owner k, count-set (here_for k) p.tickets i t u g);
        };
        capped = record { running = v.capped.running; by_owner = v.capped.by_owner };
      },
      (λ j x h w. elim (get_elem?-set_inv p.tickets i j u x h) [
        | inl old ↦ z j x old w
        | inr (_, e) ↦ z i t g (ground arith)
      ]),
      record { places = refl; per_key = refl },
    )

pub data Step (p : CountPlaces) (q : CountPlaces) : Type 0 where
  enters :
      (cls : ServiceClass) (owner : Option ℕ) (i : ℕ) → enter p cls owner ≡ ok (q, i) → Step p q
  leaves : (i : ℕ) (t : Ticket) → get_elem? p.tickets i ≡ some t → leave p i ≡ some q → Step p q
  cancels :
      (i : ℕ) (t : Ticket)
      → get_elem? p.tickets i ≡ some t
      → t.granted ≡ pending
      → q ≡ cancel p i t
      → Step p q

pub data Reach (p : CountPlaces) : CountPlaces → Type 0 where
  here : Reach p p
  next : {q r : CountPlaces} → Reach p q → Step q r → Reach p r

Step-Kept : {p q : CountPlaces} → IsSound p → IsSettled p → Step p q → Kept p q
Step-Kept {p} {q} v z (enters cls owner i e) = enter-Kept p q cls owner i v z e
Step-Kept {p} {q} v z (leaves i t g e) =
    let (r, y, s, n, f, _) = count_leave_total p i t v z g in
    let same : r ≡ q = ground arith in subst (Kept p) same (s, n, f)
Step-Kept {p} {q} v z (cancels i t g o e) = rw e (cancel-Kept p i t g v z)

init-Kept : (c : Config) → Kept (init c) (init c)
unfolding init
init-Kept c = (
  record {
    counted = record { line = Holds-none; running = λ _. refl; by_owner = λ _. refl };
    capped = record { running = omega arith; by_owner = λ _. omega arith };
  },
  (λ i t g w. absurd (ground arith)),
  SameLimits-refl (init c),
)

pub Reach-Kept : (c : Config) {p : CountPlaces} → Reach (init c) p → Kept (init c) p
Reach-Kept c here = init-Kept c
Reach-Kept c (next r s) =
    let (v, z, f) = Reach-Kept c r in
    let (v', z', f') = Step-Kept v z s in (v', z', SameLimits-trans f f')

abbrev pub running_tickets : List Ticket → ℕ
running_tickets ts =
    count (runs_in reader) ts
    + count (runs_in agent) ts
    + count (runs_in internal) ts
    + count (runs_in external) ts

-- After any history of `enter`, `leave` and cancelled futures from a new `CountPlaces`, at most as
-- many tickets are active as there are count places, an outside key has at most its cap of tickets
-- that have not left, and while any ticket waits all the places are taken.
pub Reach-caps :
    (c : Config) {p : CountPlaces}
    → Reach (init c) p
    → (running_tickets p.tickets ≤ c.count_active)
      × ((k : ℕ) → count (here_for k) p.tickets ≤ c.count_per_outside_key)
      × ((i : ℕ) (t : Ticket)
          → get_elem? p.tickets i ≡ some t
          → t.state ≡ waiting
          → running_tickets p.tickets ≡ c.count_active)
unfolding init
Reach-caps c {p} r =
    let (v, z, f) = Reach-Kept c r in
    let sum : total p.running ≡ running_tickets p.tickets = omega (
      arith,
      v.counted.running reader,
      v.counted.running agent,
      v.counted.running internal,
      v.counted.running external,
    ) in
    (
      ground (arith, v.capped.running, f.places),
      λ k. ground (arith, v.counted.by_owner k, v.capped.by_owner k, f.per_key),
      λ i t g w. ground (arith, v.capped.running, f.places, z i t g w),
    )
