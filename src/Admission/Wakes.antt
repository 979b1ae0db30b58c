-- ===== src/Admission/Wakes.antt =====
-- The future that a request awaits, and the state of its ticket.
use simple_serving.Prelude.{
  ℕ, Option, some, ◌≡◌, ◌≢◌, refl, subst, arith, ◌⊎◌, inl, inr, get_elem?, set, get_elem?-append,
  get_elem?-set_inv, Option-cases, Bool-cases,
}
use simple_serving.Errors.{ok}
use simple_serving.Config.{ServiceClass, Config}
use simple_serving.Line.{
  Ticket, TicketState, waiting, active, left, pending, resolved, cancelled, grant, depart, ticket,
  take_out,
}
use simple_serving.Admission.{Admission, init, enter, leave, leave_place, has_room}
use simple_serving.Admission.Invariant.{IsSound, IsSettled}
use simple_serving.Admission.Entered.{enter_accepted}
use simple_serving.Admission.Leave.{leave_place-IsSound}
use simple_serving.Admission.Dispatch.{
  Grants, dispatch_total, leave_step, leave-left, dispatch_unless_left_lem, TicketState-cases,
}
use simple_serving.Admission.Runs.{
  Step, enters, leaves, cancels, Reach, here, next, cancel, Reach-IsSound,
}

-- An active ticket's future is done, and a waiting ticket's has no result.
pub record InStep (t : Ticket) : Type 0 where
  pub active_done : t.state ≡ active → t.granted ≢ pending
  pub waiting_open : t.state ≡ waiting → t.granted ≢ resolved

abbrev pub AllInStep : Admission → Type 0
AllInStep a = (i : ℕ) (t : Ticket) → get_elem? a.tickets i ≡ some t → InStep t

ticket-InStep : (cls : ServiceClass) (owner : Option ℕ) → InStep (ticket cls owner)
unfolding ticket
ticket-InStep cls owner = ground arith

grant-InStep : (t : Ticket) → InStep (grant t)
unfolding grant
grant-InStep t = ground arith

depart-InStep : (t : Ticket) → InStep (depart t)
unfolding depart
depart-InStep t = ground arith

Grants-InStep : {a b : Admission} → Grants a b → AllInStep a → AllInStep b
Grants-InStep g h i t e = elim (g.back i t e) [
  | inl same ↦ h i t same
  | inr (u, _, _, x) ↦ rw x (grant-InStep u)
]

enter-InStep :
    (a b : Admission) (cls : ServiceClass) (owner : Option ℕ) (i : ℕ)
    → IsSound a
    → IsSettled a
    → enter a cls owner ≡ ok (b, i)
    → AllInStep a
    → AllInStep b
enter-InStep a b cls owner i v z e h j x g =
    let (_, _, _, _, s) = enter_accepted a b cls owner i v z e in
    elim (Bool-cases (has_room a (ticket cls owner))) [
      | inl r ↦ elim (get_elem?-append a.tickets (grant (ticket cls owner)) j x (ground arith)) [
        | inl old ↦ h j x old
        | inr (_, new) ↦ rw new (grant-InStep (ticket cls owner))
      ]
      | inr r ↦ elim (get_elem?-append a.tickets (ticket cls owner) j x (ground arith)) [
        | inl old ↦ h j x old
        | inr (_, new) ↦ rw new (ticket-InStep cls owner)
      ]
    ]

-- Before its dispatch `leave` changes no ticket but its own, which is then left.
leave_place_tickets :
    (s : TicketState) (a b : Admission) (i : ℕ) (t : Ticket)
    → leave_place s a i t ≡ some b
    → (b.tickets ≡ a.tickets) ⊎ (b.tickets ≡ set a.tickets i (depart t))
unfolding leave_place
leave_place_tickets left a b i t e = inl (ground arith)
leave_place_tickets active a b i t e = inr (ground arith)
leave_place_tickets waiting a b i t e = elim (Option-cases (take_out a.line t.cls i)) [
  | inl x ↦ absurd (ground arith)
  | inr (l, x) ↦ inr (ground arith)
]

leave_place-InStep :
    (s : TicketState) (a b : Admission) (i : ℕ) (t : Ticket)
    → leave_place s a i t ≡ some b
    → AllInStep a
    → AllInStep b
leave_place-InStep s a b i t e h j x g = elim (leave_place_tickets s a b i t e) [
  | inl same ↦ h j x (ground arith)
  | inr new ↦ elim (get_elem?-set_inv a.tickets i j (depart t) x (ground arith)) [
    | inl old ↦ h j x old
    | inr (_, d) ↦ rw d (depart-InStep t)
  ]
]

leave-InStep :
    (a b : Admission) (i : ℕ) (t : Ticket)
    → IsSound a
    → get_elem? a.tickets i ≡ some t
    → leave a i ≡ some b
    → AllInStep a
    → AllInStep b
leave-InStep a b i t v g e h =
    let (m, x, s, _) = leave_place-IsSound a i t g t.state refl v in
    elim (TicketState-cases t.state) [
      | inl gone ↦
          let same : a ≡ b = ground (arith, leave-left a i t g gone) in subst AllInStep same h
      | inr n ↦
          let (c, y, _, _, gr, _) = dispatch_total m s in
          let same : c ≡ b =
            ground (arith, leave_step a m i t g x, dispatch_unless_left_lem t.state m n) in
          subst AllInStep same (Grants-InStep gr (leave_place-InStep t.state a m i t x h))
    ]

cancel-InStep : (a : Admission) (i : ℕ) (t : Ticket) → AllInStep a → AllInStep (cancel a i t)
unfolding cancel
cancel-InStep a i t h j x g =
    elim (get_elem?-set_inv a.tickets i j (record t { granted = cancelled }) x g) [
      | inl old ↦ h j x old
      | inr (_, d) ↦ rw d (ground arith)
    ]

init-InStep : (c : Config) → AllInStep (init c)
unfolding init
init-InStep c i t g = absurd (ground arith)

Step-InStep : {a b : Admission} → IsSound a → IsSettled a → AllInStep a → Step a b → AllInStep b
Step-InStep {a} {b} v z h (enters cls owner i e) = enter-InStep a b cls owner i v z e h
Step-InStep {a} {b} v z h (leaves i t g e) = leave-InStep a b i t v g e h
Step-InStep {a} {b} v z h (cancels i t g p e) = rw e (cancel-InStep a i t h)

-- After any history of calls, an active ticket's future is done, so that no granted request sleeps
-- on, and a waiting ticket's future has no result, so that no request runs without its place.
pub Reach-InStep : (c : Config) {a : Admission} → Reach (init c) a → AllInStep a
Reach-InStep c here = init-InStep c
Reach-InStep c (next r s) =
    let (v, z, _) = Reach-IsSound c r in Step-InStep v z (Reach-InStep c r) s
