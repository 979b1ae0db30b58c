-- ===== src/Admission/Order.antt =====
-- Which ticket a free place goes to.
use simple_serving.Prelude.{
  ℕ, ◌≤◌, ◌<◌, true, some, ◌≡◌, arith, ◌⊎◌, inl, inr, get_elem?, get_elem?-set_self, Option-cases,
}
use simple_serving.Config.{rank}
use simple_serving.Line.{Ticket, waiting, grant, size, take_out}
use simple_serving.Line.Order.{find-in_order_first}
use simple_serving.Admission.{Admission, has_room, room_at, next_ticket, admit, activate, dispatch}
use simple_serving.Admission.Invariant.{IsCounted, IsSound}
use simple_serving.Admission.Steps.{admit-IsSound}
use simple_serving.Admission.Dispatch.{
  next_ticket-some, next_ticket-none, dispatch_loop_lem, dispatch_loop_step,
}

-- The next ticket comes before every other waiting ticket that has room: its class comes first, or
-- it is of the same class and arrived no later.
pub next_ticket_first :
    (a : Admission) (i j : ℕ) (t u : Ticket)
    → IsCounted a
    → next_ticket a ≡ some i
    → get_elem? a.tickets i ≡ some t
    → get_elem? a.tickets j ≡ some u
    → u.state ≡ waiting
    → has_room a u ≡ true
    → (rank t.cls < rank u.cls) ⊎ ((t.cls ≡ u.cls) × (i ≤ j))
unfolding next_ticket room_at
next_ticket_first a i j t u v e g h w r =
    find-in_order_first (room_at a) a.line a.tickets i j t u v.line e g h w (ground arith)

admit_at :
    (a b : Admission) (i : ℕ) (t : Ticket)
    → get_elem? a.tickets i ≡ some t
    → admit a i ≡ some b
    → get_elem? b.tickets i ≡ some (grant t)
unfolding admit activate
admit_at a b i t g e = elim (Option-cases (take_out a.line t.cls i)) [
  | inl x ↦ absurd (ground arith)
  | inr (l, x) ↦ ground (arith, get_elem?-set_self a.tickets i t (grant t) g)
]

-- The dispatch gives the next ticket its place.
dispatch_grants :
    (a b : Admission) (i : ℕ) (t : Ticket)
    → IsSound a
    → next_ticket a ≡ some i
    → get_elem? a.tickets i ≡ some t
    → dispatch a ≡ some b
    → get_elem? b.tickets i ≡ some (grant t)
unfolding dispatch grant
dispatch_grants a b i t v e g h =
    let (t', g', w, r) = next_ticket-some a i v.counted e in
    let (m, x, s, d, _) = admit-IsSound a i t' g' w r v in
    let (c, y, _, _, gr, _) = dispatch_loop_lem (size a.line) m s (ground arith) in
    let same : c ≡ b = ground (arith, dispatch_loop_step (size a.line) a m i e x) in
    ground (arith, gr.at i (grant t) (admit_at a m i t g x))

next_ticket_is_some :
    (a : Admission) (j : ℕ) (u : Ticket)
    → IsCounted a
    → get_elem? a.tickets j ≡ some u
    → u.state ≡ waiting
    → has_room a u ≡ true
    → (i : ℕ) × (next_ticket a ≡ some i)
next_ticket_is_some a j u v g w r = elim (Option-cases (next_ticket a)) [
  | inl e ↦ absurd (ground (arith, next_ticket-none a v e j u g w))
  | inr found ↦ found
]

-- From sound counters: if a ticket waits that has room, a dispatch gives a place to a ticket,
-- and that ticket comes before the waiting one: its class comes first in the order of the
-- classes, or it is of the same class and arrived no later.
pub dispatch_serves_first :
    (a b : Admission) (j : ℕ) (u : Ticket)
    → IsSound a
    → get_elem? a.tickets j ≡ some u
    → u.state ≡ waiting
    → has_room a u ≡ true
    → dispatch a ≡ some b
    → (i : ℕ) × (t : Ticket) × (get_elem? a.tickets i ≡ some t)
      × (t.state ≡ waiting)
      × (get_elem? b.tickets i ≡ some (grant t))
      × ((rank t.cls < rank u.cls) ⊎ ((t.cls ≡ u.cls) × (i ≤ j)))
dispatch_serves_first a b j u v g w r h =
    let (i, e) = next_ticket_is_some a j u v.counted g w r in
    let (t, k, x, _) = next_ticket-some a i v.counted e in
    (i, t, k, x, dispatch_grants a b i t v e k h, next_ticket_first a i j t u v.counted e k g w r)
