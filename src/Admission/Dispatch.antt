-- ===== src/Admission/Dispatch.antt =====
-- The loop of `_dispatch` ends within its fuel, raises nothing, and leaves no waiting ticket with
-- room; and `leave`, which ends with it.
use simple_serving.Prelude.{
  ℕ, zero, suc, ◌<◌, true, Option, none, some, ◌≡◌, refl, ◌∙◌, arith, ◌≢◌, ◌⊎◌, inl, inr, get_elem?,
  get_elem?-set_cases, get_elem?-set_inv, get_elem?-set_self, Option-cases,
}
use simple_serving.Line.{Ticket, TicketState, waiting, active, left, grant, depart, take_out, size}
use simple_serving.Line.Order.{find-in_order, find-in_order-none}
use simple_serving.Admission.{
  Admission, has_room, room_at, next_ticket, activate, admit, dispatch_loop, dispatch, leave_place,
  leave, dispatch_unless_left,
}
use simple_serving.Admission.Invariant.{IsCounted, IsSound, IsSettled, SameLimits, SameLimits-trans}
use simple_serving.Admission.Steps.{admit-IsSound}
use simple_serving.Admission.Leave.{same, leave_place-IsSound}

-- From `a` to `b` tickets are granted places, and nothing else happens to them.
pub record Grants (a b : Admission) : Type 0 where
  pub at :
      (j : ℕ) (u : Ticket)
      → get_elem? a.tickets j ≡ some u
      → (get_elem? b.tickets j ≡ some u)
        ⊎ ((u.state ≡ waiting) × (get_elem? b.tickets j ≡ some (grant u)))
  pub back :
      (j : ℕ) (x : Ticket)
      → get_elem? b.tickets j ≡ some x
      → (get_elem? a.tickets j ≡ some x)
        ⊎ ((u : Ticket) × (get_elem? a.tickets j ≡ some u) × (u.state ≡ waiting) × (x ≡ grant u))

Grants-refl : (a : Admission) → Grants a a
Grants-refl a = record { at = λ j u g. inl g; back = λ j x g. inl g }

Grants-trans : {a b c : Admission} → Grants a b → Grants b c → Grants a c
unfolding grant
Grants-trans {a} {b} {c} p q = record {
  at = λ j u g. elim (p.at j u g) [
    | inl same ↦ q.at j u same
    | inr (w, granted) ↦ ground (arith, q.at j (grant u) granted)
  ];
  back = λ j x g. elim (q.back j x g) [
    | inl same ↦ p.back j x same
    | inr (u, h, w, e) ↦ elim (p.back j u h) [
      | inl same ↦ inr (u, same, w, e)
      | inr (v, k, y, d) ↦ absurd (ground arith)
    ]
  ];
}

-- The next ticket is a waiting one that has room.
pub next_ticket-some :
    (a : Admission) (i : ℕ)
    → IsCounted a
    → next_ticket a ≡ some i
    → (t : Ticket) × (get_elem? a.tickets i ≡ some t) × (t.state ≡ waiting) × (has_room a t ≡ true)
unfolding next_ticket room_at
next_ticket-some a i v e =
    let (t, g, w, r) = find-in_order (room_at a) a.line a.tickets i v.line e in
    (t, g, w, ground arith)

pub next_ticket-none : (a : Admission) → IsCounted a → next_ticket a ≡ none → IsSettled a
unfolding next_ticket room_at
next_ticket-none a v e i t g w =
    ground (arith, find-in_order-none (room_at a) a.line a.tickets i t v.line e g w)

admit-Grants :
    (a b : Admission) (i : ℕ) (t : Ticket)
    → get_elem? a.tickets i ≡ some t
    → t.state ≡ waiting
    → admit a i ≡ some b
    → Grants a b
unfolding admit activate
admit-Grants a b i t g w e = record {
  at = λ j u h. elim (Option-cases (take_out a.line t.cls i)) [
    | inl x ↦ ground arith
    | inr (l, x) ↦ ground (arith, get_elem?-set_cases a.tickets i j t (grant t) u g h)
  ];
  back = λ j y h. elim (Option-cases (take_out a.line t.cls i)) [
    | inl x ↦ absurd (ground arith)
    | inr (l, x) ↦ elim (get_elem?-set_inv a.tickets i j (grant t) y (ground arith)) [
      | inl old ↦ inl old
      | inr (k, d) ↦ inr (t, ground arith, w, d)
    ]
  ];
}

abbrev pub Dispatched : Option Admission → Admission → Type 0
Dispatched r a =
    (b : Admission) × (r ≡ some b) × IsSound b × IsSettled b × Grants a b × SameLimits a b

dispatch_loop_stop :
    (fuel : ℕ) (a : Admission) → next_ticket a ≡ none → dispatch_loop (suc fuel) a ≡ some a
unfolding dispatch_loop
dispatch_loop_stop fuel a e = rw (e, dispatch_loop) refl

pub dispatch_loop_step :
    (fuel : ℕ) (a b : Admission) (i : ℕ)
    → next_ticket a ≡ some i
    → admit a i ≡ some b
    → dispatch_loop (suc fuel) a ≡ dispatch_loop fuel b
unfolding dispatch_loop
dispatch_loop_step fuel a b i e x = rw (e, dispatch_loop) (rw x refl)

pub dispatch_loop_lem :
    (fuel : ℕ) (a : Admission)
    → IsSound a
    → size a.line < fuel
    → Dispatched (dispatch_loop fuel a) a
dispatch_loop_lem zero a v h = absurd (omega arith)
dispatch_loop_lem (suc fuel) a v h = elim (Option-cases (next_ticket a)) [
  | inl e ↦
      (a, dispatch_loop_stop fuel a e, v, next_ticket-none a v.counted e, Grants-refl a, same a)
  | inr (i, e) ↦
      let (t, g, w, r) = next_ticket-some a i v.counted e in
      let (b, x, s, d, f) = admit-IsSound a i t g w r v in
      let (c, y, s', n, gr, f') = dispatch_loop_lem fuel b s (omega arith) in
      (
        c,
        dispatch_loop_step fuel a b i e x ∙ y,
        s',
        n,
        Grants-trans (admit-Grants a b i t g w x) gr,
        SameLimits-trans f f',
      )
]

-- From sound counters the dispatch ends, raises nothing, and leaves no waiting ticket with room.
-- It grants places to waiting tickets and changes no other ticket, no cap and no limit.
pub dispatch_total : (a : Admission) → IsSound a → Dispatched (dispatch a) a
unfolding dispatch
dispatch_total a v = dispatch_loop_lem (suc (size a.line)) a v (omega arith)

abbrev pub Left : Option Admission → Admission → ℕ → Type 0
Left r a i =
    (b : Admission) × (r ≡ some b)
    × IsSound b
    × IsSettled b
    × SameLimits a b
    × ((u : Ticket) × (get_elem? b.tickets i ≡ some u) × (u.state ≡ left))

pub TicketState-cases : (s : TicketState) → (s ≡ left) ⊎ (s ≢ left)
TicketState-cases left = inl refl
TicketState-cases waiting = inr (λ e. cc)
TicketState-cases active = inr (λ e. cc)

pub leave_step :
    (a b : Admission) (i : ℕ) (t : Ticket)
    → get_elem? a.tickets i ≡ some t
    → leave_place t.state a i t ≡ some b
    → leave a i ≡ dispatch_unless_left t.state b
unfolding leave
leave_step a b i t g e = rw (g, leave) (rw e refl)

pub dispatch_unless_left_lem :
    (s : TicketState) (b : Admission) → s ≢ left → dispatch_unless_left s b ≡ dispatch b
dispatch_unless_left_lem left b h = absurd (h refl)
dispatch_unless_left_lem waiting b h = refl
dispatch_unless_left_lem active b h = refl

-- What a ticket is once it has given up its place.
leave_place_at :
    (s : TicketState) (a b : Admission) (i : ℕ) (t : Ticket)
    → t.state ≡ s
    → get_elem? a.tickets i ≡ some t
    → leave_place s a i t ≡ some b
    → (u : Ticket) × (get_elem? b.tickets i ≡ some u) × (u.state ≡ left)
unfolding leave_place depart
leave_place_at left a b i t w g e = (t, ground arith, w)
leave_place_at active a b i t w g e =
    (depart t, ground (arith, get_elem?-set_self a.tickets i t (depart t) g), refl)
leave_place_at waiting a b i t w g e = elim (Option-cases (take_out a.line t.cls i)) [
  | inl x ↦ absurd (ground arith)
  | inr (l, x) ↦ (depart t, ground (arith, get_elem?-set_self a.tickets i t (depart t) g), refl)
]

leave_dispatches :
    (a b : Admission) (i : ℕ) (t : Ticket)
    → get_elem? a.tickets i ≡ some t
    → t.state ≢ left
    → leave_place t.state a i t ≡ some b
    → IsSound b
    → SameLimits a b
    → Left (leave a i) a i
leave_dispatches a b i t g n e v f =
    let (u, h, gone) = leave_place_at t.state a b i t refl g e in
    let (c, y, s, z, gr, f') = dispatch_total b v in
    (
      c,
      leave_step a b i t g e ∙ (dispatch_unless_left_lem t.state b n ∙ y),
      s,
      z,
      SameLimits-trans f f',
      (u, ground (arith, gr.at i u h), gone),
    )

pub leave-left :
    (a : Admission) (i : ℕ) (t : Ticket)
    → get_elem? a.tickets i ≡ some t
    → t.state ≡ left
    → leave a i ≡ some a
unfolding leave leave_place
leave-left a i t g e = rw (g, leave) (rw e refl)

-- From sound counters with no waiting ticket that has room: `leave` of any ticket raises
-- nothing, ends, keeps the counters exact and the caps, leaves no waiting ticket with room and
-- the ticket itself out.
pub leave_total :
    (a : Admission) (i : ℕ) (t : Ticket)
    → IsSound a
    → IsSettled a
    → get_elem? a.tickets i ≡ some t
    → Left (leave a i) a i
leave_total a i t v z g =
    let (b, e, s, f) = leave_place-IsSound a i t g t.state refl v in
    elim (TicketState-cases t.state) [
      | inl gone ↦ (a, ground (arith, leave-left a i t g gone), v, z, same a, (t, g, gone))
      | inr n ↦ leave_dispatches a b i t g n e s f
    ]
