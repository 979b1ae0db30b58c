-- ===== src/Inference/Heap.antt =====
-- The slots of a heap of tickets: whether there is a ticket at a position, and whether it has not
-- left. What each operation of the lines does to them.
use simple_serving.Prelude.{
  ℕ, zero, suc, ◌≡◌, ◌≢◌, refl, ◌∙◌, arith, inl, inr, Bool, true, false, Option, none, some, List,
  [], ◌∷◌, ◌++◌, length, get_elem?, set, ◌==◌, if◌then◌else◌, Option-cases, Bool-cases,
}
use simple_serving.Errors.{ok}
use simple_serving.Config.{ServiceClass}
use simple_serving.Line.{
  Ticket, TicketState, waiting, active, left, ticket, grant, depart, take_out,
}
use simple_serving.Admission.{Admission, has_room, leave_place}
use simple_serving.Admission.Invariant.{IsSound, IsSettled}
use simple_serving.Admission.Entered.{enter_accepted}
use simple_serving.Admission.Leave.{leave_place-IsSound}
use simple_serving.Admission.Dispatch.{
  Grants, dispatch_total, leave_step, leave-left, dispatch_unless_left_lem, TicketState-cases,
}
use simple_serving.CountPlaces.Invariant.{is_here}
use simple_serving.Admission as Generations

abbrev pub slot_of : Option Ticket → Option Bool
slot_of none = none
slot_of (some t) = some (is_here t.state)

abbrev pub slot : List Ticket → ℕ → Option Bool
slot ts i = slot_of (get_elem? ts i)

abbrev pub put {ℓ} : {A : Type ℓ} → ℕ → A → (ℕ → A) → ℕ → A
put i x f j = if j == i then x else f j

pub put_self {ℓ} : {A : Type ℓ} (i : ℕ) (x : A) (f : ℕ → A) → put i x f i ≡ x
put_self i x f = ground arith

pub slot-set :
    (ts : List Ticket) (i j : ℕ) (t u : Ticket)
    → get_elem? ts i ≡ some t
    → slot (set ts i u) j ≡ put i (some (is_here u.state)) (slot ts) j
slot-set [] i j t u h = absurd (ground arith)
slot-set (x ∷ ts) zero zero t u h = refl
slot-set (x ∷ ts) zero (suc j) t u h = ground arith
slot-set (x ∷ ts) (suc i) zero t u h = ground arith
slot-set (x ∷ ts) (suc i) (suc j) t u h = ground (arith, slot-set ts i j t u h)

pub slot-append :
    (ts : List Ticket) (u : Ticket) (j : ℕ)
    → slot (ts ++ u ∷ []) j ≡ put (length ts) (some (is_here u.state)) (slot ts) j
slot-append [] u zero = refl
slot-append [] u (suc j) = ground arith
slot-append (x ∷ ts) u zero = ground arith
slot-append (x ∷ ts) u (suc j) = ground (arith, slot-append ts u j)

pub slot-length : (ts : List Ticket) → slot ts (length ts) ≡ none
slot-length [] = refl
slot-length (x ∷ ts) = slot-length ts

-- A ticket whose state stays, or waits and becomes active, has the slot that it had.
pub slot-set_same :
    (ts : List Ticket) (i j : ℕ) (t u : Ticket)
    → get_elem? ts i ≡ some t
    → is_here u.state ≡ is_here t.state
    → slot (set ts i u) j ≡ slot ts j
slot-set_same ts i j t u g e = ground (arith, slot-set ts i j t u g)

Grants-slot : {a b : Admission} → Grants a b → (j : ℕ) → slot b.tickets j ≡ slot a.tickets j
unfolding grant
Grants-slot {a} {b} g j = elim (Option-cases (get_elem? a.tickets j)) [
  | inl e ↦ elim (Option-cases (get_elem? b.tickets j)) [
    | inl f ↦ ground arith
    | inr (x, f) ↦ absurd (ground (arith, g.back j x f))
  ]
  | inr (t, e) ↦ ground (arith, g.at j t e)
]

leave_place-slot :
    (s : TicketState) (a b : Admission) (i : ℕ) (t : Ticket)
    → get_elem? a.tickets i ≡ some t
    → s ≢ left
    → leave_place s a i t ≡ some b
    → (j : ℕ) → slot b.tickets j ≡ put i (some false) (slot a.tickets) j
unfolding leave_place depart
leave_place-slot left a b i t g n e j = absurd (n refl)
leave_place-slot active a b i t g n e j = ground (arith, slot-set a.tickets i j t (depart t) g)
leave_place-slot waiting a b i t g n e j = elim (Option-cases (take_out a.line t.cls i)) [
  | inl x ↦ absurd (ground arith)
  | inr (l, x) ↦ ground (arith, slot-set a.tickets i j t (depart t) g)
]

-- `leave` empties the slot of its ticket and no other.
pub leave-slot :
    (a b : Admission) (i : ℕ) (t : Ticket)
    → IsSound a
    → get_elem? a.tickets i ≡ some t
    → Generations.leave a i ≡ some b
    → (j : ℕ) → slot b.tickets j ≡ put i (some false) (slot a.tickets) j
leave-slot a b i t v g e j = elim (TicketState-cases t.state) [
  | inl gone ↦ ground (arith, leave-left a i t g gone)
  | inr n ↦
      let (c, y, s, _) = leave_place-IsSound a i t g t.state refl v in
      let (d, z, _, _, gr, _) = dispatch_total c s in
      let same : b ≡ d =
        ground (arith, leave_step a c i t g y, dispatch_unless_left_lem t.state c n) in
      rw same (Grants-slot gr j ∙ leave_place-slot t.state a c i t g n y j)
]

-- `enter` gives its ticket the first free position.
pub enter-slot :
    (a b : Admission) (cls : ServiceClass) (owner : Option ℕ) (i : ℕ)
    → IsSound a
    → IsSettled a
    → Generations.enter a cls owner ≡ ok (b, i)
    → (slot a.tickets i ≡ none)
      × ((j : ℕ) → slot b.tickets j ≡ put i (some true) (slot a.tickets) j)
unfolding ticket grant
enter-slot a b cls owner i v z e =
    let (_, _, _, at, s) = enter_accepted a b cls owner i v z e in
    (
      rw at (slot-length a.tickets),
      λ j. elim (Bool-cases (has_room a (ticket cls owner))) [
        | inl r ↦ ground (arith, slot-append a.tickets (grant (ticket cls owner)) j)
        | inr r ↦ ground (arith, slot-append a.tickets (ticket cls owner) j)
      ],
    )
