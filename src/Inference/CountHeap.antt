-- ===== src/Inference/CountHeap.antt =====
-- What the operations of `CountPlaces` do to the slots of their heap.
use simple_serving.Prelude.{
  ℕ, zero, suc, ◌≡◌, ◌≢◌, refl, sym, ◌∙◌, arith, inl, inr, true, false, Option, none, some,
  get_elem?, set-append_last, Option-cases,
}
use simple_serving.Errors.{ok}
use simple_serving.Config.{ServiceClass}
use simple_serving.Line.{
  Ticket, TicketState, waiting, active, left, ticket, grant, depart, take_out, size,
}
use simple_serving.CountPlaces.{
  CountPlaces, enter, leave, admit, run, next_count, fill_loop, fill, give_up,
}
use simple_serving.CountPlaces.Invariant.{IsSound}
use simple_serving.CountPlaces.Steps.{admit-IsSound, give_up-IsSound}
use simple_serving.CountPlaces.Filling.{
  next_count-some, fill_loop_stop, fill_loop_step, left_cases, leave-left, leave_step,
  fill_unless_left_lem,
}
use simple_serving.CountPlaces.Runs.{enter_cases, pair_of_ok, new_running, new_waiting}
use simple_serving.Inference.Heap.{slot, put, slot-set, slot-set_same, slot-append, slot-length}

admit-slot :
    (p q : CountPlaces) (i j : ℕ) (t : Ticket)
    → get_elem? p.tickets i ≡ some t
    → t.state ≡ waiting
    → admit p i ≡ some q
    → slot q.tickets j ≡ slot p.tickets j
unfolding admit run grant
admit-slot p q i j t g w e = elim (Option-cases (take_out p.line t.cls i)) [
  | inl x ↦ absurd (ground arith)
  | inr (l, x) ↦ ground (arith, slot-set_same p.tickets i j t (grant t) g)
]

fill_loop-slot :
    (fuel : ℕ) (p q : CountPlaces)
    → IsSound p
    → fill_loop fuel p ≡ some q
    → (j : ℕ) → slot q.tickets j ≡ slot p.tickets j
unfolding fill_loop
fill_loop-slot zero p q v e j = absurd (ground arith)
fill_loop-slot (suc fuel) p q v e j = elim (Option-cases (next_count p)) [
  | inl x ↦ ground (arith, fill_loop_stop fuel p x)
  | inr (i, x) ↦
      let (t, g, w, r) = next_count-some p i v.counted x in
      let (b, y, s, _, _) = admit-IsSound p i t g w r v in
      fill_loop-slot fuel b q s (sym (fill_loop_step fuel p b i x y) ∙ e) j
      ∙ admit-slot p b i j t g w y
]

give_up-slot :
    (s : TicketState) (p q : CountPlaces) (i : ℕ) (t : Ticket)
    → get_elem? p.tickets i ≡ some t
    → s ≢ left
    → give_up s p i t ≡ some q
    → (j : ℕ) → slot q.tickets j ≡ put i (some false) (slot p.tickets) j
unfolding give_up depart
give_up-slot left p q i t g n e j = absurd (n refl)
give_up-slot active p q i t g n e j = ground (arith, slot-set p.tickets i j t (depart t) g)
give_up-slot waiting p q i t g n e j = elim (Option-cases (take_out p.line t.cls i)) [
  | inl x ↦ absurd (ground arith)
  | inr (l, x) ↦ ground (arith, slot-set p.tickets i j t (depart t) g)
]

-- `leave` empties the slot of its ticket and no other.
pub count-leave-slot :
    (p q : CountPlaces) (i : ℕ) (t : Ticket)
    → IsSound p
    → get_elem? p.tickets i ≡ some t
    → leave p i ≡ some q
    → (j : ℕ) → slot q.tickets j ≡ put i (some false) (slot p.tickets) j
unfolding fill
count-leave-slot p q i t v g e j = elim (left_cases t.state) [
  | inl gone ↦ ground (arith, leave-left p i t g gone)
  | inr n ↦
      let (b, y, s, _) = give_up-IsSound p i t g t.state refl v in
      let filled : fill b ≡ some q =
        sym (leave_step p b i t g y ∙ fill_unless_left_lem t.state b n) ∙ e in
      fill_loop-slot (suc (size b.line)) b q s filled j ∙ give_up-slot t.state p b i t g n y j
]

-- `enter` gives its ticket the first free position.
pub count-enter-slot :
    (p q : CountPlaces) (cls : ServiceClass) (owner : Option ℕ) (i : ℕ)
    → enter p cls owner ≡ ok (q, i)
    → (slot p.tickets i ≡ none)
      × ((j : ℕ) → slot q.tickets j ≡ put i (some true) (slot p.tickets) j)
unfolding new_running new_waiting ticket grant run
count-enter-slot p q cls owner i h = elim (enter_cases p cls owner) [
  | inl (o, e) ↦ absurd (ground arith)
  | inr (inl (o, r, e)) ↦
      let (same, at) = pair_of_ok (sym e ∙ h) in
      rw (← same, ← at)
        (
          slot-length p.tickets,
          λ j.
              rw (set-append_last p.tickets (ticket cls owner) (grant (ticket cls owner)))
                (slot-append p.tickets (grant (ticket cls owner)) j),
        )
  | inr (inr (o, r, e)) ↦
      let (same, at) = pair_of_ok (sym e ∙ h) in
      rw (← same, ← at) (slot-length p.tickets, λ j. slot-append p.tickets (ticket cls owner) j)
]
