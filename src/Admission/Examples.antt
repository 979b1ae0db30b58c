-- ===== src/Admission/Examples.antt =====
-- Runs of `Admission` on a small configuration, and the theorems at them.
use simple_serving.Prelude.{
  ℕ, Option, none, some, List, [], ◌∷◌, ◌≡◌, refl, subst, arith, map, get_elem?, false, ◌≤◌, ◌⊎◌,
  ◌<◌,
}
use simple_serving.Errors.{ok, err, queue_full}
use simple_serving.Config.{ServiceClass, reader, agent, internal, external, rank}
use simple_serving.Samples.{small}
use simple_serving.Line.{
  TicketState, waiting, active, left, Ticket, ticket, grant, depart, take_out, counts, size,
  in_order, add,
}
use simple_serving.Admission.{
  Admission, init, has_room, activate, enter, room_at, next_ticket, admit, dispatch_loop, dispatch,
  leave_place, leave,
}
use simple_serving.Admission.Invariant.{IsSound, IsSettled}
use simple_serving.Admission.Entered.{Entered, enter_accepted, enter_refused}
use simple_serving.Admission.Dispatch.{Dispatched, dispatch_total, Left, leave_total}
use simple_serving.Admission.Leave.{leave_place-IsSound}
use simple_serving.Admission.Order.{dispatch_serves_first}
use simple_serving.Admission.Runs.{
  enters, Reach, here, next, Reach-IsSound, HeapCaps, Reach-HeapCaps,
}
use simple_serving.Admission.Wakes.{AllInStep, Reach-InStep}

-- The state after a call, or the state before one that fails.
abbrev entered : Admission → ServiceClass → Option ℕ → Admission
entered a cls owner = elim (enter a cls owner) [ ok r ↦ r.0 | err _ ↦ a ]

abbrev departed : Admission → ℕ → Admission
departed a i = elim (leave a i) [ some b ↦ b | none ↦ a ]

-- A reader is active; an agent holds the shared place; an internal and an outside request wait.
abbrev one : Admission
one = entered (init small) reader none

abbrev two : Admission
two = entered one agent none

abbrev three : Admission
three = entered two external (some 29)

abbrev four : Admission
four = entered three internal none

abbrev states : Admission → List TicketState
states a = map (λ t. t.state) a.tickets

states-four : states four ≡ active ∷ active ∷ waiting ∷ waiting ∷ []
unfolding init enter has_room activate ticket grant add counts
states-four = refl

-- The shared place goes to the internal request, which arrived after the outside one.
states-departed : states (departed four 1) ≡ active ∷ left ∷ waiting ∷ active ∷ []
unfolding init enter has_room activate ticket grant add counts leave leave_place depart dispatch
    dispatch_loop next_ticket room_at in_order admit take_out size
states-departed = refl

Reach-four : Reach (init small) four
unfolding init enter has_room activate ticket grant add counts
Reach-four =
    next {b = three}
      (next {b = two}
        (next {b = one} (next here (enters reader none 0 refl)) (enters agent none 1 refl))
        (enters external (some 29) 2 refl))
      (enters internal none 3 refl)

IsSound-four : IsSound four
IsSound-four = (Reach-IsSound small Reach-four).0

IsSettled-four : IsSettled four
IsSettled-four = (Reach-IsSound small Reach-four).1

Reach-HeapCaps_example : HeapCaps small four.tickets
Reach-HeapCaps_example = Reach-HeapCaps small {a = four} Reach-four

Reach-InStep_example : AllInStep four
Reach-InStep_example = Reach-InStep small {a = four} Reach-four

enter_accepted_example : Entered three internal none four 3
unfolding init enter has_room activate ticket grant add counts
enter_accepted_example =
    enter_accepted three four internal none 3 (Reach-IsSound small Reach-three).0
      (Reach-IsSound small Reach-three).1 refl
  where
    Reach-three : Reach (init small) three
    Reach-three =
        next {b = two}
          (next {b = one} (next here (enters reader none 0 refl)) (enters agent none 1 refl))
          (enters external (some 29) 2 refl)

-- The outside key already has a request in line.
enter_refused_example :
    (queue_full ≡ queue_full)
    × (has_room four (ticket external (some 29)) ≡ false)
    × ((counts four.line external ≡ 1)
        ⊎ ((o : ℕ) × (some 29 ≡ some o) × (four.owner_waiting o ≡ 1)))
unfolding init enter has_room activate ticket grant add counts
enter_refused_example = enter_refused four external (some 29) queue_full IsSound-four refl

leave_total_example : Left (leave four 1) four 1
unfolding init enter has_room activate ticket grant add counts
leave_total_example =
    leave_total four 1 (grant (ticket agent none)) IsSound-four IsSettled-four refl

-- The agent has given up the shared place, and the dispatch is still to come.
abbrev freed : Admission
freed = elim (leave_place active four 1 (grant (ticket agent none))) [ some b ↦ b | none ↦ four ]

IsSound-freed : IsSound freed
unfolding init enter has_room activate ticket grant add counts leave_place depart
IsSound-freed =
    let (b, e, s, _) =
      leave_place-IsSound four 1 (grant (ticket agent none)) refl active refl IsSound-four in
    let same : b ≡ freed = ground arith in subst IsSound same s

dispatch_total_example : Dispatched (dispatch freed) freed
dispatch_total_example = dispatch_total freed IsSound-freed

dispatch_serves_first_example :
    (i : ℕ) × (t : Ticket) × (get_elem? freed.tickets i ≡ some t)
    × (t.state ≡ waiting)
    × (get_elem? (departed four 1).tickets i ≡ some (grant t))
    × ((rank t.cls < rank external) ⊎ ((t.cls ≡ external) × (i ≤ 2)))
unfolding init enter has_room activate ticket grant add counts leave leave_place depart dispatch
    dispatch_loop next_ticket room_at in_order admit take_out size
dispatch_serves_first_example =
    dispatch_serves_first freed (departed four 1) 2 (ticket external (some 29)) IsSound-freed refl
      refl refl refl
