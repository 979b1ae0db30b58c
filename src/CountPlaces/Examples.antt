-- ===== src/CountPlaces/Examples.antt =====
-- Runs of `CountPlaces` on a small configuration, and the theorems at them.
use simple_serving.Prelude.{
  ℕ, ◌≤◌, Option, none, some, [], ◌∷◌, ◌≡◌, refl, ◌↔◌, map, count, get_elem?,
}
use simple_serving.Errors.{ok, err, queue_full}
use simple_serving.Config.{ServiceClass, reader, internal, external}
use simple_serving.Samples.{small}
use simple_serving.Line.{
  waiting, active, left, Ticket, ticket, grant, depart, add, take_out, in_order, size,
}
use simple_serving.CountPlaces.{
  CountPlaces, init, run, enter, first_in_line, next_count, admit, fill_loop, fill, give_up, leave,
}
use simple_serving.CountPlaces.Invariant.{here_for}
use simple_serving.CountPlaces.Filling.{CountLeft, count_leave_total}
use simple_serving.CountPlaces.Runs.{
  enters, Reach, here, next, running_tickets, count-enter_refused, Reach-Kept, Reach-caps,
}

abbrev entered : CountPlaces → ServiceClass → Option ℕ → CountPlaces
entered p cls owner = elim (enter p cls owner) [ ok r ↦ r.0 | err _ ↦ p ]

abbrev departed : CountPlaces → ℕ → CountPlaces
departed p i = elim (leave p i) [ some q ↦ q | none ↦ p ]

abbrev one : CountPlaces
one = entered (init small) external (some 29)

abbrev two : CountPlaces
two = entered one internal none

abbrev three : CountPlaces
three = entered two reader none

-- The reader passes the internal count that arrived before it.
states-departed :
    map (λ (t : Ticket). t.state) (departed three 0).tickets ≡ left ∷ waiting ∷ active ∷ []
unfolding init enter run ticket grant add leave give_up depart fill fill_loop next_count
    first_in_line in_order admit take_out size
states-departed = refl

Reach-three : Reach (init small) three
unfolding init enter run ticket grant add
Reach-three =
    next {q = two}
      (next {q = one} (next here (enters external (some 29) 0 refl)) (enters internal none 1 refl))
      (enters reader none 2 refl)

Reach-caps_example :
    (running_tickets three.tickets ≤ 1)
    × ((k : ℕ) → count (here_for k) three.tickets ≤ 1)
    × ((i : ℕ) (t : Ticket)
        → get_elem? three.tickets i ≡ some t
        → t.state ≡ waiting
        → running_tickets three.tickets ≡ 1)
Reach-caps_example = Reach-caps small {p = three} Reach-three

count_leave_total_example : CountLeft (leave three 0) three 0
unfolding init enter run ticket grant add
count_leave_total_example =
    count_leave_total three 0 (grant (ticket external (some 29))) (Reach-Kept small Reach-three).0
      (Reach-Kept small Reach-three).1 refl

count-enter_refused_example : (enter three external (some 29) ≡ err queue_full) ↔ (
    (queue_full ≡ queue_full)
    × ((o : ℕ) × (some 29 ≡ some o) × (count (here_for o) three.tickets ≡ three.per_key)))
count-enter_refused_example =
    count-enter_refused three external (some 29) queue_full (Reach-Kept small Reach-three).0
