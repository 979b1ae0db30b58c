-- ===== src/Inference/Total.antt =====
-- No call of a work raises an unexpected exception.
use simple_serving.Prelude.{ℕ, ◌≡◌, refl, ◌⊎◌, inl, inr, Bool, true, Option, some, get_elem?}
use simple_serving.Config.{Config}
use simple_serving.Work.{StopReason}
use simple_serving.Inference.{TextWork, Places}
use simple_serving.Inference.Stop.{stop_work}
use simple_serving.Inference.Steps.{
  System, start, after_turn, Event, is_ready, resume, move, stops, moves, Reach, next,
}
use simple_serving.Inference.Runs.{Reach-IsKept, move_total, stops_total}

-- An event that resumes a work, or a stop of it from outside.
abbrev pub Call : Type 0
Call = Event ⊎ StopReason

-- An event has to be ready; a stop may come at any time.
abbrev pub can_come : Call → Places → TextWork → Bool
can_come (inl e) p w = is_ready e p w
can_come (inr reason) p w = true

abbrev pub take_call : Call → Places → TextWork → Option (Places × TextWork)
take_call (inl e) p w = resume e p w
take_call (inr reason) p w = stop_work reason p w

abbrev pub Goes : Config → System → ℕ → Call → TextWork → Type 0
Goes c s k call w =
    (turn : Places × TextWork) × (take_call call s.places w ≡ some turn)
    × Reach (start c) (after_turn s k turn)

-- In every reachable state, whatever event is ready at a work, and whatever reason a work is stopped
-- for whether an event is ready there or not: the code runs on without an unexpected exception of
-- the lines, and the state after it is reachable.
pub turns_total :
    (c : Config) (s : System) (k : ℕ) (w : TextWork) (call : Call)
    → Reach (start c) s
    → get_elem? s.works k ≡ some w
    → can_come call s.places w ≡ true
    → Goes c s k call w
turns_total c s k w (inl e) r g h =
    let (turn, x, _, _) = move_total c s e k w (Reach-IsKept c r) g h in
    (turn, x, next r (moves (move e k w turn g h x refl)))
turns_total c s k w (inr reason) r g h =
    let (turn, x, _) = stops_total c s reason k w (Reach-IsKept c r) g in
    (turn, x, next r (stops reason k w turn g x refl))
