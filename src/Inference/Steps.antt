-- ===== src/Inference/Steps.antt =====
-- The events that resume a task, and the runs of all the works: requests arrive, works are stopped
-- from outside, and tasks are resumed, in any order.
use simple_serving.Prelude.{
  ℕ, suc, Bool, true, false, ◌&&◌, not, Option, some, List, [], ◌∷◌, ◌++◌, Text, get_elem?, set,
  ◌≡◌,
}
use simple_serving.Errors.{Result}
use simple_serving.Config.{Config}
use simple_serving.Policy.{Caller}
use simple_serving.Chat.{ChatRequest}
use simple_serving.Work.{Work, StopReason}
use simple_serving.TextLane.{Service, Kind}
use simple_serving.Stream.{init}
use simple_serving.Relay.{Feed, relay}
use simple_serving.Inference.{
  TextWork, text_work, Places, Phase, created, awaits_count_place, counts, awaits_place, generates,
  relays, ended, released, cut_off, crashed, active_at, enter_count, counted, with_stream, with_end,
  raised_at, cleanup,
}
use simple_serving.Inference.Stop.{stop_work}
use simple_serving.Admission as Generations
use simple_serving.CountPlaces as Counts

-- What a task, or `_run` after it, is resumed with. `breaks` is an exception that is no
-- `ServiceError`, and the end of a stream comes with the new answer's id, time and model.
pub data Event : Type 0 where
  begins count_place_granted place_granted cancel_arrives breaks cleans : Event
  count_answered : Service → Result ℕ → Event
  generate_answered : Result (Unit {0}) → Event
  stream_ended : Text → ℕ → Text → Feed → Event

-- Whether the event can come in that phase. `granted` tells whether the awaited place is given.
abbrev pub fits : Event → Phase → Bool → Bool
fits begins created granted = true
fits count_place_granted awaits_count_place granted = granted
fits (count_answered s r) counts granted = true
fits place_granted awaits_place granted = granted
fits (generate_answered r) generates granted = true
fits (stream_ended id now alias feed) relays granted = true
fits breaks counts granted = true
fits breaks generates granted = true
fits breaks relays granted = true
fits _ _ granted = false

abbrev pub is_awaiting : Phase → Bool
is_awaiting (ended o) = false
is_awaiting (released o) = false
is_awaiting _ = true

abbrev pub is_ended : Phase → Bool
is_ended (ended o) = true
is_ended _ = false

abbrev pub is_granted : Phase → Places → TextWork → Bool
is_granted awaits_count_place p w = active_at p.count_places.tickets w.count_place
is_granted awaits_place p w = active_at p.admission.tickets w.ticket
is_granted _ p w = false

-- After `cancel` a task is resumed only by the `CancelledError`, which comes at any await.
unfoldable pub is_ready : Event → Places → TextWork → Bool
is_ready cancel_arrives p w = is_awaiting w.phase && w.work.cancelled
is_ready cleans p w = is_ended w.phase
is_ready e p w = fits e w.phase (is_granted w.phase p w) && not w.work.cancelled

unfoldable pub resume : Event → Places → TextWork → Option (Places × TextWork)
resume begins p w = some (enter_count p w)
resume count_place_granted p w = some (p, record w { phase = counts })
resume (count_answered s r) p w = counted s r p w
resume place_granted p w = some (p, record w { phase = generates })
resume (generate_answered r) p w = some (p, with_stream r w)
resume (stream_ended id now alias feed) p w =
    some (p, with_end (relay feed (init id now alias)).1.1 w)
resume cancel_arrives p w = raised_at w.phase cut_off p w
resume breaks p w = raised_at w.phase crashed p w
resume cleans p w = cleanup p w

pub record System : Type 0 where
  pub places : Places
  pub works : List TextWork

abbrev pub start : Config → System
start c = record {
  places = record { admission = Generations.init c; count_places = Counts.init c };
  works = [];
}

-- The state after a turn of the work at `i`.
abbrev pub after_turn : System → ℕ → Places × TextWork → System
after_turn s i turn = record { places = turn.0; works = set s.works i turn.1 }

-- A task is resumed.
pub data Move (s : System) (t : System) : Type 0 where
  move :
      (e : Event) (i : ℕ) (w : TextWork) (turn : Places × TextWork)
      → get_elem? s.works i ≡ some w
      → is_ready e s.places w ≡ true
      → resume e s.places w ≡ some turn
      → t ≡ after_turn s i turn
      → Move s t

pub data Step (s : System) (t : System) : Type 0 where
  arrives :
      (kind : Kind) (caller : Caller) (request : ChatRequest) (work : Work)
      → t ≡ record s { works = s.works ++ text_work kind caller request work ∷ [] }
      → Step s t
  stops :
      (reason : StopReason) (i : ℕ) (w : TextWork) (turn : Places × TextWork)
      → get_elem? s.works i ≡ some w
      → stop_work reason s.places w ≡ some turn
      → t ≡ after_turn s i turn
      → Step s t
  moves : Move s t → Step s t

pub data Reach (s : System) : System → Type 0 where
  here : Reach s s
  next : {t u : System} → Reach s t → Step t u → Reach s u

-- A number of resumed tasks.
pub data Moves (s : System) : ℕ → System → Type 0 where
  none_left : Moves s 0 s
  one_more : {n : ℕ} {t u : System} → Moves s n t → Move t u → Moves s (suc n) u
