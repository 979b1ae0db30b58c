-- ===== src/Inference/Examples.antt =====
-- Two generations and a count of one key over a small configuration, and the theorems at them.
use simple_serving.Prelude.{
  inr, ℕ, ◌*◌, ◌≤◌, ◌≡◌, ◌≢◌, refl, true, false, none, some, List, [], ◌∷◌, map, length, codes,
  ◌++◌, get_elem?,
}
use simple_serving.Errors.{ok}
use simple_serving.Json.{obj}
use simple_serving.Config.{reader, outside}
use simple_serving.Delta.{parts_of}
use simple_serving.Stream.{after_finish, choice, chunks, end_of, is_count, translate, usage_of}
use simple_serving.Stream as Answers
use simple_serving.Admission.Runs as GenerationRuns
use simple_serving.ConfigFile.Examples.{library, file, config, loads, bot}
use simple_serving.Policy.{Caller, outside_key}
use simple_serving.Chat.{ChatRequest}
use simple_serving.Messages.{plain}
use simple_serving.Line.{Ticket, left, ticket, grant, depart, take_out, counts, size, in_order, add}
use simple_serving.Work.{Task, work, disconnect, stop, stop_code}
use simple_serving.TextLane.{Service, Kind, generation, count, check_input}
use simple_serving.TextLane.Examples.{life}
use simple_serving.Relay.Examples.{feed}
use simple_serving.Relay.{relay, relay_loop}
use simple_serving.TextLane as Lane
use simple_serving.Admission as Generations
use simple_serving.CountPlaces as Counts
use simple_serving.Inference.{
  TextWork, text_work, enter_count, counted, cleanup, Places, Phase, released, ended_well, cut_off,
}
use simple_serving.Inference.Stop.{answer_outcome, stop_work, stopping}
use simple_serving.Inference.Steps.{
  Event, begins, count_place_granted, place_granted, cancel_arrives, cleans, count_answered,
  generate_answered, stream_ended, is_ready, resume, System, start, after_turn, arrives, Reach,
  here, next, none_left,
}
use simple_serving.Inference.Schedule.{play, plays, plays_Reach, plays-Moves}
use simple_serving.Inference.Idle.{Holder, held_by_one}
use simple_serving.Inference.Ends.{EndsOrMoves, works_end}
use simple_serving.Inference.Told.{told, first_stop_told}
use simple_serving.Inference.Total.{Goes, turns_total}

abbrev alice : Caller
alice = record { key = bot; cls = reader; scope = some (codes "reader.alice-0001") }

abbrev request : ChatRequest
request = record {
  messages = record { role = codes "user"; content = plain (codes "Hello") } ∷ [];
  max_tokens = 40;
  sampling = [];
  thinking_token_budget = none;
  response_format = none;
  enable_thinking = true;
  pictures = 0;
}

-- The service once the engine has said its context length.
abbrev service : Service
service = record (Lane.init config life) { context_tokens = some 300 }

abbrev count_turns : ℕ → List (ℕ × Event)
count_turns i = (i, begins) ∷ (i, count_place_granted) ∷ (i, count_answered service (ok 10)) ∷ []

-- Two generations arrive.
abbrev arrived : System
arrived = record (start config) {
  works =
      text_work generation alice request (work 1 false)
      ∷ text_work generation alice request (work 2 false)
      ∷ [];
}

-- They are counted; the first has the reader's place, and the second waits for it.
abbrev two : System
two = play (count_turns 0 ++ count_turns 1) arrived

-- The first runs to its end, which gives the second its place.
abbrev first_turns : List (ℕ × Event)
first_turns =
    (0, place_granted)
    ∷ (0, generate_answered (ok tt))
    ∷ (0, stream_ended (codes "x") 0 (codes "m") feed)
    ∷ (0, cleans)
    ∷ []

abbrev first_done : System
first_done = play first_turns two

abbrev phases : System → List Phase
phases s = map (λ w. w.phase) s.works

phases-two :
    (plays (count_turns 0 ++ count_turns 1) arrived ≡ true)
    × (phases two ≡ Phase.awaits_place ∷ Phase.awaits_place ∷ [])
unfolding Lane.init is_ready text_work resume enter_count counted cleanup outside_key outside
    Counts.enter Counts.init Counts.run Counts.leave Counts.give_up Counts.fill Counts.fill_loop
    Counts.next_count Counts.admit Counts.first_in_line Generations.init Generations.activate
    Generations.admit Generations.dispatch Generations.dispatch_loop Generations.enter
    Generations.has_room Generations.leave Generations.leave_place Generations.next_ticket
    Generations.room_at ticket grant add counts depart in_order size take_out check_input
phases-two = (refl, refl)

phases-first_done :
    (plays first_turns two ≡ true)
    × (phases first_done ≡ released ended_well ∷ Phase.awaits_place ∷ [])
unfolding Lane.init is_ready text_work resume enter_count counted cleanup outside_key outside
    Counts.enter Counts.init Counts.run Counts.leave Counts.give_up Counts.fill Counts.fill_loop
    Counts.next_count Counts.admit Counts.first_in_line Generations.init Generations.activate
    Generations.admit Generations.dispatch Generations.dispatch_loop Generations.enter
    Generations.has_room Generations.leave Generations.leave_place Generations.next_ticket
    Generations.room_at ticket grant add counts depart in_order size take_out check_input relay
    relay_loop parts_of Answers.init after_finish choice chunks end_of is_count translate usage_of
phases-first_done = (refl, refl)

reach_two : Reach (start config) two
reach_two =
    plays_Reach (count_turns 0 ++ count_turns 1) (start config) arrived
      (next (next here (arrives generation alice request (work 1 false) refl))
        (arrives generation alice request (work 2 false) refl))
      phases-two.0

works_end_example : (4 ≤ 7 * length two.works) × EndsOrMoves first_done
works_end_example =
    works_end library (some (obj file)) config service two first_done 4 loads reach_two
      (plays-Moves first_turns two two 0 none_left phases-first_done.0)

-- The second generation's ticket, which waits.
abbrev second : Ticket
second = ticket reader none

second_waits : (get_elem? two.places.admission.tickets 1 ≡ some second) × (second.state ≢ left)
unfolding Lane.init is_ready text_work resume enter_count counted cleanup outside_key outside
    Counts.enter Counts.init Counts.run Counts.leave Counts.give_up Counts.fill Counts.fill_loop
    Counts.next_count Counts.admit Counts.first_in_line Generations.init Generations.activate
    Generations.admit Generations.dispatch Generations.dispatch_loop Generations.enter
    Generations.has_room Generations.leave Generations.leave_place Generations.next_ticket
    Generations.room_at ticket grant add counts depart in_order size take_out check_input
second_waits = (refl, λ e. cc)

held_by_one_example : (held : Holder two 1) × ((other : Holder two 1) → other.0 ≡ held.0)
held_by_one_example = held_by_one config two 1 second reach_two second_waits.0 second_waits.1

-- The second client leaves while its generation waits.
abbrev work_at : ℕ → System → TextWork
work_at i s = elim (get_elem? s.works i) [
  | none ↦ text_work generation alice request (work 0 false)
  | some w ↦ w
]

abbrev left_turn : Places × TextWork
left_turn = elim (stop_work disconnect two.places (work_at 1 two)) [
  | none ↦ (two.places, work_at 1 two)
  | some turn ↦ turn
]

abbrev client_left : System
client_left = after_turn two 1 left_turn

abbrev left_done : System
left_done = play ((1, cancel_arrives) ∷ (1, cleans) ∷ []) client_left

left_stops :
    (get_elem? two.works 1 ≡ some (work_at 1 two))
    × (stop_work disconnect two.places (work_at 1 two) ≡ some left_turn)
    × ((work_at 1 two).work.task ≡ Task.running)
    × ((work_at 1 two).work.stop_reason ≡ none)
unfolding Lane.init is_ready text_work resume enter_count counted cleanup outside_key outside
    Counts.enter Counts.init Counts.run Counts.leave Counts.give_up Counts.fill Counts.fill_loop
    Counts.next_count Counts.admit Counts.first_in_line Generations.init Generations.activate
    Generations.admit Generations.dispatch Generations.dispatch_loop Generations.enter
    Generations.has_room Generations.leave Generations.leave_place Generations.next_ticket
    Generations.room_at ticket grant add counts depart in_order size take_out check_input stop_work
    stopping stop stop_code answer_outcome GenerationRuns.cancel
left_stops = (refl, refl, refl, refl)

left_plays :
    (plays ((1, cancel_arrives) ∷ (1, cleans) ∷ []) client_left ≡ true)
    × (get_elem? left_done.works 1 ≡ some (work_at 1 left_done))
    × ((work_at 1 left_done).phase ≡ released cut_off)
unfolding Lane.init is_ready text_work resume enter_count counted cleanup outside_key outside
    Counts.enter Counts.init Counts.run Counts.leave Counts.give_up Counts.fill Counts.fill_loop
    Counts.next_count Counts.admit Counts.first_in_line Generations.init Generations.activate
    Generations.admit Generations.dispatch Generations.dispatch_loop Generations.enter
    Generations.has_room Generations.leave Generations.leave_place Generations.next_ticket
    Generations.room_at ticket grant add counts depart in_order size take_out check_input stop_work
    stopping stop stop_code answer_outcome GenerationRuns.cancel
left_plays = (refl, refl, refl)

first_stop_told_example :
    (cut_off ≡ cut_off)
    × (answer_outcome cut_off (work_at 1 left_done).work.stop_reason ≡ told disconnect)
first_stop_told_example =
    first_stop_told config two left_done 1 (work_at 1 two) (work_at 1 left_done) disconnect
      left_turn cut_off reach_two left_stops.0 left_stops.2 left_stops.3 left_stops.1
      (plays_Reach ((1, cancel_arrives) ∷ (1, cleans) ∷ []) client_left client_left here
        left_plays.0)
      left_plays.1 left_plays.2

-- The second generation waits for its place when its client leaves.
turns_total_example : Goes config two 1 (inr disconnect) (work_at 1 two)
turns_total_example =
    turns_total config two 1 (work_at 1 two) (inr disconnect) reach_two left_stops.0 refl
