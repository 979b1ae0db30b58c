-- ===== src/Inference.antt =====
-- simple_serving/inference.py: the works of the text lane, a count or a generation from its start to
-- its cleanup, over the places that all of them share.
-- A task is resumed at an await: an event names what has come, `is_ready` says whether it can come, and
-- `resume` runs the task to its next await. What the client is sent is in the model of the relay.
-- `none` is an unexpected exception of a line, as in the models of the lines. A future that is done
-- already is awaited in a turn of its own, where the event loop goes on at once. The cleanup is one
-- turn: it touches no place before the engine's stream is closed.
pub mod Heap
pub mod CountHeap
pub mod Owned
pub mod Effects
pub mod Stop
pub mod Steps
pub mod Fit
pub mod Keeps
pub mod Endings
pub mod Turns
pub mod Stops
pub mod Runs
pub mod Idle
pub mod Busy
pub mod Progress
pub mod Ends
pub mod Told
pub mod Total
mod Schedule
mod Examples
use simple_serving.Prelude.{
  ℕ, zero, suc, ◌+◌, ◌*◌, Bool, true, false, ◌&&◌, ◌||◌, not, Option, none, some, List, [], ◌∷◌,
  ◌++◌, if◌then◌else◌, get_elem?, set, ◌>>=◌, ◌≡◌,
}
use simple_serving.Errors.{Code, Result, ok, err, internal_error}
use simple_serving.Config.{ServiceClass, Key}
use simple_serving.Policy.{Caller, outside_key}
use simple_serving.Chat.{ChatRequest}
use simple_serving.Line.{Ticket, Future, pending, resolved, cancelled, is_active, is_waiting}
use simple_serving.Admission.{Admission}
use simple_serving.CountPlaces.{CountPlaces}
use simple_serving.Admission as Generations
use simple_serving.CountPlaces as Counts
use simple_serving.Admission.Runs as GenerationRuns
use simple_serving.CountPlaces.Runs as CountRuns
use simple_serving.Work.{Work, StopReason, Task, running, done, is_running, stop, stop_code}
use simple_serving.TextLane.{Service, Kind, count, generation, check_input}
use simple_serving.Delta.{unavailable}
use simple_serving.Stream.{Usage, init}
use simple_serving.Relay.{Feed, relay}

-- How a task ended: its result, a `ServiceError`, a `CancelledError` or another exception.
pub data Outcome : Type 0 where
  ended_well cut_off crashed : Outcome
  failed : Code → Outcome

-- The await that the task of a work stands at; `released` is after the cleanup.
pub data Phase : Type 0 where
  created awaits_count_place counts awaits_place generates relays : Phase
  ended released : Outcome → Phase

-- The attributes of `Work`, `TextWork`, `Count` and `Generation` that decide what is done next. The
-- property `active` is `is_active_work`, and the field `active` of `work` is not read here.
pub record TextWork : Type 0 where
  pub kind : Kind
  pub caller : Caller
  pub request : ChatRequest
  pub work : Work
  pub phase : Phase
  pub count_place : Option ℕ
  pub ticket : Option ℕ
  pub stream : Bool  -- whether the engine's answer is open
  pub input_tokens : Option ℕ
  pub usage : Option Usage

-- `__init__`, and the start of the task by `_run`.
unfoldable pub text_work : Kind → Caller → ChatRequest → Work → TextWork
text_work kind caller request work = record {
  kind = kind;
  caller = caller;
  request = request;
  work = record work { task = running; stop_reason = none; cancelled = false };
  phase = created;
  count_place = none;
  ticket = none;
  stream = false;
  input_tokens = none;
  usage = none;
}

-- What all the works share.
pub record Places : Type 0 where
  pub admission : Admission
  pub count_places : CountPlaces

-- A key's digest is what the lines know an outside key by.
abbrev pub owner_of : Option Key → Option ℕ
owner_of none = none
owner_of (some key) = some key.digest

abbrev pub owner : TextWork → Option ℕ
owner w = owner_of (outside_key w.caller)

abbrev pub active_at : List Ticket → Option ℕ → Bool
active_at ts none = false
active_at ts (some i) = elim (get_elem? ts i) [ none ↦ false | some t ↦ is_active t.state ]

-- The property `active` of `Count` and of `Generation`.
unfoldable pub is_active_work : Places → TextWork → Bool
is_active_work p w = elim w.kind [
  | count ↦ active_at p.count_places.tickets w.count_place
  | generation ↦ active_at p.admission.tickets w.ticket
]

-- The task ends.
abbrev pub finish : Outcome → TextWork → TextWork
finish outcome w = record w { phase = ended outcome; work = record w.work { task = done } }

-- `count` up to its first await.
abbrev pub with_count_place : Places → TextWork → Result (CountPlaces × ℕ) → Places × TextWork
with_count_place p w (err code) = (p, finish (failed code) w)
with_count_place p w (ok (places, i)) = (
  record p { count_places = places },
  record w { count_place = some i; phase = awaits_count_place },
)

unfoldable pub enter_count : Places → TextWork → Places × TextWork
enter_count p w = with_count_place p w (Counts.enter p.count_places w.caller.cls (owner w))

-- The `finally` of `count`.
abbrev pub leave_count_at : Places → Option ℕ → Option Places
leave_count_at p none = none
leave_count_at p (some i) = do
  places ← Counts.leave p.count_places i
  some (record p { count_places = places })

-- `Generation.run` from the checked count to its next await.
abbrev pub with_ticket : Places → TextWork → Result (Admission × ℕ) → Places × TextWork
with_ticket p w (err code) = (p, finish (failed code) w)
with_ticket p w (ok (admission, i)) =
    (record p { admission = admission }, record w { ticket = some i; phase = awaits_place })

abbrev pub if_fits : Places → TextWork → Result (Unit {0}) → Places × TextWork
if_fits p w (err code) = (p, finish (failed code) w)
if_fits p w (ok _) = with_ticket p w (Generations.enter p.admission w.caller.cls (owner w))

-- What follows the count: `Count.run` ends, and `Generation.run` checks the input and enters.
abbrev pub with_count : Kind → Service → ℕ → Places → TextWork → Places × TextWork
with_count count s n p w = (p, finish ended_well (record w { input_tokens = some n }))
with_count generation s n p w =
    if_fits p (record w { input_tokens = some n }) (check_input s w.caller n w.request.max_tokens)

abbrev pub after_count : Service → Result ℕ → Places → TextWork → Places × TextWork
after_count s (err code) p w = (p, finish (failed code) w)
after_count s (ok n) p w = with_count w.kind s n p w

-- The engine's answer to the count: `finally` first, and then what follows.
unfoldable pub counted : Service → Result ℕ → Places → TextWork → Option (Places × TextWork)
counted s answer p w = leave_count_at p w.count_place >>= λ q. some (after_count s answer q w)

-- The engine's answer to `generate`.
abbrev pub with_stream : Result (Unit {0}) → TextWork → TextWork
with_stream (err code) w = finish (failed code) w
with_stream (ok _) w = record w { stream = true; phase = relays }

abbrev pub with_end : Result Usage → TextWork → TextWork
with_end (err code) w = finish (failed code) w
with_end (ok u) w = finish ended_well (record w { usage = some u })

-- An exception is raised at the await: in a count its `finally` runs.
abbrev pub raised_at : Phase → Outcome → Places → TextWork → Option (Places × TextWork)
raised_at awaits_count_place o p w = leave_count_at p w.count_place >>= λ q. some (q, finish o w)
raised_at counts o p w = leave_count_at p w.count_place >>= λ q. some (q, finish o w)
raised_at _ o p w = some (p, finish o w)

-- `Generation.cleanup`, which does nothing for a count: it has no stream and no ticket.
abbrev pub leave_ticket_at : Places → Option ℕ → Option Places
leave_ticket_at p none = some p
leave_ticket_at p (some i) = do
  admission ← Generations.leave p.admission i
  some (record p { admission = admission })

abbrev pub cleaned : Phase → Phase
cleaned (ended o) = released o
cleaned other = other

unfoldable pub cleanup : Places → TextWork → Option (Places × TextWork)
cleanup p w = do
  q ← leave_ticket_at p w.ticket
  some (q, record w { stream = false; phase = cleaned w.phase })
