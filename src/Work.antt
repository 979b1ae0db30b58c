-- ===== src/Work.antt =====
-- simple_serving/inference.py: the part of a request that may be stopped from outside.
use simple_serving.Prelude.{ℕ, Bool, true, false, ◌&&◌, not, Option, none, some, if◌then◌else◌}
use simple_serving.Errors.{Code, timeout, engine_unavailable}

pub data StopReason : Type 0 where
  disconnect timed_out draining engine_changed shutdown : StopReason

-- `_task`: none before the work runs.
pub data Task : Type 0 where
  unstarted running done : Task

-- `name` tells the objects apart. `active` is the property that each kind of work defines, and
-- `outside` is `caller.key.outside`. `cancelled` says that the task's `cancel` was called, and
-- `given_up` that a terminal send in progress was rescheduled to the stop.
pub record Work : Type 0 where
  pub name : ℕ
  pub outside : Bool
  pub task : Task
  pub active : Bool
  pub sending : Bool  -- `_terminal_send` is not None
  pub stop_reason : Option StopReason
  pub cancelled : Bool
  pub given_up : Bool

-- `Work.__init__`, for a name and a key.
unfoldable pub work : ℕ → Bool → Work
work n o = record {
  name = n;
  outside = o;
  task = unstarted;
  active = false;
  sending = false;
  stop_reason = none;
  cancelled = false;
  given_up = false;
}

abbrev pub is_running : Task → Bool
is_running unstarted = false
is_running running = true
is_running done = false

-- The property `waiting`.
unfoldable pub is_waiting : Work → Bool
is_waiting w = is_running w.task && not w.active

-- What a stop does to the task, or to the send of the terminal message once the task is done.
abbrev pub cut : Task → Work → Work
cut unstarted w = w
cut running w = record w { cancelled = true }
cut done w = if w.sending then record w { given_up = true } else w

abbrev pub note_stop : Task → Option StopReason → StopReason → Work → Work
note_stop unstarted old reason w = w
note_stop running none reason w = cut running (record w { stop_reason = some reason })
note_stop done none reason w = cut done (record w { stop_reason = some reason })
note_stop running (some r) reason w = w
note_stop done (some r) reason w = w

-- `stop`
unfoldable pub stop : StopReason → Work → Work
stop reason w = note_stop w.task w.stop_reason reason w

-- `STOP_CODES.get`: what the client of a stopped request is told.
unfoldable pub stop_code : StopReason → Option Code
stop_code disconnect = none
stop_code timed_out = some timeout
stop_code draining = some Code.draining
stop_code engine_changed = some engine_unavailable
stop_code shutdown = none
