-- ===== src/Lifecycle.antt =====
-- simple_serving/service.py: `Lifecycle`, the boot, the status, the drain, the sleep and the idle
-- interval of a lane's service. The event loop's time is an argument, a number of one fixed unit;
-- a timer is the time at which it is due. The log's rows are left out.
pub mod Steps
pub mod Flags
pub mod Works
pub mod Drain
pub mod Idle
mod Examples
use simple_serving.Prelude.{
  ℕ, zero, suc, ◌+◌, ◌-◌, ◌≡◌, Bool, true, false, ◌&&◌, ◌||◌, not, Option, none, some, List, [],
  ◌∷◌, map, Text, text_eq, ltb, leb, ◌==◌, if◌then◌else◌,
}
use simple_serving.Errors.{
  Code, Result, ok, err, engine_unavailable, stale_boot, sleep_pending, stale_generation, ◌>>=◌,
  ◌>>◌,
}
use simple_serving.Work.{Work, StopReason, Task, stop, is_waiting}

pub data EngineStatus : Type 0 where
  starting ready failed : EngineStatus

pub data Status : Type 0 where
  starting ready failed draining drained : Status

-- `FORCED_STOP_S`, in seconds.
abbrev pub forced_stop_s : ℕ
forced_stop_s = 120

pub record Lifecycle : Type 0 where
  pub drain_deadline_s : ℕ
  pub idle_timeout_s : ℕ
  pub boot_id : Text
  pub drain_generation : ℕ
  pub draining : Bool
  pub sleep_requested : Bool
  pub engine_status : EngineStatus
  pub engine_changed : Bool
  pub work : List Work
  pub ours_inflight : ℕ
  pub idle_since : ℕ
  pub no_work : Bool  -- the event `_no_work` is set
  pub deadline : Option ℕ
  pub idle : Option ℕ
  pub sleep : Option ℕ  -- the task `_sleep`, by the time of its start
  pub stopped : Bool  -- that task has come to stop the instance

-- `__init__`
unfoldable pub boot : ℕ → ℕ → Text → Lifecycle
boot drain_s idle_s id = record {
  drain_deadline_s = drain_s;
  idle_timeout_s = idle_s;
  boot_id = id;
  drain_generation = 0;
  draining = false;
  sleep_requested = false;
  engine_status = starting;
  engine_changed = false;
  work = [];
  ours_inflight = 0;
  idle_since = 0;
  no_work = true;
  deadline = none;
  idle = none;
  sleep = none;
  stopped = false;
}

abbrev pub engine_word : EngineStatus → Status
engine_word starting = starting
engine_word ready = ready
engine_word failed = failed

abbrev pub is_empty : List Work → Bool
is_empty [] = true
is_empty (w ∷ ws) = false

-- The property `status`.
unfoldable pub status : Lifecycle → Status
status s =
    if s.draining
    then (if is_empty s.work then drained else draining)
    else engine_word s.engine_status

abbrev pub serving : Status → Result (Unit {0})
serving starting = err Code.starting
serving ready = ok tt
serving failed = err engine_unavailable
serving draining = err Code.draining
serving drained = err Code.drained

unfoldable pub check_serving : Lifecycle → Result (Unit {0})
check_serving s = serving (status s)

-- `accept`. The work's task starts in the same step of the event loop, before anything else runs
-- (`Work.serve` and `_run` reach it without a wait).
unfoldable pub accept : Work → Lifecycle → Result Lifecycle
accept w s = do
  check_serving s
  ok (record s { work = record w { task = Task.running } ∷ s.work; no_work = false })

-- `set.discard`
abbrev pub discard : ℕ → List Work → List Work
discard n [] = []
discard n (w ∷ ws) = let rest = discard n ws in if w.name == n then rest else w ∷ rest

unfoldable pub release : ℕ → Lifecycle → Lifecycle
release n s =
    let left = discard n s.work in record s { work = left; no_work = is_empty left || s.no_work }

-- `ours`, as the request of an own key begins and as it ends.
unfoldable pub ours_begin : Lifecycle → Lifecycle
ours_begin s = record s { ours_inflight = s.ours_inflight + 1 }

unfoldable pub ours_end : ℕ → Lifecycle → Lifecycle
ours_end now s = record s { ours_inflight = s.ours_inflight - 1; idle_since = now }

-- What a drain does to one accepted request.
abbrev pub drain_work : Work → Work
drain_work w = if is_waiting w || w.outside then stop StopReason.draining w else w

-- `_close`
unfoldable pub close : ℕ → Lifecycle → Lifecycle
close now s = if s.draining then s else record s {
  draining = true;
  drain_generation = s.drain_generation + 1;
  work = map drain_work s.work;
  deadline = some (now + s.drain_deadline_s);
}

-- `_fall_asleep`
unfoldable pub fall_asleep : ℕ → Lifecycle → Lifecycle
fall_asleep now s =
    if s.sleep_requested
    then s
    else record (close now (record s { sleep_requested = true; idle = none })) { sleep = some now }

unfoldable pub check_boot : Text → Lifecycle → Result (Unit {0})
check_boot id s = if text_eq id s.boot_id then ok tt else err stale_boot

pub record Answer : Type 0 where
  pub status : Status
  pub boot_id : Text
  pub drain_generation : ℕ

unfoldable pub control_answer : Lifecycle → Answer
control_answer s = record {
  status = status s;
  boot_id = s.boot_id;
  drain_generation = s.drain_generation;
}

-- A control route: the state that it leaves behind, and its answer.
unfoldable pub drain : Text → ℕ → Lifecycle → Result (Lifecycle × Answer)
drain id now s = do check_boot id s; let t = close now s; ok (t, control_answer t)

unfoldable pub sleep : Text → ℕ → Lifecycle → Result (Lifecycle × Answer)
sleep id now s = do check_boot id s; let t = fall_asleep now s; ok (t, control_answer t)

abbrev pub reopen : Lifecycle → Lifecycle
reopen s = if s.draining then record s { draining = false; deadline = none } else s

unfoldable pub open_again : Text → ℕ → Lifecycle → Result (Lifecycle × Answer)
open_again id generation s = do
  check_boot id s
  (if s.sleep_requested
      then err sleep_pending
      else if not (generation == s.drain_generation)
      then err stale_generation
      else ok (reopen s, control_answer (reopen s)))

-- `_idle_check`
unfoldable pub idle_check : ℕ → Lifecycle → Lifecycle
idle_check now s =
    let due = s.idle_since + s.idle_timeout_s in
    if ltb 0 s.ours_inflight || ltb now due
    then record s { idle = some (if ltb 0 s.ours_inflight then now + s.idle_timeout_s else due) }
    else fall_asleep now s

-- `_drain_deadline`
unfoldable pub drain_deadline : Lifecycle → Lifecycle
drain_deadline s = record s { deadline = none; work = map (stop StopReason.draining) s.work }

abbrev pub fail_if_ready : EngineStatus → EngineStatus
fail_if_ready starting = starting
fail_if_ready ready = failed
fail_if_ready failed = failed

-- `_check_failed`
unfoldable pub check_failed : Lifecycle → Lifecycle
check_failed s = record s { engine_status = fail_if_ready s.engine_status }

-- `_first_verified`
unfoldable pub first_verified : ℕ → Lifecycle → Lifecycle
first_verified now s = idle_check now (record s { idle_since = now })

-- `_engine_ready`
unfoldable pub engine_ready : Lifecycle → Lifecycle
engine_ready s = record s { engine_changed = false; engine_status = ready }

-- `_engine_changes`
unfoldable pub engine_changes : Lifecycle → Lifecycle
engine_changes s = if s.engine_changed then s else record s {
  engine_changed = true;
  engine_status = failed;
  work = map (stop StopReason.engine_changed) s.work;
}

-- Whether `_sleep_then_stop` has come to the stop: the wait for no work is over, or its time is.
unfoldable pub may_stop : ℕ → Lifecycle → Bool
may_stop now s = elim s.sleep [
  | none ↦ false
  | some began ↦ s.no_work || leb (began + forced_stop_s) now
]
