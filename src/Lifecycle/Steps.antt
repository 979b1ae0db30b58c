-- ===== src/Lifecycle/Steps.antt =====
-- Every history of a lane's service: what the routes, the timers, the checks of the engine and the
-- accepted work can do, one step of the event loop at a time.
use simple_serving.Prelude.{
  ℕ, ◌≤◌, ◌<◌, ◌≡◌, ◌≢◌, arith, true, false, some, List, [], ◌∷◌, Text, text_eq,
}
use simple_serving.Errors.{ok}
use simple_serving.Work.{Work, unstarted}
use simple_serving.Lifecycle.{
  Lifecycle, starting, accept, release, ours_begin, ours_end, close, fall_asleep, check_boot,
  Answer, drain, sleep, reopen, open_again, idle_check, drain_deadline, check_failed,
  first_verified, engine_ready, engine_changes, may_stop,
}

-- What the work itself may do: its task runs on, ends, or sends; its name, its key and a stop stay.
pub record Progress (w v : Work) : Type 0 where
  pub name : v.name ≡ w.name
  pub outside : v.outside ≡ w.outside
  pub started : w.task ≢ unstarted → v.task ≢ unstarted
  pub reason : v.stop_reason ≡ w.stop_reason

abbrev pub AllProgress : List Work → List Work → Type 0
AllProgress [] [] = Unit {0}
AllProgress [] (v ∷ vs) = ⊥
AllProgress (w ∷ ws) [] = ⊥
AllProgress (w ∷ ws) (v ∷ vs) = Progress w v × AllProgress ws vs

-- One step at the time `now`.
pub data Step (now : ℕ) (s : Lifecycle) (t : Lifecycle) : Type 0 where
  accepts : (w : Work) → accept w s ≡ ok t → Step now s t
  releases : (n : ℕ) → t ≡ release n s → Step now s t
  progresses : (ws : List Work) → AllProgress s.work ws → t ≡ record s { work = ws } → Step now s t
  begins : t ≡ ours_begin s → Step now s t
  ends : 0 < s.ours_inflight → t ≡ ours_end now s → Step now s t
  drains : (id : Text) (a : Answer) → drain id now s ≡ ok (t, a) → Step now s t
  sleeps : (id : Text) (a : Answer) → sleep id now s ≡ ok (t, a) → Step now s t
  opens : (id : Text) (g : ℕ) (a : Answer) → open_again id g s ≡ ok (t, a) → Step now s t
  idles : (due : ℕ) → s.idle ≡ some due → due ≤ now → t ≡ idle_check now s → Step now s t
  deadline_comes :
      (due : ℕ) → s.deadline ≡ some due → due ≤ now → t ≡ drain_deadline s → Step now s t
  check_fails : t ≡ check_failed s → Step now s t
  verifies : s.engine_status ≡ starting → t ≡ engine_ready (first_verified now s) → Step now s t
  found_ready : s.engine_status ≢ starting → t ≡ engine_ready s → Step now s t
  found_changed : s.engine_status ≢ starting → t ≡ engine_changes s → Step now s t
  stops : may_stop now s ≡ true → t ≡ record s { stopped = true } → Step now s t

pub data Reach (s : Lifecycle) : Lifecycle → Type 0 where
  here : Reach s s
  next : {t u : Lifecycle} (now : ℕ) → Reach s t → Step now t u → Reach s u

-- A control route that answers has had the boot of this service.
pub drain_ok :
    (id : Text) (now : ℕ) (s t : Lifecycle) (a : Answer)
    → drain id now s ≡ ok (t, a)
    → (text_eq id s.boot_id ≡ true) × (t ≡ close now s)
unfolding drain check_boot
drain_ok id now s t a e = ground arith

pub sleep_ok :
    (id : Text) (now : ℕ) (s t : Lifecycle) (a : Answer)
    → sleep id now s ≡ ok (t, a)
    → (text_eq id s.boot_id ≡ true) × (t ≡ fall_asleep now s)
unfolding sleep check_boot
sleep_ok id now s t a e = ground arith

pub open_ok :
    (id : Text) (g : ℕ) (s t : Lifecycle) (a : Answer)
    → open_again id g s ≡ ok (t, a)
    → (text_eq id s.boot_id ≡ true)
      × (s.sleep_requested ≡ false)
      × (g ≡ s.drain_generation)
      × (t ≡ reopen s)
unfolding open_again check_boot
open_ok id g s t a e = ground arith
