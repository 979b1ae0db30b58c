-- ===== src/Lifecycle/Flags.antt =====
-- The flags, the timers and the sleep agree, after every step.
use simple_serving.Prelude.{ℕ, ◌<◌, ◌≡◌, ◌≢◌, refl, arith, true, false, none, List, [], ◌∷◌, map}
use simple_serving.Errors.{ok}
use simple_serving.Work.{Work, StopReason, stop}
use simple_serving.Lifecycle.{
  Lifecycle, failed, status, check_serving, accept, discard, release, ours_begin, ours_end,
  drain_work, close, fall_asleep, reopen, idle_check, drain_deadline, check_failed, first_verified,
  engine_ready, engine_changes, may_stop, is_empty,
}
use simple_serving.Lifecycle.Steps.{
  AllProgress, Step, accepts, releases, progresses, begins, ends, drains, sleeps, opens, idles,
  deadline_comes, check_fails, verifies, found_ready, found_changed, stops, drain_ok, sleep_ok,
  open_ok,
}

-- The flags, the timers and the sleep.
pub record HasFlags (s : Lifecycle) : Type 0 where
  pub no_work : s.no_work ≡ is_empty s.work
  pub asleep_draining : s.sleep_requested ≡ true → s.draining ≡ true
  pub asleep_task : s.sleep_requested ≡ true → s.sleep ≢ none
  pub task_asleep : s.sleep ≢ none → s.sleep_requested ≡ true
  pub deadline_draining : s.deadline ≢ none → s.draining ≡ true
  pub counted : s.draining ≡ true → 0 < s.drain_generation
  pub changed_failed : s.engine_changed ≡ true → s.engine_status ≡ failed
  pub stopped_asleep : s.stopped ≡ true → s.sleep_requested ≡ true

is_empty-map : (f : Work → Work) (ws : List Work) → is_empty (map f ws) ≡ is_empty ws
is_empty-map f [] = refl
is_empty-map f (w ∷ ws) = refl

is_empty-progress : (ws vs : List Work) → AllProgress ws vs → is_empty vs ≡ is_empty ws
is_empty-progress [] [] h = refl
is_empty-progress [] (v ∷ vs) h = absurd h
is_empty-progress (w ∷ ws) [] h = absurd h
is_empty-progress (w ∷ ws) (v ∷ vs) h = refl

is_empty-discard : (n : ℕ) (ws : List Work) → is_empty ws ≡ true → is_empty (discard n ws) ≡ true
is_empty-discard n [] h = refl
is_empty-discard n (w ∷ ws) h = absurd (ground arith)

module _ (now : ℕ) (s : Lifecycle) (h : HasFlags s) where
  close-HasFlags : HasFlags (close now s)
  unfolding close
  close-HasFlags = ground (arith, is_empty-map drain_work s.work)

  fall_asleep-HasFlags : HasFlags (fall_asleep now s)
  unfolding fall_asleep close
  fall_asleep-HasFlags = ground (arith, is_empty-map drain_work s.work)

  idle_check-HasFlags : HasFlags (idle_check now s)
  unfolding idle_check
  idle_check-HasFlags = ground (arith, fall_asleep-HasFlags)

  accept-HasFlags : (w : Work) (t : Lifecycle) → accept w s ≡ ok t → HasFlags t
  unfolding accept check_serving status
  accept-HasFlags w t e = ground arith

  release-HasFlags : (n : ℕ) → HasFlags (release n s)
  unfolding release
  release-HasFlags n = ground (arith, is_empty-discard n s.work)

  reopen-HasFlags : s.sleep_requested ≡ false → HasFlags (reopen s)
  reopen-HasFlags e = ground arith

  deadline-HasFlags : HasFlags (drain_deadline s)
  unfolding drain_deadline
  deadline-HasFlags = ground (arith, is_empty-map (stop StopReason.draining) s.work)

  failed-HasFlags : HasFlags (check_failed s)
  unfolding check_failed
  failed-HasFlags = ground arith

  ready-HasFlags : HasFlags (engine_ready s)
  unfolding engine_ready
  ready-HasFlags = ground arith

  changes-HasFlags : HasFlags (engine_changes s)
  unfolding engine_changes
  changes-HasFlags = ground (arith, is_empty-map (stop StopReason.engine_changed) s.work)

pub Step-HasFlags : {now : ℕ} {s t : Lifecycle} → Step now s t → HasFlags s → HasFlags t
unfolding first_verified ours_begin ours_end may_stop
Step-HasFlags {now} {s} {t} (accepts w e) h = accept-HasFlags now s h w t e
Step-HasFlags {now} {s} (releases n e) h = rw e (release-HasFlags now s h n)
Step-HasFlags {now} {s} (progresses ws p e) h = rw e (ground (arith, is_empty-progress s.work ws p))
Step-HasFlags (begins e) h = rw e (ground arith)
Step-HasFlags (ends b e) h = rw e (ground arith)
Step-HasFlags {now} {s} {t} (drains id a e) h =
    rw (drain_ok id now s t a e).1 (close-HasFlags now s h)
Step-HasFlags {now} {s} {t} (sleeps id a e) h =
    rw (sleep_ok id now s t a e).1 (fall_asleep-HasFlags now s h)
Step-HasFlags {now} {s} {t} (opens id g a e) h =
    let (_, x, _, y) = open_ok id g s t a e in rw y (reopen-HasFlags now s h x)
Step-HasFlags {now} {s} (idles due d l e) h = rw e (idle_check-HasFlags now s h)
Step-HasFlags {now} {s} (deadline_comes due d l e) h = rw e (deadline-HasFlags now s h)
Step-HasFlags {now} {s} (check_fails e) h = rw e (failed-HasFlags now s h)
Step-HasFlags {now} {s} (verifies x e) h = rw e (
    ready-HasFlags now (first_verified now s)
      (idle_check-HasFlags now (record s { idle_since = now }) (ground arith)))
Step-HasFlags {now} {s} (found_ready x e) h = rw e (ready-HasFlags now s h)
Step-HasFlags {now} {s} (found_changed x e) h = rw e (changes-HasFlags now s h)
Step-HasFlags {now} {s} (stops m e) h = rw e (ground arith)
