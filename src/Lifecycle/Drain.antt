-- ===== src/Lifecycle/Drain.antt =====
-- The drain, the open and the sleep, over every history of a service.
use simple_serving.Prelude.{
  ℕ, ◌+◌, ◌≤◌, ◌<◌, ◌≡◌, ◌≢◌, refl, arith, ◌⊎◌, inl, inr, Bool, true, false, none, some, List, [],
  ◌∷◌, map, Text, text_eq, All, Bool-cases,
}
use simple_serving.Errors.{Code, ok, err, stale_boot, stale_generation, sleep_pending}
use simple_serving.Work.{Work, StopReason, stop, is_waiting}
use simple_serving.Lifecycle.{
  Lifecycle, boot, status, check_serving, accept, release, ours_begin, ours_end, drain_work, close,
  fall_asleep, Answer, drain, open_again, idle_check, drain_deadline, check_failed, check_boot,
  first_verified, engine_ready, engine_changes,
}
use simple_serving.Lifecycle.Steps.{
  Step, accepts, releases, progresses, begins, ends, drains, sleeps, opens, idles, deadline_comes,
  check_fails, verifies, found_ready, found_changed, stops, Reach, here, next, drain_ok, sleep_ok,
  open_ok,
}
use simple_serving.Lifecycle.Flags.{HasFlags, Step-HasFlags}
use simple_serving.Lifecycle.Works.{IsKept, HasWork, All-map, Step-HasWork}

boot-HasFlags : (d i : ℕ) (id : Text) → HasFlags (boot d i id)
unfolding boot
boot-HasFlags d i id = ground arith

boot-HasWork : (d i : ℕ) (id : Text) → HasWork (boot d i id)
unfolding boot
boot-HasWork d i id = tt

-- Every reachable state of a service has flags, timers and a sleep that agree: a sleep is a drain,
-- the deadline runs only during a drain, the instance is stopped only after a sleep. All its
-- accepted work has a task, and during a drain the work of outside keys has been stopped.
pub Reach-IsSound :
    (d i : ℕ) (id : Text) {s : Lifecycle} → Reach (boot d i id) s → HasFlags s × HasWork s
Reach-IsSound d i id here = (boot-HasFlags d i id, boot-HasWork d i id)
Reach-IsSound d i id (next now r st) =
    let (f, w) = Reach-IsSound d i id r in (Step-HasFlags st f, Step-HasWork st w)

-- What no step takes back.
record Goes (s t : Lifecycle) : Type 0 where
  generation : s.drain_generation ≤ t.drain_generation
  asleep : s.sleep_requested ≡ true → t.sleep_requested ≡ true
  same_boot : t.boot_id ≡ s.boot_id
  counts : t.draining ≡ true → (s.draining ≡ true) ⊎ (s.drain_generation < t.drain_generation)

close-Goes : (now : ℕ) (s : Lifecycle) → Goes s (close now s)
unfolding close
close-Goes now s = ground arith

fall_asleep-Goes : (now : ℕ) (s : Lifecycle) → Goes s (fall_asleep now s)
unfolding fall_asleep close
fall_asleep-Goes now s = ground arith

idle_check-Goes : (now : ℕ) (s : Lifecycle) → Goes s (idle_check now s)
unfolding idle_check
idle_check-Goes now s = ground (arith, fall_asleep-Goes now s)

accept-Goes : (w : Work) (s t : Lifecycle) → accept w s ≡ ok t → Goes s t
unfolding accept check_serving status
accept-Goes w s t e = ground arith

Step-Goes : {now : ℕ} {s t : Lifecycle} → Step now s t → Goes s t
unfolding release ours_begin ours_end drain_deadline check_failed engine_ready first_verified
    engine_changes
Step-Goes {now} {s} {t} (accepts w e) = accept-Goes w s t e
Step-Goes (releases n e) = rw e (ground arith)
Step-Goes (progresses ws p e) = rw e (ground arith)
Step-Goes (begins e) = rw e (ground arith)
Step-Goes (ends b e) = rw e (ground arith)
Step-Goes {now} {s} {t} (drains id a e) = rw (drain_ok id now s t a e).1 (close-Goes now s)
Step-Goes {now} {s} {t} (sleeps id a e) = rw (sleep_ok id now s t a e).1 (fall_asleep-Goes now s)
Step-Goes {now} {s} {t} (opens id g a e) =
    let (_, x, _, y) = open_ok id g s t a e in rw y (ground arith)
Step-Goes {now} {s} (idles due d l e) = rw e (idle_check-Goes now s)
Step-Goes (deadline_comes due d l e) = rw e (ground arith)
Step-Goes (check_fails e) = rw e (ground arith)
Step-Goes {now} {s} (verifies x e) =
    let g = idle_check-Goes now (record s { idle_since = now }) in
    rw e (record {
      generation = g.generation;
      asleep = g.asleep;
      same_boot = g.same_boot;
      counts = g.counts;
    })
Step-Goes (found_ready x e) = rw e (ground arith)
Step-Goes {now} {s} (found_changed x e) = rw e (ground arith)
Step-Goes (stops m e) = rw e (ground arith)

Reach-Goes : {s t : Lifecycle} → Reach s t → Goes s t
Reach-Goes here = ground arith
Reach-Goes (next now r st) = ground (arith, Reach-Goes r, Step-Goes st)

-- A drain of a service that does not drain yet: an `open` with the generation of before it never
-- undoes it, however late it comes: it is refused with `stale_boot`, `sleep_pending` or
-- `stale_generation`.
pub late_open_refused :
    (id key : Text) (now : ℕ) (s t u : Lifecycle) (a : Answer)
    → s.draining ≡ false
    → drain id now s ≡ ok (t, a)
    → Reach t u
    → (e : Code) × (open_again key s.drain_generation u ≡ err e)
      × ((e ≡ stale_boot) ⊎ ((e ≡ sleep_pending) ⊎ (e ≡ stale_generation)))
unfolding open_again check_boot close
late_open_refused id key now s t u a d e r =
    let newer : s.drain_generation < u.drain_generation =
      ground (arith, drain_ok id now s t a e, (Reach-Goes r).generation) in
    elim (Bool-cases (text_eq key u.boot_id)) [
      | inr x ↦ (stale_boot, rw (x, open_again) refl, inl refl)
      | inl x ↦ elim (Bool-cases u.sleep_requested) [
        | inl y ↦ (sleep_pending, rw (x, open_again) (rw y refl), inr (inl refl))
        | inr y ↦ (stale_generation, ground arith, inr (inr refl))
      ]
    ]

flags_after : {s t : Lifecycle} → Reach s t → HasFlags s → HasFlags t
flags_after here f = f
flags_after (next now r st) f = Step-HasFlags st (flags_after r f)

flags_of : {s t : Lifecycle} → Reach s t → HasFlags s → t.sleep_requested ≡ true → t.draining ≡ true
flags_of r f e = (flags_after r f).asleep_draining e

-- A sleep is final. Once a service has been told to sleep, or has fallen asleep, whatever follows
-- it refuses new work with `draining` or `drained` and refuses every `open`.
pub sleep_is_final :
    (d i : ℕ) (id : Text) (s t : Lifecycle)
    → Reach (boot d i id) s
    → s.sleep_requested ≡ true
    → Reach s t
    → ((w : Work) → (accept w t ≡ err Code.draining) ⊎ (accept w t ≡ err Code.drained))
      × ((key : Text) (g : ℕ)
          → (open_again key g t ≡ err sleep_pending) ⊎ (open_again key g t ≡ err stale_boot))
unfolding accept check_serving status open_again check_boot
sleep_is_final d i id s t r z q =
    let asleep = (Reach-Goes q).asleep z in
    let drains = flags_of q (Reach-IsSound d i id r).0 asleep in
    ((λ w. ground arith), (λ key g. ground arith))

-- A drain's effect on one accepted request.
abbrev pub Drains : Work → Type 0
Drains w =
    (((is_waiting w ≡ true) ⊎ (w.outside ≡ true)) → (drain_work w).stop_reason ≢ none)
    × (is_waiting w ≡ false → w.outside ≡ false → drain_work w ≡ w)

drain_work-Drains : (d : Bool) (w : Work) → IsKept d w → Drains w
unfolding stop is_waiting
drain_work-Drains d w h = ground arith

All-Drains : (d : Bool) (ws : List Work) → All (IsKept d) ws → All Drains ws
All-Drains d [] h = tt
All-Drains d (w ∷ ws) h = (drain_work-Drains d w h.0, All-Drains d ws h.1)

-- In a service whose accepted work is sound, a drain that answers with none on begins one: a new
-- generation, a deadline, and each accepted request that waits or belongs to an outside key is
-- stopped, while the others stay as they are. A repeated drain changes nothing.
pub drain_effect :
    (id : Text) (now : ℕ) (s t : Lifecycle) (a : Answer)
    → HasWork s
    → drain id now s ≡ ok (t, a)
    → ((s.draining ≡ true) × (t ≡ s))
      ⊎ ((t.draining ≡ true)
          × (t.drain_generation ≡ s.drain_generation + 1)
          × (t.deadline ≡ some (now + s.drain_deadline_s))
          × (t.work ≡ map drain_work s.work)
          × All Drains s.work)
unfolding close
drain_effect id now s t a h e = elim (Bool-cases s.draining) [
  | inl d ↦ inl (d, ground (arith, drain_ok id now s t a e))
  | inr d ↦ inr (
    ground (arith, drain_ok id now s t a e),
    ground (arith, drain_ok id now s t a e),
    ground (arith, drain_ok id now s t a e),
    ground (arith, drain_ok id now s t a e),
    All-Drains s.draining s.work h,
  )
]

stopped_by : (r : StopReason) (d : Bool) (w : Work) → IsKept d w → (stop r w).stop_reason ≢ none
unfolding stop
stopped_by r d w h = ground arith

-- When the deadline of a drain comes, every accepted request has been stopped.
pub deadline_stops-All :
    (d i : ℕ) (id : Text) (s : Lifecycle)
    → Reach (boot d i id) s
    → All (λ w. w.stop_reason ≢ none) (drain_deadline s).work
unfolding drain_deadline
deadline_stops-All d i id s r =
    All-map (IsKept s.draining) (λ w. w.stop_reason ≢ none) (stop StopReason.draining) s.work
      (stopped_by StopReason.draining s.draining) (Reach-IsSound d i id r).1
