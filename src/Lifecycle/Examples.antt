-- ===== src/Lifecycle/Examples.antt =====
-- A service that is verified, takes on an outside request, is drained, and falls asleep.
use simple_serving.Prelude.{
  ℕ, ◌+◌, ◌≤◌, ◌<◌, ◌≡◌, ◌≢◌, refl, arith, ◌⊎◌, true, none, some, [], Text, All, codes, map,
}
use simple_serving.Errors.{Code, Result, ok, err, stale_boot, stale_generation, sleep_pending}
use simple_serving.Work.{Work, work}
use simple_serving.Lifecycle.{
  Lifecycle, boot, status, check_serving, accept, drain_work, close, fall_asleep, check_boot,
  control_answer, drain, sleep, open_again, idle_check, drain_deadline, first_verified,
  engine_ready, may_stop, forced_stop_s,
}
use simple_serving.Lifecycle.Steps.{accepts, drains, sleeps, verifies, Reach, here, next}
use simple_serving.Lifecycle.Flags.{HasFlags}
use simple_serving.Lifecycle.Works.{HasWork}
use simple_serving.Lifecycle.Drain.{
  Reach-IsSound, late_open_refused, sleep_is_final, Drains, drain_effect, deadline_stops-All,
}
use simple_serving.Lifecycle.Idle.{idle_check_exact, stop_needs}

abbrev name : Text
name = codes "b"

abbrev start : Lifecycle
start = boot 60 780 name

abbrev verified : Lifecycle
verified = engine_ready (first_verified 5 start)

abbrev after : Lifecycle → Result Lifecycle → Lifecycle
after s (ok t) = t
after s (err e) = s

abbrev busy : Lifecycle
busy = after verified (accept (work 1 true) verified)

abbrev draining_state : Lifecycle
draining_state = close 10 busy

abbrev asleep : Lifecycle
asleep = fall_asleep 20 draining_state

Reach-busy : Reach start busy
unfolding boot engine_ready first_verified idle_check accept check_serving status
Reach-busy = next {t = verified} 6 (next 5 here (verifies refl refl)) (accepts (work 1 true) refl)

Reach-asleep : Reach start asleep
unfolding boot engine_ready first_verified idle_check accept check_serving status drain sleep
    check_boot close
Reach-asleep =
    next {t = draining_state} 20
      (next {t = busy} 10 Reach-busy (drains name (control_answer draining_state) refl))
      (sleeps name (control_answer asleep) refl)

Reach-IsSound_example : HasFlags asleep × HasWork asleep
Reach-IsSound_example = Reach-IsSound 60 780 name {s = asleep} Reach-asleep

late_open_refused_example :
    (e : Code) × (open_again name 0 draining_state ≡ err e)
    × ((e ≡ stale_boot) ⊎ ((e ≡ sleep_pending) ⊎ (e ≡ stale_generation)))
unfolding boot engine_ready first_verified idle_check accept check_serving status drain check_boot
late_open_refused_example =
    late_open_refused name name 10 busy draining_state draining_state
      (control_answer draining_state) refl refl here

sleep_is_final_example :
    ((w : Work) → (accept w asleep ≡ err Code.draining) ⊎ (accept w asleep ≡ err Code.drained))
    × ((key : Text) (g : ℕ)
        → (open_again key g asleep ≡ err sleep_pending)
          ⊎ (open_again key g asleep ≡ err stale_boot))
unfolding boot engine_ready first_verified idle_check accept check_serving status fall_asleep close
sleep_is_final_example = sleep_is_final 60 780 name asleep asleep Reach-asleep refl here

drain_effect_example :
    ((busy.draining ≡ true) × (draining_state ≡ busy))
    ⊎ ((draining_state.draining ≡ true)
        × (draining_state.drain_generation ≡ busy.drain_generation + 1)
        × (draining_state.deadline ≡ some (10 + busy.drain_deadline_s))
        × (draining_state.work ≡ map drain_work busy.work)
        × All Drains busy.work)
unfolding drain check_boot boot engine_ready first_verified idle_check accept check_serving status
drain_effect_example =
    drain_effect name 10 busy draining_state (control_answer draining_state)
      (Reach-IsSound 60 780 name {s = busy} Reach-busy).1 refl

deadline_stops-All_example : All (λ w. w.stop_reason ≢ none) (drain_deadline draining_state).work
unfolding boot engine_ready first_verified idle_check accept check_serving status drain check_boot
deadline_stops-All_example =
    deadline_stops-All 60 780 name draining_state
      (next 10 Reach-busy (drains name (control_answer draining_state) refl))

idle_check_exact_example :
    let t = idle_check 785 verified in
    (((verified.ours_inflight ≡ 0) × (verified.idle_since + verified.idle_timeout_s ≤ 785))
      × (t.sleep_requested ≡ true)
      × (t.draining ≡ true)
      × (t.sleep ≡ some 785)
      × (t.idle ≡ none))
    ⊎ (((0 < verified.ours_inflight) ⊎ (785 < verified.idle_since + verified.idle_timeout_s))
        × ((due : ℕ) × (t ≡ record verified { idle = some due }) × (785 < due)))
unfolding boot engine_ready first_verified idle_check
idle_check_exact_example = idle_check_exact 785 verified refl (omega arith)

falls_asleep_at_785 : (idle_check 785 verified).sleep_requested ≡ true
unfolding boot engine_ready first_verified idle_check fall_asleep close
falls_asleep_at_785 = refl

stop_needs_example :
    (asleep.sleep_requested ≡ true)
    × (asleep.draining ≡ true)
    × ((asleep.work ≡ [])
        ⊎ ((began : ℕ) × (asleep.sleep ≡ some began) × (began + forced_stop_s ≤ 140)))
unfolding boot engine_ready first_verified idle_check accept check_serving status fall_asleep close
    may_stop
stop_needs_example = stop_needs 60 780 name 140 asleep Reach-asleep refl
