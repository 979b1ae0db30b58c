-- ===== src/Lifecycle/Idle.antt =====
-- The idle interval, and the stop of the instance.
use simple_serving.Prelude.{
  ℕ, ◌+◌, ◌≤◌, ◌<◌, ◌≡◌, refl, arith, ◌⊎◌, inl, inr, true, false, none, some, List, [], ◌∷◌, Text,
  ltb, Bool-cases, Option-cases,
}
use simple_serving.Work.{Work}
use simple_serving.Lifecycle.{
  Lifecycle, boot, close, fall_asleep, idle_check, may_stop, is_empty, forced_stop_s,
}
use simple_serving.Lifecycle.Steps.{Reach}
use simple_serving.Lifecycle.Drain.{Reach-IsSound}

-- A service that is awake, with an idle interval above 0, falls asleep at its idle check exactly
-- if no request of ours is in flight and the idle interval since the last one is over; it is
-- then drained of new work in the same step. Otherwise it stays as it is and its timer is set
-- for a later time.
pub idle_check_exact :
    (now : ℕ) (s : Lifecycle)
    → s.sleep_requested ≡ false
    → 0 < s.idle_timeout_s
    → let t = idle_check now s in
      (((s.ours_inflight ≡ 0) × (s.idle_since + s.idle_timeout_s ≤ now))
        × (t.sleep_requested ≡ true)
        × (t.draining ≡ true)
        × (t.sleep ≡ some now)
        × (t.idle ≡ none))
      ⊎ (((0 < s.ours_inflight) ⊎ (now < s.idle_since + s.idle_timeout_s))
          × ((due : ℕ) × (t ≡ record s { idle = some due }) × (now < due)))
unfolding idle_check fall_asleep close
idle_check_exact now s z p = elim (Bool-cases (ltb 0 s.ours_inflight)) [
  | inl busy ↦ inr (inl (ground arith), (now + s.idle_timeout_s, ground arith, omega arith))
  | inr free ↦ elim (Bool-cases (ltb now (s.idle_since + s.idle_timeout_s))) [
    | inl early ↦
        inr (inr (ground arith), (s.idle_since + s.idle_timeout_s, ground arith, ground arith))
    | inr over ↦
        inl ((ground arith, ground arith), ground arith, ground arith, ground arith, ground arith)
  ]
]

no_work_empty : (ws : List Work) → is_empty ws ≡ true → ws ≡ []
no_work_empty [] h = refl
no_work_empty (w ∷ ws) h = absurd (ground arith)

-- The instance is stopped only after a sleep, and only without accepted work or once the forced
-- stop's time since the start of the sleep is over.
pub stop_needs :
    (d i : ℕ) (id : Text) (now : ℕ) (s : Lifecycle)
    → Reach (boot d i id) s
    → may_stop now s ≡ true
    → (s.sleep_requested ≡ true)
      × (s.draining ≡ true)
      × ((s.work ≡ []) ⊎ ((began : ℕ) × (s.sleep ≡ some began) × (began + forced_stop_s ≤ now)))
unfolding may_stop
stop_needs d i id now s r h =
    let f = (Reach-IsSound d i id r).0 in
    elim (Option-cases s.sleep) [
      | inl e ↦ absurd (ground arith)
      | inr (began, e) ↦
          let z : s.sleep_requested ≡ true = f.task_asleep (λ x. ground arith) in
          (
            z,
            f.asleep_draining z,
            elim (Bool-cases s.no_work) [
              | inl n ↦ inl (no_work_empty s.work (ground (arith, f.no_work)))
              | inr n ↦ inr (began, e, ground arith)
            ],
          )
    ]
