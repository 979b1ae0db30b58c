-- ===== src/Lifecycle/Works.antt =====
-- What a drain, a sleep and the engine do to the accepted work.
use simple_serving.Prelude.{
  ℕ, ◌+◌, ◌≡◌, ◌≢◌, arith, inl, inr, Bool, true, false, ◌||◌, none, List, [], ◌∷◌, map, All, ltb,
  ◌==◌, Bool-cases,
}
use simple_serving.Errors.{ok}
use simple_serving.Work.{Work, StopReason, unstarted, running, stop}
use simple_serving.Lifecycle.{
  Lifecycle, status, check_serving, accept, discard, release, ours_begin, ours_end, drain_work,
  close, fall_asleep, reopen, idle_check, drain_deadline, check_failed, first_verified,
  engine_ready, engine_changes,
}
use simple_serving.Lifecycle.Steps.{
  AllProgress, Step, accepts, releases, progresses, begins, ends, drains, sleeps, opens, idles,
  deadline_comes, check_fails, verifies, found_ready, found_changed, stops, drain_ok, sleep_ok,
  open_ok,
}

-- Accepted work has a task, and during a drain that of an outside key has been stopped.
abbrev pub IsKept : Bool → Work → Type 0
IsKept draining w =
    (w.task ≢ unstarted) × (draining ≡ true → w.outside ≡ true → w.stop_reason ≢ none)

abbrev pub HasWork : Lifecycle → Type 0
HasWork s = All (IsKept s.draining) s.work

pub All-map {ℓ κ} :
    {A : Type ℓ} (P Q : A → Type κ) (f : A → A) (xs : List A)
    → ((x : A) → P x → Q (f x))
    → All P xs
    → All Q (map f xs)
All-map P Q f [] h a = tt
All-map P Q f (x ∷ xs) h a = (h x a.0, All-map P Q f xs h a.1)

All-imp {ℓ κ} :
    {A : Type ℓ} (P Q : A → Type κ) (xs : List A) → ((x : A) → P x → Q x) → All P xs → All Q xs
All-imp P Q [] h a = tt
All-imp P Q (x ∷ xs) h a = (h x a.0, All-imp P Q xs h a.1)

All-discard : (P : Work → Type 0) (n : ℕ) (ws : List Work) → All P ws → All P (discard n ws)
All-discard P n [] a = tt
All-discard P n (w ∷ ws) a = elim (Bool-cases (w.name == n)) [
  | inl e ↦ rw e (All-discard P n ws a.1)
  | inr e ↦ rw e (a.0, All-discard P n ws a.1)
]

All-progress :
    (d : Bool) (ws vs : List Work) → AllProgress ws vs → All (IsKept d) ws → All (IsKept d) vs
All-progress d [] [] p a = tt
All-progress d [] (v ∷ vs) p a = absurd p
All-progress d (w ∷ ws) [] p a = absurd p
All-progress d (w ∷ ws) (v ∷ vs) p a = (
  (p.0.started a.0.0, λ x o. rw p.0.reason (a.0.1 x (ground (arith, p.0.outside)))),
  All-progress d ws vs p.1 a.1,
)

-- A stop keeps the task, and its reason is there for good.
stop-IsKept : (r : StopReason) (d : Bool) (w : Work) → IsKept d w → IsKept d (stop r w)
unfolding stop
stop-IsKept r d w h = ground arith

drain-IsKept : (w : Work) → IsKept false w → IsKept true (drain_work w)
unfolding stop
drain-IsKept w h = ground arith

-- While no drain is on, nothing is asked of outside work.
IsKept-false : (d : Bool) (w : Work) → IsKept d w → IsKept false w
IsKept-false d w h = (h.0, λ e. absurd (ground arith))

close-HasWork : (now : ℕ) (s : Lifecycle) → HasWork s → HasWork (close now s)
unfolding close
close-HasWork now s h = elim (Bool-cases s.draining) [
  | inl d ↦ rw d (rw d at h)
  | inr d ↦ rw d (All-map (IsKept false) (IsKept true) drain_work s.work drain-IsKept (rw d at h))
]

fall_asleep-HasWork : (now : ℕ) (s : Lifecycle) → HasWork s → HasWork (fall_asleep now s)
unfolding fall_asleep
fall_asleep-HasWork now s h = elim (Bool-cases s.sleep_requested) [
  | inl e ↦ rw e h
  | inr e ↦ rw e (close-HasWork now (record s { sleep_requested = true; idle = none }) h)
]

idle_check-HasWork : (now : ℕ) (s : Lifecycle) → HasWork s → HasWork (idle_check now s)
unfolding idle_check
idle_check-HasWork now s h =
    elim (Bool-cases (ltb 0 s.ours_inflight || ltb now (s.idle_since + s.idle_timeout_s))) [
      | inl e ↦ rw e h
      | inr e ↦ rw e (fall_asleep-HasWork now s h)
    ]

-- Work is accepted only while no drain is on.
accept-HasWork : (w : Work) (s t : Lifecycle) → accept w s ≡ ok t → HasWork s → HasWork t
unfolding accept check_serving status
accept-HasWork w s t e h = elim (Bool-cases s.draining) [
  | inl d ↦ absurd (ground arith)
  | inr d ↦
      let same : record s { work = record w { task = running } ∷ s.work; no_work = false } ≡ t =
        ground arith in
      rw (← same) (((λ x. cc), (λ x. absurd (ground arith))), h)
]

reopen-HasWork : (s : Lifecycle) → HasWork s → HasWork (reopen s)
reopen-HasWork s h = elim (Bool-cases s.draining) [
  | inl d ↦ rw d (All-imp (IsKept s.draining) (IsKept false) s.work (IsKept-false s.draining) h)
  | inr d ↦ rw d (rw d at h)
]

map-stop-HasWork :
    (r : StopReason) (d : Bool) (ws : List Work)
    → All (IsKept d) ws
    → All (IsKept d) (map (stop r) ws)
map-stop-HasWork r d ws h = All-map (IsKept d) (IsKept d) (stop r) ws (stop-IsKept r d) h

pub Step-HasWork : {now : ℕ} {s t : Lifecycle} → Step now s t → HasWork s → HasWork t
unfolding release ours_begin ours_end drain_deadline check_failed engine_ready first_verified
    engine_changes
Step-HasWork {now} {s} {t} (accepts w e) h = accept-HasWork w s t e h
Step-HasWork {now} {s} (releases n e) h = rw e (All-discard (IsKept s.draining) n s.work h)
Step-HasWork {now} {s} (progresses ws p e) h = rw e (All-progress s.draining s.work ws p h)
Step-HasWork (begins e) h = rw e h
Step-HasWork (ends b e) h = rw e h
Step-HasWork {now} {s} {t} (drains id a e) h =
    rw (drain_ok id now s t a e).1 (close-HasWork now s h)
Step-HasWork {now} {s} {t} (sleeps id a e) h =
    rw (sleep_ok id now s t a e).1 (fall_asleep-HasWork now s h)
Step-HasWork {now} {s} {t} (opens id g a e) h =
    let (_, _, _, y) = open_ok id g s t a e in rw y (reopen-HasWork s h)
Step-HasWork {now} {s} (idles due d l e) h = rw e (idle_check-HasWork now s h)
Step-HasWork {now} {s} (deadline_comes due d l e) h =
    rw e (map-stop-HasWork StopReason.draining s.draining s.work h)
Step-HasWork {now} {s} (check_fails e) h = rw e h
Step-HasWork {now} {s} (verifies x e) h =
    rw e (idle_check-HasWork now (record s { idle_since = now }) h)
Step-HasWork {now} {s} (found_ready x e) h = rw e h
Step-HasWork {now} {s} (found_changed x e) h = elim (Bool-cases s.engine_changed) [
  | inl c ↦ rw e (rw c h)
  | inr c ↦ rw e (rw c (map-stop-HasWork StopReason.engine_changed s.draining s.work h))
]
Step-HasWork {now} {s} (stops m e) h = rw e h
