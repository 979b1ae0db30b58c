-- ===== src/Inference/Stops.antt =====
-- A stop from outside raises nothing and keeps what holds between the turns.
use simple_serving.Prelude.{
  ℕ, ◌≡◌, refl, sym, arith, inl, inr, Bool, true, false, Option, none, some, ◌∙◌, Bool-cases,
}
use simple_serving.Config.{Config}
use simple_serving.Work.{Work, StopReason, stop}
use simple_serving.Inference.{
  TextWork, Places, Phase, created, awaits_count_place, counts, awaits_place, generates, relays,
  ended, released,
}
use simple_serving.Inference.Stop.{is_first_stop, waits_at, stopping, cancel_awaited, stop_work}
use simple_serving.Inference.Steps.{is_awaiting}
use simple_serving.Inference.Effects.{
  KeptAt, KeptAt-weaker, ticket_leaves, ticket_cancelled, count_cancelled,
}
use simple_serving.Inference.Fit.{IsFit, ticket_in, KeptFor}

ticket_in_awaiting : (ph : Phase) (t : Option ℕ) → is_awaiting ph ≡ true → ticket_in ph t ≡ t
ticket_in_awaiting created t h = refl
ticket_in_awaiting awaits_count_place t h = refl
ticket_in_awaiting counts t h = refl
ticket_in_awaiting awaits_place t h = refl
ticket_in_awaiting generates t h = refl
ticket_in_awaiting relays t h = refl
ticket_in_awaiting (ended o) t h = refl
ticket_in_awaiting (released o) t h = absurd (ground arith)

-- Only the first stop of a running task cancels it.
pub stop-cancelled_first :
    (reason : StopReason) (w : Work)
    → is_first_stop w ≡ true
    → ((stop reason w).cancelled ≡ true) × ((stop reason w).stop_reason ≡ some reason)
unfolding stop
stop-cancelled_first reason w h = ground arith

pub stop-cancelled_later :
    (reason : StopReason) (w : Work)
    → is_first_stop w ≡ false
    → (stop reason w).cancelled ≡ w.cancelled
unfolding stop
stop-cancelled_later reason w h = ground arith

stop-task : (reason : StopReason) (w : Work) → (stop reason w).task ≡ w.task
unfolding stop
stop-task reason w = ground arith

-- A reason that is set stays.
pub stop_keeps_reason :
    (reason r : StopReason) (w : Work)
    → w.stop_reason ≡ some r
    → (stop reason w).stop_reason ≡ some r
unfolding stop
stop_keeps_reason reason r w h = ground arith

stopped-IsFit :
    (reason : StopReason) (w : TextWork) → IsFit w → IsFit (record w { work = stop reason w.work })
stopped-IsFit reason w f = record {
  shape = f.shape;
  rests = λ h. ground (arith, f.rests h, stop-task reason w.work);
  cancelled_for = λ h. elim (Bool-cases (is_first_stop w.work)) [
    | inl first ↦ (reason, (stop-cancelled_first reason w.work first).1)
    | inr later ↦
        let (r, e) = f.cancelled_for (sym (stop-cancelled_later reason w.work later) ∙ h) in
        (r, stop_keeps_reason reason r w.work e)
  ];
  cut_for = λ h. let (r, e) = f.cut_for h in (r, stop_keeps_reason reason r w.work e);
}

module _ (c : Config) (k : ℕ) (others counting : ℕ → Option ℕ) (must : ℕ → Bool) where
  abbrev At : Places → Option ℕ → Option ℕ → Bool → Type 0
  At = KeptAt c k others counting must

  abbrev pub Stopped : StopReason → Places → TextWork → Type 0
  Stopped reason p w =
      (turn : Places × TextWork) × (stop_work reason p w ≡ some turn)
      × KeptFor c k others counting must turn.0 turn.1
      × IsFit turn.1

  stopping-At :
      (p : Places) (w : TextWork) (n : Option ℕ) (m : Bool)
      → (t : Option ℕ) → w.ticket ≡ t
      → At p t n m
      → (q : Places) × (stopping p w ≡ some q) × At q t n false
  unfolding stopping
  stopping-At p w n m none e v = (
    p,
    rw e refl,
    KeptAt-weaker c k others counting must p none n m false (λ h. absurd (ground arith)) v,
  )
  stopping-At p w n m (some i) e v = elim (Bool-cases (waits_at p.admission.tickets (some i))) [
    | inl waits ↦
        let (q, x, (_, z)) = ticket_leaves c k others counting must p i n m v in
        (q, rw e (rw waits x), z)
    | inr other ↦ (
      p,
      rw e (rw other refl),
      KeptAt-weaker c k others counting must p (some i) n m false (λ h. absurd (ground arith)) v,
    )
  ]

  cancelled-At :
      (p : Places) (w : TextWork) (t n : Option ℕ) (m : Bool)
      → At p t n m
      → (ph : Phase) → At (cancel_awaited ph p w) t n m
  cancelled-At p w t n m v awaits_count_place =
      count_cancelled c k others counting must p t n m v w.count_place
  cancelled-At p w t n m v awaits_place =
      ticket_cancelled c k others counting must p t n m v w.ticket
  cancelled-At p w t n m v created = v
  cancelled-At p w t n m v counts = v
  cancelled-At p w t n m v generates = v
  cancelled-At p w t n m v relays = v
  cancelled-At p w t n m v (ended o) = v
  cancelled-At p w t n m v (released o) = v

  first_stop :
      (reason : StopReason) (p : Places) (w : TextWork)
      → KeptFor c k others counting must p w
      → IsFit w
      → is_first_stop w.work ≡ true
      → Stopped reason p w
  unfolding stop_work
  first_stop reason p w v f first =
      let awaiting : is_awaiting w.phase ≡ true = elim (Bool-cases (is_awaiting w.phase)) [
        | inl a ↦ a
        | inr r ↦ absurd (ground (arith, f.rests r))
      ] in
      let (q, e, z) =
        stopping-At p w _ _ (ticket_in w.phase w.ticket)
          (sym (ticket_in_awaiting w.phase w.ticket awaiting)) v in
      let (marked, _) = stop-cancelled_first reason w.work first in
      (
        (cancel_awaited w.phase q w, record w { work = stop reason w.work }),
        rw first (rw e refl),
        rw marked (cancelled-At q w _ _ false z w.phase),
        stopped-IsFit reason w f,
      )

  pub stop_total :
      (reason : StopReason) (p : Places) (w : TextWork)
      → KeptFor c k others counting must p w
      → IsFit w
      → Stopped reason p w
  unfolding stop_work
  stop_total reason p w v f = elim (Bool-cases (is_first_stop w.work)) [
    | inl first ↦ first_stop reason p w v f first
    | inr later ↦ (
      (p, record w { work = stop reason w.work }),
      rw later refl,
      rw (stop-cancelled_later reason w.work later) v,
      stopped-IsFit reason w f,
    )
  ]
