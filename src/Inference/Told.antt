-- ===== src/Inference/Told.antt =====
-- What the client of a work is told when the work was stopped: the first stop decides.
use simple_serving.Prelude.{
  ℕ, ◌≡◌, refl, ◌∙◌, subst, arith, ◌||◌, inl, inr, true, false, none, some, get_elem?,
  get_elem?-set_cases, get_elem?-set_self, get_elem?-append_left, Option-cases, Bool-cases, ap, [],
  ◌∷◌,
}
use simple_serving.Errors.{timeout, engine_unavailable}
use simple_serving.Errors as Errors
use simple_serving.Config.{Config}
use simple_serving.Work.{
  StopReason, disconnect, shutdown, timed_out, draining, engine_changed, stop_code, running, stop,
}
use simple_serving.Inference.{
  TextWork, text_work, Phase, created, awaits_count_place, counts, awaits_place, generates, relays,
  ended, released, Outcome, cut_off, Places, finish, raised_at, leave_count_at, leave_ticket_at,
  cleanup,
}
use simple_serving.Inference.Stop.{
  Reply, silence, error, answer_outcome, stop_work, is_first_stop, stopping,
}
use simple_serving.Inference.Steps.{
  System, start, after_turn, Event, begins, count_place_granted, place_granted, cancel_arrives,
  breaks, cleans, count_answered, generate_answered, stream_ended, is_awaiting, is_ready, resume,
  move, Step, arrives, stops, moves, Reach, here, next,
}
use simple_serving.Inference.Fit.{cut_in}
use simple_serving.Inference.Runs.{Reach-IsKept}
use simple_serving.Inference.Stops.{stop_keeps_reason, stop-cancelled_first, stop-cancelled_later}

-- What a client is told of each reason: nothing if it left or the server shuts down.
abbrev pub told : StopReason → Reply
told disconnect = silence
told shutdown = silence
told timed_out = error timeout
told draining = error Errors.draining
told engine_changed = error engine_unavailable

-- The work was stopped while its task ran, first for that reason.
record WasStopped (reason : StopReason) (w : TextWork) : Type 0 where
  because : w.work.stop_reason ≡ some reason
  cancelled : w.work.cancelled ≡ true
  on_its_way : (is_awaiting w.phase || cut_in w.phase) ≡ true

raised_lem :
    (ph : Phase) (p : Places) (w : TextWork) (turn : Places × TextWork)
    → raised_at ph cut_off p w ≡ some turn
    → turn.1 ≡ finish cut_off w
raised_lem awaits_count_place p w turn h = elim (Option-cases (leave_count_at p w.count_place)) [
  | inl e ↦ absurd (ground arith)
  | inr (q, e) ↦ ground arith
]
raised_lem counts p w turn h = elim (Option-cases (leave_count_at p w.count_place)) [
  | inl e ↦ absurd (ground arith)
  | inr (q, e) ↦ ground arith
]
raised_lem created p w turn h = ground arith
raised_lem awaits_place p w turn h = ground arith
raised_lem generates p w turn h = ground arith
raised_lem relays p w turn h = ground arith
raised_lem (ended o) p w turn h = ground arith
raised_lem (released o) p w turn h = ground arith

-- From there the task is resumed by the cancellation alone, and then cleaned up.
resume-WasStopped :
    (reason : StopReason) (e : Event) (p : Places) (w : TextWork) (turn : Places × TextWork)
    → is_ready e p w ≡ true
    → resume e p w ≡ some turn
    → WasStopped reason w
    → WasStopped reason turn.1
unfolding is_ready resume cleanup
resume-WasStopped reason cancel_arrives p w turn a h v =
    rw (raised_lem w.phase p w turn h)
      (record { because = v.because; cancelled = v.cancelled; on_its_way = refl })
resume-WasStopped reason cleans p w turn a h v = elim (Option-cases (leave_ticket_at p w.ticket)) [
  | inl e ↦ absurd (ground arith)
  | inr (q, e) ↦ record {
    because = ground (arith, v.because);
    cancelled = ground (arith, v.cancelled);
    on_its_way = ground (arith, v.on_its_way);
  }
]
resume-WasStopped reason begins p w turn a h v = absurd (ground (arith, v.cancelled))
resume-WasStopped reason count_place_granted p w turn a h v = absurd (ground (arith, v.cancelled))
resume-WasStopped reason place_granted p w turn a h v = absurd (ground (arith, v.cancelled))
resume-WasStopped reason breaks p w turn a h v = absurd (ground (arith, v.cancelled))
resume-WasStopped reason (count_answered s r) p w turn a h v = absurd (ground (arith, v.cancelled))
resume-WasStopped reason (generate_answered r) p w turn a h v = absurd (ground (arith, v.cancelled))
resume-WasStopped reason (stream_ended id now alias feed) p w turn a h v =
    absurd (ground (arith, v.cancelled))

-- A later stop changes neither.
stop_work-WasStopped :
    (reason later : StopReason) (p : Places) (w : TextWork) (turn : Places × TextWork)
    → stop_work later p w ≡ some turn
    → WasStopped reason w
    → WasStopped reason turn.1
unfolding stop_work
stop_work-WasStopped reason later p w turn h v =
    let again : is_first_stop w.work ≡ false = ground (arith, v.because) in
    let same : turn ≡ (p, record w { work = stop later w.work }) = ground arith in
    rw same (record {
      because = stop_keeps_reason later reason w.work v.because;
      cancelled = stop-cancelled_later later w.work again ∙ v.cancelled;
      on_its_way = v.on_its_way;
    })

-- The work at `k` in a state.
abbrev StoppedAt : StopReason → ℕ → System → Type 0
StoppedAt reason k s = (w : TextWork) × (get_elem? s.works k ≡ some w) × WasStopped reason w

turn-StoppedAt :
    (reason : StopReason) (k i : ℕ) (s : System) (w : TextWork) (turn : Places × TextWork)
    → get_elem? s.works i ≡ some w
    → (WasStopped reason w → WasStopped reason turn.1)
    → StoppedAt reason k s
    → StoppedAt reason k (after_turn s i turn)
turn-StoppedAt reason k i s w turn g keeps (x, h, v) =
    elim (get_elem?-set_cases s.works i k w turn.1 x g h) [
      | inl old ↦ (x, old, v)
      | inr (same, new) ↦ (turn.1, new, keeps (subst (WasStopped reason) same v))
    ]

Step-StoppedAt :
    (reason : StopReason) (k : ℕ) {s t : System}
    → Step s t
    → StoppedAt reason k s
    → StoppedAt reason k t
Step-StoppedAt reason k {s} (arrives kind caller request work e) (x, h, v) = (
  x,
  ap (λ u. get_elem? u.works k) e
      ∙ get_elem?-append_left s.works (text_work kind caller request work ∷ []) k x h,
  v,
)
Step-StoppedAt reason k {s} (stops later i w turn g h e) v =
    rw e
      (turn-StoppedAt reason k i s w turn g (stop_work-WasStopped reason later s.places w turn h) v)
Step-StoppedAt reason k {s} (moves (move e i w turn g a h same)) v =
    rw same
      (turn-StoppedAt reason k i s w turn g (resume-WasStopped reason e s.places w turn a h) v)

run-StoppedAt :
    (reason : StopReason) (k : ℕ) {s t : System}
    → Reach s t
    → StoppedAt reason k s
    → StoppedAt reason k t
run-StoppedAt reason k here v = v
run-StoppedAt reason k (next r x) v = Step-StoppedAt reason k x (run-StoppedAt reason k r v)

first_stop-WasStopped :
    (reason : StopReason) (p : Places) (w : TextWork) (turn : Places × TextWork)
    → is_first_stop w.work ≡ true
    → is_awaiting w.phase ≡ true
    → stop_work reason p w ≡ some turn
    → WasStopped reason turn.1
unfolding stop_work
first_stop-WasStopped reason p w turn first a h = elim (Option-cases (stopping p w)) [
  | inl e ↦ absurd (ground arith)
  | inr (q, e) ↦
      let (marked, set_to) = stop-cancelled_first reason w.work first in
      let same : turn.1 ≡ record w { work = stop reason w.work } = ground arith in
      rw same (record { because = set_to; cancelled = marked; on_its_way = ground arith })
]

told_lem : (reason : StopReason) → answer_outcome cut_off (some reason) ≡ told reason
unfolding answer_outcome stop_code
told_lem disconnect = refl
told_lem shutdown = refl
told_lem timed_out = refl
told_lem draining = refl
told_lem engine_changed = refl

-- The first stop decides. In a reachable state a work whose task runs, and which has not been stopped
-- yet, is stopped for a reason. Whatever follows, later stops for other reasons included: once the
-- work has been cleaned up its task was cut off, and the answer to that is silence if the reason
-- was that the client left or that the server shuts down, and otherwise the error `timeout`,
-- `draining` or, for a changed engine, `engine_unavailable`.
pub first_stop_told :
    (c : Config) (s t : System) (k : ℕ) (w x : TextWork) (reason : StopReason)
    (turn : Places × TextWork) (o : Outcome)
    → Reach (start c) s
    → get_elem? s.works k ≡ some w
    → w.work.task ≡ running
    → w.work.stop_reason ≡ none
    → stop_work reason s.places w ≡ some turn
    → Reach (after_turn s k turn) t
    → get_elem? t.works k ≡ some x
    → x.phase ≡ released o
    → (o ≡ cut_off) × (answer_outcome o x.work.stop_reason ≡ told reason)
first_stop_told c s t k w x reason turn o r g run fresh h later g' e =
    let fit = (Reach-IsKept c r).fit k w g in
    let awaiting : is_awaiting w.phase ≡ true = elim (Bool-cases (is_awaiting w.phase)) [
      | inl a ↦ a
      | inr a ↦ absurd (ground (arith, fit.rests a))
    ] in
    let stopped = first_stop-WasStopped reason s.places w turn (ground arith) awaiting h in
    let (y, there, v) =
      run-StoppedAt reason k later (turn.1, get_elem?-set_self s.works k w turn.1 g, stopped) in
    let same : x ≡ y = ground arith in
    let cut : o ≡ cut_off = ground (arith, v.on_its_way) in
    (cut, rw (cut, same, v.because) (told_lem reason))
