-- ===== src/Inference/Turns.antt =====
-- Whatever event is ready: the task, or the cleanup after it, is resumed without an unexpected
-- exception, has fewer turns left, and what holds between the turns is kept.
use simple_serving.Prelude.{ℕ, ◌≡◌, refl, arith, Bool, true, Option, some}
use simple_serving.Errors.{Result, err, ok}
use simple_serving.Config.{Config}
use simple_serving.TextLane.{Service}
use simple_serving.Stream.{Usage, init}
use simple_serving.Relay.{relay}
use simple_serving.Inference.{
  TextWork, Places, awaits_count_place, counts, awaits_place, generates, relays, ended, cut_off,
  crashed, failed, after_count, counted, with_stream, with_end,
}
use simple_serving.Inference.Steps.{
  Event, begins, count_place_granted, place_granted, cancel_arrives, breaks, cleans, count_answered,
  generate_answered, stream_ended, is_ready, resume,
}
use simple_serving.Inference.Fit.{
  IsFit, rank, shape_at, KeptFor, Turned, kept_at, finishes, Turned-at,
}
use simple_serving.Inference.Keeps.{begins_turn, count_ends, no_ticket, after_count_turn}
use simple_serving.Inference.Endings.{ended_of, raised-Turn, cleanup-Turn}

module _ (c : Config) (k : ℕ) (others counting : ℕ → Option ℕ) (must : ℕ → Bool) where
  abbrev Kept : Places → TextWork → Type 0
  Kept = KeptFor c k others counting must

  abbrev Turn : Option (Places × TextWork) → ℕ → Type 0
  Turn = Turned c k others counting must

  counted-Turn :
      (s : Service) (answer : Result ℕ) (p : Places) (w : TextWork)
      → Kept p w
      → IsFit w
      → w.phase ≡ counts
      → Turn (counted s answer p w) (rank w.phase)
  unfolding counted
  counted-Turn s answer p w v f e =
      let (empty, at) = shape_at counts f e in
      count_ends c k others counting must p _ (rank w.phase) w.count_place
        (λ q. after_count s answer q w)
        (no_ticket c k others counting must w empty p _ _
          (kept_at c k others counting must p w counts v e))
        at (λ q z. after_count_turn c k others counting must s answer q w z f e)

  stream-Turn :
      (answer : Result (Unit {0})) (p : Places) (w : TextWork)
      → Kept p w
      → IsFit w
      → w.phase ≡ generates
      → Turn (some (p, with_stream answer w)) 3
  stream-Turn (err code) p w v f e =
      finishes c k others counting must (failed code) p w 3
        (kept_at c k others counting must p w generates v e) f (λ h. absurd (ground arith))
        (omega arith)
  stream-Turn (ok _) p w v f e = (
    _,
    refl,
    kept_at c k others counting must p w generates v e,
    record {
      shape = tt;
      rests = λ h. absurd (ground arith);
      cancelled_for = f.cancelled_for;
      cut_for = λ h. absurd (ground arith);
    },
    omega arith,
  )

  usage-Turn :
      (answer : Result Usage) (p : Places) (w : TextWork)
      → Kept p w
      → IsFit w
      → w.phase ≡ relays
      → Turn (some (p, with_end answer w)) 2
  usage-Turn (err code) p w v f e =
      finishes c k others counting must (failed code) p w 2
        (kept_at c k others counting must p w relays v e) f (λ h. absurd (ground arith))
        (omega arith)
  usage-Turn (ok u) p w v f e = (
    _,
    refl,
    kept_at c k others counting must p w relays v e,
    record {
      shape = tt;
      rests = λ _. refl;
      cancelled_for = f.cancelled_for;
      cut_for = λ h. absurd (ground arith);
    },
    omega arith,
  )

  pub resume_total :
      (e : Event) (p : Places) (w : TextWork)
      → KeptFor c k others counting must p w
      → IsFit w
      → is_ready e p w ≡ true
      → Turned c k others counting must (resume e p w) (rank w.phase)
  unfolding is_ready resume
  resume_total begins p w v f h = begins_turn c k others counting must p w v f (ground arith)
  resume_total (count_answered s r) p w v f h = counted-Turn s r p w v f (ground arith)
  resume_total cancel_arrives p w v f h =
      raised-Turn c k others counting must cut_off p w (λ _. f.cancelled_for (ground arith)) v f
        w.phase refl (ground arith)
  resume_total breaks p w v f h =
      raised-Turn c k others counting must crashed p w (λ x. absurd (ground arith)) v f w.phase refl
        (ground arith)
  resume_total cleans p w v f h =
      let (o, e) = ended_of w.phase h in
      Turned-at c k others counting must _ w (ended o) e
        (cleanup-Turn c k others counting must p w o v f e)
  resume_total (generate_answered r) p w v f h =
      let e : w.phase ≡ generates = ground arith in
      Turned-at c k others counting must _ w generates e (stream-Turn r p w v f e)
  resume_total (stream_ended id now alias feed) p w v f h =
      let e : w.phase ≡ relays = ground arith in
      Turned-at c k others counting must _ w relays e
        (usage-Turn (relay feed (init id now alias)).1.1 p w v f e)
  resume_total count_place_granted p w v f h =
      let e : w.phase ≡ awaits_count_place = ground arith in
      (
        _,
        refl,
        kept_at c k others counting must p w awaits_count_place v e,
        record {
          shape = shape_at awaits_count_place f e;
          rests = λ x. absurd (ground arith);
          cancelled_for = f.cancelled_for;
          cut_for = λ x. absurd (ground arith);
        },
        rw e (omega arith),
      )
  resume_total place_granted p w v f h =
      let e : w.phase ≡ awaits_place = ground arith in
      (
        _,
        refl,
        kept_at c k others counting must p w awaits_place v e,
        record {
          shape = tt;
          rests = λ x. absurd (ground arith);
          cancelled_for = f.cancelled_for;
          cut_for = λ x. absurd (ground arith);
        },
        rw e (omega arith),
      )
