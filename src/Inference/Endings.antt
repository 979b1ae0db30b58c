-- ===== src/Inference/Endings.antt =====
-- The ends of a task: an exception at any await, and the cleanup that follows.
use simple_serving.Prelude.{
  ℕ, ◌≡◌, refl, sym, subst, arith, Bool, true, false, not, Option, none, some,
}
use simple_serving.Config.{Config}
use simple_serving.Inference.{
  TextWork, Places, Phase, created, awaits_count_place, counts, awaits_place, generates, relays,
  ended, released, Outcome, finish, raised_at, leave_ticket_at, cleanup, cleaned,
}
use simple_serving.Inference.Steps.{is_awaiting, is_ended}
use simple_serving.Inference.Effects.{KeptAt, ticket_leaves}
use simple_serving.Inference.Fit.{
  HasReason, IsShaped, IsFit, ticket_in, count_in, rank, shape_at, is_cut, KeptFor, Turned, kept_at,
  finishes,
}
use simple_serving.Inference.Keeps.{count_ends, no_ticket, own_ticket}

pub ended_of : (ph : Phase) → is_ended ph ≡ true → (o : Outcome) × (ph ≡ ended o)
ended_of (ended o) h = (o, refl)
ended_of (released o) h = absurd (ground arith)
ended_of created h = absurd (ground arith)
ended_of awaits_count_place h = absurd (ground arith)
ended_of counts h = absurd (ground arith)
ended_of awaits_place h = absurd (ground arith)
ended_of generates h = absurd (ground arith)
ended_of relays h = absurd (ground arith)

module _ (c : Config) (k : ℕ) (others counting : ℕ → Option ℕ) (must : ℕ → Bool) where
  abbrev Kept : Places → TextWork → Type 0
  Kept = KeptFor c k others counting must

  abbrev Turn : Option (Places × TextWork) → ℕ → Type 0
  Turn = Turned c k others counting must

  -- An exception at any await.
  pub raised-Turn :
      (o : Outcome) (p : Places) (w : TextWork)
      → (is_cut o ≡ true → HasReason w)
      → Kept p w
      → IsFit w
      → (ph : Phase) → w.phase ≡ ph
      → is_awaiting ph ≡ true
      → Turn (raised_at ph o p w) (rank ph)
  raised-Turn o p w h v f created e a =
      finishes c k others counting must o p w 7 (kept_at c k others counting must p w created v e) f
        h (omega arith)
  raised-Turn o p w h v f awaits_count_place e a =
      let (empty, at) = shape_at awaits_count_place f e in
      count_ends c k others counting must p _ 6 w.count_place (λ q. (q, finish o w))
        (no_ticket c k others counting must w empty p _ _
          (kept_at c k others counting must p w awaits_count_place v e))
        at
        (λ q z.
          finishes c k others counting must o q w 6
            (own_ticket c k others counting must w empty q _ _ z) f h (omega arith))
  raised-Turn o p w h v f counts e a =
      let (empty, at) = shape_at counts f e in
      count_ends c k others counting must p _ 5 w.count_place (λ q. (q, finish o w))
        (no_ticket c k others counting must w empty p _ _
          (kept_at c k others counting must p w counts v e))
        at
        (λ q z.
          finishes c k others counting must o q w 5
            (own_ticket c k others counting must w empty q _ _ z) f h (omega arith))
  raised-Turn o p w h v f awaits_place e a =
      finishes c k others counting must o p w 4
        (kept_at c k others counting must p w awaits_place v e) f h (omega arith)
  raised-Turn o p w h v f generates e a =
      finishes c k others counting must o p w 3 (kept_at c k others counting must p w generates v e)
        f h (omega arith)
  raised-Turn o p w h v f relays e a =
      finishes c k others counting must o p w 2 (kept_at c k others counting must p w relays v e) f
        h (omega arith)
  raised-Turn o p w h v f (ended x) e a = absurd (ground arith)
  raised-Turn o p w h v f (released x) e a = absurd (ground arith)

  ticket_ends :
      (p : Places) (m : Bool) (x : Option ℕ)
      → KeptAt c k others counting must p x none m
      → (q : Places) × (leave_ticket_at p x ≡ some q)
        × KeptAt c k others counting must q none none m
  ticket_ends p m none v = (p, refl, v)
  ticket_ends p m (some i) v =
      let (q, e, (z, _)) = ticket_leaves c k others counting must p i none m v in (q, e, z)

  pub cleanup-Turn :
      (p : Places) (w : TextWork) (o : Outcome)
      → Kept p w
      → IsFit w
      → w.phase ≡ ended o
      → Turn (cleanup p w) 1
  unfolding cleanup
  cleanup-Turn p w o v f e =
      let (q, x, z) =
        ticket_ends p _ w.ticket (kept_at c k others counting must p w (ended o) v e) in
      rw x (
        (q, record w { stream = false; phase = cleaned w.phase }),
        refl,
        subst
            (λ ph.
              KeptAt c k others counting must q (ticket_in (cleaned ph) w.ticket)
                (count_in (cleaned ph) w.count_place) (not w.work.cancelled))
            (sym e) z,
        record {
          shape = subst (λ ph. IsShaped (cleaned ph) w.ticket w.count_place) (sym e) tt;
          rests = λ h. f.rests (ground arith);
          cancelled_for = f.cancelled_for;
          cut_for = λ h. f.cut_for (ground arith);
        },
        ground arith,
      )
