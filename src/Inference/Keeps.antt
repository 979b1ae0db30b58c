-- ===== src/Inference/Keeps.antt =====
-- The turns of a task that waits for a place, or that is counted: none raises an unexpected exception,
-- and each keeps what holds between the turns.
use simple_serving.Prelude.{
  ℕ, ◌≡◌, refl, sym, subst, arith, inl, inr, Bool, not, Option, none, some, ◌<◌, ◌>>=◌,
}
use simple_serving.Errors.{Result, err, ok, Result-cases}
use simple_serving.Config.{Config}
use simple_serving.TextLane.{Service, Kind, count, generation, check_input}
use simple_serving.Admission as Generations
use simple_serving.CountPlaces as Counts
use simple_serving.Inference.{
  TextWork, Places, created, counts, ended_well, failed, owner, enter_count, leave_count_at,
  if_fits, with_count, after_count,
}
use simple_serving.Inference.Effects.{KeptAt, count_leaves, count_enters, ticket_enters}
use simple_serving.Inference.Fit.{
  IsFit, rank, shape_at, KeptFor, Turned, kept_at, finishes, Turned-at,
}

module _ (c : Config) (k : ℕ) (others counting : ℕ → Option ℕ) (must : ℕ → Bool) where
  pub begins_turn :
      (p : Places) (w : TextWork)
      → KeptFor c k others counting must p w
      → IsFit w
      → w.phase ≡ created
      → Turned c k others counting must (some (enter_count p w)) (rank w.phase)
  unfolding enter_count
  begins_turn p w v f e =
      let kept = kept_at c k others counting must p w created v e in
      elim (Result-cases (Counts.enter p.count_places w.caller.cls (owner w))) [
        | inl ((r, i), x) ↦ (
          _,
          refl,
          rw x (
              count_enters c k others counting must p p r w.ticket _ w.caller.cls (owner w) i x
                kept),
          rw x (record {
            shape = (shape_at created f e, (i, refl));
            rests = λ h. absurd (ground arith);
            cancelled_for = f.cancelled_for;
            cut_for = λ h. absurd (ground arith);
          }),
          rw (x, e) (omega arith),
        )
        | inr (code, x) ↦
            rw (x, e)
              (finishes c k others counting must (failed code) p w 7 kept f
                (λ h. absurd (ground arith)) (omega arith))
      ]

  -- However a count ends, it gives its place back.
  pub count_ends :
      (p : Places) (m : Bool) (n : ℕ) (x : Option ℕ) (next : Places → Places × TextWork)
      → KeptAt c k others counting must p none x m
      → ((i : ℕ) × (x ≡ some i))
      → ((q : Places)
          → KeptAt c k others counting must q none none m
          → Turned c k others counting must (some (next q)) n)
      → Turned c k others counting must (leave_count_at p x >>= λ q. some (next q)) n
  count_ends p m n none next v (i, at) h = absurd (ground arith)
  count_ends p m n (some i) next v _ h =
      let (q, e, kept) = count_leaves c k others counting must p none i m v in rw e (h q kept)

  pub no_ticket :
      (w : TextWork)
      → w.ticket ≡ none
      → (p : Places) (n : Option ℕ) (m : Bool) → KeptAt c k others counting must p w.ticket n m
      → KeptAt c k others counting must p none n m
  no_ticket w e p n m v = subst (λ x. KeptAt c k others counting must p x n m) e v

  pub own_ticket :
      (w : TextWork)
      → w.ticket ≡ none
      → (p : Places) (n : Option ℕ) (m : Bool) → KeptAt c k others counting must p none n m
      → KeptAt c k others counting must p w.ticket n m
  own_ticket w e p n m v = subst (λ x. KeptAt c k others counting must p x n m) (sym e) v

  -- What a generation does after its count.
  enters_turn :
      (p : Places) (w : TextWork) (n : ℕ)
      → KeptAt c k others counting must p none none (not w.work.cancelled)
      → IsFit w
      → w.ticket ≡ none
      → 4 < n
      → (fit : Result (Unit {0})) → Turned c k others counting must (some (if_fits p w fit)) n
  enters_turn p w n v f e less (err code) =
      finishes c k others counting must (failed code) p w n (own_ticket w e p none _ v) f
        (λ h. absurd (ground arith)) (omega arith)
  enters_turn p w n v f e less (ok _) =
      elim (Result-cases (Generations.enter p.admission w.caller.cls (owner w))) [
        | inl ((a, i), x) ↦ (
          _,
          refl,
          rw x (ticket_enters c k others counting must p a none _ w.caller.cls (owner w) i x v),
          rw x (record {
            shape = (i, refl);
            rests = λ h. absurd (ground arith);
            cancelled_for = f.cancelled_for;
            cut_for = λ h. absurd (ground arith);
          }),
          rw x less,
        )
        | inr (code, x) ↦ rw x (
            finishes c k others counting must (failed code) p w n (own_ticket w e p none _ v) f
              (λ h. absurd (ground arith)) (omega arith))
      ]

  pub after_count_turn :
      (s : Service) (answer : Result ℕ) (p : Places) (w : TextWork)
      → KeptAt c k others counting must p none none (not w.work.cancelled)
      → IsFit w
      → w.phase ≡ counts
      → Turned c k others counting must (some (after_count s answer p w)) (rank w.phase)
  after_count_turn s (err code) p w v f e =
      let (none_yet, _) = shape_at counts f e in
      rw e (
        finishes c k others counting must (failed code) p w 5 (own_ticket w none_yet p none _ v) f
          (λ h. absurd (ground arith)) (omega arith))
  after_count_turn s (ok n) p w v f e =
      let (none_yet, _) = shape_at counts f e in
      Turned-at c k others counting must _ w counts e (by_kind w.kind none_yet)
    where
      by_kind :
          (kind : Kind)
          → w.ticket ≡ none
          → Turned c k others counting must (some (with_count kind s n p w)) 5
      by_kind count none_yet =
          finishes c k others counting must ended_well p (record w { input_tokens = some n }) 5
            (own_ticket w none_yet p none _ v)
            (record {
              shape = f.shape;
              rests = f.rests;
              cancelled_for = f.cancelled_for;
              cut_for = f.cut_for;
            })
            (λ h. absurd (ground arith)) (omega arith)
      by_kind generation none_yet =
          enters_turn p (record w { input_tokens = some n }) 5 v
            (record {
              shape = f.shape;
              rests = f.rests;
              cancelled_for = f.cancelled_for;
              cut_for = f.cut_for;
            })
            none_yet (omega arith) (check_input s w.caller n w.request.max_tokens)
