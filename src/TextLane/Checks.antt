-- ===== src/TextLane/Checks.antt =====
-- What the checks of a generation hold it to.
use simple_serving.Prelude.{
  ℕ, ◌+◌, ◌≤◌, ◌≡◌, ◌⊎◌, refl, ◌∙◌, arith, true, false, ◌&&◌, not, some, codes, ltb,
}
use simple_serving.Errors.{ok, ◌>>◌, ◌>>=◌, limit_exceeded, vision_not_allowed}
use simple_serving.Json.{pos, whole, number_gt, is_zero}
use simple_serving.Policy.{Caller}
use simple_serving.Chat.{ChatRequest}
use simple_serving.Work.{Work}
use simple_serving.Lifecycle.{Status, status, accept}
use simple_serving.TextLane.{
  Service, check_max_tokens, min_p_refused, check_min_p, check_thinking_budget, check_input,
  over_limit, within_context, check_kind, generation, prepare, sampling_get, min_p_eps,
}
use simple_serving.TextLane.Guards.{
  Within, BudgetWithin, decided, within_ok, under_limit, fits_context, pictures_ok, both_ok,
  past_guard, accept_ok, with_life,
}

-- A generation that the text lane may hand to its engine.
pub record IsChecked (s : Service) (caller : Caller) (request : ChatRequest) (input : ℕ)
    : Type 0 where
  pub serves : status s.life ≡ Status.ready
  pub pictures_allowed : (request.pictures ≡ 0) ⊎ (caller.key.vision ≡ true)
  pub output_within : request.max_tokens ≤ (s.config.limits caller.cls).max_tokens
  pub input_within : Within (s.config.limits caller.cls).input_tokens input
  pub budget_within_class :
      BudgetWithin s.config.thinking_budget
        (s.config.limits caller.cls).max_tokens
        request.thinking_token_budget
  pub min_p_served :
      (min_p_refused s.config ≡ false)
      ⊎ ((number_gt (sampling_get (codes "min_p") request.sampling (whole (pos 0))) min_p_eps
            ≡ false)
          ⊎ (is_zero (sampling_get (codes "temperature") request.sampling (whole (pos 1))) ≡ true))
  pub fits :
      (context : ℕ) × ((s.context_tokens ≡ some context) × (input + request.max_tokens ≤ context))

module _ (s : Service) (caller : Caller) (request : ChatRequest) where
  max_tokens_ok :
      check_max_tokens s caller request ≡ ok tt
      → request.max_tokens ≤ (s.config.limits caller.cls).max_tokens
  unfolding check_max_tokens
  max_tokens_ok h = ground arith

  min_p_ok :
      check_min_p s request ≡ ok tt
      → (min_p_refused s.config ≡ false)
        ⊎ ((number_gt (sampling_get (codes "min_p") request.sampling (whole (pos 0))) min_p_eps
              ≡ false)
            ⊎ (is_zero (sampling_get (codes "temperature") request.sampling (whole (pos 1)))
                ≡ true))
  unfolding check_min_p
  min_p_ok h =
      decided (min_p_refused s.config)
        (number_gt (sampling_get (codes "min_p") request.sampling (whole (pos 0))) min_p_eps)
        (is_zero (sampling_get (codes "temperature") request.sampling (whole (pos 1)))) h

  budget_ok :
      check_thinking_budget s caller request ≡ ok tt
      → BudgetWithin s.config.thinking_budget
          (s.config.limits caller.cls).max_tokens
          request.thinking_token_budget
  unfolding check_thinking_budget
  budget_ok h =
      within_ok s.config.thinking_budget (s.config.limits caller.cls).max_tokens
        request.thinking_token_budget h

  input_ok :
      (input max : ℕ)
      → check_input s caller input max ≡ ok tt
      → Within (s.config.limits caller.cls).input_tokens input
        × ((context : ℕ) × ((s.context_tokens ≡ some context) × (input + max ≤ context)))
  unfolding check_input
  input_ok input max h =
      let limit = (s.config.limits caller.cls).input_tokens in
      let k =
        past_guard (over_limit limit input) limit_exceeded
          (within_context s.context_tokens (input + max)) tt h in
      (under_limit limit input k.0, fits_context s.context_tokens (input + max) k.1)

  kind_ok :
      check_kind generation s caller request ≡ ok tt
      → (check_max_tokens s caller request ≡ ok tt)
        × ((check_min_p s request ≡ ok tt) × (check_thinking_budget s caller request ≡ ok tt))
  unfolding check_kind
  kind_ok h =
      let k =
        both_ok (check_max_tokens s caller request)
          (check_min_p s request >> check_thinking_budget s caller request) tt h in
      (k.0, both_ok (check_min_p s request) (check_thinking_budget s caller request) tt k.1)

  prepare_ok :
      (work : Work) (t : Service)
      → prepare generation caller request work s ≡ ok t
      → (check_kind generation s caller request ≡ ok tt)
        × ((status s.life ≡ Status.ready)
            × (((request.pictures ≡ 0) ⊎ (caller.key.vision ≡ true))
                × ((t.config ≡ s.config) × (t.context_tokens ≡ s.context_tokens))))
  unfolding prepare
  prepare_ok work t h =
      let no_vision = ltb 0 request.pictures && not caller.key.vision in
      let accepted = accept work s.life >>= λ life. ok (record s { life = life }) in
      let past =
        past_guard no_vision vision_not_allowed (check_kind generation s caller request >> accepted)
          t h in
      let both = both_ok (check_kind generation s caller request) accepted t past.1 in
      let last = with_life s t work (accept work s.life) both.1 in
      (
        both.0,
        (
          accept_ok work s.life last.0.0 last.0.1,
          (pictures_ok request.pictures caller.key.vision past.0, last.1),
        ),
      )

check_input_same :
    (s t : Service) (caller : Caller) (input max : ℕ)
    → t.config ≡ s.config
    → t.context_tokens ≡ s.context_tokens
    → check_input s caller input max ≡ check_input t caller input max
unfolding check_input
check_input_same s t caller input max e f = rw (e, f) refl

-- A generation that `prepare` accepts with `t` and that passes `check_input` there with its count
-- `input`, in any state: the service serves at the acceptance, the output and the thinking budget
-- stay within the class, the count within the class's input limit, a picture has a key that may
-- send it, `min_p` is not sent where drafting refuses it, unless the temperature is 0, and the
-- prompt with the whole output fits the context.
pub generation-IsChecked :
    (s t : Service) (caller : Caller) (request : ChatRequest) (work : Work) (input : ℕ)
    → prepare generation caller request work s ≡ ok t
    → check_input t caller input request.max_tokens ≡ ok tt
    → IsChecked s caller request input
generation-IsChecked s t caller request work input h k =
    let p = prepare_ok s caller request work t h in
    let c = kind_ok s caller request p.0 in
    let same = check_input_same s t caller input request.max_tokens p.1.1.1.0 p.1.1.1.1 in
    let i = input_ok s caller request input request.max_tokens (same ∙ k) in
    record {
      serves = p.1.0;
      pictures_allowed = p.1.1.0;
      output_within = max_tokens_ok s caller request c.0;
      input_within = i.0;
      budget_within_class = budget_ok s caller request c.1.1;
      min_p_served = min_p_ok s caller request c.1.0;
      fits = i.1;
    }
