-- ===== src/TextLane.antt =====
-- The text lane's part of simple_serving/service.py: `Service`, with the checks of a request and
-- the engine's context length; the order of the checks is that of simple_serving/routes.py.
pub mod Guards
pub mod Checks
pub mod Length
pub mod Received
pub mod Examples
use simple_serving.Prelude.{
  ℕ, ◌+◌, Bool, true, false, ◌&&◌, not, Option, none, some, List, [], ◌∷◌, Text, text_eq, codes,
  ltb, ◌==◌, if◌then◌else◌,
}
use simple_serving.Errors.{
  body_too_large, timeout, Code, Result, ok, err, ◌>>=◌, ◌>>◌, limit_exceeded, context_limit,
  min_p_unavailable, thinking_budget_unavailable, invalid_request, vision_not_allowed,
  internal_error,
}
use simple_serving.Config.{ServiceClass, Config, ClassLimits}
use simple_serving.Json.{Json, Fields, ℤ, pos, Number, whole, real, number_gt, is_zero}
use simple_serving.Policy.{Caller, salt_input}
use simple_serving.Engine.{generation_payload}
use simple_serving.Body.{Incoming, Body, whole_body, too_large, client_gone, unfinished, read_body}
use simple_serving.Chat.{ChatRequest, parse_json, check_chat}
use simple_serving.Work.{Work}
use simple_serving.Lifecycle.{Lifecycle, accept, first_verified, engine_ready, engine_changes}

pub record Service : Type 0 where
  pub config : Config
  pub life : Lifecycle
  pub context_tokens : Option ℕ
  pub engine_length : Option ℕ

-- `__init__`
unfoldable pub init : Config → Lifecycle → Service
init config life = record {
  config = config;
  life = life;
  context_tokens = none;
  engine_length = none;
}

unfoldable pub check_max_tokens : Service → Caller → ChatRequest → Result (Unit {0})
check_max_tokens s caller request =
    let l = s.config.limits caller.cls in
    if ltb l.max_tokens request.max_tokens then err limit_exceeded else ok tt

unfoldable pub min_p_refused : Config → Bool
min_p_refused config = config.speculative && not config.min_p_while_drafting

-- `sampling.get(name, default)`
abbrev pub sampling_get : Text → List (Text × Number) → Number → Number
sampling_get name [] default = default
sampling_get name (f ∷ fs) default =
    let rest = sampling_get name fs default in if text_eq f.0 name then f.1 else rest

-- `MIN_P_EPS`: the double nearest to 1e-5, which is 5902958103587057 / 2 ^ 69.
abbrev pub min_p_eps : Number
min_p_eps = real (pos 5902958103587057) 590295810358705651711

unfoldable pub check_min_p : Service → ChatRequest → Result (Unit {0})
check_min_p s request =
    if min_p_refused s.config
      && (number_gt (sampling_get (codes "min_p") request.sampling (whole (pos 0))) min_p_eps
          && not (is_zero (sampling_get (codes "temperature") request.sampling (whole (pos 1)))))
    then err min_p_unavailable
    else ok tt

abbrev pub budget_within : Bool → ℕ → Option ℕ → Result (Unit {0})
budget_within on limit none = ok tt
budget_within on limit (some budget) =
    if not on
    then err thinking_budget_unavailable
    else if ltb limit budget
    then err invalid_request
    else ok tt

unfoldable pub check_thinking_budget : Service → Caller → ChatRequest → Result (Unit {0})
check_thinking_budget s caller request =
    let l = s.config.limits caller.cls in
    budget_within s.config.thinking_budget l.max_tokens request.thinking_token_budget

-- `limit is not None and input_tokens > limit`
abbrev pub over_limit : Option ℕ → ℕ → Bool
over_limit none n = false
over_limit (some limit) n = ltb limit n

-- Without a context length the assertion fails, which the client sees as `internal_error`.
abbrev pub within_context : Option ℕ → ℕ → Result (Unit {0})
within_context none n = err internal_error
within_context (some context) n = if ltb context n then err context_limit else ok tt

unfoldable pub check_input : Service → Caller → ℕ → ℕ → Result (Unit {0})
check_input s caller input_tokens max_tokens =
    let l = s.config.limits caller.cls in
    if over_limit l.input_tokens input_tokens
    then err limit_exceeded
    else within_context s.context_tokens (input_tokens + max_tokens)

pub data Kind : Type 0 where
  count generation : Kind

-- The checks of a generation before it is accepted; a count has none of them.
unfoldable pub check_kind : Kind → Service → Caller → ChatRequest → Result (Unit {0})
check_kind count s caller request = ok tt
check_kind generation s caller request = do
  check_max_tokens s caller request
  check_min_p s request
  check_thinking_budget s caller request

-- `_inference` from the checked body to the acceptance.
unfoldable pub prepare : Kind → Caller → ChatRequest → Work → Service → Result Service
prepare kind caller request work s =
    if ltb 0 request.pictures && not caller.key.vision then err vision_not_allowed else do
      check_kind kind s caller request
      life ← accept work s.life
      ok (record s { life = life })

abbrev pub body_bytes : Body → Result (List ℕ)
body_bytes (whole_body bytes) = ok bytes
body_bytes too_large = err body_too_large
body_bytes client_gone = err internal_error
body_bytes unfinished = err timeout

-- `_inference` from the reading of the body to the acceptance. A client that leaves gets no answer,
-- which is `internal_error` here; a body that is not read in time is refused with `timeout`.
unfoldable pub received :
    (List ℕ → Option Json)
    → (Text → Option (List ℕ))
    → Kind
    → Caller
    → Text
    → List Incoming
    → Work
    → Service
    → Result (ChatRequest × Service)
received loads b64decode kind caller said messages work s = do
  raw ← body_bytes (read_body s.config.body_limit_bytes said messages)
  body ← parse_json loads raw
  request ← check_chat b64decode s.config.alias s.config.vision body
  t ← prepare kind caller request work s
  ok (request, t)

abbrev pub smaller : ℕ → Option ℕ → ℕ
smaller length none = length
smaller length (some limit) = if ltb limit length then limit else length

abbrev pub first_answer : ℕ → Option ℕ → Service → Service
first_answer now none s = s
first_answer now (some length) s = record s {
  engine_length = some length;
  context_tokens = some (smaller length s.config.context_tokens);
  life = engine_ready (first_verified now s.life);
}

abbrev pub same_length : Option ℕ → ℕ → Bool
same_length none known = false
same_length (some length) known = length == known

abbrev pub later_answer : ℕ → Option ℕ → Service → Service
later_answer known length s =
    if same_length length known
    then record s { life = engine_ready s.life }
    else record s { life = engine_changes s.life }

abbrev pub by_known : Option ℕ → ℕ → Option ℕ → Service → Service
by_known none now length s = first_answer now length s
by_known (some known) now length s = later_answer known length s

-- `_engine_answered`, at the event loop's time.
unfoldable pub engine_answered : ℕ → Option ℕ → Service → Service
engine_answered now length s = by_known s.engine_length now length s

-- `payload`, where `hmac` is the salt of a salt text under the secret of this start.
unfoldable pub payload : (Text → Text) → Service → Caller → ChatRequest → Fields
payload hmac s caller request =
    generation_payload s.config.alias request (s.config.engine_priority caller.cls)
      (hmac (salt_input caller))

-- `models`: the context length that it lists.
unfoldable pub models : Service → Result ℕ
models s = elim s.context_tokens [ none ↦ err Code.starting | some n ↦ ok n ]
