-- ===== src/Errors.antt =====
-- simple_serving/errors.py: the error codes, their HTTP status, and the result of code that may
-- raise `ServiceError`.
use simple_serving.Prelude.{ℕ, ◌≡◌, ◌≢◌, refl, ◌⊎◌, inl, inr}

pub data Code : Type 0 where
  invalid_request unsupported_field limit_exceeded context_limit min_p_unavailable : Code
  thinking_budget_unavailable graph_refused graph_rejected unauthorized : Code
  class_not_allowed scope_not_allowed vision_not_allowed forbidden not_found : Code
  stale_boot stale_generation sleep_pending body_too_large queue_full : Code
  internal_error picture_failed starting draining drained engine_unavailable : Code
  socket_unavailable stop_unconfirmed timeout : Code

-- `err` is a raised `ServiceError`.
pub data Result {ℓ} (A : Type ℓ) : Type ℓ where
  err : Code → Result A
  ok : A → Result A

-- What follows runs on the value, and not at all after a `ServiceError`.
infixl 5 ◌>>=◌
abbrev pub ◌>>=◌ {ℓ κ} :
    {Value : Type ℓ} {Next : Type κ} → Result Value → (Value → Result Next) → Result Next
err code >>= rest = err code
ok value >>= rest = rest value

-- A check, and what follows it.
infixl 5 ◌>>◌
abbrev pub ◌>>◌ {ℓ} : {Next : Type ℓ} → Result (Unit {0}) → Result Next → Result Next
check >> rest = check >>= λ _. rest

-- `STATUS`.
pub status : Code → ℕ
status invalid_request = 400
status unsupported_field = 400
status limit_exceeded = 400
status context_limit = 400
status min_p_unavailable = 400
status thinking_budget_unavailable = 400
status graph_refused = 400
status graph_rejected = 400
status unauthorized = 401
status class_not_allowed = 403
status scope_not_allowed = 403
status vision_not_allowed = 403
status forbidden = 403
status not_found = 404
status stale_boot = 409
status stale_generation = 409
status sleep_pending = 409
status body_too_large = 413
status queue_full = 429
status internal_error = 500
status picture_failed = 500
status starting = 503
status draining = 503
status drained = 503
status engine_unavailable = 503
status socket_unavailable = 503
status stop_unconfirmed = 503
status timeout = 504

pub Result-cases {ℓ} :
    {A : Type ℓ} (r : Result A) → ((a : A) × (r ≡ ok a)) ⊎ ((e : Code) × (r ≡ err e))
Result-cases (ok a) = inl (a, refl)
Result-cases (err e) = inr (e, refl)

pub ok_ne_err {ℓ} : {A : Type ℓ} {a : A} {e : Code} → ok a ≢ err e
ok_ne_err h = cc

-- What comes out of a step and what follows it, the step gave first.
pub bind_ok {ℓ κ} :
    {A : Type ℓ} {B : Type κ} (r : Result A) (f : A → Result B) (b : B)
    → (r >>= f) ≡ ok b
    → (a : A) × ((r ≡ ok a) × (f a ≡ ok b))
bind_ok (err e) f b h = cc
bind_ok (ok a) f b h = (a, (refl, h))
