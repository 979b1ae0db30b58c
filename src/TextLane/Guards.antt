-- ===== src/TextLane/Guards.antt =====
-- What it means that one check of a request passes.
use simple_serving.Prelude.{
  ℕ, ◌≤◌, ◌≡◌, ◌⊎◌, inl, inr, refl, sym, ap, arith, Bool, true, false, ◌&&◌, not, Option, none,
  some, ◌∷◌, ltb, if◌then◌else◌,
}
use simple_serving.Errors.{Code, Result, ok, err, ◌>>◌, ◌>>=◌, min_p_unavailable, ok_ne_err}
use simple_serving.Config.{Config}
use simple_serving.Work.{Work, Task}
use simple_serving.Lifecycle.{Lifecycle, Status, status, serving, check_serving, accept}
use simple_serving.TextLane.{Service, budget_within, over_limit, within_context}

-- At most a limit, where there is one.
abbrev pub Within : Option ℕ → ℕ → Type 0
Within none n = Unit
Within (some l) n = n ≤ l

-- A thinking budget needs the feature, and stays within the class.
abbrev pub BudgetWithin : Bool → ℕ → Option ℕ → Type 0
BudgetWithin on limit none = Unit
BudgetWithin on limit (some b) = (on ≡ true) × (b ≤ limit)

-- The test of `check_min_p`, on its three conditions.
pub decided :
    (refused eps cold : Bool)
    → (if refused && (eps && not cold) then err min_p_unavailable else ok (tt {0})) ≡ ok (tt {0})
    → (refused ≡ false) ⊎ ((eps ≡ false) ⊎ (cold ≡ true))
decided false eps cold h = inl refl
decided true false cold h = inr (inl refl)
decided true true true h = inr (inr refl)
decided true true false h = absurd (ok_ne_err (sym h))

pub within_ok :
    (on : Bool) (limit : ℕ) (o : Option ℕ)
    → budget_within on limit o ≡ ok tt
    → BudgetWithin on limit o
within_ok on limit none h = tt
within_ok on limit (some b) h = ground arith

pub under_limit : (l : Option ℕ) (n : ℕ) → over_limit l n ≡ false → Within l n
under_limit none n h = tt
under_limit (some l) n h = ground arith

pub fits_context :
    (context : Option ℕ) (n : ℕ)
    → within_context context n ≡ ok tt
    → (c : ℕ) × ((context ≡ some c) × (n ≤ c))
fits_context none n h = absurd (ok_ne_err (sym h))
fits_context (some c) n h = (c, (refl, ground arith))

pub pictures_ok :
    (n : ℕ) (vision : Bool) → (ltb 0 n && not vision) ≡ false → (n ≡ 0) ⊎ (vision ≡ true)
pictures_ok n true h = inr refl
pictures_ok n false h = inl (ground arith)

pub both_ok {ℓ} :
    {B : Type ℓ} (m : Result (Unit {0})) (k : Result B) (b : B)
    → m >> k ≡ ok b
    → (m ≡ ok tt) × (k ≡ ok b)
both_ok (ok tt) k b h = (refl, h)
both_ok (err e) k b h = absurd (ok_ne_err (sym h))

pub past_guard {ℓ} :
    {B : Type ℓ} (c : Bool) (e : Code) (k : Result B) (b : B)
    → (if c then err e else k) ≡ ok b
    → (c ≡ false) × (k ≡ ok b)
past_guard true e k b h = absurd (ok_ne_err (sym h))
past_guard false e k b h = (refl, h)

pub serving_ok : (x : Status) → serving x ≡ ok tt → x ≡ Status.ready
serving_ok Status.ready h = refl
serving_ok Status.starting h = absurd (ok_ne_err (sym h))
serving_ok Status.failed h = absurd (ok_ne_err (sym h))
serving_ok Status.draining h = absurd (ok_ne_err (sym h))
serving_ok Status.drained h = absurd (ok_ne_err (sym h))

pub accept_ok : (work : Work) (l m : Lifecycle) → accept work l ≡ ok m → status l ≡ Status.ready
unfolding accept check_serving
accept_ok work l m h =
    serving_ok (status l)
      (both_ok (serving (status l))
        (ok (record l { work = record work { task = Task.running } ∷ l.work; no_work = false })) m
        h).0

abbrev config_or : Service → Result Service → Config
config_or s (ok t) = t.config
config_or s (err e) = s.config

abbrev context_or : Service → Result Service → Option ℕ
context_or s (ok t) = t.context_tokens
context_or s (err e) = s.context_tokens

-- The state after the acceptance has the same configuration and context.
pub with_life :
    (s t : Service) (work : Work) (r : Result Lifecycle)
    → (r >>= λ life. ok (record s { life = life })) ≡ ok t
    → ((l : Lifecycle) × (r ≡ ok l))
      × ((t.config ≡ s.config) × (t.context_tokens ≡ s.context_tokens))
with_life s t work (ok l) h = ((l, refl), (sym (ap (config_or s) h), sym (ap (context_or s) h)))
with_life s t work (err e) h = absurd (ok_ne_err (sym h))
