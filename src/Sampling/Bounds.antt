-- ===== src/Sampling/Bounds.antt =====
-- The sampling fields of a request: which values they hold, in the contract's bounds.
use simple_serving.Prelude.{
  ℕ, ◌*◌, ◌≤◌, ◌≡◌, refl, arith, ◌⊎◌, inl, inr, Bool, true, none, some, List, [], ◌∷◌, Text, codes,
  Has, All, Gives, Gives-weaker,
}
use simple_serving.Json.{ℤ, pos, negsuc, Number, whole, real, num, Fields, get, over}
use simple_serving.Sampling.{
  up_to, above_up_to, is_above_zero, is_integer, sampling_checks, sampling,
}
use simple_serving.Sampling.Accepted.{Kept, FromBody, sampling-Gives}

-- As a fraction a / c: 0 <= a / c <= n.
abbrev pub UpTo : ℕ → Number → Type 0
UpTo n x = (a : ℕ) × ((over x).0 ≡ pos a) × (a ≤ n * (over x).1)

-- 0 < a / c <= n
abbrev pub AboveUpTo : ℕ → Number → Type 0
AboveUpTo n x = (a : ℕ) × ((over x).0 ≡ pos a) × (1 ≤ a) × (a ≤ n * (over x).1)

abbrev pub IsPositive : Number → Type 0
IsPositive x = (n : ℕ) × (x ≡ whole (pos n)) × (1 ≤ n)

abbrev pub IsWhole : Number → Type 0
IsWhole x = (z : ℤ) × (x ≡ whole z)

-- The field is not in the body, or the body's own value is in its bounds and is kept.
abbrev pub KeptIn : Fields → List (Text × Number) → Text → (Number → Type 0) → Type 0
KeptIn body chosen name holds =
    (get name body ≡ none)
    ⊎ ((x : Number) × (get name body ≡ some (num x)) × holds x × Has (name, x) chosen)

pub record IsSampled (body : Fields) (chosen : List (Text × Number)) : Type 0 where
  pub temperature : KeptIn body chosen (codes "temperature") (UpTo 2)
  pub top_p : KeptIn body chosen (codes "top_p") (AboveUpTo 1)
  pub top_k : KeptIn body chosen (codes "top_k") IsPositive
  pub min_p : KeptIn body chosen (codes "min_p") (UpTo 1)
  pub repetition_penalty : KeptIn body chosen (codes "repetition_penalty") (AboveUpTo 2)
  pub seed : KeptIn body chosen (codes "seed") IsWhole
  pub from_body : All (λ f. get f.0 body ≡ some (num f.1)) chosen

up_to_lem : (n : ℕ) (x : Number) → up_to n x ≡ true → UpTo n x
up_to_lem n (whole (pos a)) h = (a, refl, ground arith)
up_to_lem n (whole (negsuc a)) h = absurd (ground arith)
up_to_lem n (real (pos a) d) h = (a, refl, ground arith)
up_to_lem n (real (negsuc a) d) h = absurd (ground arith)

above_up_to_lem : (n : ℕ) (x : Number) → above_up_to n x ≡ true → AboveUpTo n x
above_up_to_lem n (whole (pos a)) h = (a, refl, ground arith, ground arith)
above_up_to_lem n (whole (negsuc a)) h = absurd (ground arith)
above_up_to_lem n (real (pos a) d) h = (a, refl, ground arith, ground arith)
above_up_to_lem n (real (negsuc a) d) h = absurd (ground arith)

positive_lem : (x : Number) → is_above_zero x ≡ true → IsPositive x
positive_lem (whole (pos n)) h = (n, refl, ground arith)
positive_lem (whole (negsuc n)) h = absurd (ground arith)
positive_lem (real z d) h = absurd (ground arith)

whole_lem : (x : Number) → is_integer x ≡ true → IsWhole x
whole_lem (whole z) h = (z, refl)
whole_lem (real z d) h = absurd (ground arith)

kept_in :
    (body : Fields) (chosen : List (Text × Number)) (name : Text) (check : Number → Bool)
    (holds : Number → Type 0)
    → ((x : Number) → check x ≡ true → holds x)
    → Kept body chosen (name, check)
    → KeptIn body chosen name holds
kept_in body chosen name check holds k (inl e) = inl e
kept_in body chosen name check holds k (inr (x, (e, (p, m)))) = inr (x, e, k x p, m)

from_lem :
    (body : Fields) (checks : List (Text × (Number → Bool))) (fs : List (Text × Number))
    → All (FromBody body checks) fs
    → All (λ f. get f.0 body ≡ some (num f.1)) fs
from_lem body checks [] h = tt
from_lem body checks (f ∷ fs) h = (h.0.0, from_lem body checks fs h.1)

pub sampling-IsSampled : (body : Fields) → Gives (IsSampled body) (sampling body)
sampling-IsSampled body = Gives-weaker (sampling-Gives body) λ chosen v.
    let (t, (p, (k, (m, (r, (s, _)))))) = v.0 in
    record {
      temperature = kept_in body chosen _ _ (UpTo 2) (up_to_lem 2) t;
      top_p = kept_in body chosen _ _ (AboveUpTo 1) (above_up_to_lem 1) p;
      top_k = kept_in body chosen _ _ IsPositive positive_lem k;
      min_p = kept_in body chosen _ _ (UpTo 1) (up_to_lem 1) m;
      repetition_penalty = kept_in body chosen _ _ (AboveUpTo 2) (above_up_to_lem 2) r;
      seed = kept_in body chosen _ _ IsWhole whole_lem s;
      from_body = from_lem body sampling_checks chosen v.1;
    }
