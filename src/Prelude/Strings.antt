-- ===== src/Prelude/Strings.antt =====
-- Text as a list of code points: equality, prefixes, and the split at a character.
use Prim.Native.Char.{code}
use Prim.Native.Nat.{ℕ, ◌+◌}
use Prim.Native.String.{String}
use mathlib.Core.Path.{◌≡◌, refl, ap, sym, ◌∙◌}
use mathlib.Core.Logic.{◌≢◌, ◌⊎◌, inl, inr}
use mathlib.Core.Bool.{Bool, true, false, ◌&&◌, true≢false}
use mathlib.Core.List.{List, [], ◌∷◌}
use native.Mathlib.Omega.{arith}
use simple_serving.Prelude.Tests.{◌==◌, leb, if◌then◌else◌}

abbrev pub Text : Type 0
Text = List ℕ

abbrev pub codes : String → Text
codes String.[] = []
codes (String.◌∷◌ c s) = code c ∷ codes s

abbrev pub text_eq : Text → Text → Bool
text_eq [] [] = true
text_eq [] (d ∷ t) = false
text_eq (c ∷ s) [] = false
text_eq (c ∷ s) (d ∷ t) = let rest = text_eq s t in c == d && rest

pub eq_of_text_eq : (s t : Text) → text_eq s t ≡ true → s ≡ t
eq_of_text_eq [] [] h = refl
eq_of_text_eq [] (d ∷ t) h = ground arith
eq_of_text_eq (c ∷ s) [] h = ground arith
eq_of_text_eq (c ∷ s) (d ∷ t) h = ground (arith, eq_of_text_eq s t)

pub text_eq_refl : (s : Text) → text_eq s s ≡ true
text_eq_refl [] = refl
text_eq_refl (c ∷ s) = ground (arith, text_eq_refl s)

pub ne_of_text_eq : (s t : Text) → text_eq s t ≡ false → s ≢ t
ne_of_text_eq s t h e = absurd (true≢false (sym (text_eq_refl s) ∙ ap (text_eq s) e ∙ h))

abbrev pub starts_with : Text → Text → Bool
starts_with [] s = true
starts_with (c ∷ p) [] = false
starts_with (c ∷ p) (d ∷ s) = let rest = starts_with p s in c == d && rest

-- What stands before the first `c`, and what stands after it: nothing if there is none.
abbrev pub partition : ℕ → Text → Text × Text
partition c [] = ([], [])
partition c (d ∷ s) = let rest = partition c s in if d == c then ([], s) else (d ∷ rest.0, rest.1)

abbrev pub all_of : (ℕ → Bool) → Text → Bool
all_of p [] = true
all_of p (c ∷ s) = let rest = all_of p s in p c && rest

-- An ASCII letter in lower case; other bytes stay.
abbrev pub lower : ℕ → ℕ
lower c = if leb b'A' c && leb c b'Z' then c + 32 else c

-- No value.
pub data Empty {ℓ} : Type ℓ where

-- The value is in the list.
abbrev pub Has {ℓ} : {A : Type ℓ} → A → List A → Type ℓ
Has a [] = Empty
Has a (x ∷ xs) = (x ≡ a) ⊎ Has a xs

-- Every value of the list has the property.
abbrev pub All {ℓ κ} : {Value : Type ℓ} → (Value → Type κ) → List Value → Type κ
All holds [] = Unit
All holds (v ∷ vs) = holds v × All holds vs

pub All-Has {ℓ κ} : {A : Type ℓ} (P : A → Type κ) (xs : List A) (a : A) → All P xs → Has a xs → P a
All-Has P [] a h m = elim m [ ]
All-Has P (x ∷ xs) a h (inl e) = rw (← e) h.0
All-Has P (x ∷ xs) a h (inr m) = All-Has P xs a h.1 m
