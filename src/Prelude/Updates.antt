-- ===== src/Prelude/Updates.antt =====
-- What stands at a position after an entry is written, and after lists are joined and cut.
use Prim.Native.Nat.{ℕ, zero, suc, ◌+◌, ◌≤◌, ◌<◌}
use mathlib.Core.Path.{◌≡◌, refl, ap}
use mathlib.Core.Logic.{◌≢◌, ◌⊎◌, inl, inr}
use mathlib.Core.List.{List, [], ◌∷◌, ◌++◌}
use mathlib.Core.Option.{some}
use native.Mathlib.Omega.{arith}
use simple_serving.Prelude.Lists.{length, get_elem?, set}

module _ {ℓ} {A : Type ℓ} where
  pub get_elem?-append :
      (xs : List A) (v : A) (i : ℕ) (w : A)
      → get_elem? (xs ++ v ∷ []) i ≡ some w
      → (get_elem? xs i ≡ some w) ⊎ ((i ≡ length xs) × (w ≡ v))
  get_elem?-append [] v zero w h = ground arith
  get_elem?-append [] v (suc i) w h = ground arith
  get_elem?-append (x ∷ xs) v zero w h = inl h
  get_elem?-append (x ∷ xs) v (suc i) w h = ground (arith, get_elem?-append xs v i w h)

  pub get_elem?-append_last : (xs : List A) (v : A) → get_elem? (xs ++ v ∷ []) (length xs) ≡ some v
  get_elem?-append_last [] v = refl
  get_elem?-append_last (x ∷ xs) v = get_elem?-append_last xs v

  pub get_elem?-append_left :
      (xs ys : List A) (i : ℕ) (w : A) → get_elem? xs i ≡ some w → get_elem? (xs ++ ys) i ≡ some w
  get_elem?-append_left [] ys i w h = ground arith
  get_elem?-append_left (x ∷ xs) ys zero w h = h
  get_elem?-append_left (x ∷ xs) ys (suc i) w h = get_elem?-append_left xs ys i w h

  pub get_elem?-set_self :
      (xs : List A) (i : ℕ) (v w : A) → get_elem? xs i ≡ some v → get_elem? (set xs i w) i ≡ some w
  get_elem?-set_self [] i v w h = ground arith
  get_elem?-set_self (x ∷ xs) zero v w h = refl
  get_elem?-set_self (x ∷ xs) (suc i) v w h = get_elem?-set_self xs i v w h

  pub get_elem?-set_ne :
      (xs : List A) (i j : ℕ) (w : A) → i ≢ j → get_elem? (set xs i w) j ≡ get_elem? xs j
  get_elem?-set_ne [] i j w h = refl
  get_elem?-set_ne (x ∷ xs) zero zero w h = absurd (h refl)
  get_elem?-set_ne (x ∷ xs) zero (suc j) w h = refl
  get_elem?-set_ne (x ∷ xs) (suc i) zero w h = refl
  get_elem?-set_ne (x ∷ xs) (suc i) (suc j) w h = get_elem?-set_ne xs i j w (λ e. h (ap suc e))

  pub set-append_last : (xs : List A) (v w : A) → set (xs ++ v ∷ []) (length xs) w ≡ xs ++ w ∷ []
  set-append_last [] v w = refl
  set-append_last (x ∷ xs) v w = ap (◌∷◌ x) (set-append_last xs v w)

  pub get_elem?-set_cases :
      (xs : List A) (i j : ℕ) (v w x : A)
      → get_elem? xs i ≡ some v
      → get_elem? xs j ≡ some x
      → (get_elem? (set xs i w) j ≡ some x) ⊎ ((x ≡ v) × (get_elem? (set xs i w) j ≡ some w))
  get_elem?-set_cases [] i j v w x h g = ground arith
  get_elem?-set_cases (y ∷ xs) zero zero v w x h g = inr (ground arith, refl)
  get_elem?-set_cases (y ∷ xs) zero (suc j) v w x h g = inl g
  get_elem?-set_cases (y ∷ xs) (suc i) zero v w x h g = inl g
  get_elem?-set_cases (y ∷ xs) (suc i) (suc j) v w x h g = get_elem?-set_cases xs i j v w x h g

  pub get_elem?-set_inv :
      (xs : List A) (i j : ℕ) (w x : A)
      → get_elem? (set xs i w) j ≡ some x
      → (get_elem? xs j ≡ some x) ⊎ ((i ≡ j) × (x ≡ w))
  get_elem?-set_inv [] i j w x h = inl h
  get_elem?-set_inv (y ∷ xs) zero zero w x h = inr (refl, ground arith)
  get_elem?-set_inv (y ∷ xs) zero (suc j) w x h = inl h
  get_elem?-set_inv (y ∷ xs) (suc i) zero w x h = inl h
  get_elem?-set_inv (y ∷ xs) (suc i) (suc j) w x h = ground (arith, get_elem?-set_inv xs i j w x h)

module _ {ℓ} {A : Type ℓ} where
  abbrev pub take : ℕ → List A → List A
  take zero xs = []
  take (suc n) [] = []
  take (suc n) (x ∷ xs) = x ∷ take n xs

  abbrev pub drop : ℕ → List A → List A
  drop zero xs = xs
  drop (suc n) [] = []
  drop (suc n) (x ∷ xs) = drop n xs

  pub take-append_length : (xs ys : List A) → take (length xs) (xs ++ ys) ≡ xs
  take-append_length [] ys = refl
  take-append_length (x ∷ xs) ys = ap (◌∷◌ x) (take-append_length xs ys)

  pub drop-append_length : (xs ys : List A) → drop (length xs) (xs ++ ys) ≡ ys
  drop-append_length [] ys = refl
  drop-append_length (x ∷ xs) ys = drop-append_length xs ys

  pub length-take : (n : ℕ) (xs : List A) → n ≤ length xs → length (take n xs) ≡ n
  length-take zero xs h = refl
  length-take (suc n) [] h = absurd (omega arith)
  length-take (suc n) (x ∷ xs) h = ap suc (length-take n xs (omega arith))

  pub length-drop : (n : ℕ) (xs : List A) → length (drop n xs) + n ≡ length xs ⊎ (length xs < n)
  length-drop zero xs = inl (omega arith)
  length-drop (suc n) [] = inr (omega arith)
  length-drop (suc n) (x ∷ xs) = ground (arith, length-drop n xs)

  pub take-append-drop : (n : ℕ) (xs : List A) → take n xs ++ drop n xs ≡ xs
  take-append-drop zero xs = refl
  take-append-drop (suc n) [] = refl
  take-append-drop (suc n) (x ∷ xs) = ap (◌∷◌ x) (take-append-drop n xs)

pub append_assoc_lem {ℓ} : {A : Type ℓ} (xs ys zs : List A) → (xs ++ ys) ++ zs ≡ xs ++ (ys ++ zs)
append_assoc_lem [] ys zs = refl
append_assoc_lem (x ∷ xs) ys zs = ap (◌∷◌ x) (append_assoc_lem xs ys zs)

pub append_nil_lem {ℓ} : {A : Type ℓ} (xs : List A) → xs ++ [] ≡ xs
append_nil_lem [] = refl
append_nil_lem (x ∷ xs) = ap (◌∷◌ x) (append_nil_lem xs)
