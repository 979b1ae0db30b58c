-- ===== src/Prelude/Lists.antt =====
-- Lists measured and indexed by native numbers, and the positions of the entries that pass a test.
use Prim.Native.Nat.{ℕ, zero, suc, ◌+◌, ◌≤◌}
use mathlib.Core.Path.{◌≡◌, refl}
use mathlib.Core.Logic.{inl, inr}
use mathlib.Core.Bool.{Bool, true, false}
use mathlib.Core.List.{List, [], ◌∷◌, ◌++◌}
use mathlib.Core.Option.{Option, none, some}
use native.Mathlib.Nat.{zero-add}
use native.Mathlib.Omega.{arith}
use simple_serving.Prelude.Tests.{◌==◌, if◌then◌else◌, one_if, ◌>>=◌, Bool-cases, Option-cases}

module _ {ℓ} {A : Type ℓ} where
  abbrev pub length : List A → ℕ
  length [] = 0
  length (x ∷ xs) = suc (length xs)

  abbrev pub get_elem? : List A → ℕ → Option A
  get_elem? [] i = none
  get_elem? (x ∷ xs) zero = some x
  get_elem? (x ∷ xs) (suc i) = get_elem? xs i

  -- A write out of bounds changes nothing.
  abbrev pub set : List A → ℕ → A → List A
  set [] i v = []
  set (x ∷ xs) zero v = v ∷ xs
  set (x ∷ xs) (suc i) v = x ∷ set xs i v

  abbrev pub count : (A → Bool) → List A → ℕ
  count p [] = 0
  count p (x ∷ xs) = one_if (p x) + count p xs

  -- The first entry that passes.
  abbrev pub find : (A → Bool) → List A → Option A
  find p [] = none
  find p (x ∷ xs) = let rest = find p xs in if p x then some x else rest

  -- The positions, counted from `n`, of the entries that pass.
  abbrev pub positions : (A → Bool) → ℕ → List A → List ℕ
  positions p n [] = []
  positions p n (x ∷ xs) = let rest = positions p (suc n) xs in if p x then n ∷ rest else rest

  pub length-append : (xs ys : List A) → length (xs ++ ys) ≡ length xs + length ys
  length-append [] ys = omega arith
  length-append (x ∷ xs) ys = omega (arith, length-append xs ys)

  pub find-append :
      (p : A → Bool) (xs ys : List A)
      → find p (xs ++ ys) ≡ (elim (find p xs) [ none ↦ find p ys | some x ↦ some x ])
  find-append p [] ys = refl
  find-append p (x ∷ xs) ys = ground (arith, find-append p xs ys)

-- `deque.remove`: the first entry that is `i` goes; where there is none it raises ValueError.
abbrev pub remove : ℕ → List ℕ → Option (List ℕ)
remove i [] = none
remove i (j ∷ js) = if j == i then some js else (remove i js >>= λ rest. some (j ∷ rest))

pub length-remove : (i : ℕ) (js ks : List ℕ) → remove i js ≡ some ks → length js ≡ suc (length ks)
length-remove i [] ks h = ground arith
length-remove i (j ∷ js) ks h = elim (Bool-cases (j == i)) [
  | inl hit ↦ ground arith
  | inr miss ↦ elim (Option-cases (remove i js)) [
    | inl e ↦ ground arith
    | inr (rest, e) ↦ ground (arith, length-remove i js rest e)
  ]
]

module _ {ℓ} {A : Type ℓ} (p : A → Bool) where
  pub count-append : (xs ys : List A) → count p (xs ++ ys) ≡ count p xs + count p ys
  count-append [] ys = omega arith
  count-append (x ∷ xs) ys = omega (arith, count-append xs ys)

  pub count-set :
      (xs : List A) (i : ℕ) (v w : A)
      → get_elem? xs i ≡ some v
      → count p (set xs i w) + one_if (p v) ≡ count p xs + one_if (p w)
  count-set [] i v w h = ground arith
  count-set (x ∷ xs) zero v w h = ground arith
  count-set (x ∷ xs) (suc i) v w h = omega (arith, count-set xs i v w h)

  pub count-positions : (n : ℕ) (xs : List A) → length (positions p n xs) ≡ count p xs
  count-positions n [] = refl
  count-positions n (x ∷ xs) = ground (arith, count-positions (suc n) xs)

  positions-append_from :
      (n : ℕ) (xs : List A) (v : A)
      → p v ≡ true
      → positions p n (xs ++ v ∷ []) ≡ positions p n xs ++ (n + length xs) ∷ []
  positions-append_from n [] v h = ground arith
  positions-append_from n (x ∷ xs) v h = ground (arith, positions-append_from (suc n) xs v h)

  pub positions-append :
      (xs : List A) (v : A)
      → p v ≡ true
      → positions p 0 (xs ++ v ∷ []) ≡ positions p 0 xs ++ length xs ∷ []
  positions-append xs v h = rw zero-add at (positions-append_from 0 xs v h)

  pub positions-append_none :
      (n : ℕ) (xs : List A) (v : A) → p v ≡ false → positions p n (xs ++ v ∷ []) ≡ positions p n xs
  positions-append_none n [] v h = ground arith
  positions-append_none n (x ∷ xs) v h = ground (arith, positions-append_none (suc n) xs v h)

  pub positions-set_same :
      (n : ℕ) (xs : List A) (i : ℕ) (v w : A)
      → get_elem? xs i ≡ some v
      → p w ≡ p v
      → positions p n (set xs i w) ≡ positions p n xs
  positions-set_same n [] i v w h e = refl
  positions-set_same n (x ∷ xs) zero v w h e = ground arith
  positions-set_same n (x ∷ xs) (suc i) v w h e =
      ground (arith, positions-set_same (suc n) xs i v w h e)

  remove-positions_from :
      (n : ℕ) (xs : List A) (i : ℕ) (v w : A)
      → get_elem? xs i ≡ some v
      → p v ≡ true
      → p w ≡ false
      → remove (n + i) (positions p n xs) ≡ some (positions p n (set xs i w))
  remove-positions_from n [] i v w h e f = ground arith
  remove-positions_from n (x ∷ xs) zero v w h e f = ground arith
  remove-positions_from n (x ∷ xs) (suc i) v w h e f =
      ground (arith, remove-positions_from (suc n) xs i v w h e f)

  pub remove-positions :
      (xs : List A) (i : ℕ) (v w : A)
      → get_elem? xs i ≡ some v
      → p v ≡ true
      → p w ≡ false
      → remove i (positions p 0 xs) ≡ some (positions p 0 (set xs i w))
  remove-positions xs i v w h e f = rw zero-add at (remove-positions_from 0 xs i v w h e f)

  -- What is found among the positions is the first that passes both tests.
  pub find-positions :
      (q : ℕ → Bool) (n : ℕ) (xs : List A) (i : ℕ)
      → find q (positions p n xs) ≡ some i
      → (j : ℕ) × (v : A) × (i ≡ n + j) × (get_elem? xs j ≡ some v) × (p v ≡ true) × (q i ≡ true)
  find-positions q n [] i h = absurd (ground arith)
  find-positions q n (x ∷ xs) i h = elim (Bool-cases (p x)) [
    | inl fits ↦ elim (Bool-cases (q n)) [
      | inl here ↦ (0, x, ground arith, refl, fits, ground arith)
      | inr later ↦
          let (j, v, e, g, r, s) = find-positions q (suc n) xs i (ground arith) in
          (suc j, v, ground arith, g, r, s)
    ]
    | inr skipped ↦
        let (j, v, e, g, r, s) = find-positions q (suc n) xs i (ground arith) in
        (suc j, v, ground arith, g, r, s)
  ]

  pub find-positions-none :
      (q : ℕ → Bool) (n : ℕ) (xs : List A) (i : ℕ) (v : A)
      → find q (positions p n xs) ≡ none
      → get_elem? xs i ≡ some v
      → p v ≡ true
      → q (n + i) ≡ false
  find-positions-none q n [] i v h g e = ground arith
  find-positions-none q n (x ∷ xs) zero v h g e = ground arith
  find-positions-none q n (x ∷ xs) (suc i) v h g e =
      ground (arith, find-positions-none q (suc n) xs i v)

  pub find-positions_first :
      (q : ℕ → Bool) (n : ℕ) (xs : List A) (i j : ℕ) (v : A)
      → find q (positions p n xs) ≡ some i
      → get_elem? xs j ≡ some v
      → p v ≡ true
      → q (n + j) ≡ true
      → i ≤ n + j
  find-positions_first q n [] i j v h g e t = ground arith
  find-positions_first q n (x ∷ xs) i zero v h g e t = ground arith
  find-positions_first q n (x ∷ xs) i (suc j) v h g e t =
      ground (arith, find-positions_first q (suc n) xs i j v)
