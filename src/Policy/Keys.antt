-- ===== src/Policy/Keys.antt =====
-- Which key a header presents.
use simple_serving.Prelude.{
  ◌↔◌, ℕ, ◌≡◌, ◌≢◌, refl, arith, ◌⊎◌, inl, inr, true, Option, none, some, List, [], ◌∷◌, Text, Has,
  ◌++◌, ◌+◌, ap, ◌∙◌, Bool, false, ◌&&◌, map, codes, text_eq, eq_of_text_eq, ne_of_text_eq, all_of,
  lower, partition, leb, Empty, All, All-Has, Option-cases, Bool-cases, ◌==◌, if◌then◌else◌,
}
use simple_serving.Config.{Key}
use simple_serving.Policy.{match_keys, presented, find_key}

-- The digests of a configuration's keys differ.
abbrev pub Differ : List Key → Type 0
Differ [] = Unit {0}
Differ (k ∷ ks) = All (λ j. j.digest ≢ k.digest) ks × Differ ks

match_keys_none :
    (digest : ℕ) (found : Option Key) (ks : List Key)
    → ((k : Key) → Has k ks → k.digest ≢ digest)
    → match_keys digest found ks ≡ found
unfolding match_keys
match_keys_none digest found [] h = refl
match_keys_none digest found (k ∷ ks) h = elim (Bool-cases (digest == k.digest)) [
  | inl e ↦ absurd (h k (inl refl) (ground arith))
  | inr e ↦ rw e (match_keys_none digest found ks (λ j m. h j (inr m)))
]

match_keys-some :
    (digest : ℕ) (found : Option Key) (ks : List Key) (k : Key)
    → match_keys digest found ks ≡ some k
    → (found ≡ some k) ⊎ (Has k ks × (k.digest ≡ digest))
unfolding match_keys
match_keys-some digest found [] k h = inl h
match_keys-some digest found (j ∷ ks) k h = elim (Bool-cases (digest == j.digest)) [
  | inl e ↦ elim (match_keys-some digest (some j) ks k (rw e at h)) [
    | inl f ↦ inr (inl (ground arith), ground arith)
    | inr (m, x) ↦ inr (inr m, x)
  ]
  | inr e ↦ elim (match_keys-some digest found ks k (rw e at h)) [
    | inl f ↦ inl f
    | inr (m, x) ↦ inr (inr m, x)
  ]
]

match_keys_unique :
    (digest : ℕ) (found : Option Key) (ks : List Key) (k : Key)
    → Differ ks
    → Has k ks
    → k.digest ≡ digest
    → match_keys digest found ks ≡ some k
unfolding match_keys
match_keys_unique digest found [] k d m e = elim m [ ]
match_keys_unique digest found (j ∷ ks) k d (inl same) e =
    let t : (digest == j.digest) ≡ true = ground arith in
    rw t (
      rw
        (match_keys_none digest (some j) ks
          (λ i m x. All-Has (λ (i : Key). i.digest ≢ j.digest) ks i d.0 m (ground arith)))
        (ground arith))
match_keys_unique digest found (j ∷ ks) k d (inr m) e =
    match_keys_unique digest (if digest == j.digest then some j else found) ks k d.1 m e

-- The name in lower case, letter by letter in either case.
abbrev pub InAnyCase : Text → Text → Type 0
InAnyCase [] [] = Unit
InAnyCase [] (c ∷ name) = Empty
InAnyCase (x ∷ s) [] = Empty
InAnyCase (x ∷ s) (c ∷ name) = ((x ≡ c) ⊎ (x + 32 ≡ c)) × InAnyCase s name

abbrev pub is_small : ℕ → Bool
is_small c = leb b'a' c && leb c b'z'

lower-any :
    (name s : Text)
    → all_of is_small name ≡ true
    → text_eq (map lower s) name ≡ true
    → InAnyCase s name
lower-any [] [] a h = tt
lower-any [] (x ∷ s) a h = absurd (ground arith)
lower-any (c ∷ name) [] a h = absurd (ground arith)
lower-any (c ∷ name) (x ∷ s) a h = (ground arith, lower-any name s (ground arith) (ground arith))

any-lower :
    (name s : Text)
    → all_of is_small name ≡ true
    → InAnyCase s name
    → text_eq (map lower s) name ≡ true
any-lower [] [] a h = refl
any-lower [] (x ∷ s) a h = elim h [ ]
any-lower (c ∷ name) [] a h = elim h [ ]
any-lower (c ∷ name) (x ∷ s) a (e, h) = let rest = any-lower name s (ground arith) h in ground arith

-- A name of letters has no space before what follows it.
any-partition :
    (name s key : Text)
    → all_of is_small name ≡ true
    → InAnyCase s name
    → partition b' ' (s ++ b' ' ∷ key) ≡ (s, key)
any-partition [] [] key a h = refl
any-partition [] (x ∷ s) key a h = elim h [ ]
any-partition (c ∷ name) [] key a h = elim h [ ]
any-partition (c ∷ name) (x ∷ s) key a (e, h) =
    let rest = any-partition name s key (ground arith) h in
    let other : (x == b' ') ≡ false = ground arith in rw (other, rest) refl

partition-joined :
    (a : Text) → (partition b' ' a).1 ≢ [] → a ≡ (partition b' ' a).0 ++ b' ' ∷ (partition b' ' a).1
partition-joined [] n = absurd (n refl)
partition-joined (x ∷ a) n = elim (Bool-cases (x == b' ')) [
  | inl e ↦ rw e (ground arith)
  | inr e ↦
      let later : (partition b' ' a).1 ≢ [] = λ h. n (rw e h) in
      rw e (ap (◌∷◌ x) (partition-joined a later))
]

-- A header that presents a key: the scheme Bearer in any case, one space, and the key, which is
-- everything after it.
abbrev pub Presents : Option Text → Text → Type 0
Presents authorization p =
    (scheme : Text) × (authorization ≡ some (scheme ++ b' ' ∷ p))
    × InAnyCase scheme (codes "bearer")
    × (p ≢ [])

presented-Presents :
    (authorization : Option Text) (p : Text)
    → presented authorization ≡ some p
    → Presents authorization p
unfolding presented
presented-Presents none p h = absurd (ground arith)
presented-Presents (some a) p h =
    let kept : (partition b' ' a).1 ≡ p = ground arith in
    let scheme_ok : text_eq (map lower (partition b' ' a).0) (codes "bearer") ≡ true =
      ground arith in
    let full : text_eq (partition b' ' a).1 [] ≡ false = ground arith in
    let more : (partition b' ' a).1 ≢ [] = ne_of_text_eq (partition b' ' a).1 [] full in
    (
      (partition b' ' a).0,
      ap some (partition-joined a more ∙ ap (λ k. (partition b' ' a).0 ++ b' ' ∷ k) kept),
      lower-any (codes "bearer") (partition b' ' a).0 refl scheme_ok,
      (λ e. more (kept ∙ e)),
    )

Presents-presented :
    (authorization : Option Text) (p : Text)
    → Presents authorization p
    → presented authorization ≡ some p
unfolding presented
Presents-presented authorization p (scheme, e, bearer, n) =
    let full : text_eq p [] ≡ false = elim (Bool-cases (text_eq p [])) [
      | inl x ↦ absurd (n (eq_of_text_eq p [] x))
      | inr x ↦ x
    ] in
    rw e (
      rw (any-partition (codes "bearer") scheme p refl bearer)
        (rw (any-lower (codes "bearer") scheme refl bearer, full) refl))

-- With keys whose digests differ, a header finds a key exactly if it is the scheme Bearer in any
-- case, a space, and a text that is not empty, of which the key's digest is the hash. No other key
-- is ever found.
pub find_key_exact :
    (sha256 : Text → ℕ) (keys : List Key) (authorization : Option Text) (k : Key)
    → Differ keys
    → (find_key sha256 keys authorization ≡ some k)
      ↔ ((p : Text) × Presents authorization p × Has k keys × (k.digest ≡ sha256 p))
unfolding find_key
find_key_exact sha256 keys authorization k d = (
  (λ h. elim (Option-cases (presented authorization)) [
    | inl x ↦ absurd (ground arith)
    | inr (p, x) ↦ elim (match_keys-some (sha256 p) none keys k (ground arith)) [
      | inl f ↦ absurd (ground arith)
      | inr (m, e) ↦ (p, presented-Presents authorization p x, m, e)
    ]
  ]),
  (λ (p, x, m, e).
      rw (Presents-presented authorization p x, find_key)
        (match_keys_unique (sha256 p) none keys k d m e)),
)
