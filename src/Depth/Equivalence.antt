-- ===== src/Depth/Equivalence.antt =====
-- `depth` is the nesting of a value, by recursion.
use simple_serving.Prelude.{ℕ, zero, suc, ◌+◌, ◌<◌, ◌≡◌, refl, ap, ◌∙◌, arith, some, [], ◌∷◌}
use simple_serving.Json.{
  Json, null, bool, num, str, arr, obj, Elems, done, elem, Fields, end, field,
}
use simple_serving.Depth.{
  Pending, push_elems, push_fields, visit, depth_loop, size, size_elems, size_fields, depth,
}
use Prim.Native.Nat.{max}

-- How deep objects and arrays nest: not at all in a single value.
unfoldable mutual
  pub nesting : Json → ℕ
  nesting null = 0
  nesting (bool b) = 0
  nesting (num n) = 0
  nesting (str s) = 0
  nesting (arr xs) = suc (nesting_elems xs)
  nesting (obj fields) = suc (nesting_fields fields)

  pub nesting_elems : Elems → ℕ
  nesting_elems done = 0
  nesting_elems (elem v rest) = max (nesting v) (nesting_elems rest)

  pub nesting_fields : Fields → ℕ
  nesting_fields end = 0
  nesting_fields (field n v rest) = max (nesting v) (nesting_fields rest)

-- What a pending value at depth `d` adds to the result: its deepest container.
abbrev reach : ℕ → ℕ → ℕ
reach zero d = 0
reach (suc n) d = n + d

abbrev total_size : Pending → ℕ
total_size [] = 0
total_size ((v, d) ∷ pending) = size v + total_size pending

abbrev deepest_of : ℕ → Pending → ℕ
deepest_of deepest [] = deepest
deepest_of deepest ((v, d) ∷ pending) = max (reach (nesting v) d) (deepest_of deepest pending)

abbrev reaches : Elems → ℕ → ℕ
reaches done d = 0
reaches (elem v rest) d = max (reach (nesting v) d) (reaches rest d)

abbrev reaches_fields : Fields → ℕ → ℕ
reaches_fields end d = 0
reaches_fields (field n v rest) d = max (reach (nesting v) d) (reaches_fields rest d)

max_assoc : (a b c : ℕ) → max a (max b c) ≡ max (max b a) c
max_assoc a b c = omega arith

deepest_of-max : (m d : ℕ) (p : Pending) → deepest_of (max m d) p ≡ max d (deepest_of m p)
deepest_of-max m d [] = omega arith
deepest_of-max m d ((v, e) ∷ p) = let ih = deepest_of-max m d p in omega arith

push_elems-deepest_of :
    (xs : Elems) (d m : ℕ) (p : Pending)
    → deepest_of m (push_elems xs d p) ≡ max (reaches xs d) (deepest_of m p)
push_elems-deepest_of done d m p = omega arith
push_elems-deepest_of (elem v rest) d m p =
    let ih = push_elems-deepest_of rest d m ((v, d) ∷ p) in omega arith

push_fields-deepest_of :
    (xs : Fields) (d m : ℕ) (p : Pending)
    → deepest_of m (push_fields xs d p) ≡ max (reaches_fields xs d) (deepest_of m p)
push_fields-deepest_of end d m p = omega arith
push_fields-deepest_of (field n v rest) d m p =
    let ih = push_fields-deepest_of rest d m ((v, d) ∷ p) in omega arith

reach_below : (n d : ℕ) → max d (reach n (suc d)) ≡ n + d
reach_below zero d = omega arith
reach_below (suc n) d = omega arith

reaches_below : (xs : Elems) (d : ℕ) → max d (reaches xs (suc d)) ≡ nesting_elems xs + d
unfolding nesting_elems
reaches_below done d = omega arith
reaches_below (elem v rest) d =
    let here = reach_below (nesting v) d in let ih = reaches_below rest d in omega arith

reaches_fields_below :
    (xs : Fields) (d : ℕ) → max d (reaches_fields xs (suc d)) ≡ nesting_fields xs + d
unfolding nesting_fields
reaches_fields_below end d = omega arith
reaches_fields_below (field n v rest) d =
    let here = reach_below (nesting v) d in let ih = reaches_fields_below rest d in omega arith

push_elems-size :
    (xs : Elems) (d : ℕ) (p : Pending)
    → total_size (push_elems xs d p) ≡ size_elems xs + total_size p
unfolding size_elems
push_elems-size done d p = omega arith
push_elems-size (elem v rest) d p = let ih = push_elems-size rest d ((v, d) ∷ p) in omega arith

push_fields-size :
    (xs : Fields) (d : ℕ) (p : Pending)
    → total_size (push_fields xs d p) ≡ size_fields xs + total_size p
unfolding size_fields
push_fields-size end d p = omega arith
push_fields-size (field n v rest) d p = let ih = push_fields-size rest d ((v, d) ∷ p) in omega arith

-- One turn of the loop keeps the result and uses a value up.
visit_deepest :
    (v : Json) (d m : ℕ) (p : Pending)
    → deepest_of (visit v d m p).0 (visit v d m p).1 ≡ deepest_of m ((v, d) ∷ p)
unfolding nesting
visit_deepest null d m p = omega arith
visit_deepest (bool b) d m p = omega arith
visit_deepest (num n) d m p = omega arith
visit_deepest (str s) d m p = omega arith
visit_deepest (arr xs) d m p =
    let pushed = push_elems-deepest_of xs (suc d) (max m d) p in
    let raised = deepest_of-max m d p in let below = reaches_below xs d in omega arith
visit_deepest (obj fs) d m p =
    let pushed = push_fields-deepest_of fs (suc d) (max m d) p in
    let raised = deepest_of-max m d p in let below = reaches_fields_below fs d in omega arith

visit_size :
    (v : Json) (d m : ℕ) (p : Pending)
    → suc (total_size (visit v d m p).1) ≡ total_size ((v, d) ∷ p)
unfolding size
visit_size null d m p = omega arith
visit_size (bool b) d m p = omega arith
visit_size (num n) d m p = omega arith
visit_size (str s) d m p = omega arith
visit_size (arr xs) d m p = let pushed = push_elems-size xs (suc d) p in omega arith
visit_size (obj fs) d m p = let pushed = push_fields-size fs (suc d) p in omega arith

depth_loop-deepest_of :
    (fuel m : ℕ) (p : Pending) → total_size p < fuel → depth_loop fuel m p ≡ some (deepest_of m p)
unfolding depth_loop
depth_loop-deepest_of zero m p enough = ground arith
depth_loop-deepest_of (suc fuel) m [] enough = refl
depth_loop-deepest_of (suc fuel) m ((v, d) ∷ p) enough =
    let used = visit_size v d m p in
    let next = visit v d m p in
    depth_loop-deepest_of fuel next.0 next.1 (omega arith) ∙ ap some (visit_deepest v d m p)

reach_all : (n : ℕ) → max (reach n 1) 0 ≡ n
reach_all zero = omega arith
reach_all (suc n) = omega arith

-- `_depth` ends on every value, and its loop without recursion gives how deep the value nests.
pub depth-nesting : (v : Json) → depth v ≡ some (nesting v)
unfolding depth
depth-nesting v =
    depth_loop-deepest_of (suc (size v)) 0 ((v, 1) ∷ []) (omega arith)
    ∙ ap some (reach_all (nesting v))
