-- ===== src/Depth.antt =====
-- simple_serving/validation.py: `_depth`, which counts without recursion how deep a value nests.
-- The list `pending` is kept with its last entry first. The loop runs on fuel, and `none` is fuel
-- that is used up.
pub mod Equivalence
mod Examples
use simple_serving.Prelude.{ℕ, zero, suc, ◌+◌, Option, none, some, List, [], ◌∷◌}
use simple_serving.Json.{
  Json, null, bool, num, str, arr, obj, Elems, done, elem, Fields, end, field,
}
use Prim.Native.Nat.{max}

abbrev pub Pending : Type 0
Pending = List (Json × ℕ)

-- `pending.extend`, of the values of a list and of an object.
abbrev pub push_elems : Elems → ℕ → Pending → Pending
push_elems done d pending = pending
push_elems (elem v rest) d pending = push_elems rest d ((v, d) ∷ pending)

abbrev pub push_fields : Fields → ℕ → Pending → Pending
push_fields end d pending = pending
push_fields (field n v rest) d pending = push_fields rest d ((v, d) ∷ pending)

-- The body of the loop: the deepest, and what is pending.
abbrev pub visit : Json → ℕ → ℕ → Pending → ℕ × Pending
visit (arr xs) d deepest pending = (max deepest d, push_elems xs (suc d) pending)
visit (obj fields) d deepest pending = (max deepest d, push_fields fields (suc d) pending)
visit null d deepest pending = (deepest, pending)
visit (bool b) d deepest pending = (deepest, pending)
visit (num n) d deepest pending = (deepest, pending)
visit (str s) d deepest pending = (deepest, pending)

unfoldable pub depth_loop : ℕ → ℕ → Pending → Option ℕ
depth_loop zero deepest pending = none
depth_loop (suc fuel) deepest [] = some deepest
depth_loop (suc fuel) deepest ((v, d) ∷ pending) =
    let next = visit v d deepest pending in depth_loop fuel next.0 next.1

-- The values in a value, itself included: the fuel that is enough.
unfoldable mutual
  pub size : Json → ℕ
  size null = 1
  size (bool b) = 1
  size (num n) = 1
  size (str s) = 1
  size (arr xs) = suc (size_elems xs)
  size (obj fields) = suc (size_fields fields)

  pub size_elems : Elems → ℕ
  size_elems done = 0
  size_elems (elem v rest) = size v + size_elems rest

  pub size_fields : Fields → ℕ
  size_fields end = 0
  size_fields (field n v rest) = size v + size_fields rest

-- `_depth`
unfoldable pub depth : Json → Option ℕ
depth v = depth_loop (suc (size v)) 0 ((v, 1) ∷ [])
