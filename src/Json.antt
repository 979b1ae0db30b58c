-- ===== src/Json.antt =====
-- The values that Python's `json` makes of a text, as the gateway reads them: an object is its
-- fields in order, each name once. A finite float is a fraction, which every one is.
use simple_serving.Prelude.{
  List, [], ◌∷◌, ◌&&◌, ◌||◌, ℕ, suc, ◌*◌, Bool, true, false, Option, none, some, Text, text_eq, ltb,
  ◌==◌, if◌then◌else◌,
}

pub data ℤ : Type 0 where
  pos : ℕ → ℤ
  negsuc : ℕ → ℤ

-- `int` and `float`; `real z d` is z / (d + 1).
pub data Number : Type 0 where
  whole : ℤ → Number
  real : ℤ → ℕ → Number

mutual
  pub data Json : Type 0 where
    null : Json
    bool : Bool → Json
    num : Number → Json
    str : Text → Json
    arr : Elems → Json
    obj : Fields → Json

  pub data Elems : Type 0 where
    done : Elems
    elem : Json → Elems → Elems

  pub data Fields : Type 0 where
    end : Fields
    field : Text → Json → Fields → Fields

-- `dict.get`
abbrev pub get : Text → Fields → Option Json
get name end = none
get name (field other value rest) =
    let later = get name rest in if text_eq other name then some value else later

-- `.get(name) is not None`: the value, or nothing where it is null or left out.
abbrev pub non_null : Option Json → Option Json
non_null none = none
non_null (some null) = none
non_null (some (bool b)) = some (bool b)
non_null (some (num n)) = some (num n)
non_null (some (str s)) = some (str s)
non_null (some (arr xs)) = some (arr xs)
non_null (some (obj fs)) = some (obj fs)

abbrev pub get_non_null : Text → Fields → Option Json
get_non_null name fs = non_null (get name fs)

abbrev pub has_name : Text → List Text → Bool
has_name name [] = false
has_name name (n ∷ ns) = let rest = has_name name ns in text_eq n name || rest

-- `set(body) <= set(names)`
abbrev pub fields_within : List Text → Fields → Bool
fields_within names end = true
fields_within names (field name value rest) =
    let later = fields_within names rest in has_name name names && later

abbrev pub over : Number → ℤ × ℕ
over (whole z) = (z, 1)
over (real z d) = (z, suc d)

-- Whether a / c > b / d, for c and d above 0.
abbrev pub above : ℤ → ℕ → ℤ → ℕ → Bool
above (pos a) c (pos b) d = ltb (b * c) (a * d)
above (pos a) c (negsuc b) d = true
above (negsuc a) c (pos b) d = false
above (negsuc a) c (negsuc b) d = ltb (suc a * d) (suc b * c)

abbrev pub number_gt : Number → Number → Bool
number_gt x y = above (over x).0 (over x).1 (over y).0 (over y).1

abbrev pub is_zero : Number → Bool
is_zero (whole (pos n)) = n == 0
is_zero (whole (negsuc n)) = false
is_zero (real (pos n) d) = n == 0
is_zero (real (negsuc n) d) = false

-- `{**fields, name: value}`: the name keeps its place, or comes last.
abbrev pub put : Text → Json → Fields → Fields
put name value end = field name value end
put name value (field other old rest) =
    let later = put name value rest in
    if text_eq other name then field other value rest else field other old later
