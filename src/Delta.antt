-- ===== src/Delta.antt =====
-- simple_serving/stream.py: `_parts`, which checks the delta of an engine event and takes it apart
-- into deltas of one field.
pub mod Texts
use simple_serving.Prelude.{
  ℕ, ◌≡◌, refl, ap, sym, subst, ◌∙◌, ◌⊎◌, inl, inr, Bool, true, false, ◌==◌, ◌&&◌, ◌||◌, not,
  Option, none, some, List, [], ◌∷◌, ◌++◌, map, Text, text_eq, codes, if◌then◌else◌, Bool-cases,
  Option-cases, All,
}
use simple_serving.Errors.{
  Code, Result, ok, err, engine_unavailable, invalid_request, ◌>>=◌, Result-cases, ok_ne_err,
}
use simple_serving.Json.{
  ℤ, pos, negsuc, Number, whole, real, Json, null, bool, num, str, arr, obj, Elems, done, elem,
  Fields, end, field, get, get_non_null,
}

-- A delta that is sent; `{}` is no part.
pub data Part : Type 0 where
  role_assistant : Part
  reasoning_content : Text → Part
  content : Text → Part

abbrev pub unavailable {ℓ} : {A : Type ℓ} → Result A
unavailable = err engine_unavailable

-- `== text`, for a value that may be missing.
abbrev pub is_text : Text → Option Json → Bool
is_text t (some (str s)) = text_eq s t
is_text t _ = false

-- The fields that are not null.
abbrev pub present : Fields → Fields
present end = end
present (field name null rest) = present rest
present (field name value rest) = field name value (present rest)

-- Membership in `DELTA_FIELDS`.
abbrev pub is_delta_field : Text → Bool
is_delta_field name =
    text_eq name (codes "role")
    || text_eq name (codes "content")
    || text_eq name (codes "reasoning_content")
    || text_eq name (codes "reasoning")

abbrev pub known_fields : Fields → Bool
known_fields end = true
known_fields (field name value rest) = let later = known_fields rest in is_delta_field name && later

abbrev pub is_string : Json → Bool
is_string (str s) = true
is_string _ = false

-- Every field but `role` holds a string.
abbrev pub texts : Fields → Bool
texts end = true
texts (field name value rest) =
    let later = texts rest in (text_eq name (codes "role") || is_string value) && later

abbrev pub role_is_assistant : Option Json → Bool
role_is_assistant none = true
role_is_assistant (some value) = is_text (codes "assistant") (some value)

abbrev pub role_part : Option Json → List Part
role_part none = []
role_part (some value) = role_assistant ∷ []

-- `fields.get(name, "")`, where the fields hold strings.
abbrev pub string_of : Option Json → Text
string_of (some (str s)) = s
string_of _ = []

-- The first of `REASONING_FIELDS` that is there.
abbrev pub reasoning_of : Fields → Text
reasoning_of fields = elim (get (codes "reasoning_content") fields) [
  | none ↦ string_of (get (codes "reasoning") fields)
  | some value ↦ string_of (some value)
]

abbrev pub content_of : Fields → Text
content_of fields = string_of (get (codes "content") fields)

-- Empty text makes no part.
abbrev pub text_part : (Text → Part) → Text → List Part
text_part make [] = []
text_part make (c ∷ s) = make (c ∷ s) ∷ []

-- `parts`, in the order role, reasoning, content.
abbrev pub all_parts : Fields → List Part
all_parts fields =
    role_part (get (codes "role") fields)
    ++ (text_part reasoning_content (reasoning_of fields) ++ text_part content (content_of fields))

-- `_parts`
unfoldable pub parts_of : Option Json → Result (List Part)
parts_of (some (obj delta)) =
    let fields = present delta in
    if not (known_fields fields) || not (role_is_assistant (get (codes "role") fields))
    then unavailable
    else if not (texts fields)
    then unavailable
    else ok (all_parts fields)
parts_of _ = unavailable

abbrev pub is_role : Part → Bool
is_role role_assistant = true
is_role (reasoning_content s) = false
is_role (content s) = false

abbrev pub any_text : List Part → Bool
any_text [] = false
any_text (p ∷ ps) = let rest = any_text ps in not (is_role p) || rest
