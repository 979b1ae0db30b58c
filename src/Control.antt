-- ===== src/Control.antt =====
-- simple_serving/validation.py: `check_boot`, `check_open` and `_control`, the bodies of the control
-- routes.
pub mod Exact
mod Examples
use simple_serving.Prelude.{
  ℕ, Bool, true, false, ◌&&◌, ◌||◌, not, Option, none, some, List, [], ◌∷◌, Text, text_eq, codes,
  if◌then◌else◌,
}
use simple_serving.Errors.{Result, ok, err, invalid_request, unsupported_field, ◌>>=◌}
use simple_serving.Json.{
  fields_within, ℤ, pos, negsuc, Number, whole, real, Json, null, bool, num, str, arr, obj, Fields,
  end, field, get,
}

abbrev pub boot_names : List Text
boot_names = codes "boot_id" ∷ []

abbrev pub open_names : List Text
open_names = codes "boot_id" ∷ (codes "drain_generation" ∷ [])

-- `_require(isinstance(…, str))`
unfoldable pub text_required : Option Json → Result Text
text_required (some (str s)) = ok s
text_required _ = err invalid_request

-- `_require(_is_integer(generation) and generation >= 0)`
unfoldable pub count_required : Option Json → Result ℕ
count_required (some (num (whole (pos n)))) = ok n
count_required _ = err invalid_request

abbrev pub known_only : Bool → Result Fields → Result Fields
known_only true fields = fields
known_only false fields = err unsupported_field

-- `_control` up to the values: the fields of an object that has no unknown one.
unfoldable pub control_fields : List Text → Json → Result Fields
control_fields names (obj fields) = known_only (fields_within names fields) (ok fields)
control_fields names _ = err invalid_request

unfoldable pub check_boot : Json → Result Text
check_boot body = do
  fields ← control_fields boot_names body
  text_required (get (codes "boot_id") fields)

unfoldable pub check_open : Json → Result (Text × ℕ)
check_open body = do
  fields ← control_fields open_names body
  id ← text_required (get (codes "boot_id") fields)
  generation ← count_required (get (codes "drain_generation") fields)
  ok (id, generation)
