-- ===== src/Control/Examples.antt =====
-- The body of an `open`, and one with a field too many.
use simple_serving.Prelude.{◌≡◌, ◌↔◌, refl, true, some, codes}
use simple_serving.Errors.{ok, err, unsupported_field}
use simple_serving.Json.{fields_within, pos, whole, Json, num, str, obj, Fields, end, field, get}
use simple_serving.Control.{
  open_names, text_required, count_required, control_fields, check_boot, check_open,
}
use simple_serving.Control.Exact.{check_open_exact}

abbrev body : Json
body = obj (
    field (codes "drain_generation") (num (whole (pos 2)))
      (field (codes "boot_id") (str (codes "b")) end))

taken : check_open body ≡ ok (codes "b", 2)
unfolding check_open control_fields text_required count_required
taken = refl

too_much : check_boot body ≡ err unsupported_field
unfolding check_boot control_fields
too_much = refl

check_open_exact_example : (check_open body ≡ ok (codes "b", 2)) ↔ (
    (fields : Fields) × ((body ≡ obj fields)
      × ((fields_within open_names fields ≡ true)
          × ((get (codes "boot_id") fields ≡ some (str (codes "b")))
              × (get (codes "drain_generation") fields ≡ some (num (whole (pos 2))))))))
check_open_exact_example = check_open_exact body (codes "b") 2
