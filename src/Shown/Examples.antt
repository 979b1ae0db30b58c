-- ===== src/Shown/Examples.antt =====
-- The order of keys, and the pictures of a small record.
use simple_serving.Prelude.{◌≡◌, refl, some, none, [], ◌∷◌, codes}
use simple_serving.Json.{Json, null, str, arr, obj, done, elem, Fields, end, field}
use simple_serving.Shown.{image_type, is_index, js_order, images_of, pictures_of}

ordered :
    js_order (codes "b" ∷ (codes "10" ∷ (codes "02" ∷ (codes "9" ∷ (codes "4294967295" ∷ [])))))
    ≡ codes "9" ∷ (codes "10" ∷ (codes "b" ∷ (codes "02" ∷ (codes "4294967295" ∷ []))))
unfolding js_order is_index
ordered = refl

abbrev image : Fields
image = field (codes "filename") (str (codes "f.png")) end

abbrev output : Json
output = obj (field (codes "images") (arr (elem null (elem (obj image) done))) end)

abbrev job_record : Fields
job_record =
    field (codes "outputs")
      (obj (
        field (codes "10") output
          (field (codes "9") output (field (codes "3") (str (codes "x")) end))))
      end

-- The frame is not a copy, and a copy without a picture is left out.
shown :
    pictures_of job_record (codes "9" ∷ (codes "3" ∷ []))
    ≡ (some (codes "10", image), (codes "9", image) ∷ [])
unfolding pictures_of js_order is_index images_of
shown = refl

webp : image_type (codes "RIFF1234WEBP") ≡ some (codes "image/webp")
unfolding image_type
webp = refl

text_file : image_type (codes "GIF89a") ≡ none
unfolding image_type
text_file = refl
