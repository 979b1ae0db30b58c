-- ===== src/Shown.antt =====
-- simple_serving/pictures/graphs.py: `image_type`, `js_order` and `pictures_of`, the pictures that a
-- job's record names. Where the source sorts by a number, what is equal keeps its order.
mod Examples
use simple_serving.Prelude.{
  ℕ, ◌+◌, ◌*◌, ◌-◌, ◌==◌, leb, ltb, Bool, true, false, ◌&&◌, ◌||◌, not, Option, none, some, List,
  [], ◌∷◌, ◌++◌, Text, text_eq, codes, all_of, take, drop, length, if◌then◌else◌,
}
use simple_serving.Json.{
  Json, null, bool, num, str, arr, obj, Elems, done, elem, Fields, end, field, get, has_name,
}
use simple_serving.Png.{signature}

-- The type of an upload by its first bytes.
unfoldable pub image_type : List ℕ → Option Text
image_type bytes =
    if text_eq (take 8 bytes) signature
    then some (codes "image/png")
    else if text_eq (take 3 bytes) (0xff ∷ (0xd8 ∷ (0xff ∷ [])))
    then some (codes "image/jpeg")
    else if leb 12 (length bytes)
        && text_eq (take 4 bytes) (codes "RIFF")
        && text_eq (take 4 (drop 8 bytes)) (codes "WEBP")
    then some (codes "image/webp")
    else none

abbrev pub is_digit : ℕ → Bool
is_digit c = leb b'0' c && leb c b'9'

-- `int(key)`, of digits.
abbrev pub number_of : ℕ → Text → ℕ
number_of n [] = n
number_of n (c ∷ s) = number_of (n * 10 + (c - b'0')) s

abbrev pub starts_zero : Text → Bool
starts_zero [] = false
starts_zero (c ∷ s) = c == b'0'

-- `integer`
unfoldable pub is_index : Text → Bool
is_index key =
    not (text_eq key [])
    && all_of is_digit key
    && (text_eq key (codes "0") || not (starts_zero key))
    && ltb (number_of 0 key) 4294967295

abbrev pub by_number : Text → List Text → List Text
by_number key [] = key ∷ []
by_number key (other ∷ keys) =
    let later = by_number key keys in
    if leb (number_of 0 key) (number_of 0 other) then key ∷ (other ∷ keys) else other ∷ later

-- The integer keys, ascending.
abbrev pub indices : List Text → List Text
indices [] = []
indices (key ∷ keys) =
    let later = indices keys in if is_index key then by_number key later else later

abbrev pub other_keys : List Text → List Text
other_keys [] = []
other_keys (key ∷ keys) = let later = other_keys keys in if is_index key then later else key ∷ later

unfoldable pub js_order : List Text → List Text
js_order keys = indices keys ++ other_keys keys

abbrev pub keys_of : Fields → List Text
keys_of end = []
keys_of (field name value rest) = name ∷ keys_of rest

abbrev pub objects_in : Elems → List Fields
objects_in done = []
objects_in (elem (obj image) rest) = image ∷ objects_in rest
objects_in (elem other rest) = objects_in rest

abbrev pub image_list : Option Json → List Fields
image_list (some (arr elems)) = objects_in elems
image_list _ = []

abbrev pub output_images : Option Json → List Fields
output_images (some (obj output)) = image_list (get (codes "images") output)
output_images _ = []

-- `images`
unfoldable pub images_of : Fields → Text → List Fields
images_of outputs node = output_images (get node outputs)

abbrev pub outputs_of : Option Json → Fields
outputs_of (some (obj outputs)) = outputs
outputs_of _ = end

-- `Shown`: an output node, and ComfyUI's name of its file.
abbrev pub Shown : Type 0
Shown = Text × Fields

abbrev pub first_image : Text → List Fields → Option Shown → Option Shown
first_image node [] later = later
first_image node (image ∷ images) later = some (node, image)

-- The first of the frames.
abbrev pub frame_of : Fields → List Text → List Text → Option Shown
frame_of outputs copies [] = none
frame_of outputs copies (node ∷ nodes) =
    let later = frame_of outputs copies nodes in
    if has_name node copies then later else first_image node (images_of outputs node) later

abbrev pub with_image : Text → List Fields → List Shown → List Shown
with_image node [] later = later
with_image node (image ∷ images) later = (node, image) ∷ later

abbrev pub copies_of : Fields → List Text → List Shown
copies_of outputs [] = []
copies_of outputs (node ∷ nodes) =
    with_image node (images_of outputs node) (copies_of outputs nodes)

unfoldable pub pictures_of : Fields → List Text → Option Shown × List Shown
pictures_of record_fields copies =
    let outputs = outputs_of (get (codes "outputs") record_fields) in
    (frame_of outputs copies (js_order (keys_of outputs)), copies_of outputs copies)
