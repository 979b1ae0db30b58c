-- ===== src/DataUrl.antt =====
-- simple_serving/validation.py: `_picture`, with `PICTURE`, `SIGNATURES` and `PICTURE_BYTES`. The
-- strict base64 decoder is a parameter, by the bytes that it gives; none is a `binascii.Error`.
pub mod Accepted
mod Examples
use simple_serving.Prelude.{
  ℕ, ◌==◌, leb, ◌*◌, Bool, true, false, ◌&&◌, ◌||◌, Option, none, some, List, [], ◌∷◌, ◌++◌, Text,
  text_eq, codes, starts_with, take, drop, length, if◌then◌else◌, ◌>>=◌,
}
use simple_serving.Json.{Json, null, bool, num, str, arr, obj, get}

-- What follows a prefix.
abbrev pub after : Text → Text → Option Text
after [] s = some s
after (c ∷ p) [] = none
after (c ∷ p) (d ∷ s) = let rest = after p s in if c == d then rest else none

abbrev pub is_base64_char : ℕ → Bool
is_base64_char c =
    (leb b'A' c && leb c b'Z')
    || (leb b'a' c && leb c b'z')
    || (leb b'0' c && leb c b'9')
    || c == b'+'
    || c == b'/'

-- `={0,2}`, to the end.
abbrev pub is_padding : Text → Bool
is_padding [] = true
is_padding (c ∷ []) = c == b'='
is_padding (c ∷ d ∷ []) = c == b'=' && d == b'='
is_padding (c ∷ d ∷ e ∷ s) = false

-- `[A-Za-z0-9+/]*={0,2}`, to the end.
abbrev pub is_base64 : Text → Bool
is_base64 [] = true
is_base64 (c ∷ s) = let rest = is_base64 s in if is_base64_char c then rest else is_padding (c ∷ s)

abbrev pub otherwise : Option (Text × Text) → Option (Text × Text) → Option (Text × Text)
otherwise (some found) later = some found
otherwise none later = later

-- One of `png|jpeg|webp` with what follows it.
abbrev pub named : Text → Text → Option (Text × Text)
named name rest = after (name ++ codes ";base64,") rest >>= λ body.
    if is_base64 body then some (name, body) else none

-- `PICTURE.fullmatch`, with its two groups.
unfoldable pub picture_match : Text → Option (Text × Text)
picture_match url = after (codes "data:image/") url >>= λ rest.
    otherwise (named (codes "png") rest)
      (otherwise (named (codes "jpeg") rest) (named (codes "webp") rest))

abbrev pub png_signature : List ℕ
png_signature = 0x89 ∷ 0x50 ∷ 0x4e ∷ 0x47 ∷ 0x0d ∷ 0x0a ∷ 0x1a ∷ 0x0a ∷ []

abbrev pub jpeg_signature : List ℕ
jpeg_signature = 0xff ∷ 0xd8 ∷ 0xff ∷ []

abbrev pub is_webp : List ℕ → Bool
is_webp bytes =
    text_eq (take 4 bytes) (codes "RIFF") && text_eq (take 4 (drop 8 bytes)) (codes "WEBP")

-- `kind`, where the empty text stands for None: no group of `PICTURE` is empty.
unfoldable pub kind_of : List ℕ → Text
kind_of bytes =
    if is_webp bytes
    then codes "webp"
    else if starts_with png_signature bytes
    then codes "png"
    else if starts_with jpeg_signature bytes
    then codes "jpeg"
    else []

abbrev pub picture_bytes : ℕ
picture_bytes = 2097152

abbrev pub url_text : Option Json → Option Text
url_text (some (str s)) = some s
url_text _ = none

abbrev pub url_of : Option Json → Option Text
url_of (some (obj fields)) = url_text (get (codes "url") fields)
url_of _ = none

abbrev pub fits_kind : Text → List ℕ → Bool
fits_kind kind bytes = leb (length bytes) picture_bytes && text_eq (kind_of bytes) kind

-- `_picture`: the URL, where `image_url` holds a picture.
unfoldable pub picture : (Text → Option (List ℕ)) → Option Json → Option Text
picture b64decode image_url = url_of image_url >>= λ url. picture_match url >>= λ found.
    b64decode found.1 >>= λ bytes. if fits_kind found.0 bytes then some url else none
