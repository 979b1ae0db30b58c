-- ===== src/Messages.antt =====
-- simple_serving/validation.py: the messages of a generation, `_parts`, `_part` and `_content`. A
-- message is checked and built in one step; `none` is `invalid_request`. The base64 decoder is a
-- parameter.
pub mod Accepted
pub mod Sent
use simple_serving.Prelude.{
  ℕ, suc, ◌+◌, Bool, true, false, ◌&&◌, ◌||◌, Option, none, some, List, [], ◌∷◌, Text, text_eq,
  codes, if◌then◌else◌, ◌>>=◌,
}
use simple_serving.Json.{
  Json, null, bool, num, str, arr, obj, Elems, done, elem, Fields, get, fields_within,
}
use simple_serving.DataUrl.{picture}

pub data Part : Type 0 where
  text_part image_part : Text → Part

pub data Content : Type 0 where
  plain : Text → Content
  parts : List Part → Content

pub record Message : Type 0 where
  pub role : Text
  pub content : Content

abbrev pub is_here : Option Json → Bool
is_here none = false
is_here (some v) = true

-- `part.keys() == {"type", other}`
abbrev pub keys_are : Text → Fields → Bool
keys_are other fields =
    fields_within (codes "type" ∷ (other ∷ [])) fields
    && is_here (get (codes "type") fields)
    && is_here (get other fields)

-- Equality with a text.
abbrev pub is_text : Text → Option Json → Bool
is_text t (some (str s)) = text_eq s t
is_text t _ = false

abbrev pub text_of : Option Json → Option Text
text_of (some (str s)) = some s
text_of _ = none

-- `ROLES`
abbrev pub is_role : Text → Bool
is_role s = text_eq s (codes "system") || text_eq s (codes "user") || text_eq s (codes "assistant")

module _ (b64decode : Text → Option (List ℕ)) where
  abbrev pub part_value : Fields → Option Part
  part_value fields =
      if keys_are (codes "text") fields
      then if is_text (codes "text") (get (codes "type") fields)
        then (text_of (get (codes "text") fields) >>= λ s. some (text_part s))
        else none
      else if keys_are (codes "image_url") fields
          && is_text (codes "image_url") (get (codes "type") fields)
      then (picture b64decode (get (codes "image_url") fields) >>= λ url. some (image_part url))
      else none

  -- `_part`
  unfoldable pub part : Json → Option Part
  part (obj fields) = part_value fields
  part _ = none

  unfoldable pub all_parts : Elems → Option (List Part)
  all_parts done = some []
  all_parts (elem v rest) =
      let later = all_parts rest in part v >>= λ p. later >>= λ ps. some (p ∷ ps)

  -- `_parts`, of a list with at least one.
  abbrev pub some_parts : Elems → Option Content
  some_parts done = none
  some_parts (elem v rest) = all_parts (elem v rest) >>= λ ps. some (parts ps)

  abbrev pub if_parts : Bool → Elems → Option Content
  if_parts true elems = some_parts elems
  if_parts false elems = none

  -- `_content`, of a content that passes: a list of parts only from a user, and while the engine
  -- takes pictures.
  unfoldable pub content : Bool → Text → Option Json → Option Content
  content vision role (some (str s)) = some (plain s)
  content vision role (some (arr elems)) = if_parts (vision && text_eq role (codes "user")) elems
  content vision role _ = none

  unfoldable pub message : Bool → Json → Option Message
  message vision (obj fields) = text_of (get (codes "role") fields) >>= λ role.
      if is_role role
      then (content vision role (get (codes "content") fields) >>= λ c.
          some (record { role = role; content = c }))
      else none
  message vision _ = none

  unfoldable pub all_messages : Bool → Elems → Option (List Message)
  all_messages vision done = some []
  all_messages vision (elem v rest) =
      let later = all_messages vision rest in
      message vision v >>= λ m. later >>= λ ms. some (m ∷ ms)

  -- `body.get("messages")`, a list with at least one.
  unfoldable pub messages : Bool → Option Json → Option (List Message)
  messages vision (some (arr (elem v rest))) = all_messages vision (elem v rest)
  messages vision _ = none

abbrev pub is_image : Part → ℕ
is_image (text_part s) = 0
is_image (image_part url) = 1

abbrev pub images_in : List Part → ℕ
images_in [] = 0
images_in (p ∷ ps) = is_image p + images_in ps

abbrev pub content_images : Content → ℕ
content_images (plain s) = 0
content_images (parts ps) = images_in ps

-- `pictures`
unfoldable pub images : List Message → ℕ
images [] = 0
images (m ∷ ms) = content_images m.content + images ms
