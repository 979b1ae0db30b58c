-- ===== src/Messages/Sent.antt =====
-- The messages that are built are those that the body has, each as it was sent and in their order.
use simple_serving.Prelude.{
  ℕ, ◌++◌, length, length-append, ◌≡◌, refl, ap, arith, Bool, true, false, ◌&&◌, Option, none, some,
  List, [], ◌∷◌, Text, text_eq, codes, eq_of_text_eq, Empty, Gives, bind-Gives, none-Gives,
  some-Gives, if_Gives,
}
use simple_serving.Json.{Json, null, bool, num, str, arr, obj, Elems, done, elem, Fields, get}
use simple_serving.DataUrl.{url_of, picture}
use simple_serving.DataUrl.Accepted.{picture-Gives}
use simple_serving.Messages.{
  Part, text_part, image_part, Content, plain, parts, Message, keys_are, is_text, text_of, is_role,
  part_value, part, all_parts, if_parts, content, message, all_messages, messages, images,
  images_in, content_images,
}

-- A part of the list of a message: its type, and its text or the URL of its picture.
abbrev pub PartSent : Json → Part → Type 0
PartSent (obj fields) (text_part s) =
    (get (codes "type") fields ≡ some (str (codes "text")))
    × (get (codes "text") fields ≡ some (str s))
PartSent (obj fields) (image_part url) =
    (get (codes "type") fields ≡ some (str (codes "image_url")))
    × ((inner : Fields) × (get (codes "image_url") fields ≡ some (obj inner))
        × (get (codes "url") inner ≡ some (str url)))
PartSent _ p = Empty

-- Each value of the list gives one part, in their order.
abbrev pub PartsSent : Elems → List Part → Type 0
PartsSent done [] = Unit
PartsSent done (p ∷ ps) = Empty
PartsSent (elem v rest) [] = Empty
PartsSent (elem v rest) (p ∷ ps) = PartSent v p × PartsSent rest ps

abbrev pub ContentSent : Option Json → Content → Type 0
ContentSent (some (str s)) (plain t) = s ≡ t
ContentSent (some (arr elems)) (parts ps) = PartsSent elems ps
ContentSent _ c = Empty

abbrev pub MessageSent : Json → Message → Type 0
MessageSent (obj fields) m =
    (get (codes "role") fields ≡ some (str m.role))
    × ContentSent (get (codes "content") fields) m.content
MessageSent _ m = Empty

abbrev pub MessagesSent : Elems → List Message → Type 0
MessagesSent done [] = Unit
MessagesSent done (m ∷ ms) = Empty
MessagesSent (elem v rest) [] = Empty
MessagesSent (elem v rest) (m ∷ ms) = MessageSent v m × MessagesSent rest ms

-- The field `messages` of a body.
abbrev pub AllSent : Option Json → List Message → Type 0
AllSent (some (arr elems)) ms = MessagesSent elems ms
AllSent _ ms = Empty

-- The URLs of the pictures that the messages show, in order.
abbrev pub part_urls : List Part → List Text
part_urls [] = []
part_urls (text_part s ∷ ps) = part_urls ps
part_urls (image_part url ∷ ps) = url ∷ part_urls ps

abbrev pub content_urls : Content → List Text
content_urls (plain s) = []
content_urls (parts ps) = part_urls ps

abbrev pub picture_urls : List Message → List Text
picture_urls [] = []
picture_urls (m ∷ ms) = content_urls m.content ++ picture_urls ms

part_urls-length : (ps : List Part) → images_in ps ≡ length (part_urls ps)
part_urls-length [] = refl
part_urls-length (text_part s ∷ ps) = omega (arith, part_urls-length ps)
part_urls-length (image_part url ∷ ps) = omega (arith, part_urls-length ps)

content_urls-length : (c : Content) → content_images c ≡ length (content_urls c)
content_urls-length (plain s) = refl
content_urls-length (parts ps) = part_urls-length ps

pub images-length : (ms : List Message) → images ms ≡ length (picture_urls ms)
unfolding images
images-length [] = refl
images-length (m ∷ ms) = omega (
  arith,
  content_urls-length m.content,
  images-length ms,
  length-append (content_urls m.content) (picture_urls ms),
)

pub text_lem : (t : Text) (v : Option Json) → is_text t v ≡ true → v ≡ some (str t)
text_lem t (some (str s)) h = ap (λ u. some (str u)) (eq_of_text_eq s t h)
text_lem t none h = cc
text_lem t (some null) h = cc
text_lem t (some (bool b)) h = cc
text_lem t (some (num n)) h = cc
text_lem t (some (arr xs)) h = cc
text_lem t (some (obj fs)) h = cc

text_of-Gives : (v : Option Json) → Gives (λ s. v ≡ some (str s)) (text_of v)
text_of-Gives v = record { given = λ s h. ground arith }

url_of_lem :
    (v : Option Json) (url : Text)
    → url_of v ≡ some url
    → (inner : Fields) × (v ≡ some (obj inner)) × (get (codes "url") inner ≡ some (str url))
url_of_lem (some (obj inner)) url h =
    (inner, refl, (text_of-Gives (get (codes "url") inner)).given url (ground arith))
url_of_lem none url h = cc
url_of_lem (some null) url h = cc
url_of_lem (some (bool b)) url h = cc
url_of_lem (some (num n)) url h = cc
url_of_lem (some (str s)) url h = cc
url_of_lem (some (arr xs)) url h = cc

module _ (b64decode : Text → Option (List ℕ)) where
  part_value-Gives : (fields : Fields) → Gives (PartSent (obj fields)) (part_value b64decode fields)
  part_value-Gives fields =
      if_Gives (keys_are (codes "text") fields)
        (λ _.
          if_Gives (is_text (codes "text") (get (codes "type") fields))
            (λ e.
              bind-Gives (text_of (get (codes "text") fields)) (text_of-Gives _)
                λ s h. some-Gives (text_part s) (text_lem _ _ e, h))
            λ _. none-Gives _)
        λ _.
          if_Gives
            (keys_are (codes "image_url") fields
              && is_text (codes "image_url") (get (codes "type") fields))
            (λ e.
              bind-Gives (picture b64decode (get (codes "image_url") fields))
                (picture-Gives b64decode (get (codes "image_url") fields))
                λ url h.
                  some-Gives (image_part url) (text_lem _ _ (ground arith), url_of_lem _ url h.0))
            λ _. none-Gives _

  part-Sent : (v : Json) → Gives (PartSent v) (part b64decode v)
  unfolding part
  part-Sent (obj fields) = part_value-Gives fields
  part-Sent null = none-Gives _
  part-Sent (bool b) = none-Gives _
  part-Sent (num n) = none-Gives _
  part-Sent (str s) = none-Gives _
  part-Sent (arr xs) = none-Gives _

  all_parts-Sent : (xs : Elems) → Gives (PartsSent xs) (all_parts b64decode xs)
  unfolding all_parts
  all_parts-Sent done = some-Gives [] tt
  all_parts-Sent (elem v rest) = bind-Gives (part b64decode v) (part-Sent v) λ p h.
      bind-Gives (all_parts b64decode rest) (all_parts-Sent rest)
        λ ps hs. some-Gives (p ∷ ps) (h, hs)

  if_parts-Sent :
      (b : Bool) (xs : Elems) → Gives (ContentSent (some (arr xs))) (if_parts b64decode b xs)
  if_parts-Sent false xs = none-Gives _
  if_parts-Sent true done = none-Gives _
  if_parts-Sent true (elem v rest) =
      bind-Gives (all_parts b64decode (elem v rest)) (all_parts-Sent (elem v rest))
        λ ps h. some-Gives (parts ps) h

  content-Sent :
      (vision : Bool) (role : Text) (v : Option Json)
      → Gives (ContentSent v) (content b64decode vision role v)
  unfolding content
  content-Sent vision role none = none-Gives _
  content-Sent vision role (some (str s)) = some-Gives (plain s) refl
  content-Sent vision role (some (arr xs)) =
      if_parts-Sent (vision && text_eq role (codes "user")) xs
  content-Sent vision role (some null) = none-Gives _
  content-Sent vision role (some (bool b)) = none-Gives _
  content-Sent vision role (some (num n)) = none-Gives _
  content-Sent vision role (some (obj fs)) = none-Gives _

  message-Sent : (vision : Bool) (v : Json) → Gives (MessageSent v) (message b64decode vision v)
  unfolding message
  message-Sent vision (obj fields) =
      bind-Gives (text_of (get (codes "role") fields)) (text_of-Gives _) λ role r.
        if_Gives (is_role role)
          (λ e.
            bind-Gives (content b64decode vision role (get (codes "content") fields))
              (content-Sent vision role _) λ c h. some-Gives _ (r, h))
          λ _. none-Gives _
  message-Sent vision null = none-Gives _
  message-Sent vision (bool b) = none-Gives _
  message-Sent vision (num n) = none-Gives _
  message-Sent vision (str s) = none-Gives _
  message-Sent vision (arr xs) = none-Gives _

  all_messages-Sent :
      (vision : Bool) (xs : Elems) → Gives (MessagesSent xs) (all_messages b64decode vision xs)
  unfolding all_messages
  all_messages-Sent vision done = some-Gives [] tt
  all_messages-Sent vision (elem v rest) =
      bind-Gives (message b64decode vision v) (message-Sent vision v) λ m h.
        bind-Gives (all_messages b64decode vision rest) (all_messages-Sent vision rest)
          λ ms hs. some-Gives (m ∷ ms) (h, hs)

  pub messages-Sent :
      (vision : Bool) (v : Option Json) → Gives (AllSent v) (messages b64decode vision v)
  unfolding messages
  messages-Sent vision (some (arr (elem v rest))) = all_messages-Sent vision (elem v rest)
  messages-Sent vision (some (arr done)) = none-Gives _
  messages-Sent vision none = none-Gives _
  messages-Sent vision (some null) = none-Gives _
  messages-Sent vision (some (bool b)) = none-Gives _
  messages-Sent vision (some (num n)) = none-Gives _
  messages-Sent vision (some (str s)) = none-Gives _
  messages-Sent vision (some (obj fs)) = none-Gives _
