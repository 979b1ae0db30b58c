-- ===== src/Messages/Accepted.antt =====
-- What the messages are that the checks let through.
use simple_serving.Prelude.{
  ℕ, ◌≡◌, ◌≢◌, refl, sym, ◌∙◌, ◌⊎◌, inl, inr, Bool, true, false, ◌&&◌, Option, none, some, List, [],
  ◌∷◌, Text, text_eq, codes, eq_of_text_eq, All, Empty, Bool-cases, Gives, bind-Gives, none-Gives,
  some-Gives, anything, if_Gives, Gives-weaker,
}
use simple_serving.Json.{Json, null, bool, num, str, arr, obj, Elems, done, elem, Fields, get}
use simple_serving.DataUrl.{picture}
use simple_serving.DataUrl.Accepted.{IsPicture, picture-Gives}
use simple_serving.Messages.{
  Part, text_part, image_part, Content, plain, parts, Message, keys_are, is_text, text_of, is_role,
  part_value, part, all_parts, some_parts, if_parts, content, message, all_messages, messages,
}

module _ (b64decode : Text → Option (List ℕ)) where
  -- A picture is a data URL that decodes to a picture of its own type.
  abbrev pub IsPart : Part → Type 0
  IsPart (text_part s) = Unit
  IsPart (image_part url) = IsPicture b64decode url

  -- Parts come from a user alone, and only while the engine takes pictures.
  abbrev pub IsContent : Bool → Text → Content → Type 0
  IsContent vision role (plain s) = Unit
  IsContent vision role (parts ps) =
      (vision ≡ true) × ((role ≡ codes "user") × ((ps ≢ []) × All IsPart ps))

  abbrev IsParts : Content → Type 0
  IsParts (plain s) = Empty
  IsParts (parts ps) = (ps ≢ []) × All IsPart ps

  with_role :
      (role : Text) (c : Content)
      → text_eq role (codes "user") ≡ true
      → IsParts c
      → IsContent true role c
  with_role role (plain s) e h = tt
  with_role role (parts ps) e h = (refl, (eq_of_text_eq role (codes "user") e, h))

  abbrev pub IsRole : Text → Type 0
  IsRole role = (role ≡ codes "system") ⊎ ((role ≡ codes "user") ⊎ (role ≡ codes "assistant"))

  abbrev pub IsMessage : Bool → Message → Type 0
  IsMessage vision m = IsRole m.role × IsContent vision m.role m.content

  part_value-Gives : (fields : Fields) → Gives IsPart (part_value b64decode fields)
  part_value-Gives fields =
      if_Gives (keys_are (codes "text") fields)
        (λ _.
          if_Gives (is_text (codes "text") (get (codes "type") fields))
            (λ _.
              bind-Gives (text_of (get (codes "text") fields)) (anything _)
                λ s _. some-Gives (text_part s) tt)
            λ _. none-Gives _)
        λ _.
          if_Gives
            (keys_are (codes "image_url") fields
              && is_text (codes "image_url") (get (codes "type") fields))
            (λ _.
              bind-Gives (picture b64decode (get (codes "image_url") fields))
                (picture-Gives b64decode (get (codes "image_url") fields))
                λ url h. some-Gives (image_part url) h.1)
            λ _. none-Gives _

  part-Gives : (v : Json) → Gives IsPart (part b64decode v)
  unfolding part
  part-Gives (obj fields) = part_value-Gives fields
  part-Gives null = none-Gives _
  part-Gives (bool b) = none-Gives _
  part-Gives (num n) = none-Gives _
  part-Gives (str s) = none-Gives _
  part-Gives (arr xs) = none-Gives _

  all_parts-Gives : (xs : Elems) → Gives (All IsPart) (all_parts b64decode xs)
  unfolding all_parts
  all_parts-Gives done = some-Gives [] tt
  all_parts-Gives (elem v rest) = bind-Gives (part b64decode v) (part-Gives v) λ p h.
      bind-Gives (all_parts b64decode rest) (all_parts-Gives rest)
        λ ps hs. some-Gives (p ∷ ps) (h, hs)

  nonempty-Gives :
      (v : Json) (rest : Elems)
      → Gives (λ ps. (ps ≢ []) × All IsPart ps) (all_parts b64decode (elem v rest))
  unfolding all_parts
  nonempty-Gives v rest = bind-Gives (part b64decode v) (part-Gives v) λ p h.
      bind-Gives (all_parts b64decode rest) (all_parts-Gives rest)
        λ ps hs. some-Gives (p ∷ ps) ((λ e. cc), (h, hs))

  some_parts-Gives : (xs : Elems) → Gives IsParts (some_parts b64decode xs)
  some_parts-Gives done = none-Gives _
  some_parts-Gives (elem v rest) =
      bind-Gives (all_parts b64decode (elem v rest)) (nonempty-Gives v rest)
        λ ps h. some-Gives (parts ps) h

  if_parts-Gives :
      (vision : Bool) (role : Text) (xs : Elems)
      → Gives
          (IsContent vision role)
          (if_parts b64decode (vision && text_eq role (codes "user")) xs)
  if_parts-Gives false role xs = none-Gives _
  if_parts-Gives true role xs = elim (Bool-cases (text_eq role (codes "user"))) [
    | inl e ↦ rw e (Gives-weaker (some_parts-Gives xs) λ ps h. with_role role ps e h)
    | inr e ↦ rw e (none-Gives _)
  ]

  content-Gives :
      (vision : Bool) (role : Text) (v : Option Json)
      → Gives (IsContent vision role) (content b64decode vision role v)
  unfolding content
  content-Gives vision role none = none-Gives _
  content-Gives vision role (some (str s)) = some-Gives (plain s) tt
  content-Gives vision role (some (arr xs)) = if_parts-Gives vision role xs
  content-Gives vision role (some null) = none-Gives _
  content-Gives vision role (some (bool b)) = none-Gives _
  content-Gives vision role (some (num n)) = none-Gives _
  content-Gives vision role (some (obj fs)) = none-Gives _

  role_lem : (role : Text) → is_role role ≡ true → IsRole role
  role_lem role h = elim (Bool-cases (text_eq role (codes "system"))) [
    | inl e ↦ inl (eq_of_text_eq role (codes "system") e)
    | inr e ↦ elim (Bool-cases (text_eq role (codes "user"))) [
      | inl f ↦ inr (inl (eq_of_text_eq role (codes "user") f))
      | inr f ↦ inr (inr (eq_of_text_eq role (codes "assistant") (sym (rw (e, f) refl) ∙ h)))
    ]
  ]

  message-Gives : (vision : Bool) (v : Json) → Gives (IsMessage vision) (message b64decode vision v)
  unfolding message
  message-Gives vision (obj fields) =
      bind-Gives (text_of (get (codes "role") fields)) (anything _) λ role _.
        if_Gives (is_role role)
          (λ e.
            bind-Gives (content b64decode vision role (get (codes "content") fields))
              (content-Gives vision role _) λ c h. some-Gives _ (role_lem role e, h))
          λ _. none-Gives _
  message-Gives vision null = none-Gives _
  message-Gives vision (bool b) = none-Gives _
  message-Gives vision (num n) = none-Gives _
  message-Gives vision (str s) = none-Gives _
  message-Gives vision (arr xs) = none-Gives _

  all_messages-Gives :
      (vision : Bool) (xs : Elems)
      → Gives (All (IsMessage vision)) (all_messages b64decode vision xs)
  unfolding all_messages
  all_messages-Gives vision done = some-Gives [] tt
  all_messages-Gives vision (elem v rest) =
      bind-Gives (message b64decode vision v) (message-Gives vision v) λ m h.
        bind-Gives (all_messages b64decode vision rest) (all_messages-Gives vision rest)
          λ ms hs. some-Gives (m ∷ ms) (h, hs)

  nonempty-IsMessage :
      (vision : Bool) (v : Json) (rest : Elems)
      → Gives
          (λ ms. (ms ≢ []) × All (IsMessage vision) ms)
          (all_messages b64decode vision (elem v rest))
  unfolding all_messages
  nonempty-IsMessage vision v rest =
      bind-Gives (message b64decode vision v) (message-Gives vision v) λ m h.
        bind-Gives (all_messages b64decode vision rest) (all_messages-Gives vision rest)
          λ ms hs. some-Gives (m ∷ ms) ((λ e. cc), (h, hs))

  pub messages-Gives :
      (vision : Bool) (v : Option Json)
      → Gives (λ ms. (ms ≢ []) × All (IsMessage vision) ms) (messages b64decode vision v)
  unfolding messages
  messages-Gives vision (some (arr (elem v rest))) = nonempty-IsMessage vision v rest
  messages-Gives vision (some (arr done)) = none-Gives _
  messages-Gives vision none = none-Gives _
  messages-Gives vision (some null) = none-Gives _
  messages-Gives vision (some (bool b)) = none-Gives _
  messages-Gives vision (some (num n)) = none-Gives _
  messages-Gives vision (some (str s)) = none-Gives _
  messages-Gives vision (some (obj fs)) = none-Gives _
