-- ===== src/DataUrl/Accepted.antt =====
-- What the URL of an accepted picture is.
use simple_serving.Prelude.{
  ℕ, ◌≤◌, ◌==◌, ◌≡◌, refl, ap, ◌∙◌, arith, leb, true, ◌⊎◌, inl, inr, Option, none, some, List, [],
  ◌∷◌, ◌++◌, Text, text_eq, codes, eq_of_text_eq, length, Gives, bind-Gives, none-Gives, some-Gives,
  append_assoc_lem, if_Gives, itself, Gives-weaker,
}
use simple_serving.Json.{Json}
use simple_serving.DataUrl.{
  after, is_base64, otherwise, named, picture_match, kind_of, picture_bytes, url_of, fits_kind,
  picture,
}

-- A URL that the engine decodes itself: no http or file URL.
pub record IsPicture (b64decode : Text → Option (List ℕ)) (url : Text) : Type 0 where
  pub kind : Text
  pub body : Text
  pub bytes : List ℕ
  pub known : (kind ≡ codes "png") ⊎ ((kind ≡ codes "jpeg") ⊎ (kind ≡ codes "webp"))
  pub is_data_url : url ≡ codes "data:image/" ++ (kind ++ (codes ";base64," ++ body))
  pub characters : is_base64 body ≡ true
  pub decoded : b64decode body ≡ some bytes
  pub size : length bytes ≤ picture_bytes
  pub signature : kind_of bytes ≡ kind

pub after-Gives : (p s : Text) → Gives (λ t. s ≡ p ++ t) (after p s)
after-Gives [] s = some-Gives s refl
after-Gives (c ∷ p) [] = none-Gives _
after-Gives (c ∷ p) (d ∷ s) =
    if_Gives (c == d) (λ e. Gives-weaker (after-Gives p s) λ t h. ground (arith, h))
      λ _. none-Gives _

-- The groups of a match, and what stands after `data:image/`.
abbrev IsMatch : Text → Text × Text → Type 0
IsMatch rest found =
    ((found.0 ≡ codes "png") ⊎ ((found.0 ≡ codes "jpeg") ⊎ (found.0 ≡ codes "webp")))
    × ((rest ≡ found.0 ++ (codes ";base64," ++ found.1)) × (is_base64 found.1 ≡ true))

named-Gives :
    (name rest : Text)
    → ((name ≡ codes "png") ⊎ ((name ≡ codes "jpeg") ⊎ (name ≡ codes "webp")))
    → Gives (IsMatch rest) (named name rest)
named-Gives name rest known =
    bind-Gives (after (name ++ codes ";base64,") rest) (after-Gives (name ++ codes ";base64,") rest)
      λ body e.
        if_Gives (is_base64 body)
          (λ chars.
            some-Gives (name, body)
              (known, (e ∙ append_assoc_lem name (codes ";base64,") body, chars)))
          λ _. none-Gives _

otherwise-Gives :
    {P : Text × Text → Type 0} (a b : Option (Text × Text))
    → Gives P a
    → Gives P b
    → Gives P (otherwise a b)
otherwise-Gives none b ga gb = gb
otherwise-Gives (some x) b ga gb = ga

IsMatch-Gives :
    (url : Text)
    → Gives
        (λ found. (rest : Text) × ((url ≡ codes "data:image/" ++ rest) × IsMatch rest found))
        (picture_match url)
unfolding picture_match
IsMatch-Gives url =
    bind-Gives (after (codes "data:image/") url) (after-Gives (codes "data:image/") url) λ rest e.
      Gives-weaker
        (otherwise-Gives (named (codes "png") rest)
          (otherwise (named (codes "jpeg") rest) (named (codes "webp") rest))
          (named-Gives (codes "png") rest (inl refl))
          (otherwise-Gives (named (codes "jpeg") rest) (named (codes "webp") rest)
            (named-Gives (codes "jpeg") rest (inr (inl refl)))
            (named-Gives (codes "webp") rest (inr (inr refl)))))
        λ found h. (rest, (e, h))

fits_lem :
    (kind : Text) (bytes : List ℕ)
    → fits_kind kind bytes ≡ true
    → (length bytes ≤ picture_bytes) × (kind_of bytes ≡ kind)
fits_lem kind bytes h =
    let size_ok : leb (length bytes) picture_bytes ≡ true = ground arith in
    let same : text_eq (kind_of bytes) kind ≡ true = ground arith in
    (ground arith, eq_of_text_eq (kind_of bytes) kind same)

pub picture-Gives :
    (b64decode : Text → Option (List ℕ)) (image_url : Option Json)
    → Gives
        (λ url. (url_of image_url ≡ some url) × IsPicture b64decode url)
        (picture b64decode image_url)
unfolding picture
picture-Gives b64decode image_url =
    bind-Gives (url_of image_url) (itself (url_of image_url)) λ url here.
      bind-Gives (picture_match url) (IsMatch-Gives url) λ found m.
        bind-Gives (b64decode found.1) (itself (b64decode found.1)) λ bytes decoded.
          if_Gives (fits_kind found.0 bytes)
            (λ fits. some-Gives url (
              here,
              record {
                kind = found.0;
                body = found.1;
                bytes = bytes;
                known = m.1.1.0;
                is_data_url = m.1.0 ∙ ap (λ t. codes "data:image/" ++ t) m.1.1.1.0;
                characters = m.1.1.1.1;
                decoded = decoded;
                size = (fits_lem found.0 bytes fits).0;
                signature = (fits_lem found.0 bytes fits).1;
              },
            ))
            λ _. none-Gives _
