-- ===== src/Graphs/Files.antt =====
-- Which files a text of a graph may name.
use simple_serving.Prelude.{
  ℕ, ◌≡◌, refl, sym, ap, ◌∙◌, ◌⊎◌, inl, inr, arith, Bool, true, false, ◌&&◌, ◌||◌, not, Option,
  none, some, List, [], ◌∷◌, ◌++◌, Text, text_eq, codes, eq_of_text_eq, All, Bool-cases, Gives,
  bind-Gives, none-Gives, some-Gives, if_Gives, Gives-weaker,
}
use simple_serving.Config.{ServiceClass, reader, agent, internal, external}
use simple_serving.Json.{Json, null, bool, num, str, arr, obj}
use simple_serving.DataUrl.{after}
use simple_serving.DataUrl.Accepted.{after-Gives}
use simple_serving.Graphs.{
  temp, is_name_char, after_char, name_before, nonempty, uploaded, is_plain_input, ends_with,
  is_internal, names_owned, image_value, temp_owned,
}

name_before-Gives : (s : Text) → Gives (λ name. s ≡ name ++ temp) (name_before s)
name_before-Gives [] = none-Gives _
name_before-Gives (c ∷ s) =
    if_Gives (text_eq (c ∷ s) temp) (λ e. some-Gives [] (eq_of_text_eq (c ∷ s) temp e))
      λ _. after_lem c s (name_before s) (name_before-Gives s)
  where
    after_lem :
        (c : ℕ) (s : Text) (o : Option Text)
        → Gives (λ name. s ≡ name ++ temp) o
        → Gives (λ name. c ∷ s ≡ name ++ temp) (after_char c o)
    after_lem c s none g = none-Gives _
    after_lem c s (some n) g =
        if_Gives (is_name_char c) (λ _. some-Gives (c ∷ n) (ap (λ t. c ∷ t) (g.given n refl)))
          λ _. none-Gives _

nonempty-Gives : (s : Text) → Gives (λ n. s ≡ n) (nonempty s)
nonempty-Gives [] = none-Gives _
nonempty-Gives (c ∷ s) = some-Gives (c ∷ s) refl

uploaded-Gives :
    (s : Text) → Gives (λ name. s ≡ codes "bot-references/" ++ (name ++ temp)) (uploaded s)
unfolding uploaded
uploaded-Gives s =
    bind-Gives (after (codes "bot-references/") s) (after-Gives (codes "bot-references/") s)
      λ rest e. bind-Gives (name_before rest) (name_before-Gives rest) λ before f.
        Gives-weaker (nonempty-Gives before)
          λ name g. e ∙ ap (λ t. codes "bot-references/" ++ t) (f ∙ ap (λ n. n ++ temp) g)

module _ (owns : Text → Bool) where
  -- A text that names a live upload of the caller's own.
  abbrev pub Owned : Text → Type 0
  Owned text =
      (name : Text) × ((text ≡ codes "bot-references/" ++ (name ++ temp)) × (owns name ≡ true))

  owned_lem :
      (text : Text) (o : Option Text) → uploaded text ≡ o → names_owned owns o ≡ true → Owned text
  owned_lem text none e h = cc
  owned_lem text (some name) e h = (name, ((uploaded-Gives text).given name e, h))

  -- A temporary file is named only if it is the caller's.
  abbrev pub TempOwned : Text → Type 0
  TempOwned text = (ends_with temp text ≡ false) ⊎ Owned text

  temp_text :
      (text : Text)
      → (not (ends_with temp text) || names_owned owns (uploaded text)) ≡ true
      → TempOwned text
  temp_text text h = elim (Bool-cases (ends_with temp text)) [
    | inl e ↦ inr (owned_lem text (uploaded text) refl (sym (rw e refl) ∙ h))
    | inr e ↦ inl e
  ]

  pub temp_lem : (texts : List Text) → temp_owned owns texts ≡ true → All TempOwned texts
  temp_lem [] h = tt
  temp_lem (text ∷ texts) h =
      let here : (not (ends_with temp text) || names_owned owns (uploaded text)) ≡ true =
        ground arith in
      let later : temp_owned owns texts ≡ true = ground arith in
      (temp_text text here, temp_lem texts later)

  -- An image that a node loads: the caller's upload, or, for ours alone, a plain name.
  abbrev pub IsImage : ServiceClass → Option Json → Type 0
  IsImage cls v =
      (image : Text) × ((v ≡ some (str image))
        × (Owned image ⊎ ((cls ≡ internal) × (is_plain_input image ≡ true))))

  pub internal_lem : (cls : ServiceClass) → is_internal cls ≡ true → cls ≡ internal
  internal_lem internal h = refl
  internal_lem reader h = cc
  internal_lem agent h = cc
  internal_lem external h = cc

  pub IsImage-Gives :
      (cls : ServiceClass) (v : Option Json) → Gives (λ _. IsImage cls v) (image_value owns cls v)
  unfolding image_value
  IsImage-Gives cls (some (str image)) =
      if_Gives (names_owned owns (uploaded image))
        (λ e. some-Gives 1 (image, (refl, inl (owned_lem image (uploaded image) refl e))))
        λ _.
          if_Gives (is_internal cls && is_plain_input image)
            (λ e. some-Gives 0 (image, (refl, inr (internal_lem cls (ground arith), ground arith))))
            λ _. none-Gives _
  IsImage-Gives cls none = none-Gives _
  IsImage-Gives cls (some null) = none-Gives _
  IsImage-Gives cls (some (bool b)) = none-Gives _
  IsImage-Gives cls (some (num n)) = none-Gives _
  IsImage-Gives cls (some (arr xs)) = none-Gives _
  IsImage-Gives cls (some (obj fs)) = none-Gives _
