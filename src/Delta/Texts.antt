-- ===== src/Delta/Texts.antt =====
-- The text that the parts of a delta hold.
use simple_serving.Prelude.{
  append_nil_lem, ◌≡◌, refl, arith, ap, sym, ◌∙◌, text_eq, if◌then◌else◌, inl, inr, ◌||◌, not,
  Option, none, some, List, [], ◌∷◌, ◌++◌, Text, codes, Bool-cases,
}
use simple_serving.Errors.{Result, ok, err}
use simple_serving.Json.{Json, null, bool, num, str, arr, obj, Fields, end, field, get}
use simple_serving.Delta.{
  Part, role_assistant, reasoning_content, content, present, known_fields, texts, role_is_assistant,
  role_part, text_part, string_of, reasoning_of, content_of, all_parts, parts_of,
}

-- The text of one kind in a part: the content, or the reasoning.
abbrev pub content_in : Part → Text
content_in (content s) = s
content_in (reasoning_content s) = []
content_in role_assistant = []

abbrev pub reasoning_in : Part → Text
reasoning_in (content s) = []
reasoning_in (reasoning_content s) = s
reasoning_in role_assistant = []

abbrev pub in_parts : (Part → Text) → List Part → Text
in_parts pick [] = []
in_parts pick (p ∷ ps) = pick p ++ in_parts pick ps

-- The text that a delta holds, by the function of its fields.
abbrev pub in_fields : (Fields → Text) → Option Json → Text
in_fields of (some (obj delta)) = of delta
in_fields of _ = []

-- What the engine says in a field that is not null; a value that is no text says nothing.
abbrev pub text_said : Json → Text
text_said (str s) = s
text_said _ = []

abbrev pub said : Text → Fields → Option Text
said name end = none
said name (field other null rest) = said name rest
said name (field other value rest) =
    let later = said name rest in if text_eq other name then some (text_said value) else later

abbrev pub or_nothing : Option Text → Text
or_nothing none = []
or_nothing (some s) = s

-- The text of a delta's field `content`.
abbrev pub content_said : Fields → Text
content_said delta = or_nothing (said (codes "content") delta)

abbrev pub first_said : Option Text → Option Text → Text
first_said none later = or_nothing later
first_said (some s) later = s

-- The text of its field `reasoning_content`, and where that is null or left out the text of
-- `reasoning`.
abbrev pub reasoning_said : Fields → Text
reasoning_said delta =
    first_said (said (codes "reasoning_content") delta) (said (codes "reasoning") delta)

abbrev said_of : Option Json → Option Text
said_of none = none
said_of (some v) = some (text_said v)

said-present : (name : Text) (fs : Fields) → said name fs ≡ said_of (get name (present fs))
said-present name end = refl
said-present name (field other null rest) = said-present name rest
said-present name (field other (bool b) rest) = ground (arith, said-present name rest)
said-present name (field other (num n) rest) = ground (arith, said-present name rest)
said-present name (field other (str s) rest) = ground (arith, said-present name rest)
said-present name (field other (arr xs) rest) = ground (arith, said-present name rest)
said-present name (field other (obj os) rest) = ground (arith, said-present name rest)

string_of-said : (o : Option Json) → string_of o ≡ or_nothing (said_of o)
string_of-said none = refl
string_of-said (some null) = refl
string_of-said (some (bool b)) = refl
string_of-said (some (num n)) = refl
string_of-said (some (str s)) = refl
string_of-said (some (arr xs)) = refl
string_of-said (some (obj fs)) = refl

content_of-said : (delta : Fields) → content_of (present delta) ≡ content_said delta
content_of-said delta =
    string_of-said (get (codes "content") (present delta))
    ∙ ap or_nothing (sym (said-present (codes "content") delta))

by_name :
    (o p : Option Json)
    → ◌≡◌ {A = Text}
        (elim o [ none ↦ string_of p | some v ↦ string_of (some v) ])
        (first_said (said_of o) (said_of p))
by_name none p = string_of-said p
by_name (some v) p = string_of-said (some v)

reasoning_of-said : (delta : Fields) → reasoning_of (present delta) ≡ reasoning_said delta
reasoning_of-said delta =
    let o = get (codes "reasoning_content") (present delta) in
    let p = get (codes "reasoning") (present delta) in
    by_name o p
    ∙ ap (λ x. first_said x (said_of p)) (sym (said-present (codes "reasoning_content") delta))
    ∙ ap (first_said (said (codes "reasoning_content") delta))
        (sym (said-present (codes "reasoning") delta))

pub content_in-parts :
    (o : Option Json) (r c : Text)
    → in_parts content_in (role_part o ++ (text_part reasoning_content r ++ text_part content c))
      ≡ c
content_in-parts none [] [] = refl
content_in-parts none [] (x ∷ c) = append_nil_lem (x ∷ c)
content_in-parts none (y ∷ r) [] = refl
content_in-parts none (y ∷ r) (x ∷ c) = append_nil_lem (x ∷ c)
content_in-parts (some v) [] [] = refl
content_in-parts (some v) [] (x ∷ c) = append_nil_lem (x ∷ c)
content_in-parts (some v) (y ∷ r) [] = refl
content_in-parts (some v) (y ∷ r) (x ∷ c) = append_nil_lem (x ∷ c)

pub reasoning_in-parts :
    (o : Option Json) (r c : Text)
    → in_parts reasoning_in (role_part o ++ (text_part reasoning_content r ++ text_part content c))
      ≡ r
reasoning_in-parts none [] [] = refl
reasoning_in-parts none [] (x ∷ c) = refl
reasoning_in-parts none (y ∷ r) [] = append_nil_lem (y ∷ r)
reasoning_in-parts none (y ∷ r) (x ∷ c) = append_nil_lem (y ∷ r)
reasoning_in-parts (some v) [] [] = refl
reasoning_in-parts (some v) [] (x ∷ c) = refl
reasoning_in-parts (some v) (y ∷ r) [] = append_nil_lem (y ∷ r)
reasoning_in-parts (some v) (y ∷ r) (x ∷ c) = append_nil_lem (y ∷ r)

-- The parts hold the text, if there is no error.
abbrev pub PartsHold : (Part → Text) → Text → Result (List Part) → Type 0
PartsHold pick want (ok ps) = in_parts pick ps ≡ want
PartsHold pick want (err e) = Unit

module _ (pick : Part → Text) (of : Fields → Text)
    (agrees : (delta : Fields) → in_parts pick (all_parts (present delta)) ≡ of delta) where
  pub parts_of-PartsHold : (d : Option Json) → PartsHold pick (in_fields of d) (parts_of d)
  unfolding parts_of
  parts_of-PartsHold (some (obj d)) =
      elim (Bool-cases (
        not (known_fields (present d))
        || not (role_is_assistant (get (codes "role") (present d))))) [
          | inl e ↦ rw e tt
          | inr e ↦ elim (Bool-cases (texts (present d))) [
            | inl f ↦ rw (e, f) (agrees d)
            | inr f ↦ rw (e, f) tt
          ]
        ]
  parts_of-PartsHold none = tt
  parts_of-PartsHold (some null) = tt
  parts_of-PartsHold (some (bool b)) = tt
  parts_of-PartsHold (some (num n)) = tt
  parts_of-PartsHold (some (str s)) = tt
  parts_of-PartsHold (some (arr xs)) = tt

-- What the parts of a delta hold is what the delta says.
pub content_in-said :
    (delta : Fields) → in_parts content_in (all_parts (present delta)) ≡ content_said delta
content_in-said delta =
    let fs = present delta in
    content_in-parts (get (codes "role") fs) (reasoning_of fs) (content_of fs)
    ∙ content_of-said delta

pub reasoning_in-said :
    (delta : Fields) → in_parts reasoning_in (all_parts (present delta)) ≡ reasoning_said delta
reasoning_in-said delta =
    let fs = present delta in
    reasoning_in-parts (get (codes "role") fs) (reasoning_of fs) (content_of fs)
    ∙ reasoning_of-said delta
