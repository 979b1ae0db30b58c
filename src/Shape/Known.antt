-- ===== src/Shape/Known.antt =====
-- A body without an unknown field has only the fields of the contract, object by object.
use simple_serving.Prelude.{
  ◌≡◌, refl, subst, arith, ◌⊎◌, inl, inr, Bool, true, false, ◌||◌, Option, none, some, List, [],
  ◌∷◌, Text, text_eq, codes, eq_of_text_eq, Has, Bool-cases,
}
use simple_serving.Json.{
  Json, null, bool, num, str, arr, obj, Elems, done, elem, Fields, end, field, get,
}
use simple_serving.Shape.{
  Shape, leaf, schema, unknown, list, object, Names, no_more, name, shape_of, has_unknown,
  unknown_field, unknown_elem, part_shape, content_shape, chat_shape,
}

-- Every field has one of the names.
abbrev pub Only : List Text → Fields → Type 0
Only names end = Unit
Only names (field n v rest) = Has n names × Only names rest

-- The value, where it is an object, or each value of a list that is an object.
abbrev pub InObject : (Fields → Type 0) → Option Json → Type 0
InObject holds (some (obj fields)) = holds fields
InObject holds _ = Unit

abbrev pub Each : (Fields → Type 0) → Elems → Type 0
Each holds done = Unit
Each holds (elem v rest) = InObject holds (some v) × Each holds rest

abbrev pub InList : (Fields → Type 0) → Option Json → Type 0
InList holds (some (arr elems)) = Each holds elems
InList holds _ = Unit

abbrev pub KnownPart : Fields → Type 0
KnownPart part =
    Only (codes "type" ∷ codes "text" ∷ codes "image_url" ∷ []) part
    × InObject (Only (codes "url" ∷ [])) (get (codes "image_url") part)

-- A list of parts is looked into only while the engine takes pictures: without, it is refused.
abbrev pub KnownContent : Bool → Option Json → Type 0
KnownContent true content = InList KnownPart content
KnownContent false content = Unit

abbrev pub KnownMessage : Bool → Fields → Type 0
KnownMessage vision message =
    Only (codes "role" ∷ codes "content" ∷ []) message
    × KnownContent vision (get (codes "content") message)

abbrev pub KnownFormat : Fields → Type 0
KnownFormat format =
    Only (codes "type" ∷ codes "json_schema" ∷ []) format
    × InObject (Only (codes "name" ∷ codes "strict" ∷ codes "schema" ∷ []))
        (get (codes "json_schema") format)

abbrev pub chat_names : List Text
chat_names =
    codes "model"
    ∷ codes "messages"
    ∷ codes "max_tokens"
    ∷ codes "stream"
    ∷ codes "stream_options"
    ∷ codes "temperature"
    ∷ codes "top_p"
    ∷ codes "top_k"
    ∷ codes "min_p"
    ∷ codes "repetition_penalty"
    ∷ codes "seed"
    ∷ codes "response_format"
    ∷ codes "chat_template_kwargs"
    ∷ codes "thinking_token_budget"
    ∷ []

-- The fields of a generation's body, at every depth but within the schema of a format.
pub record KnownBody (vision : Bool) (body : Fields) : Type 0 where
  pub top : Only chat_names body
  pub each_message : InList (KnownMessage vision) (get (codes "messages") body)
  pub options : InObject (Only (codes "include_usage" ∷ [])) (get (codes "stream_options") body)
  pub format : InObject KnownFormat (get (codes "response_format") body)
  pub template :
      InObject (Only (codes "enable_thinking" ∷ [])) (get (codes "chat_template_kwargs") body)

abbrev names_of : Names → List Text
names_of no_more = []
names_of (name n s rest) = n ∷ names_of rest

abbrev Clear : Shape → Option Json → Type 0
Clear s none = Unit
Clear s (some v) = has_unknown v s ≡ false

Has-shape : (n : Text) (names : Names) → (shape_of n names ≡ unknown) ⊎ Has n (names_of names)
Has-shape n no_more = inl refl
Has-shape n (name m s rest) = elim (Bool-cases (text_eq m n)) [
  | inl e ↦ inr (inl (eq_of_text_eq m n e))
  | inr e ↦ elim (Has-shape n rest) [ inl x ↦ inl (rw e x) | inr x ↦ inr (inr x) ]
]

known_name : (v : Json) (s : Shape) → s ≡ unknown → has_unknown v s ≡ true
unfolding has_unknown
known_name v s e = rw e refl

or_false : (a b : Bool) → (a || b) ≡ false → (a ≡ false) × (b ≡ false)
or_false a b h = ground arith

only_lem :
    (fields : Fields) (names : Names)
    → unknown_field fields names ≡ false
    → Only (names_of names) fields
unfolding has_unknown
only_lem end names h = tt
only_lem (field n v rest) names h =
    let (a, b) = or_false (has_unknown v (shape_of n names)) (unknown_field rest names) h in
    (
      elim (Has-shape n names) [
        | inl x ↦ absurd (ground (arith, known_name v (shape_of n names) x))
        | inr x ↦ x
      ],
      only_lem rest names b,
    )

clear_lem :
    (n : Text) (fields : Fields) (names : Names)
    → unknown_field fields names ≡ false
    → Clear (shape_of n names) (get n fields)
unfolding has_unknown
clear_lem n end names h = tt
clear_lem n (field m v rest) names h =
    let (a, b) = or_false (has_unknown v (shape_of m names)) (unknown_field rest names) h in
    elim (Bool-cases (text_eq m n)) [
      | inl e ↦ rw e (subst (λ x. has_unknown v (shape_of x names) ≡ false) (eq_of_text_eq m n e) a)
      | inr e ↦ rw e (clear_lem n rest names b)
    ]

in_object :
    (holds : Fields → Type 0) (names : Names)
    → ((fields : Fields) → unknown_field fields names ≡ false → holds fields)
    → (o : Option Json) → Clear (object names) o
    → InObject holds o
unfolding has_unknown
in_object holds names k (some (obj fields)) h = k fields h
in_object holds names k none h = tt
in_object holds names k (some null) h = tt
in_object holds names k (some (bool b)) h = tt
in_object holds names k (some (num n)) h = tt
in_object holds names k (some (str s)) h = tt
in_object holds names k (some (arr xs)) h = tt

each_lem :
    (holds : Fields → Type 0) (s : Shape)
    → ((o : Option Json) → Clear s o → InObject holds o)
    → (xs : Elems) → unknown_elem xs s ≡ false
    → Each holds xs
unfolding has_unknown
each_lem holds s k done h = tt
each_lem holds s k (elem v rest) h =
    let (a, b) = or_false (has_unknown v s) (unknown_elem rest s) h in
    (k (some v) a, each_lem holds s k rest b)

in_list :
    (holds : Fields → Type 0) (s : Shape)
    → ((o : Option Json) → Clear s o → InObject holds o)
    → (o : Option Json) → Clear (list s) o
    → InList holds o
unfolding has_unknown
in_list holds s k (some (arr xs)) h = each_lem holds s k xs h
in_list holds s k none h = tt
in_list holds s k (some null) h = tt
in_list holds s k (some (bool b)) h = tt
in_list holds s k (some (num n)) h = tt
in_list holds s k (some (str t)) h = tt
in_list holds s k (some (obj fs)) h = tt

Only-in :
    (names : Names) (o : Option Json) → Clear (object names) o → InObject (Only (names_of names)) o
Only-in names = in_object (Only (names_of names)) names (λ fields h. only_lem fields names h)

known_parts : (o : Option Json) → Clear (list part_shape) o → InList KnownPart o
known_parts = in_list KnownPart part_shape (
    in_object KnownPart _
      (λ part h. (only_lem part _ h, Only-in _ _ (clear_lem (codes "image_url") part _ h))))

known_content :
    (vision : Bool) (o : Option Json) → Clear (content_shape vision) o → KnownContent vision o
known_content true o h = known_parts o h
known_content false o h = tt

known_messages :
    (vision : Bool) (o : Option Json)
    → Clear
        (list (
          object
            (name (codes "role") leaf (name (codes "content") (content_shape vision) no_more))))
        o
    → InList (KnownMessage vision) o
known_messages vision = in_list (KnownMessage vision) _ (
    in_object (KnownMessage vision) _
      (λ m h. (only_lem m _ h, known_content vision _ (clear_lem (codes "content") m _ h))))

known_format :
    (o : Option Json)
    → Clear
        (object (
          name (codes "type") leaf (
            name
              (codes "json_schema")
              (object (
                name
                  (codes "name")
                  leaf
                  (name (codes "strict") leaf (name (codes "schema") schema no_more))))
              no_more)))
        o
    → InObject KnownFormat o
known_format =
    in_object KnownFormat _
      (λ f h. (only_lem f _ h, Only-in _ _ (clear_lem (codes "json_schema") f _ h)))

pub known_body :
    (vision : Bool) (body : Fields)
    → has_unknown (obj body) (chat_shape vision) ≡ false
    → KnownBody vision body
unfolding has_unknown
known_body vision body h = record {
  top = only_lem body _ h;
  each_message = known_messages vision _ (clear_lem (codes "messages") body _ h);
  options = Only-in _ _ (clear_lem (codes "stream_options") body _ h);
  format = known_format _ (clear_lem (codes "response_format") body _ h);
  template = Only-in _ _ (clear_lem (codes "chat_template_kwargs") body _ h);
}
