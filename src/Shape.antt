-- ===== src/Shape.antt =====
-- simple_serving/validation.py: the shapes of a generation's body, and `_has_unknown_field`.
pub mod Known
use simple_serving.Prelude.{Bool, true, false, ◌||◌, Text, text_eq, codes, if◌then◌else◌}
use simple_serving.Json.{
  Json, null, bool, num, str, arr, obj, Elems, done, elem, Fields, end, field,
}

-- `LEAF`, `SCHEMA`, a list of a shape, and an object; `unknown` is the shape of no field.
mutual
  pub data Shape : Type 0 where
    leaf schema unknown : Shape
    list : Shape → Shape
    object : Names → Shape

  pub data Names : Type 0 where
    no_more : Names
    name : Text → Shape → Names → Names

-- `shape[name]`
abbrev pub shape_of : Text → Names → Shape
shape_of n no_more = unknown
shape_of n (name m s rest) = let later = shape_of n rest in if text_eq m n then s else later

unfoldable mutual
  pub has_unknown : Json → Shape → Bool
  has_unknown v leaf = false
  has_unknown v schema = false
  has_unknown v unknown = true
  has_unknown (obj fields) (object names) = unknown_field fields names
  has_unknown null (object names) = false
  has_unknown (bool b) (object names) = false
  has_unknown (num n) (object names) = false
  has_unknown (str s) (object names) = false
  has_unknown (arr xs) (object names) = false
  has_unknown (arr xs) (list s) = unknown_elem xs s
  has_unknown null (list s) = false
  has_unknown (bool b) (list s) = false
  has_unknown (num n) (list s) = false
  has_unknown (str t) (list s) = false
  has_unknown (obj fields) (list s) = false

  pub unknown_field : Fields → Names → Bool
  unknown_field end names = false
  unknown_field (field n v rest) names =
      has_unknown v (shape_of n names) || unknown_field rest names

  pub unknown_elem : Elems → Shape → Bool
  unknown_elem done s = false
  unknown_elem (elem v rest) s = has_unknown v s || unknown_elem rest s

abbrev pub part_shape : Shape
part_shape = object (
    name (codes "type") leaf (
      name (codes "text") leaf
        (name (codes "image_url") (object (name (codes "url") leaf no_more)) no_more)))

-- `CHAT_SHAPE`, and `VISION_SHAPE` where a content is a list of parts.
abbrev pub content_shape : Bool → Shape
content_shape true = list part_shape
content_shape false = leaf

abbrev pub chat_shape : Bool → Shape
chat_shape vision = object (
    name (codes "model") leaf (
      name (codes "messages")
        (list (
          object
            (name (codes "role") leaf (name (codes "content") (content_shape vision) no_more))))
        (name (codes "max_tokens") leaf (
          name (codes "stream") leaf (
            name (codes "stream_options") (object (name (codes "include_usage") leaf no_more)) (
              name (codes "temperature") leaf (
                name (codes "top_p") leaf (
                  name (codes "top_k") leaf (
                    name (codes "min_p") leaf (
                      name (codes "repetition_penalty") leaf (
                        name (codes "seed") leaf (
                          name (codes "response_format")
                            (object (
                              name (codes "type") leaf (
                                name (codes "json_schema")
                                  (object (
                                    name (codes "name") leaf (
                                      name (codes "strict") leaf
                                        (name (codes "schema") schema no_more))))
                                  no_more)))
                            (name (codes "chat_template_kwargs")
                              (object (name (codes "enable_thinking") leaf no_more))
                              (name (codes "thinking_token_budget") leaf no_more))))))))))))))
