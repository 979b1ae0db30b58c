-- ===== src/Graphs.antt =====
-- simple_serving/pictures/graphs.py: `check`, with the patterns of names, `_strings` and
-- `with_nonce`. `none` is `graph_refused`. `reader_nodes` and the names that the caller owns are
-- arguments, as they are in the source.
pub mod Files
pub mod Allowed
mod Examples
use simple_serving.Prelude.{
  ℕ, suc, ◌+◌, ◌==◌, leb, ltb, Bool, true, false, ◌&&◌, ◌||◌, not, Option, none, some, List, [],
  ◌∷◌, ◌++◌, Text, text_eq, codes, all_of, length, if◌then◌else◌, ◌>>=◌,
}
use simple_serving.Config.{ServiceClass, reader, agent, internal, external}
use simple_serving.Json.{
  Json, null, bool, num, str, arr, obj, Elems, done, elem, Fields, end, field, get, has_name,
  fields_within, put,
}
use simple_serving.DataUrl.{after}
use simple_serving.Messages.{is_text, is_here, text_of}

abbrev pub node_fields : List Text
node_fields = codes "class_type" ∷ (codes "inputs" ∷ (codes "_meta" ∷ []))

abbrev pub is_alphanumeric : ℕ → Bool
is_alphanumeric c =
    (leb b'A' c && leb c b'Z') || (leb b'a' c && leb c b'z') || (leb b'0' c && leb c b'9')

abbrev pub is_node_char : ℕ → Bool
is_node_char c = is_alphanumeric c || c == b'_' || c == b':' || c == b'.' || c == b'-'

-- `NODE_ID`
unfoldable pub is_node_id : Text → Bool
is_node_id s = leb 1 (length s) && leb (length s) 64 && all_of is_node_char s

abbrev pub temp : Text
temp = codes " [temp]"

abbrev pub is_name_char : ℕ → Bool
is_name_char c = not (c == b'/' || c == b'[' || c == b']')

abbrev pub after_char : ℕ → Option Text → Option Text
after_char c none = none
after_char c (some s) = if is_name_char c then some (c ∷ s) else none

-- The name before the end ` [temp]`, which no name contains.
abbrev pub name_before : Text → Option Text
name_before [] = none
name_before (c ∷ s) =
    let later = name_before s in if text_eq (c ∷ s) temp then some [] else after_char c later

abbrev pub nonempty : Text → Option Text
nonempty [] = none
nonempty (c ∷ s) = some (c ∷ s)

-- `UPLOADED.fullmatch`, by its group.
unfoldable pub uploaded : Text → Option Text
uploaded s = after (codes "bot-references/") s >>= λ rest. name_before rest >>= nonempty

abbrev pub is_input_char : ℕ → Bool
is_input_char c = is_alphanumeric c || c == b'.' || c == b'_' || c == b'-'

-- `PLAIN_INPUT`
unfoldable pub is_plain_input : Text → Bool
is_plain_input [] = false
is_plain_input (c ∷ s) = is_alphanumeric c && leb (length s) 127 && all_of is_input_char s

abbrev pub ends_with : Text → Text → Bool
ends_with suffix [] = text_eq [] suffix
ends_with suffix (c ∷ s) = let later = ends_with suffix s in text_eq (c ∷ s) suffix || later

-- `_strings`
unfoldable mutual
  pub strings : Json → List Text
  strings (str s) = s ∷ []
  strings (obj fields) = field_strings fields
  strings (arr elems) = elem_strings elems
  strings null = []
  strings (bool b) = []
  strings (num n) = []

  pub field_strings : Fields → List Text
  field_strings end = []
  field_strings (field n v rest) = strings v ++ field_strings rest

  pub elem_strings : Elems → List Text
  elem_strings done = []
  elem_strings (elem v rest) = strings v ++ elem_strings rest

abbrev pub is_internal : ServiceClass → Bool
is_internal internal = true
is_internal reader = false
is_internal agent = false
is_internal external = false

abbrev pub fields_of : Option Json → Option Fields
fields_of (some (obj fields)) = some fields
fields_of _ = none

module _ (owns : Text → Bool) where
  abbrev pub names_owned : Option Text → Bool
  names_owned none = false
  names_owned (some name) = owns name

  -- The references that a LoadImage node adds.
  abbrev pub image_text : ServiceClass → Text → Option ℕ
  image_text cls image =
      if names_owned (uploaded image)
      then some 1
      else if is_internal cls && is_plain_input image
      then some 0
      else none

  unfoldable pub image_value : ServiceClass → Option Json → Option ℕ
  image_value cls (some (str image)) = image_text cls image
  image_value cls _ = none

  -- The temporary files that texts name are the caller's.
  abbrev pub temp_owned : List Text → Bool
  temp_owned [] = true
  temp_owned (text ∷ texts) =
      let later = temp_owned texts in
      (not (ends_with temp text) || names_owned (uploaded text)) && later

  abbrev pub node_references : ServiceClass → Text → Fields → Option ℕ
  node_references cls kind inputs =
      if text_eq kind (codes "LoadImage")
      then image_value cls (get (codes "image") inputs)
      else some 0

  module _ (cls : ServiceClass) (reader_nodes : List Text) where
    abbrev pub node_allowed : Text → Fields → Bool
    node_allowed kind inputs =
        (is_internal cls || has_name kind reader_nodes) && temp_owned (field_strings inputs)

    abbrev pub node_parts : Text → Fields → Option ℕ
    node_parts kind inputs =
        if node_allowed kind inputs then node_references cls kind inputs else none

    -- The body of the loop over the nodes.
    unfoldable pub node : Text → Json → Option ℕ
    node id (obj fields) =
        if is_node_id id && fields_within node_fields fields
        then (text_of (get (codes "class_type") fields) >>= λ kind.
            fields_of (get (codes "inputs") fields) >>= λ inputs. node_parts kind inputs)
        else none
    node id _ = none

    unfoldable pub nodes : Fields → Option ℕ
    nodes end = some 0
    nodes (field id value rest) =
        let later = nodes rest in node id value >>= λ here. later >>= λ more. some (here + more)

abbrev pub count_fields : Fields → ℕ
count_fields end = 0
count_fields (field n v rest) = suc (count_fields rest)

abbrev pub max_copies : ℕ
max_copies = 16

abbrev pub new_copy : Text → Fields → List Text → Option (List Text)
new_copy id graph ids =
    if is_here (get id graph) && not (has_name id ids) then some (id ∷ ids) else none

abbrev pub copy_ids : Fields → Elems → Option (List Text)
copy_ids graph done = some []
copy_ids graph (elem v rest) =
    let later = copy_ids graph rest in
    text_of (some v) >>= λ id. later >>= λ ids. new_copy id graph ids

abbrev pub few : List Text → Option (List Text)
few ids = if leb (length ids) max_copies then some ids else none

-- The copies, of which a null stands for none.
unfoldable pub copies_value : Fields → Option Json → Option (List Text)
copies_value graph none = some []
copies_value graph (some null) = some []
copies_value graph (some (arr elems)) = copy_ids graph elems >>= few
copies_value graph (some _) = none

-- What `check` gives: the graph, its copies, and its references.
pub record Checked : Type 0 where
  pub graph : Fields
  pub copies : List Text
  pub references : ℕ

unfoldable pub check :
    ServiceClass → List Text → ℕ → (Text → Bool) → Option Json → Option Json → Option Checked
check cls reader_nodes max_nodes owns value copies = fields_of value >>= λ graph.
    if leb 1 (count_fields graph) && leb (count_fields graph) max_nodes
    then (nodes owns cls reader_nodes graph >>= λ references. copies_value graph copies >>= λ ids.
        some (record { graph = graph; copies = ids; references = references }))
    else none

abbrev pub fresh_inputs : Text → Fields → Fields → Fields
fresh_inputs nonce inputs fields =
    put (codes "inputs") (obj (put (codes "nonce") (str nonce) inputs)) fields

abbrev pub if_preview : Bool → Text → Option Fields → Fields → Json
if_preview true nonce (some inputs) fields = obj (fresh_inputs nonce inputs fields)
if_preview true nonce none fields = obj fields
if_preview false nonce inputs fields = obj fields

-- A node of `with_nonce`, of a graph that passed `check`.
unfoldable pub node_with_nonce : Text → Json → Json
node_with_nonce nonce (obj fields) =
    if_preview (is_text (codes "PreviewImage") (get (codes "class_type") fields)) nonce
      (fields_of (get (codes "inputs") fields)) fields
node_with_nonce nonce other = other

unfoldable pub with_nonce : Text → Fields → Fields
with_nonce nonce end = end
with_nonce nonce (field id value rest) =
    field id (node_with_nonce nonce value) (with_nonce nonce rest)
