-- ===== src/ConfigKeys.antt =====
-- simple_serving/config.py: the keys of the configuration file, `_key` and the loop of `load`. A
-- set of classes is the list of its members, each once. As there, `none` is a `ConfigError`; so is a
-- list of classes that holds a list or an object, at which Python raises a TypeError.
pub mod Sound
use simple_serving.Prelude.{
  ℕ, ◌*◌, ◌+◌, ◌-◌, Bool, true, false, ◌==◌, ◌&&◌, ◌||◌, not, Option, none, some, List, [], ◌∷◌,
  Text, text_eq, codes, ltb, leb, length, all_of, if◌then◌else◌, ◌>>=◌,
}
use simple_serving.Json.{
  Json, null, bool, num, str, arr, obj, Elems, done, elem, Fields, end, field, get, Number,
}
use simple_serving.Config.{ServiceClass, external, class_eq, has_class, Key, outside}
use simple_serving.Policy.{class_named}
use simple_serving.ConfigValues.{
  known_fields, object_value, string_value, boolean_value, or_default,
}

abbrev pub with_class : ServiceClass → List ServiceClass → Option (List ServiceClass)
with_class c cs = if has_class c cs then none else some (c ∷ cs)

-- The classes of a list, if they are classes and differ.
unfoldable pub class_list : Elems → Option (List ServiceClass)
class_list done = some []
class_list (elem (str s) rest) = do c ← class_named s; cs ← class_list rest; with_class c cs
class_list (elem _ rest) = none

unfoldable pub classes_value : Option Json → Option (List ServiceClass)
classes_value (some (arr elems)) = class_list elems
classes_value _ = none

abbrev pub if_member : List ServiceClass → ServiceClass → Option (Option ServiceClass)
if_member classes c = if has_class c classes then some (some c) else none

unfoldable pub default_value : List ServiceClass → Option Json → Option (Option ServiceClass)
default_value classes none = some none
default_value classes (some null) = some none
default_value classes (some (str s)) = class_named s >>= if_member classes
default_value classes (some _) = none

abbrev pub all_external : List ServiceClass → Bool
all_external [] = true
all_external (c ∷ cs) = let rest = all_external cs in class_eq external c && rest

abbrev pub key_names : List Text
key_names =
    codes "label"
    ∷ (codes "classes"
        ∷ (codes "default"
            ∷ (codes "scopes" ∷ (codes "control" ∷ (codes "metrics" ∷ (codes "vision" ∷ []))))))

-- The last checks of `_key`, of a key that is outside.
unfoldable pub outside_allowed : Key → Bool
outside_allowed k = not (outside k) || (all_external k.classes && not k.scopes && not k.vision)

abbrev pub if_allowed : Key → Option Key
if_allowed key = if outside_allowed key then some key else none

-- `_key`
unfoldable pub key_value : ℕ → Json → Option Key
key_value digest entry = do
  fields ← known_fields key_names (some entry)
  classes ← classes_value (get (codes "classes") fields)
  default ← default_value classes (get (codes "default") fields)
  label ← string_value (get (codes "label") fields)
  scopes ← boolean_value (get (codes "scopes") fields)
  control ← boolean_value (get (codes "control") fields)
  metrics ← boolean_value (or_default (bool false) (get (codes "metrics") fields))
  vision ← boolean_value (or_default (bool false) (get (codes "vision") fields))
  if_allowed (record {
    digest = digest;
    label = label;
    classes = classes;
    default = default;
    scopes = scopes;
    control = control;
    metrics = metrics;
    vision = vision;
  })

-- `[0-9a-f]`, and the value of such a digit.
abbrev pub is_hex : ℕ → Bool
is_hex c = leb b'0' c && leb c b'9' || leb b'a' c && leb c b'f'

abbrev pub hex_digit : ℕ → ℕ
hex_digit c = if leb c b'9' then c - b'0' else c - b'a' + 10

-- `bytes.fromhex`, as the number that the digits write.
abbrev pub from_hex : ℕ → Text → ℕ
from_hex acc [] = acc
from_hex acc (c ∷ s) = from_hex (acc * 16 + hex_digit c) s

-- `SHA256_HEX.fullmatch`
unfoldable pub is_digest : Text → Bool
is_digest s = length s == 64 && all_of is_hex s

unfoldable pub digest_value : Option Json → Option ℕ
digest_value (some (str s)) = if is_digest s then some (from_hex 0 s) else none
digest_value _ = none

-- The fields but one.
abbrev pub without : Text → Fields → Fields
without name end = end
without name (field other value rest) =
    let later = without name rest in if text_eq other name then later else field other value later

-- An entry of `keys`.
unfoldable pub entry_value : Json → Option Key
entry_value entry = do
  fields ← object_value (some entry)
  digest ← digest_value (get (codes "sha256") fields)
  key_value digest (obj (without (codes "sha256") fields))

unfoldable pub key_list : Elems → Option (List Key)
key_list done = some []
key_list (elem entry rest) = do key ← entry_value entry; keys ← key_list rest; some (key ∷ keys)

unfoldable pub keys_value : Option Json → Option (List Key)
keys_value (some (arr entries)) = key_list entries
keys_value _ = none

-- The tests of the key sets in `_config`: no digest and no label stands twice.
abbrev pub other_digests : ℕ → List Key → Bool
other_digests digest [] = true
other_digests digest (k ∷ ks) =
    let rest = other_digests digest ks in not (k.digest == digest) && rest

abbrev pub other_labels : Text → List Key → Bool
other_labels label [] = true
other_labels label (k ∷ ks) =
    let rest = other_labels label ks in not (text_eq k.label label) && rest

unfoldable pub keys_differ : List Key → Bool
keys_differ [] = true
keys_differ (k ∷ ks) =
    let rest = keys_differ ks in other_digests k.digest ks && other_labels k.label ks && rest

abbrev pub any_vision : List Key → Bool
any_vision [] = false
any_vision (k ∷ ks) = let rest = any_vision ks in k.vision || rest
