-- ===== src/ConfigFile.antt =====
-- simple_serving/config.py: `load` and `_config`, from the JSON of the configuration file to the
-- configuration. `none` is a `ConfigError`; the file and `json.load` stand for the argument of `load`.
pub mod Parts
pub mod Valid
pub mod Examples
use simple_serving.Prelude.{
  ℕ, Bool, true, false, ◌==◌, ◌&&◌, ◌||◌, not, Option, none, some, List, [], ◌∷◌, ◌++◌, Text,
  text_eq, codes, leb, all_of, if◌then◌else◌, ◌>>=◌,
}
use simple_serving.Json.{
  ℤ, pos, Number, whole, Json, null, bool, num, str, obj, Fields, end, field, get,
}
use simple_serving.Config.{
  ServiceClass, reader, agent, internal, external, ClassLimits, Key, Config,
}
use simple_serving.Policy.{class_name}
use simple_serving.ConfigValues.{
  Library, object_value, known_fields, string_value, boolean_value, or_default, integer_value,
  any_integer, optional_integer, seconds_value, strip_slashes, engine_url, listener,
}
use simple_serving.ConfigKeys.{keys_value, keys_differ, any_vision}

-- `FIELDS`
abbrev pub file_names : List Text
file_names =
    codes "alias"
    ∷ (codes "engine_url"
        ∷ (codes "listen"
            ∷ (codes "context_tokens"
                ∷ (codes "body_limit_bytes"
                    ∷ (codes "max_connections"
                        ∷ (codes "keys"
                            ∷ (codes "limits"
                                ∷ (codes "count_limits"
                                    ∷ (codes "engine_priority"
                                        ∷ (codes "drain_deadline_s"
                                            ∷ (codes "idle_timeout_s"
                                                ∷ (codes "health_interval_s"
                                                    ∷ (codes "versions"
                                                        ∷ (codes "warm_up" ∷ []))))))))))))))

abbrev pub class_names : List Text
class_names =
    class_name reader ∷ (class_name agent ∷ (class_name internal ∷ (class_name external ∷ [])))

-- `_class_limits`
unfoldable pub class_limits : Option Json → Option ClassLimits
class_limits value = do
  fields ←
      known_fields
        (codes "active"
          ∷ (codes "waiting"
              ∷ (codes "input_tokens" ∷ (codes "max_tokens" ∷ (codes "wall_s" ∷ [])))))
        value
  active ← integer_value 1 (get (codes "active") fields)
  waiting ← integer_value 0 (get (codes "waiting") fields)
  input_tokens ← optional_integer 1 (get (codes "input_tokens") fields)
  max_tokens ← integer_value 1 (get (codes "max_tokens") fields)
  wall_s ← seconds_value (get (codes "wall_s") fields)
  some (record {
    active = active;
    waiting = waiting;
    input_tokens = input_tokens;
    max_tokens = max_tokens;
    wall_s = wall_s;
  })

-- A value for each class.
abbrev pub by_class {ℓ} : {A : Type ℓ} → A → A → A → A → ServiceClass → A
by_class r a i e reader = r
by_class r a i e agent = a
by_class r a i e internal = i
by_class r a i e external = e

abbrev pub for_classes {ℓ} :
    {A : Type ℓ} → (Option Json → Option A) → Fields → Option (ServiceClass → A)
for_classes read fields = do
  r ← read (get (class_name reader) fields)
  a ← read (get (class_name agent) fields)
  i ← read (get (class_name internal) fields)
  e ← read (get (class_name external) fields)
  some (by_class r a i e)

-- `[1-9][0-9]*`
abbrev pub is_decimal : ℕ → Bool
is_decimal c = leb b'0' c && leb c b'9'

abbrev pub is_count_text : Text → Bool
is_count_text [] = false
is_count_text (c ∷ s) = leb b'1' c && leb c b'9' && all_of is_decimal s

-- What `versions` says of the engine.
pub record Switches : Type 0 where
  pub drafted : Option Json
  pub lifted : Option Json
  pub budget : Option Json
  pub pictures : Option Json

unfoldable pub switches : Fields → Switches
switches versions = record {
  drafted = get (codes "mtp_speculative_tokens") versions;
  lifted = get (codes "min_p_while_drafting") versions;
  budget = get (codes "thinking_budget") versions;
  pictures = get (codes "vision") versions;
}

abbrev pub is_here : Option Json → Bool
is_here none = false
is_here (some value) = true

-- The text of a value is `on`, or there is none.
abbrev pub is_on : Text → Option Json → Bool
is_on on none = true
is_on on (some (str s)) = text_eq s on
is_on on (some _) = false

abbrev pub is_drafted_count : Option Json → Bool
is_drafted_count none = true
is_drafted_count (some (str s)) = is_count_text s
is_drafted_count (some _) = false

-- The values are texts.
abbrev pub all_texts : Fields → Bool
all_texts end = true
all_texts (field name (str s) rest) = all_texts rest
all_texts (field name _ rest) = false

-- The checks of `versions` in `_config`.
unfoldable pub versions_allowed : Fields → List Key → Bool
versions_allowed versions keys =
    let s = switches versions in
    all_texts versions
    && is_drafted_count s.drafted
    && (is_on (codes "on") s.lifted && not (is_here s.lifted && not (is_here s.drafted)))
    && is_on (codes "on") s.budget
    && is_on (codes "1") s.pictures
    && (is_here s.pictures || not (any_vision keys))

-- `if not keys` and the test that they differ.
unfoldable pub keys_allowed : List Key → Bool
keys_allowed [] = false
keys_allowed (k ∷ ks) = keys_differ (k ∷ ks)

abbrev pub required : Bool → Option (Unit {0})
required true = some tt
required false = none

-- `_config`
unfoldable pub config_value : Library → Fields → List Key → Option Config
config_value lib file keys = do
  known ← known_fields file_names (some (obj file))
  allowed ← required (keys_allowed keys)
  limits ←
      known_fields (codes "external_per_key" ∷ (codes "shared" ∷ class_names))
        (get (codes "limits") file)
  per_key ←
      known_fields (codes "active" ∷ (codes "waiting" ∷ [])) (get (codes "external_per_key") limits)
  shared ← known_fields (codes "active" ∷ []) (get (codes "shared") limits)
  counts ←
      known_fields (codes "active" ∷ (codes "per_outside_key" ∷ []))
        (get (codes "count_limits") file)
  priority ← known_fields class_names (get (codes "engine_priority") file)
  listen ← known_fields (codes "public" ∷ (codes "control" ∷ [])) (get (codes "listen") file)
  url ← engine_url lib (get (codes "engine_url") file)
  versions ← object_value (or_default (obj end) (get (codes "versions") file))
  consistent ← required (versions_allowed versions keys)
  alias ← string_value (get (codes "alias") file)
  context_tokens ← optional_integer 1 (get (codes "context_tokens") file)
  body_limit ←
      integer_value 1 (or_default (num (whole (pos 4194304))) (get (codes "body_limit_bytes") file))
  class_caps ← for_classes class_limits limits
  key_active ← integer_value 1 (get (codes "active") per_key)
  key_waiting ← integer_value 0 (get (codes "waiting") per_key)
  shared_places ← integer_value 1 (get (codes "active") shared)
  count_active ← integer_value 1 (get (codes "active") counts)
  count_outside ← integer_value 1 (get (codes "per_outside_key") counts)
  priorities ← for_classes any_integer priority
  drain_deadline ← seconds_value (get (codes "drain_deadline_s") file)
  idle_timeout ←
      seconds_value (or_default (num (whole (pos 780))) (get (codes "idle_timeout_s") file))
  public ← listener lib false (get (codes "public") listen)
  control ← listener lib true (get (codes "control") listen)
  connections ←
      integer_value 1 (or_default (num (whole (pos 64))) (get (codes "max_connections") file))
  health_interval ←
      seconds_value (or_default (num (whole (pos 5))) (get (codes "health_interval_s") file))
  warm_up ← boolean_value (or_default (bool false) (get (codes "warm_up") file))
  some (record {
    alias = alias;
    engine_url = strip_slashes url;
    context_tokens = context_tokens;
    body_limit_bytes = body_limit;
    keys = keys;
    limits = class_caps;
    per_key_active = key_active;
    per_key_waiting = key_waiting;
    shared_places = shared_places;
    count_active = count_active;
    count_per_outside_key = count_outside;
    engine_priority = priorities;
    drain_deadline_s = drain_deadline;
    idle_timeout_s = idle_timeout;
    public = public;
    control = control;
    max_connections = connections;
    health_interval_s = health_interval;
    versions = versions;
    speculative = is_here (switches versions).drafted;
    thinking_budget = is_here (switches versions).budget;
    vision = is_here (switches versions).pictures;
    warm_up = warm_up;
    min_p_while_drafting = is_here (switches versions).lifted;
  })

-- `load`, of what `json.load` makes of the file, or none where it raises.
unfoldable pub load : Library → Option Json → Option Config
load lib file = do
  fields ← object_value file
  keys ← keys_value (get (codes "keys") fields)
  config_value lib fields keys
