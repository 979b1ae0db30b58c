-- ===== src/ConfigFile/Examples.antt =====
-- A small configuration file, and the theorem at it.
use simple_serving.Prelude.{
  ℕ, ◌≡◌, refl, true, false, Option, none, some, [], ◌∷◌, Text, codes, text_eq, if◌then◌else◌,
}
use simple_serving.Json.{
  pos, whole, Json, null, bool, num, str, arr, obj, done, elem, Fields, end, field,
}
use simple_serving.Config.{Config, ClassLimits, Key, outside, reader}
use simple_serving.Policy.{class_named}
use simple_serving.ConfigValues.{
  Library, v4, object_value, known_fields, string_value, boolean_value, integer_value, any_integer,
  optional_integer, seconds_value, is_loopback, engine_url, listener,
}
use simple_serving.ConfigKeys.{
  from_hex, class_list, classes_value, default_value, outside_allowed, key_value, is_digest,
  digest_value, entry_value, key_list, keys_value, keys_differ,
}
use simple_serving.ConfigFile.{
  by_class, class_limits, switches, versions_allowed, keys_allowed, config_value, load,
}
use simple_serving.ConfigFile.Valid.{IsValid, load-IsValid}

abbrev pub library : Library
library = record {
  urlsplit = λ url. some (codes "http", some (codes "127.0.0.1"));
  ip_address = λ host. if text_eq host (codes "127.0.0.1") then some (v4 2130706433) else none;
}

abbrev pub n : ℕ → Json
n k = num (whole (pos k))

abbrev pub t : Text → Json
t s = str s

abbrev limits : Json
limits = obj (
    field (codes "active") (n 1) (
      field (codes "waiting") (n 2) (
        field (codes "input_tokens") null
          (field (codes "max_tokens") (n 80) (field (codes "wall_s") (n 300) end)))))

abbrev pub host : ℕ → Json
host port = obj (field (codes "host") (t (codes "127.0.0.1")) (field (codes "port") (n port) end))

abbrev pub key : Json
key = obj (
    field (codes "sha256")
      (t (codes "0123456789abcdef0123456789abcdef0123456789abcdef0123456789abcdef"))
      (field (codes "label") (t (codes "bot")) (
        field (codes "classes") (arr (elem (t (codes "reader")) done)) (
          field (codes "default") (t (codes "reader"))
            (field (codes "scopes") (bool true) (field (codes "control") (bool false) end))))))

abbrev pub per_class : Json → Fields → Fields
per_class v rest =
    field (codes "reader") v
      (field (codes "agent") v (field (codes "internal") v (field (codes "external") v rest)))

abbrev pub file : Fields
file = field (codes "alias") (t (codes "m")) (
    field (codes "engine_url") (t (codes "http://127.0.0.1:8000/")) (
      field (codes "keys") (arr (elem key done)) (
        field (codes "limits")
          (obj (
            per_class limits (
              field (codes "external_per_key")
                (obj (field (codes "active") (n 1) (field (codes "waiting") (n 1) end)))
                (field (codes "shared") (obj (field (codes "active") (n 1) end)) end))))
          (field (codes "count_limits")
            (obj (field (codes "active") (n 2) (field (codes "per_outside_key") (n 1) end)))
            (field (codes "engine_priority") (obj (per_class (n 0) end)) (
              field (codes "drain_deadline_s") (n 60) (
                field (codes "listen")
                  (obj (field (codes "public") (host 8080) (field (codes "control") (host 0) end)))
                  end)))))))

abbrev loaded : Option Config
loaded = load library (some (obj file))

abbrev caps : ClassLimits
caps = record {
  active = 1;
  waiting = 2;
  input_tokens = none;
  max_tokens = 80;
  wall_s = whole (pos 300);
}

abbrev pub bot : Key
bot = record {
  digest = from_hex 0 (codes "0123456789abcdef0123456789abcdef0123456789abcdef0123456789abcdef");
  label = codes "bot";
  classes = reader ∷ [];
  default = some reader;
  scopes = true;
  control = false;
  metrics = false;
  vision = false;
}

abbrev pub config : Config
config = record {
  alias = codes "m";
  engine_url = codes "http://127.0.0.1:8000";
  context_tokens = none;
  body_limit_bytes = 4194304;
  keys = bot ∷ [];
  limits = by_class caps caps caps caps;
  per_key_active = 1;
  per_key_waiting = 1;
  shared_places = 1;
  count_active = 2;
  count_per_outside_key = 1;
  engine_priority = by_class (pos 0) (pos 0) (pos 0) (pos 0);
  drain_deadline_s = whole (pos 60);
  idle_timeout_s = whole (pos 780);
  public = record { host = codes "127.0.0.1"; port = 8080 };
  control = record { host = codes "127.0.0.1"; port = 0 };
  max_connections = 64;
  health_interval_s = whole (pos 5);
  versions = end;
  speculative = false;
  thinking_budget = false;
  vision = false;
  warm_up = false;
  min_p_while_drafting = false;
}

pub loads : load library (some (obj file)) ≡ some config
unfolding load object_value known_fields string_value boolean_value integer_value any_integer
    optional_integer seconds_value is_loopback engine_url listener class_list classes_value
    default_value outside_allowed key_value is_digest digest_value entry_value key_list keys_value
    keys_differ class_limits switches versions_allowed keys_allowed config_value outside class_named
loads = refl

load-IsValid_example : IsValid library config
load-IsValid_example = load-IsValid library (some (obj file)) config loads

-- A file that is no object, and one with a misspelt field.
no_file : load library none ≡ none
unfolding load object_value
no_file = refl

misspelt : load library (some (obj (field (codes "alais") (t (codes "m")) file))) ≡ none
unfolding load object_value known_fields config_value keys_value key_list entry_value digest_value
    is_digest key_value outside_allowed default_value classes_value class_list string_value
    boolean_value outside class_named
misspelt = refl
