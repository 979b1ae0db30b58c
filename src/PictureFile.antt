-- ===== src/PictureFile.antt =====
-- simple_serving/pictures/config.py: the picture gateway's configuration and its file, with the
-- readers of the text gateway's. `none` is a `ConfigError`, whose message is left out.
pub mod Valid
mod Examples
use simple_serving.Prelude.{
  ℕ, leb, ◌==◌, Bool, true, false, ◌&&◌, ◌||◌, not, Option, none, some, List, [], ◌∷◌, Text, codes,
  all_of, length, if◌then◌else◌, ◌>>=◌,
}
use simple_serving.Config.{ServiceClass, Key, outside, Listener}
use simple_serving.Json.{
  Number, whole, pos, Json, null, bool, num, str, arr, obj, Elems, done, elem, Fields, end, get,
}
use simple_serving.ConfigValues.{
  Library, object_value, known_fields, string_value, boolean_value, or_default, integer_value,
  seconds_value, strip_slashes, engine_url, listener,
}
use simple_serving.ConfigKeys.{keys_value, any_vision}
use simple_serving.ConfigFile.{class_names, for_classes, all_texts, keys_allowed, required}
use simple_serving.Messages.{is_text}
use simple_serving.Graphs.{is_alphanumeric}

pub record PictureLimits : Type 0 where
  pub jobs : ℕ
  pub wall_s : Number
  pub uploads : ℕ

-- The engine facts that a check must find.
pub record Expect : Type 0 where
  pub comfyui : Text
  pub pytorch : Text
  pub triton : Bool

pub record PictureConfig : Type 0 where
  pub alias : Text
  pub engine_url : Text
  pub keys : List Key
  pub limits : ServiceClass → PictureLimits
  pub reader_nodes : List Text
  pub expect : Expect
  pub drain_deadline_s : Number
  pub idle_timeout_s : Number
  pub health_interval_s : Number
  pub public : Listener
  pub control : Listener
  pub max_connections : ℕ
  pub body_limit_bytes : ℕ
  pub upload_limit_bytes : ℕ
  pub max_nodes : ℕ
  pub versions : Fields

-- `FIELDS`
abbrev pub picture_names : List Text
picture_names =
    codes "lane"
    ∷ (codes "alias"
        ∷ (codes "engine_url"
            ∷ (codes "listen"
                ∷ (codes "keys"
                    ∷ (codes "limits"
                        ∷ (codes "reader_nodes"
                            ∷ (codes "expect"
                                ∷ (codes "drain_deadline_s"
                                    ∷ (codes "idle_timeout_s"
                                        ∷ (codes "health_interval_s"
                                            ∷ (codes "max_connections"
                                                ∷ (codes "body_limit_bytes"
                                                    ∷ (codes "upload_limit_bytes"
                                                        ∷ (codes "max_nodes"
                                                            ∷ (codes "versions" ∷ [])))))))))))))))

-- `_limits`
unfoldable pub picture_limits : Option Json → Option PictureLimits
picture_limits value = do
  fields ← known_fields (codes "jobs" ∷ (codes "wall_s" ∷ (codes "uploads" ∷ []))) value
  jobs ← integer_value 0 (get (codes "jobs") fields)
  wall ← seconds_value (get (codes "wall_s") fields)
  uploads ← integer_value 0 (get (codes "uploads") fields)
  some (record { jobs = jobs; wall_s = wall; uploads = uploads })

-- `NODE_CLASS`
abbrev pub is_node_class : Text → Bool
is_node_class s =
    leb 1 (length s) && leb (length s) 64 && all_of (λ c. is_alphanumeric c || c == b'_') s

abbrev pub node_class : Json → Option Text
node_class (str s) = if is_node_class s then some s else none
node_class _ = none

unfoldable pub node_list : Elems → Option (List Text)
node_list done = some []
node_list (elem v rest) =
    let later = node_list rest in node_class v >>= λ s. later >>= λ names. some (s ∷ names)

-- `reader_nodes`, at least one.
unfoldable pub nodes_value : Option Json → Option (List Text)
nodes_value (some (arr (elem v rest))) = node_list (elem v rest)
nodes_value _ = none

abbrev pub any_outside : List Key → Bool
any_outside [] = false
any_outside (k ∷ ks) = let later = any_outside ks in outside k || later

unfoldable pub expect_value : Option Json → Option Expect
expect_value value = do
  fields ← known_fields (codes "comfyui" ∷ (codes "pytorch" ∷ (codes "triton" ∷ []))) value
  comfyui ← string_value (get (codes "comfyui") fields)
  pytorch ← string_value (get (codes "pytorch") fields)
  triton ← boolean_value (get (codes "triton") fields)
  some (record { comfyui = comfyui; pytorch = pytorch; triton = triton })

-- `_config`
unfoldable pub picture_config : Library → Fields → List Key → Option PictureConfig
picture_config lib file keys = do
  _ ← known_fields picture_names (some (obj file))
  _ ← required (is_text (codes "pictures") (get (codes "lane") file))
  _ ← required (keys_allowed keys)
  _ ← required (not (any_vision keys))
  _ ← required (not (any_outside keys))
  limits ← known_fields class_names (get (codes "limits") file)
  listen ← known_fields (codes "public" ∷ (codes "control" ∷ [])) (get (codes "listen") file)
  nodes ← nodes_value (get (codes "reader_nodes") file)
  expect ← expect_value (get (codes "expect") file)
  versions ← object_value (or_default (obj end) (get (codes "versions") file))
  _ ← required (all_texts versions)
  alias ← string_value (get (codes "alias") file)
  url ← engine_url lib (get (codes "engine_url") file)
  caps ← for_classes picture_limits limits
  drain_deadline ← seconds_value (get (codes "drain_deadline_s") file)
  idle_timeout ←
      seconds_value (or_default (num (whole (pos 780))) (get (codes "idle_timeout_s") file))
  health_interval ←
      seconds_value (or_default (num (whole (pos 5))) (get (codes "health_interval_s") file))
  public ← listener lib false (get (codes "public") listen)
  control ← listener lib true (get (codes "control") listen)
  connections ←
      integer_value 1 (or_default (num (whole (pos 64))) (get (codes "max_connections") file))
  body_limit ←
      integer_value 1 (or_default (num (whole (pos 1048576))) (get (codes "body_limit_bytes") file))
  upload_limit ←
      integer_value 1
        (or_default (num (whole (pos 10485760))) (get (codes "upload_limit_bytes") file))
  max_nodes ← integer_value 1 (or_default (num (whole (pos 64))) (get (codes "max_nodes") file))
  some (record {
    alias = alias;
    engine_url = strip_slashes url;
    keys = keys;
    limits = caps;
    reader_nodes = nodes;
    expect = expect;
    drain_deadline_s = drain_deadline;
    idle_timeout_s = idle_timeout;
    health_interval_s = health_interval;
    public = public;
    control = control;
    max_connections = connections;
    body_limit_bytes = body_limit;
    upload_limit_bytes = upload_limit;
    max_nodes = max_nodes;
    versions = versions;
  })

-- `load`, of what `json.load` reads of the file.
unfoldable pub load_pictures : Library → Option Json → Option PictureConfig
load_pictures lib file = object_value file >>= λ fields.
    keys_value (get (codes "keys") fields) >>= λ keys. picture_config lib fields keys
