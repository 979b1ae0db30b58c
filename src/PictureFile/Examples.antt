-- ===== src/PictureFile/Examples.antt =====
-- A small configuration file of the picture gateway.
use simple_serving.Prelude.{◌≡◌, refl, true, some, none, [], ◌∷◌, codes}
use simple_serving.Json.{pos, whole, Json, bool, arr, obj, done, elem, Fields, end, field}
use simple_serving.Config.{outside}
use simple_serving.Policy.{class_named}
use simple_serving.ConfigValues.{
  object_value, known_fields, string_value, boolean_value, integer_value, seconds_value,
  is_loopback, engine_url, listener,
}
use simple_serving.ConfigKeys.{
  class_list, classes_value, default_value, outside_allowed, key_value, is_digest, digest_value,
  entry_value, key_list, keys_value, keys_differ,
}
use simple_serving.ConfigFile.{by_class, keys_allowed}
use simple_serving.ConfigFile.Examples.{library, n, t, host, key, per_class, bot}
use simple_serving.PictureFile.{
  PictureLimits, PictureConfig, load_pictures, expect_value, node_list, nodes_value, picture_limits,
  picture_config,
}
use simple_serving.PictureFile.Valid.{IsPictureConfig, load_pictures-IsPictureConfig}

abbrev caps_value : Json
caps_value = obj (
    field (codes "jobs") (n 4)
      (field (codes "wall_s") (n 1860) (field (codes "uploads") (n 16) end)))

abbrev engine : Json
engine = obj (
    field (codes "comfyui") (t (codes "0.37.0"))
      (field (codes "pytorch") (t (codes "2.11.0+cu130")) (field (codes "triton") (bool true) end)))

abbrev picture_file : Fields
picture_file = field (codes "lane") (t (codes "pictures")) (
    field (codes "alias") (t (codes "p")) (
      field (codes "engine_url") (t (codes "http://127.0.0.1:8188")) (
        field (codes "keys") (arr (elem key done)) (
          field (codes "limits") (obj (per_class caps_value end)) (
            field (codes "reader_nodes") (arr (elem (t (codes "KSampler")) done)) (
              field (codes "expect") engine (
                field (codes "drain_deadline_s") (n 60) (
                  field (codes "listen")
                    (obj
                      (field (codes "public") (host 8080) (field (codes "control") (host 0) end)))
                    end))))))))

abbrev caps : PictureLimits
caps = record { jobs = 4; wall_s = whole (pos 1860); uploads = 16 }

abbrev picture_settings : PictureConfig
picture_settings = record {
  alias = codes "p";
  engine_url = codes "http://127.0.0.1:8188";
  keys = bot ∷ [];
  limits = by_class caps caps caps caps;
  reader_nodes = codes "KSampler" ∷ [];
  expect = record { comfyui = codes "0.37.0"; pytorch = codes "2.11.0+cu130"; triton = true };
  drain_deadline_s = whole (pos 60);
  idle_timeout_s = whole (pos 780);
  health_interval_s = whole (pos 5);
  public = record { host = codes "127.0.0.1"; port = 8080 };
  control = record { host = codes "127.0.0.1"; port = 0 };
  max_connections = 64;
  body_limit_bytes = 1048576;
  upload_limit_bytes = 10485760;
  max_nodes = 64;
  versions = end;
}

loads : load_pictures library (some (obj picture_file)) ≡ some picture_settings
unfolding load_pictures object_value known_fields string_value boolean_value integer_value
    seconds_value is_loopback engine_url listener class_list classes_value default_value
    outside_allowed key_value is_digest digest_value entry_value key_list keys_value keys_differ
    expect_value node_list nodes_value picture_limits picture_config keys_allowed outside
    class_named
loads = refl

load_pictures-IsPictureConfig_example : IsPictureConfig library picture_settings
load_pictures-IsPictureConfig_example =
    load_pictures-IsPictureConfig library (some (obj picture_file)) picture_settings loads

-- Without the lane it is no file of the picture gateway.
no_lane :
    load_pictures library (some (obj (field (codes "lane") (t (codes "text")) picture_file))) ≡ none
unfolding load_pictures object_value known_fields string_value boolean_value integer_value
    seconds_value is_loopback engine_url listener class_list classes_value default_value
    outside_allowed key_value is_digest digest_value entry_value key_list keys_value keys_differ
    expect_value node_list nodes_value picture_limits picture_config keys_allowed outside
    class_named
no_lane = refl
