-- ===== src/ConfigFile/Valid.antt =====
-- What holds of every configuration that `load` gives.
use simple_serving.Prelude.{
  ◌≤◌, ◌≡◌, ◌≢◌, ◌⊎◌, true, false, Option, some, List, [], ◌∷◌, codes, All, Gives, bind-Gives,
  some-Gives, anything,
}
use simple_serving.Json.{pos, whole, Json, bool, num, obj, Fields, end, get}
use simple_serving.Config.{ServiceClass, Key, Config}
use simple_serving.Policy.Keys.{Differ}
use simple_serving.ConfigValues.{
  Library, object_value, known_fields, string_value, boolean_value, or_default, integer_value,
  any_integer, optional_integer, is_positive, seconds_value, engine_url, is_loopback, listener,
}
use simple_serving.ConfigKeys.{keys_value}
use simple_serving.ConfigKeys.Sound.{IsKey, keys_value-Gives, LabelsDiffer}
use simple_serving.ConfigFile.{
  file_names, class_names, class_limits, for_classes, versions_allowed, keys_allowed, required,
  config_value, load,
}
use simple_serving.ConfigFile.Parts.{
  required-Gives, integer-Gives, seconds-Gives, IsLimits, classes_give, listener-Gives,
  keys_sound_lem, versions_lem, vision_lem, inside,
}

-- What the rest of the gateway relies on.
pub record IsValid (lib : Library) (c : Config) : Type 0 where
  pub some_key : c.keys ≢ []
  pub digests_differ : Differ c.keys
  pub labels_differ : LabelsDiffer c.keys
  pub keys_sound : All IsKey c.keys
  pub limits_sound : (cls : ServiceClass) → IsLimits (c.limits cls)
  pub places :
      (1 ≤ c.per_key_active)
      × (1 ≤ c.shared_places)
      × (1 ≤ c.count_active)
      × (1 ≤ c.count_per_outside_key)
  pub times :
      (is_positive c.drain_deadline_s ≡ true)
      × (is_positive c.idle_timeout_s ≡ true)
      × (is_positive c.health_interval_s ≡ true)
  pub public_port : c.public.port ≤ 65535
  pub control_inside : (c.control.port ≤ 65535) × (is_loopback lib (some c.control.host) ≡ true)
  pub lifted_drafting : (c.min_p_while_drafting ≡ false) ⊎ (c.speculative ≡ true)
  pub pictures_allowed : (c.vision ≡ true) ⊎ All (λ k. k.vision ≡ false) c.keys

config_value-Gives :
    (lib : Library) (file : Fields) (keys : List Key)
    → All IsKey keys
    → Gives (IsValid lib) (config_value lib file keys)
unfolding config_value
config_value-Gives lib file keys sound =
    bind-Gives (known_fields file_names (some (obj file))) (anything _) λ known _.
      bind-Gives (required (keys_allowed keys)) (required-Gives (keys_allowed keys))
        λ allowed h_allowed.
          bind-Gives
            (known_fields (codes "external_per_key" ∷ (codes "shared" ∷ class_names))
              (get (codes "limits") file))
            (anything _)
            λ limits _.
              bind-Gives
                (known_fields (codes "active" ∷ (codes "waiting" ∷ []))
                  (get (codes "external_per_key") limits))
                (anything _)
                λ per_key _.
                  bind-Gives (known_fields (codes "active" ∷ []) (get (codes "shared") limits))
                    (anything _)
                    λ shared _.
                      bind-Gives
                        (known_fields (codes "active" ∷ (codes "per_outside_key" ∷ []))
                          (get (codes "count_limits") file))
                        (anything _)
                        λ counts _.
                          bind-Gives (known_fields class_names (get (codes "engine_priority") file))
                            (anything _)
                            λ priority _.
                              bind-Gives
                                (known_fields (codes "public" ∷ (codes "control" ∷ []))
                                  (get (codes "listen") file))
                                (anything _)
                                λ listen _.
                                  bind-Gives (engine_url lib (get (codes "engine_url") file))
                                    (anything _)
                                    λ url _.
                                      bind-Gives
                                        (object_value
                                          (or_default (obj end) (get (codes "versions") file)))
                                        (anything _)
                                        λ versions _.
                                          bind-Gives (required (versions_allowed versions keys))
                                            (required-Gives (versions_allowed versions keys))
                                            λ consistent h_consistent.
                                              bind-Gives (string_value (get (codes "alias") file))
                                                (anything _)
                                                λ alias _.
                                                  bind-Gives
                                                    (optional_integer 1
                                                      (get (codes "context_tokens") file))
                                                    (anything _)
                                                    λ context_tokens _.
                                                      bind-Gives
                                                        (integer_value 1 (
                                                          or_default (num (whole (pos 4194304)))
                                                            (get (codes "body_limit_bytes") file)))
                                                        (integer-Gives _ _)
                                                        λ body_limit h_body_limit.
                                                          bind-Gives
                                                            (for_classes class_limits limits)
                                                            (classes_give limits)
                                                            λ class_caps h_class_caps.
                                                            bind-Gives
                                                            (integer_value 1
                                                            (get (codes "active") per_key))
                                                            (integer-Gives _ _)
                                                            λ key_active h_key_active.
                                                            bind-Gives
                                                            (integer_value 0
                                                            (get (codes "waiting") per_key))
                                                            (integer-Gives _ _)
                                                            λ key_waiting h_key_waiting.
                                                            bind-Gives
                                                            (integer_value 1
                                                            (get (codes "active") shared))
                                                            (integer-Gives _ _)
                                                            λ shared_places h_shared_places.
                                                            bind-Gives
                                                            (integer_value 1
                                                            (get (codes "active") counts))
                                                            (integer-Gives _ _)
                                                            λ count_active h_count_active.
                                                            bind-Gives
                                                            (integer_value 1
                                                            (get (codes "per_outside_key") counts))
                                                            (integer-Gives _ _)
                                                            λ count_outside h_count_outside.
                                                            bind-Gives
                                                            (for_classes any_integer priority)
                                                            (anything _)
                                                            λ priorities _.
                                                            bind-Gives
                                                            (seconds_value
                                                            (get (codes "drain_deadline_s") file))
                                                            (seconds-Gives _)
                                                            λ drain_deadline h_drain_deadline.
                                                            bind-Gives
                                                            (seconds_value (
                                                            or_default (num (whole (pos 780)))
                                                            (get (codes "idle_timeout_s") file)))
                                                            (seconds-Gives _)
                                                            λ idle_timeout h_idle_timeout.
                                                            bind-Gives
                                                            (listener lib false
                                                            (get (codes "public") listen))
                                                            (listener-Gives lib false _)
                                                            λ public h_public.
                                                            bind-Gives
                                                            (listener lib true
                                                            (get (codes "control") listen))
                                                            (listener-Gives lib true _)
                                                            λ control h_control.
                                                            bind-Gives
                                                            (integer_value 1 (
                                                            or_default (num (whole (pos 64)))
                                                            (get (codes "max_connections") file)))
                                                            (integer-Gives _ _)
                                                            λ connections h_connections.
                                                            bind-Gives
                                                            (seconds_value (
                                                            or_default (num (whole (pos 5)))
                                                            (get (codes "health_interval_s") file)))
                                                            (seconds-Gives _)
                                                            λ health_interval h_health_interval.
                                                            bind-Gives
                                                            (boolean_value (
                                                            or_default (bool false)
                                                            (get (codes "warm_up") file)))
                                                            (anything _)
                                                            λ warm_up _.
                                                            let k = keys_sound_lem keys h_allowed in
                                                            let v =
                                                            versions_lem versions keys
                                                            h_consistent in
                                                            some-Gives _ (record {
                                                            some_key = k.0;
                                                            digests_differ = k.1.0;
                                                            labels_differ = k.1.1;
                                                            keys_sound = sound;
                                                            limits_sound = h_class_caps;
                                                            places = (
                                                            h_key_active, h_shared_places,
                                                            h_count_active, h_count_outside,
                                                            );
                                                            times = (
                                                            h_drain_deadline, h_idle_timeout,
                                                            h_health_interval,
                                                            );
                                                            public_port = h_public.0;
                                                            control_inside =
                                                            inside lib control h_control;
                                                            lifted_drafting = v.0;
                                                            pictures_allowed =
                                                            vision_lem _ keys v.1;
                                                            })

load-Gives : (lib : Library) (file : Option Json) → Gives (IsValid lib) (load lib file)
unfolding load
load-Gives lib file = bind-Gives (object_value file) (anything _) λ fields _.
    bind-Gives (keys_value (get (codes "keys") fields)) (keys_value-Gives _)
      λ keys sound. config_value-Gives lib fields keys sound

-- Every configuration that the gateway starts with, from any file: it has a key, its digests and
-- its labels differ, an outside key uses the class external alone, names no scope and sends no
-- picture, every class, the shared classes and the counts have a place, each time is above 0, the
-- ports are ports, the control listener stands on a loopback address, a min_p is let through
-- while drafting only where vLLM drafts, and a key sends pictures only where the engine takes them.
pub load-IsValid :
    (lib : Library) (file : Option Json) (c : Config) → load lib file ≡ some c → IsValid lib c
load-IsValid lib file c h = (load-Gives lib file).given c h
