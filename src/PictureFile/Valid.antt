-- ===== src/PictureFile/Valid.antt =====
-- What holds of every configuration of the picture gateway that `load` gives.
use simple_serving.Prelude.{
  ◌≤◌, ◌≡◌, ◌≢◌, refl, arith, Bool, true, false, not, Option, none, some, List, [], ◌∷◌, Text,
  codes, All, Gives, bind-Gives, none-Gives, some-Gives, anything, if_Gives,
}
use simple_serving.Json.{
  whole, pos, Json, null, bool, num, str, arr, obj, Elems, done, elem, Fields, end, get,
}
use simple_serving.Config.{ServiceClass, reader, agent, internal, external, Key, outside}
use simple_serving.Policy.{class_name}
use simple_serving.Policy.Keys.{Differ}
use simple_serving.ConfigValues.{
  Library, object_value, known_fields, string_value, or_default, integer_value, is_positive,
  seconds_value, engine_url, is_loopback, listener,
}
use simple_serving.ConfigKeys.{keys_value, any_vision}
use simple_serving.ConfigKeys.Sound.{LabelsDiffer, no_vision_keys}
use simple_serving.ConfigFile.{
  class_names, by_class, for_classes, all_texts, keys_allowed, required,
}
use simple_serving.ConfigFile.Parts.{
  required-Gives, integer-Gives, seconds-Gives, listener-Gives, keys_sound_lem, inside,
}
use simple_serving.Messages.{is_text}
use simple_serving.PictureFile.{
  PictureLimits, PictureConfig, picture_names, picture_limits, is_node_class, node_class, node_list,
  nodes_value, any_outside, expect_value, picture_config, load_pictures,
}

abbrev IsWall : PictureLimits → Type 0
IsWall l = is_positive l.wall_s ≡ true

limits-Gives : (value : Option Json) → Gives IsWall (picture_limits value)
unfolding picture_limits
limits-Gives value = bind-Gives (known_fields _ value) (anything _) λ fs _.
    bind-Gives (integer_value 0 (get (codes "jobs") fs)) (anything _) λ _ _.
      bind-Gives (seconds_value (get (codes "wall_s") fs)) (seconds-Gives _) λ wall h.
        bind-Gives (integer_value 0 (get (codes "uploads") fs)) (anything _) λ _ _. some-Gives _ h

by_class-IsWall :
    (r a i e : PictureLimits)
    → IsWall r
    → IsWall a
    → IsWall i
    → IsWall e
    → (c : ServiceClass) → IsWall (by_class r a i e c)
by_class-IsWall r a i e hr ha hi he reader = hr
by_class-IsWall r a i e hr ha hi he agent = ha
by_class-IsWall r a i e hr ha hi he internal = hi
by_class-IsWall r a i e hr ha hi he external = he

classes-Gives :
    (fields : Fields)
    → Gives (λ f. (c : ServiceClass) → IsWall (f c)) (for_classes picture_limits fields)
classes-Gives fields =
    bind-Gives (picture_limits (get (class_name reader) fields)) (limits-Gives _) λ r hr.
      bind-Gives (picture_limits (get (class_name agent) fields)) (limits-Gives _) λ a ha.
        bind-Gives (picture_limits (get (class_name internal) fields)) (limits-Gives _) λ i hi.
          bind-Gives (picture_limits (get (class_name external) fields)) (limits-Gives _)
            λ e he. some-Gives _ (by_class-IsWall r a i e hr ha hi he)

abbrev pub AreNodes : List Text → Type 0
AreNodes ns = All (λ n. is_node_class n ≡ true) ns

node_class-Gives : (v : Json) → Gives (λ n. is_node_class n ≡ true) (node_class v)
node_class-Gives (str s) = if_Gives (is_node_class s) (λ e. some-Gives s e) λ _. none-Gives _
node_class-Gives null = none-Gives _
node_class-Gives (bool b) = none-Gives _
node_class-Gives (num n) = none-Gives _
node_class-Gives (arr xs) = none-Gives _
node_class-Gives (obj fs) = none-Gives _

node_list-Gives : (vs : Elems) → Gives AreNodes (node_list vs)
unfolding node_list
node_list-Gives done = some-Gives [] tt
node_list-Gives (elem v rest) =
    bind-Gives (node_class v) (node_class-Gives v)
      λ n h. bind-Gives (node_list rest) (node_list-Gives rest) λ ns hs. some-Gives (n ∷ ns) (h, hs)

some_node :
    (v : Json) (rest : Elems) → Gives (λ ns. (ns ≢ []) × AreNodes ns) (node_list (elem v rest))
unfolding node_list
some_node v rest = bind-Gives (node_class v) (node_class-Gives v) λ n h.
    bind-Gives (node_list rest) (node_list-Gives rest)
      λ ns hs. some-Gives (n ∷ ns) ((λ e. cc), (h, hs))

nodes-Gives : (value : Option Json) → Gives (λ ns. (ns ≢ []) × AreNodes ns) (nodes_value value)
unfolding nodes_value
nodes-Gives (some (arr (elem v rest))) = some_node v rest
nodes-Gives (some (arr done)) = none-Gives _
nodes-Gives none = none-Gives _
nodes-Gives (some null) = none-Gives _
nodes-Gives (some (bool b)) = none-Gives _
nodes-Gives (some (num n)) = none-Gives _
nodes-Gives (some (str s)) = none-Gives _
nodes-Gives (some (obj fs)) = none-Gives _

not_lem : (b : Bool) → not b ≡ true → b ≡ false
not_lem false h = refl
not_lem true h = cc

no_outside_keys : (ks : List Key) → any_outside ks ≡ false → All (λ k. outside k ≡ false) ks
no_outside_keys [] h = tt
no_outside_keys (k ∷ ks) h = (ground arith, no_outside_keys ks (ground arith))

-- What the picture lane relies on.
pub record IsPictureConfig (lib : Library) (c : PictureConfig) : Type 0 where
  pub some_key : c.keys ≢ []
  pub digests_differ : Differ c.keys
  pub labels_differ : LabelsDiffer c.keys
  pub all_ours : All (λ k. outside k ≡ false) c.keys
  pub no_vision : All (λ k. k.vision ≡ false) c.keys
  pub walls : (cls : ServiceClass) → is_positive (c.limits cls).wall_s ≡ true
  pub nodes : (c.reader_nodes ≢ []) × AreNodes c.reader_nodes
  pub times :
      (is_positive c.drain_deadline_s ≡ true)
      × (is_positive c.idle_timeout_s ≡ true)
      × (is_positive c.health_interval_s ≡ true)
  pub public_port : c.public.port ≤ 65535
  pub control_inside : (c.control.port ≤ 65535) × (is_loopback lib (some c.control.host) ≡ true)
  pub sizes :
      (1 ≤ c.max_connections)
      × (1 ≤ c.body_limit_bytes)
      × (1 ≤ c.upload_limit_bytes)
      × (1 ≤ c.max_nodes)

module _ (lib : Library) where
  config-Gives :
      (file : Fields) (keys : List Key) → Gives (IsPictureConfig lib) (picture_config lib file keys)
  unfolding picture_config
  config-Gives file keys =
      bind-Gives (known_fields picture_names (some (obj file))) (anything _) λ _ _.
        bind-Gives (required (is_text (codes "pictures") (get (codes "lane") file))) (anything _)
          λ _ _. bind-Gives (required (keys_allowed keys)) (required-Gives _) λ _ allowed.
            bind-Gives (required (not (any_vision keys))) (required-Gives _) λ _ blind.
              bind-Gives (required (not (any_outside keys))) (required-Gives _) λ _ ours.
                bind-Gives (known_fields class_names (get (codes "limits") file)) (anything _)
                  λ limits _.
                    bind-Gives
                      (known_fields (codes "public" ∷ (codes "control" ∷ []))
                        (get (codes "listen") file))
                      (anything _)
                      λ listen _.
                        bind-Gives (nodes_value (get (codes "reader_nodes") file)) (nodes-Gives _)
                          λ nodes h_nodes.
                            bind-Gives (expect_value (get (codes "expect") file)) (anything _)
                              λ _ _.
                                bind-Gives
                                  (object_value
                                    (or_default (obj end) (get (codes "versions") file)))
                                  (anything _)
                                  λ versions _.
                                    bind-Gives (required (all_texts versions)) (anything _) λ _ _.
                                      bind-Gives (string_value (get (codes "alias") file))
                                        (anything _)
                                        λ _ _.
                                          bind-Gives
                                            (engine_url lib (get (codes "engine_url") file))
                                            (anything _)
                                            λ _ _.
                                              bind-Gives (for_classes picture_limits limits)
                                                (classes-Gives limits)
                                                λ caps h_caps.
                                                  bind-Gives
                                                    (seconds_value
                                                      (get (codes "drain_deadline_s") file))
                                                    (seconds-Gives _)
                                                    λ _ h_drain.
                                                      bind-Gives
                                                        (seconds_value (
                                                          or_default (num (whole (pos 780)))
                                                            (get (codes "idle_timeout_s") file)))
                                                        (seconds-Gives _)
                                                        λ _ h_idle.
                                                          bind-Gives
                                                            (seconds_value (
                                                            or_default (num (whole (pos 5)))
                                                            (get (codes "health_interval_s") file)))
                                                            (seconds-Gives _)
                                                            λ _ h_health.
                                                            bind-Gives
                                                            (listener lib false
                                                            (get (codes "public") listen))
                                                            (listener-Gives lib false _)
                                                            λ _ h_public.
                                                            bind-Gives
                                                            (listener lib true
                                                            (get (codes "control") listen))
                                                            (listener-Gives lib true _)
                                                            λ control h_control.
                                                            bind-Gives
                                                            (integer_value 1 (
                                                            or_default (num (whole (pos 64)))
                                                            (get (codes "max_connections") file)))
                                                            (integer-Gives _ _)
                                                            λ _ h_connections.
                                                            bind-Gives
                                                            (integer_value 1 (
                                                            or_default (num (whole (pos 1048576)))
                                                            (get (codes "body_limit_bytes") file)))
                                                            (integer-Gives _ _)
                                                            λ _ h_body.
                                                            bind-Gives
                                                            (integer_value 1 (
                                                            or_default (num (whole (pos 10485760)))
                                                            (get (codes "upload_limit_bytes")
                                                            file)))
                                                            (integer-Gives _ _)
                                                            λ _ h_upload.
                                                            bind-Gives
                                                            (integer_value 1 (
                                                            or_default (num (whole (pos 64)))
                                                            (get (codes "max_nodes") file)))
                                                            (integer-Gives _ _)
                                                            λ _ h_max.
                                                            let k = keys_sound_lem keys allowed in
                                                            some-Gives _ (record {
                                                            some_key = k.0;
                                                            digests_differ = k.1.0;
                                                            labels_differ = k.1.1;
                                                            all_ours =
                                                            no_outside_keys keys
                                                            (not_lem (any_outside keys) ours);
                                                            no_vision =
                                                            no_vision_keys keys
                                                            (not_lem (any_vision keys) blind);
                                                            walls = h_caps;
                                                            nodes = h_nodes;
                                                            times = (h_drain, h_idle, h_health);
                                                            public_port = h_public.0;
                                                            control_inside =
                                                            inside lib control h_control;
                                                            sizes = (
                                                            h_connections, h_body, h_upload, h_max,
                                                            );
                                                            })

  -- Every configuration that the picture gateway starts with, from any file: it has a key, its digests
  -- and labels differ, no key is an outside key or sends pictures to the text lane, readers may use
  -- at least one node and only names of 1 to 64 letters, digits and low lines, each time is above 0,
  -- each size at least 1, the ports are ports, and the control listener stands on a loopback address.
  pub load_pictures-IsPictureConfig :
      (file : Option Json) (c : PictureConfig)
      → load_pictures lib file ≡ some c
      → IsPictureConfig lib c
  unfolding load_pictures
  load_pictures-IsPictureConfig file c h =
      (bind-Gives (object_value file) (anything _) λ fields _.
          bind-Gives (keys_value (get (codes "keys") fields)) (anything _)
            λ keys _. config-Gives fields keys).given
        c h
