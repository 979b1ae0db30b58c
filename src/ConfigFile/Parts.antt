-- ===== src/ConfigFile/Parts.antt =====
-- What the readers of single parts of the configuration file give.
use simple_serving.Prelude.{
  ℕ, ◌≤◌, ◌≡◌, ◌≢◌, refl, arith, ◌⊎◌, inl, inr, Bool, true, false, ◌&&◌, ◌||◌, not, Option, none,
  some, List, [], ◌∷◌, Text, codes, if◌then◌else◌, Bool-cases, All, Gives, bind-Gives, none-Gives,
  some-Gives, anything, ltb,
}
use simple_serving.Json.{Json, Fields, get}
use simple_serving.Config.{
  ServiceClass, reader, agent, internal, external, ClassLimits, Key, Listener,
}
use simple_serving.Policy.{class_name}
use simple_serving.Policy.Keys.{Differ}
use simple_serving.ConfigValues.{
  Library, known_fields, string_value, integer_value, optional_integer, is_positive, seconds_value,
  is_loopback, checked_host, listener,
}
use simple_serving.ConfigKeys.{any_vision}
use simple_serving.ConfigKeys.Sound.{LabelsDiffer, Differ-keys, no_vision_keys}
use simple_serving.ConfigFile.{
  class_limits, by_class, for_classes, switches, is_here, is_on, is_drafted_count, all_texts,
  versions_allowed, keys_allowed, required,
}

pub required-Gives : (b : Bool) → Gives (λ _. b ≡ true) (required b)
required-Gives true = some-Gives tt refl
required-Gives false = none-Gives _

pub integer-Gives :
    (minimum : ℕ) (value : Option Json) → Gives (λ n. minimum ≤ n) (integer_value minimum value)
unfolding integer_value
integer-Gives minimum value = record { given = λ n h. ground arith }

pub seconds-Gives : (value : Option Json) → Gives (λ x. is_positive x ≡ true) (seconds_value value)
unfolding seconds_value
seconds-Gives value = record { given = λ x h. ground arith }

-- What the limits of a class are at least.
pub record IsLimits (l : ClassLimits) : Type 0 where
  pub active : 1 ≤ l.active
  pub output : 1 ≤ l.max_tokens
  pub wall : is_positive l.wall_s ≡ true

pub class_limits-Gives : (value : Option Json) → Gives IsLimits (class_limits value)
unfolding class_limits
class_limits-Gives value = bind-Gives (known_fields _ value) (anything _) λ fs _.
    bind-Gives (integer_value 1 (get (codes "active") fs)) (integer-Gives _ _) λ active ha.
      bind-Gives (integer_value 0 (get (codes "waiting") fs)) (anything _) λ _ _.
        bind-Gives (optional_integer 1 (get (codes "input_tokens") fs)) (anything _) λ _ _.
          bind-Gives (integer_value 1 (get (codes "max_tokens") fs)) (integer-Gives _ _)
            λ output ho.
              bind-Gives (seconds_value (get (codes "wall_s") fs)) (seconds-Gives _)
                λ wall hw. some-Gives _ (record { active = ha; output = ho; wall = hw })

by_class-IsLimits :
    (r a i e : ClassLimits)
    → IsLimits r
    → IsLimits a
    → IsLimits i
    → IsLimits e
    → (c : ServiceClass) → IsLimits (by_class r a i e c)
by_class-IsLimits r a i e hr ha hi he reader = hr
by_class-IsLimits r a i e hr ha hi he agent = ha
by_class-IsLimits r a i e hr ha hi he internal = hi
by_class-IsLimits r a i e hr ha hi he external = he

pub classes_give :
    (fields : Fields)
    → Gives (λ f. (c : ServiceClass) → IsLimits (f c)) (for_classes class_limits fields)
classes_give fields =
    bind-Gives (class_limits (get (class_name reader) fields)) (class_limits-Gives _) λ r hr.
      bind-Gives (class_limits (get (class_name agent) fields)) (class_limits-Gives _) λ a ha.
        bind-Gives (class_limits (get (class_name internal) fields)) (class_limits-Gives _) λ i hi.
          bind-Gives (class_limits (get (class_name external) fields)) (class_limits-Gives _)
            λ e he. some-Gives _ (by_class-IsLimits r a i e hr ha hi he)

-- A listener's port is one, and the control listener is not reached from outside.
abbrev pub IsListener : Library → Bool → Listener → Type 0
IsListener lib loopback l =
    (l.port ≤ 65535) × ((loopback ≡ false) ⊎ (is_loopback lib (some l.host) ≡ true))

host-Gives :
    (lib : Library) (loopback : Bool) (host : Text)
    → Gives
        (λ h. (loopback ≡ false) ⊎ (is_loopback lib (some h) ≡ true))
        (checked_host lib loopback host)
host-Gives lib false host = some-Gives host (inl refl)
host-Gives lib true host = elim (Bool-cases (is_loopback lib (some host))) [
  | inl e ↦ rw (e, checked_host) (some-Gives host (inr e))
  | inr e ↦ rw (e, checked_host) (none-Gives _)
]

port-Gives :
    (lib : Library) (loopback : Bool) (host : Text) (port : ℕ)
    → ((loopback ≡ false) ⊎ (is_loopback lib (some host) ≡ true))
    → Gives
        (IsListener lib loopback)
        (if ltb 65535 port then none else some (record { host = host; port = port }))
port-Gives lib loopback host port h = elim (Bool-cases (ltb 65535 port)) [
  | inl e ↦ rw e (none-Gives _)
  | inr e ↦ rw e (some-Gives _ (ground arith, h))
]

pub listener-Gives :
    (lib : Library) (loopback : Bool) (value : Option Json)
    → Gives (IsListener lib loopback) (listener lib loopback value)
unfolding listener
listener-Gives lib loopback value = bind-Gives (known_fields _ value) (anything _) λ fs _.
    bind-Gives (string_value (get (codes "host") fs)) (anything _) λ named _.
      bind-Gives (checked_host lib loopback named) (host-Gives lib loopback named) λ host hh.
        bind-Gives (integer_value 0 (get (codes "port") fs)) (anything _)
          λ port _. port-Gives lib loopback host port hh

pub keys_sound_lem :
    (keys : List Key) → keys_allowed keys ≡ true → (keys ≢ []) × (Differ keys × LabelsDiffer keys)
unfolding keys_allowed
keys_sound_lem [] h = absurd (ground arith)
keys_sound_lem (k ∷ ks) h = ((λ e. cc), Differ-keys (k ∷ ks) h)

consistent_lem :
    (a b c l d e f p v : Bool)
    → (a && b && (c && not (l && not d)) && e && f && (p || not v)) ≡ true
    → ((l ≡ false) ⊎ (d ≡ true)) × ((p ≡ true) ⊎ (v ≡ false))
consistent_lem a b c false d e f true v h = (inl refl, inl refl)
consistent_lem a b c false d e f false v h = (inl refl, inr (ground arith))
consistent_lem a b c true d e f true v h = (inr (ground arith), inl refl)
consistent_lem a b c true d e f false v h = (inr (ground arith), inr (ground arith))

pub versions_lem :
    (versions : Fields) (keys : List Key)
    → versions_allowed versions keys ≡ true
    → ((is_here (switches versions).lifted ≡ false) ⊎ (is_here (switches versions).drafted ≡ true))
      × ((is_here (switches versions).pictures ≡ true) ⊎ (any_vision keys ≡ false))
unfolding versions_allowed
versions_lem versions keys h =
    let s = switches versions in
    consistent_lem (all_texts versions) (is_drafted_count s.drafted) (is_on (codes "on") s.lifted)
      (is_here s.lifted) (is_here s.drafted) (is_on (codes "on") s.budget)
      (is_on (codes "1") s.pictures) (is_here s.pictures) (any_vision keys) h

pub vision_lem :
    (b : Bool) (keys : List Key)
    → (b ≡ true) ⊎ (any_vision keys ≡ false)
    → (b ≡ true) ⊎ All (λ k. k.vision ≡ false) keys
vision_lem b keys (inl h) = inl h
vision_lem b keys (inr h) = inr (no_vision_keys keys h)

pub inside :
    (lib : Library) (l : Listener)
    → IsListener lib true l
    → (l.port ≤ 65535) × (is_loopback lib (some l.host) ≡ true)
inside lib l (p, inl e) = cc
inside lib l (p, inr e) = (p, e)
