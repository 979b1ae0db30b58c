-- ===== src/Config.antt =====
-- simple_serving/config.py: the classes, the keys, the limits and the configuration of the text
-- lane.
use simple_serving.Json.{ℤ, Number, Fields}
use simple_serving.Prelude.{
  ℕ, Bool, true, false, Text, Option, List, [], ◌∷◌, ◌≡◌, arith, ◌==◌, ◌||◌,
}

-- The class names of `CLASSES`.
pub data ServiceClass : Type 0 where
  reader agent internal external : ServiceClass

abbrev pub rank : ServiceClass → ℕ
rank reader = 0
rank agent = 1
rank internal = 2
rank external = 3

-- Equality of class names.
abbrev pub class_eq : ServiceClass → ServiceClass → Bool
class_eq c d = rank c == rank d

pub class_eq_refl : (c : ServiceClass) → class_eq c c ≡ true
class_eq_refl c = ground arith

pub eq_of_class_eq : (c d : ServiceClass) → class_eq c d ≡ true → c ≡ d
eq_of_class_eq c d h = ground arith

-- In the order of contract section 2.
abbrev pub classes : List ServiceClass
classes = reader ∷ agent ∷ internal ∷ external ∷ []

-- Membership in `SHARED`.
abbrev pub is_shared : ServiceClass → Bool
is_shared reader = false
is_shared agent = true
is_shared internal = true
is_shared external = true

abbrev pub has_class : ServiceClass → List ServiceClass → Bool
has_class c [] = false
has_class c (d ∷ ds) = let rest = has_class c ds in class_eq d c || rest

-- A digest of 32 bytes is the number that it writes.
pub record Key : Type 0 where
  pub digest : ℕ
  pub label : Text
  pub classes : List ServiceClass
  pub default : Option ServiceClass
  pub scopes : Bool
  pub control : Bool
  pub metrics : Bool
  pub vision : Bool

-- An outside key.
unfoldable pub outside : Key → Bool
outside k = has_class external k.classes

pub record ClassLimits : Type 0 where
  pub active : ℕ
  pub waiting : ℕ
  pub input_tokens : Option ℕ
  pub max_tokens : ℕ
  pub wall_s : Number

pub record Listener : Type 0 where
  pub host : Text
  pub port : ℕ

pub record Config : Type 0 where
  pub alias : Text
  pub engine_url : Text
  pub context_tokens : Option ℕ
  pub body_limit_bytes : ℕ
  pub keys : List Key
  pub limits : ServiceClass → ClassLimits
  pub per_key_active : ℕ
  pub per_key_waiting : ℕ
  pub shared_places : ℕ
  pub count_active : ℕ
  pub count_per_outside_key : ℕ
  pub engine_priority : ServiceClass → ℤ
  pub drain_deadline_s : Number
  pub idle_timeout_s : Number
  pub public : Listener
  pub control : Listener
  pub max_connections : ℕ
  pub health_interval_s : Number
  pub versions : Fields
  pub speculative : Bool
  pub thinking_budget : Bool
  pub vision : Bool
  pub warm_up : Bool
  pub min_p_while_drafting : Bool
