-- ===== src/Policy/Refused.antt =====
-- What `resolve` refuses.
use simple_serving.Prelude.{◌≡◌, true, false, Option, some, Text}
use simple_serving.Errors.{Code, class_not_allowed, scope_not_allowed, invalid_request}
use simple_serving.Config.{ServiceClass, reader, Key, outside, has_class}
use simple_serving.Policy.{is_reader_scope, asked_class}
use simple_serving.Policy.Resolved.{IsScope, Resolved}

-- Why a request is refused, in the order of the checks.
pub data Refused (key : Key) (ch sh : Option Text) : Code → Type 0 where
  bad_class :
      ((c : ServiceClass) → asked_class key ch ≡ some c → has_class c key.classes ≡ false)
      → Refused key ch sh class_not_allowed
  bad_right :
      (c : ServiceClass) (s : Text)
      → asked_class key ch ≡ some c
      → has_class c key.classes ≡ true
      → sh ≡ some s
      → key.scopes ≡ false
      → Refused key ch sh scope_not_allowed
  bad_scope :
      (c : ServiceClass) (s : Text)
      → asked_class key ch ≡ some c
      → has_class c key.classes ≡ true
      → outside key ≡ false
      → sh ≡ some s
      → key.scopes ≡ true
      → ¬ IsScope s
      → Refused key ch sh invalid_request
  nameless :
      outside key ≡ false
      → asked_class key ch ≡ some reader
      → has_class reader key.classes ≡ true
      → ((s : Text) → sh ≡ some s → is_reader_scope s ≡ false)
      → Refused key ch sh invalid_request
