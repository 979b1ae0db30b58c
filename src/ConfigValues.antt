-- ===== src/ConfigValues.antt =====
-- simple_serving/config.py: the readers of single values of the configuration file, `_object` to
-- `_seconds`, `_listener` and `_engine_url`. `none` is a `ConfigError`, whose message is left out. A
-- value that is missing is `none` among the arguments, as `dict.get` has it. What `urlsplit` and
-- `ip_address` say of a text is a parameter; NaN and the infinities, which the file could hold and
-- `_seconds` refuses, are no values of Json.
use Prim.Native.Nat.{◌^◌}
use simple_serving.Prelude.{
  ℕ, suc, ◌-◌, Bool, true, false, ◌==◌, ◌&&◌, ◌||◌, not, Option, none, some, List, [], ◌∷◌, Text,
  text_eq, codes, ltb, leb, if◌then◌else◌, ◌>>=◌,
}
use simple_serving.Json.{
  ℤ, pos, negsuc, Number, whole, real, Json, null, bool, num, str, obj, Fields, get, fields_within,
}
use simple_serving.Config.{Listener}

-- An address of `ipaddress`, by its number; one of IPv6 may have a scope (`::1%eth0`).
pub data Address : Type 0 where
  v4 : ℕ → Address
  v6 : ℕ → Option Text → Address

-- `urlsplit`, by the scheme and the host name that it gives, and `ip_address`; none is a ValueError.
pub record Library : Type 0 where
  pub urlsplit : Text → Option (Text × Option Text)
  pub ip_address : Text → Option Address

unfoldable pub object_value : Option Json → Option Fields
object_value (some (obj fields)) = some fields
object_value _ = none

abbrev pub known_only : Bool → Fields → Option Fields
known_only true fields = some fields
known_only false fields = none

-- `_fields`
unfoldable pub known_fields : List Text → Option Json → Option Fields
known_fields names value =
    object_value value >>= λ fields. known_only (fields_within names fields) fields

unfoldable pub string_value : Option Json → Option Text
string_value (some (str (c ∷ s))) = some (c ∷ s)
string_value _ = none

unfoldable pub boolean_value : Option Json → Option Bool
boolean_value (some (bool b)) = some b
boolean_value _ = none

-- `data.get(name, default)`
abbrev pub or_default : Json → Option Json → Option Json
or_default default none = some default
or_default default (some value) = some value

abbrev pub at_least : ℕ → ℕ → Option ℕ
at_least minimum n = if leb minimum n then some n else none

-- `_integer` with a minimum, which is never negative.
unfoldable pub integer_value : ℕ → Option Json → Option ℕ
integer_value minimum (some (num (whole (pos n)))) = at_least minimum n
integer_value minimum _ = none

-- `_integer` without one.
unfoldable pub any_integer : Option Json → Option ℤ
any_integer (some (num (whole z))) = some z
any_integer _ = none

abbrev pub given : Option ℕ → Option (Option ℕ)
given none = none
given (some n) = some (some n)

unfoldable pub optional_integer : ℕ → Option Json → Option (Option ℕ)
optional_integer minimum none = some none
optional_integer minimum (some null) = some none
optional_integer minimum (some value) = given (integer_value minimum (some value))

abbrev pub is_positive : Number → Bool
is_positive (whole (pos n)) = ltb 0 n
is_positive (whole (negsuc n)) = false
is_positive (real (pos n) d) = ltb 0 n
is_positive (real (negsuc n) d) = false

abbrev pub if_positive : Bool → Number → Option Number
if_positive true x = some x
if_positive false x = none

-- The least integer that no float holds: `math.isfinite` raises on it an OverflowError.
abbrev pub float_end : ℕ
float_end = 2 ^ 1024 - 2 ^ 970

abbrev pub is_finite : Number → Bool
is_finite (whole (pos n)) = ltb n float_end
is_finite (whole (negsuc n)) = ltb (suc n) float_end
is_finite (real n d) = true

abbrev pub if_finite : Bool → Option Number → Option Number
if_finite true x = x
if_finite false x = none

-- The value is kept as written: the float that the source makes of an integer over 2 ^ 53 may be
-- its nearest one.
unfoldable pub seconds_value : Option Json → Option Number
seconds_value (some (num x)) = if_finite (is_finite x) (if_positive (is_positive x) x)
seconds_value _ = none

-- Membership in `LOOPBACK_V4`, which is 127.0.0.0/8, or equality with `LOOPBACK_V6`, which is ::1
-- without a scope.
abbrev pub in_loopback : Option Address → Bool
in_loopback none = false
in_loopback (some (v4 n)) = leb 2130706432 n && ltb n 2147483648
in_loopback (some (v6 n none)) = n == 1
in_loopback (some (v6 n (some scope))) = false

abbrev pub or_empty : Option Text → Text
or_empty none = []
or_empty (some s) = s

-- `rstrip("/")`
abbrev pub strip_last : ℕ → Text → Text
strip_last c [] = if c == b'/' then [] else c ∷ []
strip_last c (d ∷ s) = c ∷ d ∷ s

abbrev pub strip_slashes : Text → Text
strip_slashes [] = []
strip_slashes (c ∷ s) = strip_last c (strip_slashes s)

module _ (lib : Library) where
  unfoldable pub is_loopback : Option Text → Bool
  is_loopback host = in_loopback (lib.ip_address (or_empty host))

  abbrev pub url_loopback : Option (Text × Option Text) → Bool
  url_loopback none = false
  url_loopback (some (scheme, host)) =
      (text_eq scheme (codes "http") || text_eq scheme (codes "https")) && is_loopback host

  -- `_engine_url`
  unfoldable pub engine_url : Option Json → Option Text
  engine_url value =
      string_value value >>= λ url. if url_loopback (lib.urlsplit url) then some url else none

  abbrev pub checked_host : Bool → Text → Option Text
  checked_host loopback host = if loopback && not (is_loopback (some host)) then none else some host

  -- `_listener`
  unfoldable pub listener : Bool → Option Json → Option Listener
  listener loopback value = do
    fields ← known_fields (codes "host" ∷ (codes "port" ∷ [])) value
    named ← string_value (get (codes "host") fields)
    host ← checked_host loopback named
    port ← integer_value 0 (get (codes "port") fields)
    if ltb 65535 port then none else some (record { host = host; port = port })
