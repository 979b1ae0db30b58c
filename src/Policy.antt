-- ===== src/Policy.antt =====
-- simple_serving/policy.py: keys, classes and cache scopes.
-- Headers are lists of code points. SHA-256 is not part of the code: `find_key` takes it as an
-- argument, from the presented bytes to the number that the digest writes.
pub mod Resolved
pub mod Allowed
pub mod Refused
pub mod Salts
mod Examples
pub mod Keys
use simple_serving.Prelude.{
  ℕ, ◌≡◌, Bool, true, false, ◌&&◌, ◌||◌, not, Option, none, some, List, [], ◌∷◌, ◌++◌, map, Text,
  codes, text_eq, starts_with, partition, all_of, lower, leb, ◌==◌, if◌then◌else◌, length,
}
use simple_serving.Errors.{
  Result, ok, err, class_not_allowed, scope_not_allowed, invalid_request, ◌>>=◌,
}
use simple_serving.Config.{ServiceClass, reader, agent, internal, external, Key, outside, has_class}

pub record Caller : Type 0 where
  pub key : Key
  pub cls : ServiceClass
  pub scope : Option Text  -- none for an outside key

abbrev pub class_name : ServiceClass → Text
class_name reader = codes "reader"
class_name agent = codes "agent"
class_name internal = codes "internal"
class_name external = codes "external"

-- The class of that name.
unfoldable pub class_named : Text → Option ServiceClass
class_named s =
    if text_eq s (class_name reader)
    then some reader
    else if text_eq s (class_name agent)
    then some agent
    else if text_eq s (class_name internal)
    then some internal
    else if text_eq s (class_name external)
    then some external
    else none

unfoldable pub scope_kind : Caller → Text
scope_kind c = elim c.scope [ none ↦ codes "external" | some s ↦ (partition b'.' s).0 ]

unfoldable pub salt_input : Caller → Text
salt_input c = elim c.scope [ none ↦ codes "key:" ++ c.key.label | some s ↦ codes "scope:" ++ s ]

unfoldable pub outside_key : Caller → Option Key
outside_key c = if outside c.key then some c.key else none

-- `[A-Za-z0-9_-]`
unfoldable pub is_opaque : ℕ → Bool
is_opaque c =
    leb b'A' c && leb c b'Z'
    || leb b'a' c && leb c b'z'
    || leb b'0' c && leb c b'9'
    || c == b'_'
    || c == b'-'

abbrev pub reader_prefix : Text
reader_prefix = codes "reader."

-- What stands behind a prefix of the length of `p`.
abbrev pub behind : Text → Text → Text
behind [] s = s
behind (c ∷ p) [] = []
behind (c ∷ p) (d ∷ s) = behind p s

-- `READER_SCOPE.fullmatch`
unfoldable pub is_reader_scope : Text → Bool
is_reader_scope s =
    starts_with reader_prefix s
    && all_of is_opaque (behind reader_prefix s)
    && leb 8 (length (behind reader_prefix s))
    && leb (length (behind reader_prefix s)) 64

-- Membership in `NAMED_SCOPES`.
unfoldable pub is_named_scope : Text → Bool
is_named_scope s = text_eq s (codes "agent") || text_eq s (codes "internal")

-- The loop of `find_key`: every key is compared, and the last that matches is kept.
unfoldable pub match_keys : ℕ → Option Key → List Key → Option Key
match_keys digest found [] = found
match_keys digest found (k ∷ ks) =
    match_keys digest (if digest == k.digest then some k else found) ks

-- The key that a Bearer header presents, if it is one.
unfoldable pub presented : Option Text → Option Text
presented authorization =
    let (scheme, key) = partition b' ' (elim authorization [ none ↦ [] | some a ↦ a ]) in
    if not (text_eq (map lower scheme) (codes "bearer")) || text_eq key [] then none else some key

unfoldable pub find_key : (Text → ℕ) → List Key → Option Text → Option Key
find_key sha256 keys authorization = elim (presented authorization) [
  | none ↦ none
  | some key ↦ match_keys (sha256 key) none keys
]

-- `key.default` where there is no header, and otherwise the class that the header names.
unfoldable pub asked_class : Key → Option Text → Option ServiceClass
asked_class key none = key.default
asked_class key (some h) = class_named h

-- `cls is None or cls not in key.classes`
unfoldable pub allowed_class : Key → Option ServiceClass → Result ServiceClass
allowed_class key none = err class_not_allowed
allowed_class key (some c) = if has_class c key.classes then ok c else err class_not_allowed

-- The scope of a request of ours, before the check of a reader's.
unfoldable pub asked_scope : ServiceClass → Option Text → Result Text
asked_scope c none = ok (class_name c)
asked_scope c (some s) = if is_reader_scope s || is_named_scope s then ok s else err invalid_request

abbrev pub is_given : Option Text → Bool
is_given none = false
is_given (some s) = true

abbrev pub is_reader : ServiceClass → Bool
is_reader reader = true
is_reader agent = false
is_reader internal = false
is_reader external = false

-- `resolve`
unfoldable pub resolve : Key → Option Text → Option Text → Result Caller
resolve key class_header scope_header = allowed_class key (asked_class key class_header) >>= λ c.
    if is_given scope_header && not key.scopes
    then err scope_not_allowed
    else if outside key
    then ok (record { key = key; cls = c; scope = none })
    else asked_scope c scope_header >>= λ s.
        if is_reader c && not (starts_with reader_prefix s)
        then err invalid_request
        else ok (record { key = key; cls = c; scope = some s })
