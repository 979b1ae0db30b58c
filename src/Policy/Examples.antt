-- ===== src/Policy/Examples.antt =====
-- Headers of small requests, and the theorems at them.
use simple_serving.Prelude.{
  ◌↔◌, ◌≡◌, refl, arith, ◌⊎◌, true, false, none, some, [], ◌∷◌, Text, Has, codes, length,
}
use simple_serving.Errors.{ok}
use simple_serving.Config.{reader, external, outside}
use simple_serving.Samples.{bot_key, partner_key}
use simple_serving.Policy.{
  Caller, presented, find_key, match_keys, resolve, allowed_class, asked_class, asked_scope,
  class_named, is_reader_scope, is_named_scope, is_opaque,
}
use simple_serving.Policy.Allowed.{IsAllowed, resolve-IsAllowed}
use simple_serving.Policy.Refused.{Refused}
use simple_serving.Policy.Salts.{salt_separates}
use simple_serving.Policy.Keys.{Presents, find_key_exact}

abbrev alice : Caller
alice = record { key = bot_key; cls = reader; scope = some (codes "reader.alice-0001") }

abbrev partner : Caller
partner = record { key = partner_key; cls = external; scope = none }

resolve-alice : resolve bot_key none (some (codes "reader.alice-0001")) ≡ ok alice
unfolding resolve allowed_class asked_class asked_scope is_reader_scope is_named_scope is_opaque
    outside
resolve-alice = refl

resolve-partner : resolve partner_key (some (codes "external")) none ≡ ok partner
unfolding resolve allowed_class asked_class class_named outside
resolve-partner = refl

resolve-IsAllowed_example : IsAllowed bot_key alice
resolve-IsAllowed_example =
    resolve-IsAllowed bot_key none (some (codes "reader.alice-0001")) alice resolve-alice

salt_separates_example :
    ((outside bot_key ≡ true) × (outside bot_key ≡ true) × (bot_key.label ≡ bot_key.label))
    ⊎ ((outside bot_key ≡ false)
        × (outside bot_key ≡ false)
        × ((s : Text) × (alice.scope ≡ some s) × (alice.scope ≡ some s)))
salt_separates_example =
    salt_separates bot_key bot_key none (some (codes "reader.alice-0001")) none
      (some (codes "reader.alice-0001")) alice alice resolve-alice resolve-alice refl

-- The hash here is the number of bytes: 17 for the bot's key.
find_key_exact_example :
    (find_key length (bot_key ∷ partner_key ∷ []) (some (codes "Bearer 0123456789abcdefg"))
      ≡ some bot_key)
    ↔ ((p : Text) × Presents (some (codes "Bearer 0123456789abcdefg")) p
        × Has bot_key (bot_key ∷ partner_key ∷ [])
        × (17 ≡ length p))
find_key_exact_example =
    find_key_exact length (bot_key ∷ partner_key ∷ []) (some (codes "Bearer 0123456789abcdefg"))
      bot_key (((λ e. absurd (omega arith)), tt), (tt, tt))

find_key_found :
    find_key length (bot_key ∷ partner_key ∷ []) (some (codes "Bearer 0123456789abcdefg"))
    ≡ some bot_key
unfolding find_key presented match_keys
find_key_found = refl
