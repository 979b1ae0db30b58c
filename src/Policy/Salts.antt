-- ===== src/Policy/Salts.antt =====
-- What the cache salt of a request is made of.
use simple_serving.Prelude.{
  ◌≡◌, ◌≢◌, arith, ◌⊎◌, inl, inr, Option, none, some, ◌++◌, Text, codes, true, false, Option-cases,
  Bool-cases,
}
use simple_serving.Errors.{ok}
use simple_serving.Config.{Key, outside}
use simple_serving.Policy.{Caller, salt_input, resolve}
use simple_serving.Policy.Allowed.{IsAllowed, resolve-IsAllowed}

prefix_injective : (s t : Text) → codes "scope:" ++ s ≡ codes "scope:" ++ t → s ≡ t
prefix_injective s t h = cc

label_injective : (s t : Text) → codes "key:" ++ s ≡ codes "key:" ++ t → s ≡ t
label_injective s t h = cc

namespaces_differ : (s t : Text) → codes "key:" ++ s ≢ codes "scope:" ++ t
namespaces_differ s t h = ground arith

salt_input-eq :
    (c d : Caller)
    → salt_input c ≡ salt_input d
    → ((c.scope ≡ none) × (d.scope ≡ none) × (c.key.label ≡ d.key.label))
      ⊎ ((s : Text) × (c.scope ≡ some s) × (d.scope ≡ some s))
unfolding salt_input
salt_input-eq c d h = elim (Option-cases c.scope) [
  | inl x ↦ elim (Option-cases d.scope) [
    | inl y ↦ inl (x, y, label_injective c.key.label d.key.label (ground arith))
    | inr (t, y) ↦ absurd (namespaces_differ c.key.label t (ground arith))
  ]
  | inr (s, x) ↦ elim (Option-cases d.scope) [
    | inl y ↦ absurd (namespaces_differ d.key.label s (ground arith))
    | inr (t, y) ↦ inr (s, x, ground (arith, prefix_injective s t))
  ]
]

outside_of : (k : Key) (c : Caller) → IsAllowed k c → c.scope ≡ none → outside k ≡ true
outside_of k c v x = elim (Bool-cases (outside k)) [
  | inl o ↦ o
  | inr o ↦ let (s, y, _) = v.ours_scoped o in absurd (ground arith)
]

ours_of : (k : Key) (c : Caller) (s : Text) → IsAllowed k c → c.scope ≡ some s → outside k ≡ false
ours_of k c s v x = elim (Bool-cases (outside k)) [
  | inl o ↦ absurd (ground (arith, v.outside_scopeless o))
  | inr o ↦ o
]

-- Two requests that are let through and whose salts are made of the same text are both of ours with
-- one and the same scope, or both of outside keys with one and the same label. So an outside key
-- never shares a salt with a scope of ours, whatever its label.
pub salt_separates :
    (k j : Key) (kc ks jc js : Option Text) (c d : Caller)
    → resolve k kc ks ≡ ok c
    → resolve j jc js ≡ ok d
    → salt_input c ≡ salt_input d
    → ((outside k ≡ true) × (outside j ≡ true) × (k.label ≡ j.label))
      ⊎ ((outside k ≡ false)
          × (outside j ≡ false)
          × ((s : Text) × (c.scope ≡ some s) × (d.scope ≡ some s)))
salt_separates k j kc ks jc js c d h g e =
    let v = resolve-IsAllowed k kc ks c h in
    let w = resolve-IsAllowed j jc js d g in
    elim (salt_input-eq c d e) [
      | inl (x, y, l) ↦
          inl (outside_of k c v x, outside_of j d w y, ground (arith, v.same_key, w.same_key))
      | inr (s, x, y) ↦ inr (ours_of k c s v x, ours_of j d s w y, (s, x, y))
    ]
