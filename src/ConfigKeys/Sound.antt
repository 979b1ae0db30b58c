-- ===== src/ConfigKeys/Sound.antt =====
-- What holds of the keys that the configuration file gives.
use simple_serving.Prelude.{
  ℕ, ◌≡◌, ◌≢◌, refl, arith, ◌⊎◌, inl, inr, Bool, true, false, ◌&&◌, ◌||◌, not, Option, none, some,
  List, [], ◌∷◌, Text, text_eq_refl, codes, Bool-cases, All, Gives, bind-Gives, none-Gives,
  some-Gives, anything,
}
use simple_serving.Json.{Json, null, bool, num, str, arr, obj, Elems, done, elem, get}
use simple_serving.Config.{Key, outside}
use simple_serving.ConfigValues.{
  known_fields, object_value, string_value, boolean_value, or_default,
}
use simple_serving.ConfigKeys.{
  key_names, classes_value, default_value, all_external, outside_allowed, if_allowed, key_value,
  digest_value, without, entry_value, key_list, keys_value, other_digests, other_labels,
  keys_differ, any_vision,
}
use simple_serving.Policy.Keys.{Differ}

-- An outside key may use the class external only, names no scope and sends no picture.
pub record IsOutsider (k : Key) : Type 0 where
  pub external_only : all_external k.classes ≡ true
  pub no_scopes : k.scopes ≡ false
  pub no_vision : k.vision ≡ false

abbrev pub IsKey : Key → Type 0
IsKey k = (outside k ≡ false) ⊎ IsOutsider k

outsider :
    (o e s v : Bool)
    → (not o || (e && not s && not v)) ≡ true
    → (o ≡ false) ⊎ ((e ≡ true) × (s ≡ false) × (v ≡ false))
outsider false e s v h = inl refl
outsider true e s v h = inr (ground arith)

if_allowed-Gives : (k : Key) → Gives IsKey (if_allowed k)
unfolding outside_allowed
if_allowed-Gives k = elim (Bool-cases (outside_allowed k)) [
  | inl e ↦
      rw (e, if_allowed)
        (some-Gives k (elim (outsider (outside k) (all_external k.classes) k.scopes k.vision e) [
          | inl o ↦ inl o
          | inr (x, s, v) ↦ inr (record { external_only = x; no_scopes = s; no_vision = v })
        ]))
  | inr e ↦ rw (e, if_allowed) (none-Gives IsKey)
]

key_value-Gives : (digest : ℕ) (entry : Json) → Gives IsKey (key_value digest entry)
unfolding key_value
key_value-Gives digest entry = bind-Gives (known_fields key_names (some entry)) (anything _) λ fs _.
    bind-Gives (classes_value (get (codes "classes") fs)) (anything _) λ classes _.
      bind-Gives (default_value classes (get (codes "default") fs)) (anything _) λ _ _.
        bind-Gives (string_value (get (codes "label") fs)) (anything _) λ _ _.
          bind-Gives (boolean_value (get (codes "scopes") fs)) (anything _) λ _ _.
            bind-Gives (boolean_value (get (codes "control") fs)) (anything _) λ _ _.
              bind-Gives (boolean_value (or_default (bool false) (get (codes "metrics") fs)))
                (anything _)
                λ _ _.
                  bind-Gives (boolean_value (or_default (bool false) (get (codes "vision") fs)))
                    (anything _) λ _ _. if_allowed-Gives _

entry_value-Gives : (entry : Json) → Gives IsKey (entry_value entry)
unfolding entry_value
entry_value-Gives entry = bind-Gives (object_value (some entry)) (anything _) λ fs _.
    bind-Gives (digest_value (get (codes "sha256") fs)) (anything _)
      λ digest _. key_value-Gives digest (obj (without (codes "sha256") fs))

key_list-Gives : (entries : Elems) → Gives (All IsKey) (key_list entries)
unfolding key_list
key_list-Gives done = some-Gives [] tt
key_list-Gives (elem entry rest) =
    bind-Gives (entry_value entry) (entry_value-Gives entry) λ k hk.
      bind-Gives (key_list rest) (key_list-Gives rest) λ ks hks. some-Gives (k ∷ ks) (hk, hks)

-- Each key that the file gives is one of ours, or an outside key with no more than an outside key
-- may have.
pub keys_value-Gives : (value : Option Json) → Gives (All IsKey) (keys_value value)
unfolding keys_value
keys_value-Gives (some (arr entries)) = key_list-Gives entries
keys_value-Gives none = none-Gives _
keys_value-Gives (some null) = none-Gives _
keys_value-Gives (some (bool b)) = none-Gives _
keys_value-Gives (some (num n)) = none-Gives _
keys_value-Gives (some (str s)) = none-Gives _
keys_value-Gives (some (obj fs)) = none-Gives _

-- No label stands twice.
abbrev pub LabelsDiffer : List Key → Type 0
LabelsDiffer [] = Unit {0}
LabelsDiffer (k ∷ ks) = All (λ j. j.label ≢ k.label) ks × LabelsDiffer ks

others_differ :
    (digest : ℕ) (ks : List Key) → other_digests digest ks ≡ true → All (λ j. j.digest ≢ digest) ks
others_differ digest [] h = tt
others_differ digest (k ∷ ks) h = ((λ e. ground arith), others_differ digest ks (ground arith))

labels_differ :
    (label : Text) (ks : List Key) → other_labels label ks ≡ true → All (λ j. j.label ≢ label) ks
labels_differ label [] h = tt
labels_differ label (k ∷ ks) h =
    ((λ e. ground (arith, text_eq_refl label)), labels_differ label ks (ground arith))

both_true : (a b : Bool) → (a && b) ≡ true → (a ≡ true) × (b ≡ true)
both_true a b h = ground arith

pub Differ-keys : (ks : List Key) → keys_differ ks ≡ true → Differ ks × LabelsDiffer ks
unfolding keys_differ
Differ-keys [] h = (tt, tt)
Differ-keys (k ∷ ks) h =
    let (ab, c) =
      both_true (other_digests k.digest ks && other_labels k.label ks) (keys_differ ks) h in
    let (a, b) = both_true (other_digests k.digest ks) (other_labels k.label ks) ab in
    let (d, l) = Differ-keys ks c in
    ((others_differ k.digest ks a, d), (labels_differ k.label ks b, l))

pub no_vision_keys : (ks : List Key) → any_vision ks ≡ false → All (λ k. k.vision ≡ false) ks
no_vision_keys [] h = tt
no_vision_keys (k ∷ ks) h = (ground arith, no_vision_keys ks (ground arith))
