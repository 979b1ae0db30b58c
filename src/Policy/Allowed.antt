-- ===== src/Policy/Allowed.antt =====
-- What `resolve` lets through.
use simple_serving.Prelude.{
  ◌≡◌, refl, arith, inl, inr, true, false, ◌&&◌, not, Option, none, some, Text, codes, text_eq,
  starts_with, eq_of_text_eq, Bool-cases,
}
use simple_serving.Errors.{Result, ok}
use simple_serving.Config.{ServiceClass, reader, agent, internal, external, Key, outside, has_class}
use simple_serving.Policy.{
  Caller, class_name, is_reader_scope, is_named_scope, reader_prefix, asked_class, asked_scope,
  is_reader, resolve,
}
use simple_serving.Policy.Resolved.{
  IsScope, allowed_class_lem, asked_scope_cases, Resolved, no_class, no_scope, outsider,
  no_such_scope, nameless_reader, ours, resolve-Resolved,
}

-- What holds of every request that is let through.
pub record IsAllowed (key : Key) (c : Caller) : Type 0 where
  pub same_key : c.key ≡ key
  pub class_allowed : has_class c.cls key.classes ≡ true
  pub outside_scopeless : outside key ≡ true → c.scope ≡ none
  pub ours_scoped : outside key ≡ false → (s : Text) × (c.scope ≡ some s) × IsScope s
  pub reader_named :
      c.cls ≡ reader
      → outside key ≡ false
      → (s : Text) × (c.scope ≡ some s) × (is_reader_scope s ≡ true)
  pub scope_permitted : (s : Text) → key.scopes ≡ false → c.scope ≡ some s → s ≡ class_name c.cls

named_not_reader : (s : Text) → is_named_scope s ≡ true → starts_with reader_prefix s ≡ false
unfolding is_named_scope
named_not_reader s h = elim (Bool-cases (text_eq s (codes "agent"))) [
  | inl e ↦ rw (eq_of_text_eq s (codes "agent") e) refl
  | inr n ↦ rw (eq_of_text_eq s (codes "internal") (ground arith)) refl
]

own_scope :
    (key : Key) (d : ServiceClass) (s : Text)
    → outside key ≡ false
    → has_class d key.classes ≡ true
    → (is_reader d && not (starts_with reader_prefix s)) ≡ false
    → s ≡ class_name d
    → is_named_scope s ≡ true
unfolding outside is_named_scope
own_scope key reader s o k n e = absurd (ground arith)
own_scope key agent s o k n e = rw e refl
own_scope key internal s o k n e = rw e refl
own_scope key external s o k n e = absurd (ground arith)

IsScope-of_ours :
    (key : Key) (d : ServiceClass) (sh : Option Text) (s : Text)
    → outside key ≡ false
    → has_class d key.classes ≡ true
    → (is_reader d && not (starts_with reader_prefix s)) ≡ false
    → asked_scope d sh ≡ ok s
    → IsScope s
IsScope-of_ours key d sh s o k n z = elim (asked_scope_cases d sh s z) [
  | inl (_, e) ↦ inr (own_scope key d s o k n e)
  | inr (_, e) ↦ e
]

scope_of_reader :
    (s : Text)
    → (is_reader reader && not (starts_with reader_prefix s)) ≡ false
    → IsScope s
    → is_reader_scope s ≡ true
scope_of_reader s n (inl r) = r
scope_of_reader s n (inr r) = absurd (ground (arith, named_not_reader s r))

IsAllowed-of :
    {key : Key} {ch sh : Option Text} {r : Result Caller} (c : Caller)
    → Resolved key ch sh r
    → r ≡ ok c
    → IsAllowed key c
IsAllowed-of c (no_class x e) h = absurd (ground arith)
IsAllowed-of c (no_scope d x g e) h = absurd (ground arith)
IsAllowed-of c (no_such_scope d x g o z e) h = absurd (ground arith)
IsAllowed-of c (nameless_reader d s x g o z n e) h = absurd (ground arith)
IsAllowed-of {key} {ch} {sh} c (outsider d x g o e) h =
    let (_, k) = allowed_class_lem key (asked_class key ch) d x in
    let same : record { key = key; cls = d; scope = none } ≡ c = ground arith in
    rw (← same) (record {
      same_key = refl;
      class_allowed = k;
      outside_scopeless = λ _. refl;
      ours_scoped = λ f. absurd (ground arith);
      reader_named = λ _ f. absurd (ground arith);
      scope_permitted = λ s _ f. absurd (ground arith);
    })
IsAllowed-of {key} {ch} {sh} c (ours d s x g o z n e) h =
    let (_, k) = allowed_class_lem key (asked_class key ch) d x in
    let same : record { key = key; cls = d; scope = some s } ≡ c = ground arith in
    let v = IsScope-of_ours key d sh s o k n z in
    rw (← same) (record {
      same_key = refl;
      class_allowed = k;
      outside_scopeless = λ f. absurd (ground arith);
      ours_scoped = λ f. (s, refl, v);
      reader_named = λ f _. (s, refl, scope_of_reader s (rw f at n) v);
      scope_permitted = λ t f y. elim (asked_scope_cases d sh s z) [
        | inl (_, q) ↦ ground arith
        | inr (q, _) ↦ absurd (ground arith)
      ];
    })

-- A request that is let through has its key, a class that the key allows, and, exactly if the key
-- is an outside key, no scope. A request of ours has `agent`, `internal` or a well-formed reader
-- scope, a request of class reader has a reader scope, and a key without the right to name scopes
-- has the scope of its class.
pub resolve-IsAllowed :
    (key : Key) (ch sh : Option Text) (c : Caller) → resolve key ch sh ≡ ok c → IsAllowed key c
resolve-IsAllowed key ch sh c h = IsAllowed-of c (resolve-Resolved key ch sh) h
