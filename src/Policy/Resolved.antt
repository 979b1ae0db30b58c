-- ===== src/Policy/Resolved.antt =====
-- How `resolve` ends, check by check.
use simple_serving.Prelude.{
  ◌≡◌, refl, arith, ◌⊎◌, inl, inr, true, false, ◌&&◌, not, Option, none, some, Text, starts_with,
  Bool-cases,
}
use simple_serving.Errors.{
  Result, ok, err, Code, Result-cases, class_not_allowed, scope_not_allowed, invalid_request,
}
use simple_serving.Config.{ServiceClass, Key, outside, has_class}
use simple_serving.Policy.{
  Caller, class_name, is_reader_scope, is_named_scope, reader_prefix, asked_class, allowed_class,
  asked_scope, is_given, is_reader, resolve,
}

-- A scope that one of our requests may have.
abbrev pub IsScope : Text → Type 0
IsScope s = (is_reader_scope s ≡ true) ⊎ (is_named_scope s ≡ true)

pub allowed_class_lem :
    (key : Key) (o : Option ServiceClass) (c : ServiceClass)
    → allowed_class key o ≡ ok c
    → (o ≡ some c) × (has_class c key.classes ≡ true)
unfolding allowed_class
allowed_class_lem key none c h = absurd (ground arith)
allowed_class_lem key (some d) c h = ground arith

pub asked_scope_cases :
    (c : ServiceClass) (o : Option Text) (s : Text)
    → asked_scope c o ≡ ok s
    → ((o ≡ none) × (s ≡ class_name c)) ⊎ ((o ≡ some s) × IsScope s)
unfolding asked_scope
asked_scope_cases c none s h = inl (ground arith)
asked_scope_cases c (some r) s h = inr (ground arith)

-- How `resolve` ends, check by check.
pub data Resolved (key : Key) (ch sh : Option Text) (r : Result Caller) : Type 0 where
  no_class :
      allowed_class key (asked_class key ch) ≡ err class_not_allowed
      → r ≡ err class_not_allowed
      → Resolved key ch sh r
  no_scope :
      (d : ServiceClass)
      → allowed_class key (asked_class key ch) ≡ ok d
      → (is_given sh && not key.scopes) ≡ true
      → r ≡ err scope_not_allowed
      → Resolved key ch sh r
  outsider :
      (d : ServiceClass)
      → allowed_class key (asked_class key ch) ≡ ok d
      → (is_given sh && not key.scopes) ≡ false
      → outside key ≡ true
      → r ≡ ok (record { key = key; cls = d; scope = none })
      → Resolved key ch sh r
  no_such_scope :
      (d : ServiceClass)
      → allowed_class key (asked_class key ch) ≡ ok d
      → (is_given sh && not key.scopes) ≡ false
      → outside key ≡ false
      → asked_scope d sh ≡ err invalid_request
      → r ≡ err invalid_request
      → Resolved key ch sh r
  nameless_reader :
      (d : ServiceClass) (s : Text)
      → allowed_class key (asked_class key ch) ≡ ok d
      → (is_given sh && not key.scopes) ≡ false
      → outside key ≡ false
      → asked_scope d sh ≡ ok s
      → (is_reader d && not (starts_with reader_prefix s)) ≡ true
      → r ≡ err invalid_request
      → Resolved key ch sh r
  ours :
      (d : ServiceClass) (s : Text)
      → allowed_class key (asked_class key ch) ≡ ok d
      → (is_given sh && not key.scopes) ≡ false
      → outside key ≡ false
      → asked_scope d sh ≡ ok s
      → (is_reader d && not (starts_with reader_prefix s)) ≡ false
      → r ≡ ok (record { key = key; cls = d; scope = some s })
      → Resolved key ch sh r

allowed_class_err :
    (key : Key) (o : Option ServiceClass) (e : Code)
    → allowed_class key o ≡ err e
    → e ≡ class_not_allowed
unfolding allowed_class
allowed_class_err key none e h = ground arith
allowed_class_err key (some c) e h = ground arith

asked_scope_err :
    (c : ServiceClass) (o : Option Text) (e : Code) → asked_scope c o ≡ err e → e ≡ invalid_request
unfolding asked_scope
asked_scope_err c none e h = absurd (ground arith)
asked_scope_err c (some s) e h = ground arith

pub resolve-Resolved : (key : Key) (ch sh : Option Text) → Resolved key ch sh (resolve key ch sh)
unfolding resolve
resolve-Resolved key ch sh = elim (Result-cases (allowed_class key (asked_class key ch))) [
  | inr (e, x) ↦
      let y = rw (allowed_class_err key (asked_class key ch) e x) at x in
      no_class y (rw (y, resolve) refl)
  | inl (d, x) ↦ elim (Bool-cases (is_given sh && not key.scopes)) [
    | inl g ↦ no_scope d x g (rw (x, resolve) (rw g refl))
    | inr g ↦ elim (Bool-cases (outside key)) [
      | inl o ↦ outsider d x g o (rw (x, resolve) (rw g (rw o refl)))
      | inr o ↦ elim (Result-cases (asked_scope d sh)) [
        | inr (e, z) ↦
            let y = rw (asked_scope_err d sh e z) at z in
            no_such_scope d x g o y (rw (x, resolve) (rw g (rw o (rw y refl))))
        | inl (s, z) ↦ elim (Bool-cases (is_reader d && not (starts_with reader_prefix s))) [
          | inl n ↦ nameless_reader d s x g o z n (rw (x, resolve) (rw g (rw o (rw z (rw n refl)))))
          | inr n ↦ ours d s x g o z n (rw (x, resolve) (rw g (rw o (rw z (rw n refl)))))
        ]
      ]
    ]
  ]
]
