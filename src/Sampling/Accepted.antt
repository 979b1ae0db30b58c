-- ===== src/Sampling/Accepted.antt =====
-- What the optional fields are that the checks let through.
use simple_serving.Prelude.{
  ◌≡◌, refl, sym, subst, ◌⊎◌, inl, inr, Bool, true, Option, none, some, List, [], ◌∷◌, ◌++◌, Text,
  Has, All, Gives, bind-Gives, none-Gives, some-Gives, if_Gives,
}
use simple_serving.Json.{Number, Json, null, bool, num, str, arr, obj, Fields, get}
use simple_serving.Sampling.{checked, run_checks, sampling_checks, sampling}

-- The field is not in the body, or the body's own value passes the check and is what is kept.
abbrev pub Kept : Fields → List (Text × Number) → Text × (Number → Bool) → Type 0
Kept body chosen c =
    (get c.0 body ≡ none)
    ⊎ ((x : Number) × ((get c.0 body ≡ some (num x)) × ((c.1 x ≡ true) × Has (c.0, x) chosen)))

-- Each kept value is the body's, under a name that has a check.
abbrev pub FromBody : Fields → List (Text × (Number → Bool)) → Text × Number → Type 0
FromBody body checks f =
    (get f.0 body ≡ some (num f.1))
    × ((check : Number → Bool) × (Has (f.0, check) checks × (check f.1 ≡ true)))

abbrev pub IsSampling : Fields → List (Text × (Number → Bool)) → List (Text × Number) → Type 0
IsSampling body checks chosen = All (Kept body chosen) checks × All (FromBody body checks) chosen

Has-later : {A : Type 0} (a : A) (xs ys : List A) → Has a ys → Has a (xs ++ ys)
Has-later a [] ys h = h
Has-later a (x ∷ xs) ys h = inr (Has-later a xs ys h)

Kept-later :
    (body : Fields) (xs ys : List (Text × Number)) (c : Text × (Number → Bool))
    → Kept body ys c
    → Kept body (xs ++ ys) c
Kept-later body xs ys c (inl e) = inl e
Kept-later body xs ys c (inr (x, (e, (p, m)))) = inr (x, (e, (p, Has-later (c.0, x) xs ys m)))

All-Kept :
    (body : Fields) (xs ys : List (Text × Number)) (cs : List (Text × (Number → Bool)))
    → All (Kept body ys) cs
    → All (Kept body (xs ++ ys)) cs
All-Kept body xs ys [] h = tt
All-Kept body xs ys (c ∷ cs) h = (Kept-later body xs ys c h.0, All-Kept body xs ys cs h.1)

All-FromBody :
    (body : Fields) (c : Text × (Number → Bool)) (cs : List (Text × (Number → Bool)))
    (fs : List (Text × Number))
    → All (FromBody body cs) fs
    → All (FromBody body (c ∷ cs)) fs
All-FromBody body c cs [] h = tt
All-FromBody body c cs (f ∷ fs) h =
    ((h.0.0, (h.0.1.0, (inr h.0.1.1.0, h.0.1.1.1))), All-FromBody body c cs fs h.1)

-- One step: nothing, or the one value.
abbrev OneStep : Fields → Text × (Number → Bool) → List (Text × Number) → Type 0
OneStep body c here =
    ((get c.0 body ≡ none) × (here ≡ []))
    ⊎ ((x : Number) × ((get c.0 body ≡ some (num x)) × ((c.1 x ≡ true) × (here ≡ (c.0, x) ∷ []))))

checked-Gives :
    (body : Fields) (c : Text × (Number → Bool)) (v : Option Json)
    → get c.0 body ≡ v
    → Gives (OneStep body c) (checked c.0 c.1 v)
checked-Gives body c none e = some-Gives [] (inl (e, refl))
checked-Gives body c (some (num x)) e =
    if_Gives (c.1 x) (λ h. some-Gives ((c.0, x) ∷ []) (inr (x, (e, (h, refl))))) λ _. none-Gives _
checked-Gives body c (some null) e = none-Gives _
checked-Gives body c (some (bool b)) e = none-Gives _
checked-Gives body c (some (str s)) e = none-Gives _
checked-Gives body c (some (arr xs)) e = none-Gives _
checked-Gives body c (some (obj fs)) e = none-Gives _

join :
    (body : Fields) (c : Text × (Number → Bool)) (cs : List (Text × (Number → Bool)))
    (here rest : List (Text × Number))
    → OneStep body c here
    → IsSampling body cs rest
    → IsSampling body (c ∷ cs) (here ++ rest)
join body c cs here rest (inl (e, z)) h =
    subst (λ k. IsSampling body (c ∷ cs) (k ++ rest)) (sym z)
      ((inl e, h.0), All-FromBody body c cs rest h.1)
join body c cs here rest (inr (x, (e, (p, z)))) h =
    subst (λ k. IsSampling body (c ∷ cs) (k ++ rest)) (sym z)
      (
        (inr (x, (e, (p, inl refl))), All-Kept body ((c.0, x) ∷ []) rest cs h.0),
        ((e, (c.1, (inl refl, p))), All-FromBody body c cs rest h.1),
      )

run_checks-Gives :
    (body : Fields) (cs : List (Text × (Number → Bool)))
    → Gives (IsSampling body cs) (run_checks cs body)
run_checks-Gives body [] = some-Gives [] (tt, tt)
run_checks-Gives body (c ∷ cs) =
    bind-Gives (checked c.0 c.1 (get c.0 body)) (checked-Gives body c (get c.0 body) refl)
      λ here one.
        bind-Gives (run_checks cs body) (run_checks-Gives body cs)
          λ rest h. some-Gives (here ++ rest) (join body c cs here rest one h)

pub sampling-Gives : (body : Fields) → Gives (IsSampling body sampling_checks) (sampling body)
unfolding sampling
sampling-Gives body = run_checks-Gives body sampling_checks
