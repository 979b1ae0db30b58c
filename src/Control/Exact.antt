-- ===== src/Control/Exact.antt =====
-- Which bodies the control routes take.
use simple_serving.Prelude.{
  ℕ, ◌≡◌, ◌↔◌, refl, ap, sym, ◌∙◌, Bool, true, false, Option, none, some, Text, codes,
}
use simple_serving.Errors.{Result, ok, err, ◌>>=◌, ok_ne_err}
use simple_serving.Json.{
  fields_within, pos, negsuc, whole, real, Json, null, bool, num, str, arr, obj, Fields, get,
}
use simple_serving.Control.{
  open_names, text_required, count_required, known_only, control_fields, check_open,
}

-- The value, or another where there is none.
abbrev value_or {ℓ} : {A : Type ℓ} → A → Result A → A
value_or other (ok a) = a
value_or other (err e) = other

ok_injective {ℓ} : {A : Type ℓ} {a b : A} → ok a ≡ ok b → a ≡ b
ok_injective {A} {a} {b} h = ap (value_or a) h

-- What comes before a value that a chain of checks gives.
bind_ok {ℓ κ} :
    {Value : Type ℓ} {Next : Type κ} (first : Result Value) (rest : Value → Result Next)
    (last : Next)
    → first >>= rest ≡ ok last
    → (v : Value) × ((first ≡ ok v) × (rest v ≡ ok last))
bind_ok (ok v) rest last h = (v, (refl, h))
bind_ok (err code) rest last h = absurd (ok_ne_err (sym h))

text_ok : (o : Option Json) (s : Text) → text_required o ≡ ok s → o ≡ some (str s)
unfolding text_required
text_ok (some (str t)) s h = ap (λ x. some (str x)) (ok_injective h)
text_ok none s h = absurd (ok_ne_err (sym h))
text_ok (some null) s h = absurd (ok_ne_err (sym h))
text_ok (some (bool b)) s h = absurd (ok_ne_err (sym h))
text_ok (some (num n)) s h = absurd (ok_ne_err (sym h))
text_ok (some (arr xs)) s h = absurd (ok_ne_err (sym h))
text_ok (some (obj fs)) s h = absurd (ok_ne_err (sym h))

count_ok : (o : Option Json) (n : ℕ) → count_required o ≡ ok n → o ≡ some (num (whole (pos n)))
unfolding count_required
count_ok (some (num (whole (pos m)))) n h = ap (λ x. some (num (whole (pos x)))) (ok_injective h)
count_ok (some (num (whole (negsuc m)))) n h = absurd (ok_ne_err (sym h))
count_ok (some (num (real z d))) n h = absurd (ok_ne_err (sym h))
count_ok (some (str t)) n h = absurd (ok_ne_err (sym h))
count_ok none n h = absurd (ok_ne_err (sym h))
count_ok (some null) n h = absurd (ok_ne_err (sym h))
count_ok (some (bool b)) n h = absurd (ok_ne_err (sym h))
count_ok (some (arr xs)) n h = absurd (ok_ne_err (sym h))
count_ok (some (obj fs)) n h = absurd (ok_ne_err (sym h))

known_ok : (k : Bool) (fs gs : Fields) → known_only k (ok fs) ≡ ok gs → (k ≡ true) × (fs ≡ gs)
known_ok true fs gs h = (refl, ok_injective h)
known_ok false fs gs h = absurd (ok_ne_err (sym h))

fields_ok :
    (body : Json) (gs : Fields)
    → control_fields open_names body ≡ ok gs
    → (body ≡ obj gs) × (fields_within open_names gs ≡ true)
unfolding control_fields
fields_ok (obj fs) gs h =
    let k = known_ok (fields_within open_names fs) fs gs h in
    (ap obj k.1, sym (ap (fields_within open_names) k.1) ∙ k.0)
fields_ok null gs h = absurd (ok_ne_err (sym h))
fields_ok (bool b) gs h = absurd (ok_ne_err (sym h))
fields_ok (num n) gs h = absurd (ok_ne_err (sym h))
fields_ok (str s) gs h = absurd (ok_ne_err (sym h))
fields_ok (arr xs) gs h = absurd (ok_ne_err (sym h))

-- The body of an `open` is taken, with a boot and a generation, exactly if it is an object with no
-- field but `boot_id` and `drain_generation`, of which the one is that text and the other that
-- number, an integer that is not negative.
pub check_open_exact :
    (body : Json) (id : Text) (generation : ℕ)
    → (check_open body ≡ ok (id, generation)) ↔ (
        (fields : Fields) × ((body ≡ obj fields)
          × ((fields_within open_names fields ≡ true)
              × ((get (codes "boot_id") fields ≡ some (str id))
                  × (get (codes "drain_generation") fields
                      ≡ some (num (whole (pos generation))))))))
unfolding check_open control_fields text_required count_required
check_open_exact body id generation = (
  (λ h.
      let f =
        bind_ok (control_fields open_names body)
          (λ fs. text_required (get (codes "boot_id") fs) >>= λ i.
            count_required (get (codes "drain_generation") fs) >>= λ g. ok (i, g))
          (id, generation) h in
      let t =
        bind_ok (text_required (get (codes "boot_id") f.0))
          (λ i. count_required (get (codes "drain_generation") f.0) >>= λ g. ok (i, g))
          (id, generation) f.1.1 in
      let c =
        bind_ok (count_required (get (codes "drain_generation") f.0)) (λ g. ok (t.0, g))
          (id, generation) t.1.1 in
      let b = fields_ok body f.0 f.1.0 in
      let p = ok_injective c.1.1 in
      (
        f.0,
        (
          b.0,
          (
            b.1,
            (
              text_ok (get (codes "boot_id") f.0) t.0 t.1.0 ∙ ap (λ x. some (str x.0)) p,
              count_ok (get (codes "drain_generation") f.0) c.0 c.1.0
                  ∙ ap (λ x. some (num (whole (pos x.1)))) p,
            ),
          ),
        ),
      )),
  (λ (fs, (e, (w, (b, g)))). rw (e, w, b, g) refl),
)
