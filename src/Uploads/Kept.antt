-- ===== src/Uploads/Kept.antt =====
-- Every operation keeps the invariant of the uploads.
use simple_serving.Prelude.{
  ℕ, leb, ◌≡◌, ◌≢◌, refl, sym, ap, subst, ◌∙◌, arith, ◌+◌, inl, inr, length, Bool, true, false,
  ◌&&◌, not, Option, none, some, Text, text_eq, text_eq_refl, get_elem?, Bool-cases,
}
use mathlib.Core.Option.{some-injective}
use simple_serving.Errors.{Code, ok, err, bind_ok, not_found, queue_full}
use simple_serving.Uploads.{
  erase, Upload, Uploads, is_held, is_number, is_current, fresh, forget, write, enqueue, begin_send,
  ttl_s, object_at, live_from, claim_new, claim_known, claim_at, claim, change, put, erase_own,
  erase_at, after_sweep, ask_erase,
}
use simple_serving.Uploads.Steps.{Card}
use simple_serving.Uploads.Invariant.{IsFine, IsSound}
use simple_serving.Uploads.Writes.{as_was, write-IsSound, forget-IsSound, fresh-IsSound}
use simple_serving.Uploads.Jobs.{listed_lem, IsFine-renewed, IsFine-asked, IsFine-begun}

pub change-IsSound :
    (s : Uploads) (card : Card) (i : ℕ) (g : Upload → Upload)
    → IsSound s card
    → ((u : Upload) → (g u).name ≡ u.name)
    → ((u : Upload) → IsFine s.names card i u → IsFine s.names card i (g u))
    → (o : Option Upload) → get_elem? s.objects i ≡ o
    → IsSound (change i g o s) card
change-IsSound s card i g h same fine none e = h
change-IsSound s card i g h same fine (some u) e =
    write-IsSound s card card i u (g u) h e (same u) (as_was λ n. refl) (fine u (h.fine i u e))

ok_injective : {A : Type 0} (p q : A) → ok p ≡ ok q → p ≡ q
ok_injective p q h = cc

ok_second : (p q : ℕ × Uploads) → ok p ≡ ok q → p.1 ≡ q.1
ok_second p q h = ap (λ r. r.1) (ok_injective p q h)

err_ne_ok : {A : Type 0} (c : Code) (a : A) → err c ≢ ok a
err_ne_ok c a h = cc

none_ne_some : {A : Type 0} (a : A) → none ≢ some a
none_ne_some a h = cc

-- A name gives one object.
same_object :
    (s : Uploads) (name : Text) (i j : ℕ) (u w : Upload)
    → s.names name ≡ some i
    → get_elem? s.objects i ≡ some u
    → s.names name ≡ some j
    → get_elem? s.objects j ≡ some w
    → u ≡ w
same_object s name i j u w a b c d =
    let ij : i ≡ j = some-injective i j (sym a ∙ c) in
    some-injective u w (sym b ∙ subst (λ k. get_elem? s.objects k ≡ some w) (sym ij) d)

not_held :
    (s : Uploads) (name : Text) (i j : ℕ) (u w : Upload)
    → s.names name ≡ some i
    → get_elem? s.objects i ≡ some u
    → is_held u.holder ≡ false
    → s.names name ≡ some j
    → get_elem? s.objects j ≡ some w
    → is_held w.holder ≡ false
not_held s name i j u w a b free c d =
    subst (λ x. is_held x.holder ≡ false) (same_object s name i j u w a b c d) free

claim_new-IsSound :
    (now most i : ℕ) (scope name : Text) (s t : Uploads) (card : Card)
    → IsSound s card
    → s.names name ≡ none
    → claim_new now most scope name s ≡ ok (i, t)
    → IsSound t card
claim_new-IsSound now most i scope name s t card h free e =
    elim (Bool-cases (leb most (live_from s now scope 0 s.objects))) [
      | inl full ↦ absurd (err_ne_ok queue_full (i, t) (sym (rw full refl) ∙ e))
      | inr place ↦
          subst (λ x. IsSound x card)
            (ok_second (length s.objects, fresh now scope name s) (i, t) (sym (rw place refl) ∙ e))
            (fresh-IsSound s card now scope name h free)
    ]

claim_known-IsSound :
    (now most i j : ℕ) (scope name : Text) (u : Upload) (s t : Uploads) (card : Card)
    → IsSound s card
    → s.names name ≡ some j
    → get_elem? s.objects j ≡ some u
    → claim_known now most scope name j u s ≡ ok (i, t)
    → IsSound t card
claim_known-IsSound now most i j scope name u s t card h named g e =
    elim (Bool-cases (leb u.expires now && not (is_held u.holder))) [
      | inl over ↦
          let free : is_held u.holder ≡ false = ground arith in
          let kept =
            forget-IsSound s card name h
              (λ k w named_k at. not_held s name j k u w named g free named_k at) in
          claim_new-IsSound now most i scope name (forget name s) t card kept
            (rw (text_eq_refl name) refl) (sym (rw over refl) ∙ e)
      | inr lasts ↦ elim (Bool-cases (text_eq u.scope scope)) [
        | inl own ↦
            let renewed =
              write-IsSound s card card j u (record u { expires = now + ttl_s }) h g refl
                (as_was λ n. refl) (IsFine-renewed u (h.fine j u g) (now + ttl_s)) in
            subst (λ x. IsSound x card)
              (ok_second (j, write j (record u { expires = now + ttl_s }) s) (i, t)
                (sym (rw (lasts, own) refl) ∙ e))
              renewed
        | inr other ↦ absurd (err_ne_ok not_found (i, t) (sym (rw (lasts, other) refl) ∙ e))
      ]
    ]

claim_at-IsSound :
    (now most i : ℕ) (scope name : Text) (s t : Uploads) (card : Card) (p : Option ℕ)
    (o : Option Upload)
    → IsSound s card
    → s.names name ≡ p
    → object_at s p ≡ o
    → claim_at now most scope name p o s ≡ ok (i, t)
    → IsSound t card
claim_at-IsSound now most i scope name s t card none o h named g e =
    claim_new-IsSound now most i scope name s t card h named e
claim_at-IsSound now most i scope name s t card (some j) (some u) h named g e =
    claim_known-IsSound now most i j scope name u s t card h named g e
claim_at-IsSound now most i scope name s t card (some j) none h named g e =
    let (u, (k, n)) = h.named name j named in absurd (none_ne_some u (sym g ∙ k))

pub put-IsSound :
    (now most i : ℕ) (scope name : Text) (s t : Uploads) (card : Card)
    → IsSound s card
    → put now most scope name s ≡ ok (i, t)
    → IsSound t card
unfolding put claim
put-IsSound now most i scope name s t card h e =
    let (r, (claimed, rest)) = bind_ok (claim now most scope name s) _ (i, t) e in
    let k =
      claim_at-IsSound now most r.0 scope name s r.1 card (s.names name)
        (object_at s (s.names name)) h refl refl claimed in
    subst (λ x. IsSound x card)
      (ok_second (r.0, change r.0 begin_send (get_elem? r.1.objects r.0) r.1) (i, t) rest)
      (change-IsSound r.1 card r.0 begin_send k (λ u. refl) (λ u f. IsFine-begun u f)
        (get_elem? r.1.objects r.0) refl)

erase_own-IsSound :
    (scope : Text) (i : ℕ) (s t : Uploads) (card : Card) (o : Option Upload)
    → IsSound s card
    → get_elem? s.objects i ≡ o
    → erase_own scope i o s ≡ ok t
    → IsSound t card
erase_own-IsSound scope i s t card none h g e = cc
erase_own-IsSound scope i s t card (some u) h g e = elim (Bool-cases (text_eq u.scope scope)) [
  | inl own ↦
      let same : ok (write i (enqueue (erase u.generation false) u) s) ≡ ok t =
        sym (rw own refl) ∙ e in
      let kept =
        write-IsSound s card card i u (enqueue (erase u.generation false) u) h g refl
          (as_was λ n. refl) (IsFine-asked u (h.fine i u g) u.generation false) in
      subst (λ x. IsSound x card)
        (ok_injective (write i (enqueue (erase u.generation false) u) s) t same) kept
  | inr other ↦ absurd (err_ne_ok not_found t (sym (rw other refl) ∙ e))
]

pub erase_at-IsSound :
    (scope : Text) (p : Option ℕ) (s t : Uploads) (card : Card)
    → IsSound s card
    → erase_at scope p s ≡ ok t
    → IsSound t card
erase_at-IsSound scope none s t card h e = cc
erase_at-IsSound scope (some i) s t card h e =
    erase_own-IsSound scope i s t card (get_elem? s.objects i) h refl e

pub ask_erase-IsSound :
    (i g : ℕ) (x : Bool) (s : Uploads) (card : Card)
    → IsSound s card
    → IsSound (ask_erase i g x s) card
unfolding ask_erase
ask_erase-IsSound i g x s card h =
    change-IsSound s card i (enqueue (erase g x)) h (λ u. refl) (λ u f. IsFine-asked u f g x)
      (get_elem? s.objects i) refl

-- The sweep forgets a name whose lock is free.
pub after_sweep-IsSound :
    (x : Bool) (now g i : ℕ) (u v : Upload) (t : Uploads) (card : Card)
    → IsSound t card
    → get_elem? t.objects i ≡ some v
    → is_held v.holder ≡ false
    → IsSound (after_sweep x now g i u t) card
after_sweep-IsSound x now g i u v t card h at free =
    elim (Bool-cases (x && is_current t i u g && leb u.expires now)) [
      | inl due ↦
          let listed : is_number (t.names u.name) i ≡ true = ground arith in
          rw due (
            forget-IsSound t card u.name h (λ j w named k.
              not_held t u.name i j v w (listed_lem (t.names u.name) i listed) at free named k))
      | inr kept ↦ rw kept h
    ]
