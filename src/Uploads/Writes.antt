-- ===== src/Uploads/Writes.antt =====
-- What one write, one forgotten name and one new upload keep of the invariant.
use simple_serving.Prelude.{
  ℕ, ◌+◌, ◌≡◌, ◌≢◌, refl, sym, ap, subst, ◌∙◌, ◌⊎◌, inl, inr, arith, false, Option, none, some,
  List, [], ◌∷◌, ◌++◌, Text, text_eq, eq_of_text_eq, ne_of_text_eq, length, get_elem?, set,
  Bool-cases, get_elem?-set_cases, ◌==◌, get_elem?-set_ne, get_elem?-set_self, get_elem?-append,
  get_elem?-append_last, get_elem?-append_left,
}
use mathlib.Core.Option.{some-injective}
use mathlib.Core.Bool.{true≢false}
use simple_serving.Uploads.{
  sending, Upload, Uploads, is_held, put_name, fresh, forget, write, ttl_s,
}
use simple_serving.Uploads.Steps.{Card}
use simple_serving.Uploads.Invariant.{IsFine, IsSound}

put_name-cases :
    (name n : Text) (v : Option ℕ) (names : Text → Option ℕ) (j : ℕ)
    → put_name name v names n ≡ some j
    → ((name ≡ n) × (v ≡ some j)) ⊎ ((name ≢ n) × (names n ≡ some j))
put_name-cases name n v names j h = elim (Bool-cases (text_eq name n)) [
  | inl e ↦ inl (eq_of_text_eq name n e, sym (rw e refl) ∙ h)
  | inr e ↦ inr (ne_of_text_eq name n e, sym (rw e refl) ∙ h)
]

put_name-other :
    (name n : Text) (v : Option ℕ) (names : Text → Option ℕ)
    → name ≢ n
    → put_name name v names n ≡ names n
put_name-other name n v names h = elim (Bool-cases (text_eq name n)) [
  | inl e ↦ absurd (h (eq_of_text_eq name n e))
  | inr e ↦ rw e refl
]

-- The card changes not at all, or only under a name that the writer has.
pub data Changes (names : Text → Option ℕ) (i : ℕ) (name : Text) (card after : Card) : Type 0 where
  as_was : ((n : Text) → after n ≡ card n) → Changes names i name card after
  at_own :
      names name ≡ some i
      → ((n : Text) → text_eq name n ≡ false → after n ≡ card n)
      → Changes names i name card after

Changes-other :
    (names : Text → Option ℕ) (i j : ℕ) (name n : Text) (card after : Card)
    → i ≢ j
    → names n ≡ some j
    → Changes names i name card after
    → after n ≡ card n
Changes-other names i j name n card after ne e (as_was f) = f n
Changes-other names i j name n card after ne e (at_own own f) = elim (Bool-cases (text_eq name n)) [
  | inl same ↦
      let two : some i ≡ some j = sym own ∙ ap names (eq_of_text_eq name n same) ∙ e in
      absurd (ne cc)
  | inr other ↦ f n other
]

IsFine-Changes :
    (names : Text → Option ℕ) (i j : ℕ) (name : Text) (card after : Card) (v : Upload)
    → i ≢ j
    → Changes names i name card after
    → IsFine names card j v
    → IsFine names after j v
IsFine-Changes names i j name card after v ne c f = record {
  held_below = f.held_below;
  ascending = f.ascending;
  held_listed = f.held_listed;
  last_sent = f.last_sent;
  on_card = λ l n e. Changes-other names i j name v.name card after ne e c ∙ f.on_card l n e;
}

module _ (s : Uploads) (card after : Card) (i : ℕ) (u v : Upload) where
  pub write-IsSound :
      IsSound s card
      → get_elem? s.objects i ≡ some u
      → v.name ≡ u.name
      → Changes s.names i u.name card after
      → IsFine s.names after i v
      → IsSound (write i v s) after
  write-IsSound h g same c f = record {
    named = λ n j e.
        let (w, (k, en)) = h.named n j e in
        elim (get_elem?-set_cases s.objects i j u v w g k) [
          | inl there ↦ (w, (there, en))
          | inr (wu, there) ↦ (v, (there, same ∙ ap (λ x. x.name) (sym wu) ∙ en))
        ];
    fine = λ j w e. elim (Bool-cases (i == j)) [
      | inl here ↦
          let ij : i ≡ j = ground arith in
          let at : get_elem? (set s.objects i v) j ≡ some v =
            subst (λ k. get_elem? (set s.objects i v) k ≡ some v) ij
              (get_elem?-set_self s.objects i u v g) in
          let vw : v ≡ w = some-injective v w (sym at ∙ e) in
          subst (λ k. IsFine s.names after k w) ij (subst (λ x. IsFine s.names after i x) vw f)
      | inr there ↦
          let ne : i ≢ j = λ p. ground arith in
          IsFine-Changes s.names i j u.name card after w ne c
            (h.fine j w (sym (get_elem?-set_ne s.objects i j v ne) ∙ e))
    ];
  }

IsFine-forgotten :
    (names : Text → Option ℕ) (card : Card) (name : Text) (j : ℕ) (w : Upload)
    → (names name ≡ some j → is_held w.holder ≡ false)
    → IsFine names card j w
    → IsFine (put_name name none names) card j w
IsFine-forgotten names card name j w free f = record {
  held_below = f.held_below;
  ascending = f.ascending;
  held_listed = λ held.
      let listed = f.held_listed held in
      elim (Bool-cases (text_eq name w.name)) [
        | inl e ↦
            absurd (true≢false (sym held ∙ free (ap names (eq_of_text_eq name w.name e) ∙ listed)))
        | inr e ↦ put_name-other name w.name none names (ne_of_text_eq name w.name e) ∙ listed
      ];
  last_sent = f.last_sent;
  on_card = λ l n e. elim (put_name-cases name w.name none names j e) [
    | inl (same, gone) ↦ cc
    | inr (ne, old) ↦ f.on_card l n old
  ];
}

pub forget-IsSound :
    (s : Uploads) (card : Card) (name : Text)
    → IsSound s card
    → ((i : ℕ) (u : Upload)
        → s.names name ≡ some i
        → get_elem? s.objects i ≡ some u
        → is_held u.holder ≡ false)
    → IsSound (forget name s) card
forget-IsSound s card name h free = record {
  named = λ n j e. elim (put_name-cases name n none s.names j e) [
    | inl (same, gone) ↦ cc
    | inr (ne, old) ↦ h.named n j old
  ];
  fine = λ j w e. IsFine-forgotten s.names card name j w (λ l. free j w l e) (h.fine j w e);
}

abbrev new_upload : ℕ → Text → Text → Upload
new_upload now scope name = record {
  name = name;
  scope = scope;
  expires = now + ttl_s;
  state = sending;
  generation = 0;
  holder = none;
  waiting = [];
}

IsFine-new :
    {names : Text → Option ℕ} {card : Card} {i : ℕ} (now : ℕ) (scope name : Text)
    → IsFine names card i (new_upload now scope name)
IsFine-new now scope name = record {
  held_below = omega arith;
  ascending = tt;
  held_listed = λ h. cc;
  last_sent = λ l. cc;
  on_card = λ l n e. cc;
}

past_end : (us : List Upload) (w : Upload) → get_elem? us (length us) ≢ some w
past_end [] w h = cc
past_end (u ∷ us) w h = past_end us w h

not_both :
    (names : Text → Option ℕ) (name n : Text) (j : ℕ)
    → names name ≡ none
    → names n ≡ some j
    → name ≢ n
not_both names name n j e f same = let both : none ≡ some j = sym e ∙ ap names same ∙ f in cc

IsFine-beside :
    (s : Uploads) (card : Card) (now : ℕ) (scope name : Text) (j : ℕ) (w : Upload)
    → s.names name ≡ none
    → get_elem? s.objects j ≡ some w
    → IsFine s.names card j w
    → IsFine (fresh now scope name s).names card j w
IsFine-beside s card now scope name j w none_yet old f = record {
  held_below = f.held_below;
  ascending = f.ascending;
  held_listed = λ held.
      let listed = f.held_listed held in
      let ne : name ≢ w.name = not_both s.names name w.name j none_yet listed in
      put_name-other name w.name (some (length s.objects)) s.names ne ∙ listed;
  last_sent = f.last_sent;
  on_card = λ l n e. elim (put_name-cases name w.name (some (length s.objects)) s.names j e) [
    | inl (same, at) ↦ absurd (
        past_end s.objects w (
          subst (λ k. get_elem? s.objects k ≡ some w) (sym (some-injective (length s.objects) j at))
            old))
    | inr (ne, listed) ↦ f.on_card l n listed
  ];
}

pub fresh-IsSound :
    (s : Uploads) (card : Card) (now : ℕ) (scope name : Text)
    → IsSound s card
    → s.names name ≡ none
    → IsSound (fresh now scope name s) card
fresh-IsSound s card now scope name h none_yet =
    let new : Upload = new_upload now scope name in
    record {
      named = λ n j e. elim (put_name-cases name n (some (length s.objects)) s.names j e) [
        | inl (same, at) ↦ (
          new,
          (
            subst (λ k. get_elem? (s.objects ++ new ∷ []) k ≡ some new)
                (some-injective (length s.objects) j at) (get_elem?-append_last s.objects new),
            same,
          ),
        )
        | inr (ne, old) ↦
            let (w, (k, en)) = h.named n j old in
            (w, (get_elem?-append_left s.objects (new ∷ []) j w k, en))
      ];
      fine = λ j w e. elim (get_elem?-append s.objects new j w e) [
        | inl old ↦ IsFine-beside s card now scope name j w none_yet old (h.fine j w old)
        | inr (last, same) ↦
            subst (λ x. IsFine (fresh now scope name s).names card j x) (sym same)
              (IsFine-new now scope name)
      ];
    }
