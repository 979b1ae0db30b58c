-- ===== src/Engine/Answers.antt =====
-- What the context length and the count are that are read of the engine's answers.
use simple_serving.Prelude.{
  Bool, List, [], ◌∷◌, ◌++◌, length, ltb, ℕ, ◌≤◌, ◌≡◌, refl, sym, subst, ap, ◌∙◌, arith, ◌⊎◌, inl,
  inr, ◌==◌, true, false, Option, none, some, Text, codes, Bool-cases, Empty,
}
use simple_serving.Errors.{engine_unavailable, Result, ok, err, bind_ok, ok_ne_err}
use simple_serving.Json.{
  Json, null, bool, num, str, arr, obj, Elems, done, elem, Fields, get, whole, pos,
}
use simple_serving.Stream.{refusal}
use simple_serving.Engine.{
  Answer, call, json_of, call_json, object_of, positive, known_length, is_card, card_length,
  first_length, cards_length, metrics_limit_bytes, read_metrics, context_length,
}

abbrev pub AllElems : (Json → Type 0) → Elems → Type 0
AllElems P done = Unit
AllElems P (elem v rest) = P v × AllElems P rest

abbrev pub HasElem : Json → Elems → Type 0
HasElem v done = Empty
HasElem v (elem w rest) = (w ≡ v) ⊎ HasElem v rest

-- The card of the alias, with its length.
pub record HasLength (alias : Text) (cards : Elems) (n : ℕ) : Type 0 where
  pub card : Fields
  pub listed : HasElem (obj card) cards
  pub of_alias : is_card alias (obj card) ≡ true
  pub length : get (codes "max_model_len") card ≡ some (num (whole (pos n)))
  pub above_zero : 1 ≤ n

abbrev pub IsLength : Text → Elems → Option ℕ → Type 0
IsLength alias cards none = AllElems (λ card. is_card alias card ≡ false) cards
IsLength alias cards (some n) = HasLength alias cards n

positive_lem :
    (v : Option Json) (n : ℕ) → positive v ≡ ok n → (v ≡ some (num (whole (pos n)))) × (1 ≤ n)
positive_lem v n h = ground arith

later_lem :
    (alias : Text) (card : Json) (rest : Elems) (found : Option ℕ)
    → is_card alias card ≡ false
    → IsLength alias rest found
    → IsLength alias (elem card rest) found
later_lem alias card rest none e h = (e, h)
later_lem alias card rest (some n) e h = record {
  card = h.card;
  listed = inr h.listed;
  of_alias = h.of_alias;
  length = h.length;
  above_zero = h.above_zero;
}

known_lem :
    (r : Result ℕ) (found : Option ℕ)
    → known_length r ≡ ok found
    → (n : ℕ) × ((r ≡ ok n) × (some n ≡ found))
known_lem (err e) found h = cc
known_lem (ok n) found h = (n, (refl, cc))

here_lem :
    (alias : Text) (card : Json) (rest : Elems) (found : Option ℕ)
    → is_card alias card ≡ true
    → known_length (card_length card) ≡ ok found
    → IsLength alias (elem card rest) found
here_lem alias (obj card) rest found e h =
    let k = known_lem (card_length (obj card)) found h in
    let p = positive_lem (get (codes "max_model_len") card) k.0 k.1.0 in
    subst (λ o. IsLength alias (elem (obj card) rest) o) k.1.1
      (record { card = card; listed = inl refl; of_alias = e; length = p.0; above_zero = p.1 })
here_lem alias null rest found e h = cc
here_lem alias (bool b) rest found e h = cc
here_lem alias (num n) rest found e h = cc
here_lem alias (str s) rest found e h = cc
here_lem alias (arr xs) rest found e h = cc

first_lem :
    (alias : Text) (cards : Elems) (found : Option ℕ)
    → first_length alias cards ≡ ok found
    → IsLength alias cards found
unfolding first_length
first_lem alias done none h = tt
first_lem alias done (some n) h = cc
first_lem alias (elem card rest) found h = elim (Bool-cases (is_card alias card)) [
  | inl e ↦ here_lem alias card rest found e (sym (rw e refl) ∙ h)
  | inr e ↦ later_lem alias card rest found e (first_lem alias rest found (sym (rw e refl) ∙ h))
]

cards_lem :
    (alias : Text) (v : Option Json) (found : Option ℕ)
    → cards_length alias v ≡ ok found
    → (cards : Elems) × ((v ≡ some (arr cards)) × IsLength alias cards found)
cards_lem alias (some (arr cards)) found h = (cards, (refl, first_lem alias cards found h))
cards_lem alias none found h = cc
cards_lem alias (some null) found h = cc
cards_lem alias (some (bool b)) found h = cc
cards_lem alias (some (num n)) found h = cc
cards_lem alias (some (str s)) found h = cc
cards_lem alias (some (obj fs)) found h = cc

object_lem : (v : Json) (fields : Fields) → object_of v ≡ ok fields → v ≡ obj fields
unfolding object_of
object_lem (obj fs) fields h = cc
object_lem null fields h = cc
object_lem (bool b) fields h = cc
object_lem (num n) fields h = cc
object_lem (str s) fields h = cc
object_lem (arr xs) fields h = cc

json_lem : (o : Option Json) (v : Json) → json_of o ≡ ok v → o ≡ some v
json_lem none v h = cc
json_lem (some u) v h = cc

ok_answer : (b a : Answer) → ok b ≡ ok a → b ≡ a
ok_answer b a h = cc

call_lem : (o : Option Answer) (a : Answer) → call o ≡ ok a → (o ≡ some a) × (a.status ≡ 200)
unfolding call
call_lem none a h = cc
call_lem (some b) a h = elim (Bool-cases (b.status == 200)) [
  | inl e ↦
      let same : ok b ≡ ok a = sym (rw e refl) ∙ h in
      let k = ok_answer b a same in (ap some k, subst (λ c. c.status ≡ 200) k (ground arith))
  | inr e ↦ absurd (ok_ne_err {a = a} {e = refusal (pos b.status)} (sym h ∙ rw e refl))
]

-- The answers that a found length was read of.
pub record IsAnswered (alias : Text) (health listed : Option Answer) (found : Option ℕ)
    : Type 0 where
  pub healthy : (a : Answer) × ((health ≡ some a) × (a.status ≡ 200))
  pub answer : Answer
  pub of_list : (listed ≡ some answer) × (answer.status ≡ 200)
  pub fields : Fields
  pub cards : Elems
  pub body : answer.json ≡ some (obj fields)
  pub listed_cards : get (codes "data") fields ≡ some (arr cards)
  pub is_length : IsLength alias cards found

-- What is found where both calls are answered with 200: a length that is found is that of a card of
-- the alias in the list of the second answer, at least 1, and none is found only where no card of the
-- list has the alias.
pub context_length-IsAnswered :
    (alias : Text) (health listed : Option Answer) (found : Option ℕ)
    → context_length alias health listed ≡ ok found
    → IsAnswered alias health listed found
unfolding context_length call_json
context_length-IsAnswered alias health listed found h =
    let a = bind_ok (call health) _ found h in
    let b = bind_ok (call_json listed) _ found a.1.1 in
    let c = bind_ok (object_of b.0) _ found b.1.1 in
    let d = bind_ok (call listed) (λ m. json_of m.json) b.0 b.1.0 in
    let k = cards_lem alias (get (codes "data") c.0) found c.1.1 in
    record {
      healthy = (a.0, call_lem health a.0 a.1.0);
      answer = d.0;
      of_list = call_lem listed d.0 d.1.0;
      fields = c.0;
      cards = k.0;
      body = json_lem d.0.json b.0 d.1.1 ∙ ap some (object_lem b.0 c.0 c.1.0);
      listed_cards = k.1.0;
      is_length = k.1.1;
    }

ok_bytes : (b c : List ℕ) → ok b ≡ ok c → b ≡ c
ok_bytes b c h = cc

-- The relayed metrics never pass the limit, however they come in chunks.
read_metrics_bounded :
    (chunks : List (List ℕ)) (ended : Bool) (body whole_body : List ℕ)
    → length body ≤ metrics_limit_bytes
    → read_metrics chunks ended body ≡ ok whole_body
    → length whole_body ≤ metrics_limit_bytes
unfolding read_metrics
read_metrics_bounded [] true body whole_body le h =
    subst (λ b. length b ≤ metrics_limit_bytes) (ok_bytes body whole_body h) le
read_metrics_bounded [] false body whole_body le h =
    absurd (ok_ne_err {a = whole_body} {e = engine_unavailable} (sym h))
read_metrics_bounded (chunk ∷ chunks) ended body whole_body le h =
    elim (Bool-cases (ltb metrics_limit_bytes (length (body ++ chunk)))) [
      | inl over ↦
          absurd (ok_ne_err {a = whole_body} {e = engine_unavailable} (sym h ∙ rw over refl))
      | inr fits ↦
          read_metrics_bounded chunks ended (body ++ chunk) whole_body (ground arith)
            (sym (rw fits refl) ∙ h)
    ]
