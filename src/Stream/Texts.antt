-- ===== src/Stream/Texts.antt =====
-- The text that the chunks of one event hold is the text of the event.
use simple_serving.Prelude.{
  ◌≡◌, refl, ap, subst, ◌∙◌, inl, inr, ◌||◌, not, Option, none, some, List, [], ◌∷◌, ◌++◌, map,
  Text, codes, Bool-cases,
}
use simple_serving.Errors.{Result, ok, err}
use simple_serving.Json.{
  Json, null, bool, num, str, arr, obj, done, elem, Fields, get, get_non_null,
}
use simple_serving.Delta.{Part, is_text, present, all_parts, parts_of}
use simple_serving.Delta.Texts.{in_parts, in_fields, PartsHold, parts_of-PartsHold}
use simple_serving.Stream.{
  Usage, FinishReason, Head, Chunk, Translator, usage_of, Reason, missing, unknown, known,
  reason_of, chunk, chunks_of, finish_last, translate, after_finish, is_index_0, by_finish,
  with_parts, choice, choices, note_usage, with_usage, is_some, chunks,
}

abbrev pub in_delta : (Part → Text) → Option Part → Text
in_delta pick none = []
in_delta pick (some p) = pick p

abbrev pub in_chunks : (Part → Text) → List Chunk → Text
in_chunks pick [] = []
in_chunks pick (c ∷ cs) = in_delta pick c.delta ++ in_chunks pick cs

-- The text of an event's only choice, by the function of its delta's fields.
abbrev pub in_choice : (Fields → Text) → Option Json → Text
in_choice of (some (arr (elem (obj fields) done))) = in_fields of (get (codes "delta") fields)
in_choice of _ = []

abbrev pub in_event : (Fields → Text) → Fields → Text
in_event of e = in_choice of (get (codes "choices") e)

in_chunks-finish_last :
    (pick : Part → Text) (r : FinishReason) (cs : List Chunk)
    → in_chunks pick (finish_last r cs) ≡ in_chunks pick cs
in_chunks-finish_last pick r [] = refl
in_chunks-finish_last pick r (c ∷ []) = refl
in_chunks-finish_last pick r (c ∷ (d ∷ cs)) =
    ap (◌++◌ (in_delta pick c.delta)) (in_chunks-finish_last pick r (d ∷ cs))

in_chunks-map :
    (pick : Part → Text) (head : Head) (ps : List Part)
    → in_chunks pick (map (λ q. chunk head (some q)) ps) ≡ in_parts pick ps
in_chunks-map pick head [] = refl
in_chunks-map pick head (p ∷ ps) = ap (◌++◌ (pick p)) (in_chunks-map pick head ps)

in_chunks-chunks_of :
    (pick : Part → Text) (head : Head) (ps : List Part)
    → in_chunks pick (chunks_of head ps) ≡ in_parts pick ps
in_chunks-chunks_of pick head [] = refl
in_chunks-chunks_of pick head (p ∷ ps) = in_chunks-map pick head (p ∷ ps)

-- What an operation sends, if it does not fail, holds the text.
abbrev pub Passed : (Part → Text) → Text → Translator × Result (List Chunk) → Type 0
Passed pick want (t, ok cs) = in_chunks pick cs ≡ want
Passed pick want (t, err e) = Unit

translate-Passed :
    (pick : Part → Text) (ps : List Part) (reason : Reason) (t : Translator)
    → Passed pick (in_parts pick ps) (translate ps reason t)
unfolding translate
translate-Passed pick ps missing t = in_chunks-chunks_of pick t.head ps
translate-Passed pick ps unknown t = tt
translate-Passed pick ps (known r) t =
    in_chunks-finish_last pick r (chunks_of t.head ps) ∙ in_chunks-chunks_of pick t.head ps

after_finish-Passed :
    (pick : Part → Text) (ps : List Part) (reason : Reason) (t : Translator)
    → Passed pick (in_parts pick ps) (after_finish ps reason t)
unfolding after_finish
after_finish-Passed pick [] missing t = refl
after_finish-Passed pick (p ∷ ps) missing t = tt
after_finish-Passed pick [] unknown t = tt
after_finish-Passed pick (p ∷ ps) unknown t = tt
after_finish-Passed pick [] (known r) t = tt
after_finish-Passed pick (p ∷ ps) (known r) t = tt

by_finish-Passed :
    (pick : Part → Text) (o : Option FinishReason) (ps : List Part) (reason : Reason)
    (t : Translator)
    → Passed pick (in_parts pick ps) (by_finish o ps reason t)
by_finish-Passed pick none ps reason t = translate-Passed pick ps reason t
by_finish-Passed pick (some r) ps reason t = after_finish-Passed pick ps reason t

with_parts-Passed :
    (pick : Part → Text) (want : Text) (ps : Result (List Part)) (reason : Reason) (t : Translator)
    → PartsHold pick want ps
    → Passed pick want (with_parts ps reason t)
with_parts-Passed pick want (err e) reason t h = tt
with_parts-Passed pick want (ok ps) reason t h =
    subst (λ w. Passed pick w (with_parts (ok ps) reason t)) h
      (by_finish-Passed pick t.finish_reason ps reason t)

module _ (pick : Part → Text) (of : Fields → Text)
    (agrees : (delta : Fields) → in_parts pick (all_parts (present delta)) ≡ of delta) where
  choices-Passed :
      (cs : Option Json) (t : Translator) → Passed pick (in_choice of cs) (choices cs t)
  unfolding choice
  choices-Passed (some (arr done)) t = refl
  choices-Passed (some (arr (elem (obj fields) done))) t =
      elim (Bool-cases (is_index_0 (get (codes "index") fields))) [
        | inl e ↦ rw e (
            with_parts-Passed pick (in_fields of (get (codes "delta") fields))
              (parts_of (get (codes "delta") fields))
              (reason_of (get_non_null (codes "finish_reason") fields)) t
              (parts_of-PartsHold pick of agrees (get (codes "delta") fields)))
        | inr e ↦ rw e tt
      ]
  choices-Passed (some (arr (elem null done))) t = tt
  choices-Passed (some (arr (elem (bool b) done))) t = tt
  choices-Passed (some (arr (elem (num n) done))) t = tt
  choices-Passed (some (arr (elem (str s) done))) t = tt
  choices-Passed (some (arr (elem (arr xs) done))) t = tt
  choices-Passed (some (arr (elem c (elem d ds)))) t = tt
  choices-Passed none t = tt
  choices-Passed (some null) t = tt
  choices-Passed (some (bool b)) t = tt
  choices-Passed (some (num n)) t = tt
  choices-Passed (some (str s)) t = tt
  choices-Passed (some (obj fs)) t = tt

  note_usage-Passed :
      (u : Result Usage) (cs : Option Json) (t : Translator)
      → Passed pick (in_choice of cs) (note_usage u cs t)
  note_usage-Passed (ok u) cs t = choices-Passed cs (record t { usage = some u })
  note_usage-Passed (err e) cs t = tt

  with_usage-Passed :
      (u : Option Json) (cs : Option Json) (t : Translator)
      → Passed pick (in_choice of cs) (with_usage u cs t)
  with_usage-Passed none cs t = choices-Passed cs t
  with_usage-Passed (some v) cs t = note_usage-Passed (usage_of v) cs t

  pub chunks-Passed : (e : Fields) (t : Translator) → Passed pick (in_event of e) (chunks e t)
  unfolding chunks
  chunks-Passed e t =
      elim (Bool-cases (
        is_some (get (codes "error") e)
        || not (is_text (codes "chat.completion.chunk") (get (codes "object") e))
        || not (is_text t.head.model (get (codes "model") e)))) [
          | inl x ↦ rw x tt
          | inr x ↦
              rw x (with_usage-Passed (get_non_null (codes "usage") e) (get (codes "choices") e) t)
        ]
