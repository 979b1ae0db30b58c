-- ===== src/Stream/Finish.antt =====
-- What one event does to the finish of a stream.
use simple_serving.Prelude.{
  ◌≡◌, refl, ap, sym, subst, inl, inr, ◌||◌, not, Option, none, some, List, [], ◌∷◌, ◌++◌, map,
  codes, Bool-cases, All,
}
use simple_serving.Errors.{Result, ok, err}
use simple_serving.Json.{
  Json, null, bool, num, str, arr, obj, done, elem, Fields, get, get_non_null,
}
use simple_serving.Delta.{Part, is_text, parts_of}
use simple_serving.Stream.{
  Usage, FinishReason, Head, Chunk, Translator, usage_of, Reason, missing, unknown, known,
  reason_of, chunk, chunks_of, finish_last, translate, after_finish, is_index_0, by_finish,
  with_parts, choice, choices, note_usage, with_usage, is_some, chunks,
}

abbrev pub IsOpen : List Chunk → Type 0
IsOpen cs = All (λ c. c.finish_reason ≡ none) cs

-- Only the last chunk has a finish, the reason `r`.
abbrev pub IsFinished : FinishReason → List Chunk → Type 0
IsFinished r cs =
    (before : List Chunk) × (last : Chunk) × (cs ≡ before ++ last ∷ [])
    × (IsOpen before × (last.finish_reason ≡ some r))

IsOpen-chunks : (head : Head) (ps : List Part) → IsOpen (map (λ q. chunk head (some q)) ps)
IsOpen-chunks head [] = tt
IsOpen-chunks head (p ∷ ps) = (refl, IsOpen-chunks head ps)

IsOpen-chunks_of : (head : Head) (ps : List Part) → IsOpen (chunks_of head ps)
IsOpen-chunks_of head [] = (refl, tt)
IsOpen-chunks_of head (p ∷ ps) = IsOpen-chunks head (p ∷ ps)

pub IsOpen-append : (cs ds : List Chunk) → IsOpen cs → IsOpen ds → IsOpen (cs ++ ds)
IsOpen-append [] ds h k = k
IsOpen-append (c ∷ cs) ds h k = (h.0, IsOpen-append cs ds h.1 k)

IsFinished-finish_last :
    (r : FinishReason) (c : Chunk) (cs : List Chunk)
    → IsOpen (c ∷ cs)
    → IsFinished r (finish_last r (c ∷ cs))
IsFinished-finish_last r c [] h = ([], record c { finish_reason = some r }, refl, (tt, refl))
IsFinished-finish_last r c (d ∷ cs) h =
    let k = IsFinished-finish_last r d cs h.1 in
    (c ∷ k.0, k.1, ap (◌∷◌ c) k.2, ((h.0, k.3.0), k.3.1))

pub IsFinished-append :
    (r : FinishReason) (cs ds : List Chunk) → IsOpen cs → IsFinished r ds → IsFinished r (cs ++ ds)
IsFinished-append r [] ds h k = k
IsFinished-append r (c ∷ cs) ds h k =
    let rest = IsFinished-append r cs ds h.1 k in
    (c ∷ rest.0, rest.1, ap (◌∷◌ c) rest.2, ((h.0, rest.3.0), rest.3.1))

-- What one event sends, by the finish before it and the finish after it.
abbrev pub Sent : Option FinishReason → Option FinishReason → List Chunk → Type 0
Sent none none cs = IsOpen cs
Sent none (some r) cs = IsFinished r cs
Sent (some r) after cs = (cs ≡ []) × (after ≡ some r)

abbrev pub Step : Option FinishReason → Translator × Result (List Chunk) → Type 0
Step before (t, ok cs) = Sent before t.finish_reason cs
Step before (t, err e) = Unit

IsFinished-chunks_of :
    (head : Head) (r : FinishReason) (ps : List Part)
    → IsFinished r (finish_last r (chunks_of head ps))
IsFinished-chunks_of head r [] = IsFinished-finish_last r (chunk head none) [] (refl, tt)
IsFinished-chunks_of head r (p ∷ ps) =
    IsFinished-finish_last r (chunk head (some p)) (map (λ q. chunk head (some q)) ps)
      (IsOpen-chunks head (p ∷ ps))

by_finish-Step :
    (o : Option FinishReason) (ps : List Part) (reason : Reason) (t : Translator)
    → t.finish_reason ≡ o
    → Step o (by_finish o ps reason t)
unfolding translate after_finish
by_finish-Step none ps missing t e =
    subst (λ o. Sent none o (chunks_of t.head ps)) (sym e) (IsOpen-chunks_of t.head ps)
by_finish-Step none ps unknown t e = tt
by_finish-Step none ps (known r) t e = IsFinished-chunks_of t.head r ps
by_finish-Step (some r) [] missing t e = (refl, e)
by_finish-Step (some r) (p ∷ ps) missing t e = tt
by_finish-Step (some r) [] unknown t e = tt
by_finish-Step (some r) (p ∷ ps) unknown t e = tt
by_finish-Step (some r) [] (known s) t e = tt
by_finish-Step (some r) (p ∷ ps) (known s) t e = tt

with_parts-Step :
    (ps : Result (List Part)) (reason : Reason) (t : Translator)
    → Step t.finish_reason (with_parts ps reason t)
with_parts-Step (err e) reason t = tt
with_parts-Step (ok ps) reason t = by_finish-Step t.finish_reason ps reason t refl

nothing-Sent : (o : Option FinishReason) → Sent o o []
nothing-Sent none = tt
nothing-Sent (some r) = (refl, refl)

choices-Step : (cs : Option Json) (t : Translator) → Step t.finish_reason (choices cs t)
unfolding choice
choices-Step (some (arr done)) t = nothing-Sent t.finish_reason
choices-Step (some (arr (elem (obj fields) done))) t =
    elim (Bool-cases (is_index_0 (get (codes "index") fields))) [
      | inl e ↦ rw e (
          with_parts-Step (parts_of (get (codes "delta") fields))
            (reason_of (get_non_null (codes "finish_reason") fields)) t)
      | inr e ↦ rw e tt
    ]
choices-Step (some (arr (elem null done))) t = tt
choices-Step (some (arr (elem (bool b) done))) t = tt
choices-Step (some (arr (elem (num n) done))) t = tt
choices-Step (some (arr (elem (str s) done))) t = tt
choices-Step (some (arr (elem (arr xs) done))) t = tt
choices-Step (some (arr (elem c (elem d ds)))) t = tt
choices-Step none t = tt
choices-Step (some null) t = tt
choices-Step (some (bool b)) t = tt
choices-Step (some (num n)) t = tt
choices-Step (some (str s)) t = tt
choices-Step (some (obj fs)) t = tt

note_usage-Step :
    (u : Result Usage) (cs : Option Json) (t : Translator)
    → Step t.finish_reason (note_usage u cs t)
note_usage-Step (ok u) cs t = choices-Step cs (record t { usage = some u })
note_usage-Step (err e) cs t = tt

with_usage-Step :
    (u : Option Json) (cs : Option Json) (t : Translator) → Step t.finish_reason (with_usage u cs t)
with_usage-Step none cs t = choices-Step cs t
with_usage-Step (some v) cs t = note_usage-Step (usage_of v) cs t

pub chunks-Step : (e : Fields) (t : Translator) → Step t.finish_reason (chunks e t)
unfolding chunks
chunks-Step e t =
    elim (Bool-cases (
      is_some (get (codes "error") e)
      || not (is_text (codes "chat.completion.chunk") (get (codes "object") e))
      || not (is_text t.head.model (get (codes "model") e)))) [
        | inl x ↦ rw x tt
        | inr x ↦
            rw x (with_usage-Step (get_non_null (codes "usage") e) (get (codes "choices") e) t)
      ]
