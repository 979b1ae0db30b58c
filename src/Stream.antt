-- ===== src/Stream.antt =====
-- simple_serving/stream.py: `Translator`, which builds the chunks that a reader gets from the
-- engine's events, and the counts of a usage object. A dictionary that was read from JSON is its
-- fields (Json). An operation that may raise returns the translator as it stands then, with a
-- result.
pub mod Texts
pub mod Finish
use simple_serving.Prelude.{
  ℕ, ◌≡◌, refl, ap, sym, subst, ◌∙◌, ◌⊎◌, inl, inr, Bool, true, false, ◌==◌, ◌&&◌, ◌||◌, not,
  Option, none, some, List, [], ◌∷◌, ◌++◌, map, Text, text_eq, codes, if◌then◌else◌, Bool-cases,
  Option-cases, All,
}
use simple_serving.Errors.{
  Code, Result, ok, err, engine_unavailable, invalid_request, ◌>>=◌, Result-cases, ok_ne_err,
}
use simple_serving.Json.{
  ℤ, pos, negsuc, Number, whole, real, Json, null, bool, num, str, arr, obj, Elems, done, elem,
  Fields, end, field, get, get_non_null,
}
use simple_serving.Delta.{
  Part, role_assistant, reasoning_content, content, unavailable, is_text, present, is_delta_field,
  known_fields, is_string, texts, role_is_assistant, role_part, string_of, reasoning_of, content_of,
  text_part, all_parts, parts_of, is_role, any_text,
}

pub record Usage : Type 0 where
  pub prompt_tokens : ℕ
  pub completion_tokens : ℕ
  pub cached_tokens : Option ℕ

-- `FINISH_REASONS`
pub data FinishReason : Type 0 where
  stop length : FinishReason

-- The fields that every chunk of one stream begins with; its `object` is a constant.
pub record Head : Type 0 where
  pub id : Text
  pub created : ℕ
  pub model : Text

pub record Chunk : Type 0 where
  pub head : Head
  pub delta : Option Part
  pub finish_reason : Option FinishReason

pub record Translator : Type 0 where
  pub head : Head
  pub finish_reason : Option FinishReason
  pub usage : Option Usage
  pub generated : Bool

-- `__init__`, for the identifier and the time that it draws.
unfoldable pub init : Text → ℕ → Text → Translator
init id created alias = record {
  head = record { id = id; created = created; model = alias };
  finish_reason = none;
  usage = none;
  generated = false;
}

-- `_is_count`, with the count.
unfoldable pub is_count : Option Json → Option ℕ
is_count (some (num (whole (pos n)))) = some n
is_count _ = none

-- The cached count: unknown if it is null or left out.
abbrev pub cached : Option Json → Result (Option ℕ)
cached none = ok none
cached (some value) = elim (is_count (some value)) [ none ↦ unavailable | some n ↦ ok (some n) ]

abbrev pub details : Option Json → Result Fields
details none = ok end
details (some (obj fields)) = ok fields
details (some _) = unavailable

abbrev pub counts : Option ℕ → Option ℕ → Option ℕ → Result Usage
counts (some p) (some c) k =
    ok (record { prompt_tokens = p; completion_tokens = c; cached_tokens = k })
counts (some p) none k = unavailable
counts none c k = unavailable

-- `_usage`
unfoldable pub usage_of : Json → Result Usage
usage_of (obj value) = do
  inner ← details (get_non_null (codes "prompt_tokens_details") value)
  known ← cached (get_non_null (codes "cached_tokens") inner)
  counts (is_count (get (codes "prompt_tokens") value))
      (is_count (get (codes "completion_tokens") value)) known
usage_of _ = unavailable

-- `finish_reason` of a choice: none, or whether it is one of `FINISH_REASONS`.
pub data Reason : Type 0 where
  missing unknown : Reason
  known : FinishReason → Reason

abbrev pub reason_of : Option Json → Reason
reason_of none = missing
reason_of (some value) =
    if is_text (codes "stop") (some value)
    then known stop
    else if is_text (codes "length") (some value)
    then known length
    else unknown

-- `_chunk`
abbrev pub chunk : Head → Option Part → Chunk
chunk head delta = record { head = head; delta = delta; finish_reason = none }

-- The chunks of the parts, or one with an empty delta if there is none.
abbrev pub chunks_of : Head → List Part → List Chunk
chunks_of head [] = chunk head none ∷ []
chunks_of head (p ∷ ps) = map (λ q. chunk head (some q)) (p ∷ ps)

-- `chunks[-1]` with the finish reason.
abbrev pub finish_last : FinishReason → List Chunk → List Chunk
finish_last reason [] = []
finish_last reason (c ∷ []) = record c { finish_reason = some reason } ∷ []
finish_last reason (c ∷ (d ∷ cs)) = c ∷ finish_last reason (d ∷ cs)

abbrev pub note_text : List Part → Translator → Translator
note_text parts t = record t { generated = t.generated || any_text parts }

-- `_choice` once the parts and the reason are read, before the finish.
unfoldable pub translate : List Part → Reason → Translator → Translator × Result (List Chunk)
translate parts missing t = (note_text parts t, ok (chunks_of t.head parts))
translate parts unknown t = (t, unavailable)
translate parts (known r) t = (
  record (note_text parts t) { finish_reason = some r },
  ok (finish_last r (chunks_of t.head parts)),
)

-- The same after the finish.
unfoldable pub after_finish : List Part → Reason → Translator → Translator × Result (List Chunk)
after_finish [] missing t = (t, ok [])
after_finish (p ∷ ps) missing t = (t, unavailable)
after_finish parts unknown t = (t, unavailable)
after_finish parts (known r) t = (t, unavailable)

abbrev pub is_index_0 : Option Json → Bool
is_index_0 (some (num (whole (pos n)))) = n == 0
is_index_0 _ = false

-- The test `self.finish_reason is not None`.
abbrev pub by_finish :
    Option FinishReason → List Part → Reason → Translator → Translator × Result (List Chunk)
by_finish none parts reason t = translate parts reason t
by_finish (some r) parts reason t = after_finish parts reason t

abbrev pub with_parts : Result (List Part) → Reason → Translator → Translator × Result (List Chunk)
with_parts (err e) reason t = (t, err e)
with_parts (ok parts) reason t = by_finish t.finish_reason parts reason t

-- `_choice`
unfoldable pub choice : Json → Translator → Translator × Result (List Chunk)
choice (obj fields) t =
    if is_index_0 (get (codes "index") fields)
    then with_parts (parts_of (get (codes "delta") fields))
        (reason_of (get_non_null (codes "finish_reason") fields)) t
    else (t, unavailable)
choice _ t = (t, unavailable)

abbrev pub choices : Option Json → Translator → Translator × Result (List Chunk)
choices (some (arr done)) t = (t, ok [])
choices (some (arr (elem c done))) t = choice c t
choices _ t = (t, unavailable)

-- The usage of an event, kept by the translator, and then its choices.
abbrev pub note_usage : Result Usage → Option Json → Translator → Translator × Result (List Chunk)
note_usage (ok u) cs t = choices cs (record t { usage = some u })
note_usage (err e) cs t = (t, err e)

abbrev pub with_usage : Option Json → Option Json → Translator → Translator × Result (List Chunk)
with_usage none cs t = choices cs t
with_usage (some value) cs t = note_usage (usage_of value) cs t

abbrev pub is_some : Option Json → Bool
is_some none = false
is_some (some value) = true

-- `chunks`
unfoldable pub chunks : Fields → Translator → Translator × Result (List Chunk)
chunks event t =
    if is_some (get (codes "error") event)
      || not (is_text (codes "chat.completion.chunk") (get (codes "object") event))
      || not (is_text t.head.model (get (codes "model") event))
    then (t, unavailable)
    else with_usage (get_non_null (codes "usage") event) (get (codes "choices") event) t

abbrev pub both : Option FinishReason → Option Usage → Result Usage
both none u = unavailable
both (some r) none = unavailable
both (some r) (some u) = ok u

-- `end`
unfoldable pub end_of : Translator → Result Usage
end_of t = both t.finish_reason t.usage

-- `refusal` (simple_serving/engine.py)
unfoldable pub refusal : ℤ → Code
refusal (pos n) = if n == 400 || n == 422 then invalid_request else engine_unavailable
refusal (negsuc n) = engine_unavailable

-- `first_error`
unfoldable pub first_error : Json → Code
first_error (obj fields) = elim (get (codes "code") fields) [
  | some (num (whole n)) ↦ refusal n
  | _ ↦ engine_unavailable
]
first_error _ = engine_unavailable
