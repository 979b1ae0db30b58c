-- ===== src/Relay.antt =====
-- simple_serving/inference.py: `Generation._relay`, which sends a reader the chunks of the engine's
-- events, over the whole of what the engine sends.
pub mod Texts
pub mod Finish
pub mod Examples
use simple_serving.Prelude.{
  ℕ, ◌≡◌, refl, ap, sym, subst, ◌∙◌, ◌⊎◌, inl, inr, Bool, true, false, ◌==◌, ◌&&◌, ◌||◌, not,
  Option, none, some, List, [], ◌∷◌, ◌++◌, map, Text, text_eq, codes, if◌then◌else◌, Bool-cases,
  Option-cases, All,
}
use simple_serving.Errors.{
  Code, Result, ok, err, engine_unavailable, invalid_request, ◌>>=◌, Result-cases, ok_ne_err,
}
use simple_serving.Json.{
  ℤ, pos, negsuc, Number, whole, real, Json, null, bool, num, str, arr, obj, Elems, done, elem,
  Fields, end, field, get, get_non_null,
}
use simple_serving.Delta.{
  Part, role_assistant, reasoning_content, content, unavailable, is_text, present, is_delta_field,
  known_fields, is_string, texts, role_is_assistant, role_part, string_of, reasoning_of, content_of,
  text_part, all_parts, parts_of, is_role, any_text,
}
use simple_serving.Stream.{
  Usage, FinishReason, Head, Chunk, Translator, init, is_count, usage_of, Reason, missing, unknown,
  known, reason_of, chunk, chunks_of, finish_last, note_text, translate, after_finish, is_index_0,
  by_finish, with_parts, choice, choices, note_usage, with_usage, is_some, chunks, end_of, refusal,
  first_error,
}

-- What the engine's `next_event` gives, call by call: events, and at last `None` or an error.
pub data Feed : Type 0 where
  closed broken : Feed
  event : Fields → Feed → Feed

-- The chunks of one event, before those of the events after it.
abbrev pub send : Result (List Chunk) → List Chunk × Result Usage → List Chunk × Result Usage
send (ok cs) rest = (cs ++ rest.0, rest.1)
send (err code) rest = ([], err code)

-- The loop of `Generation._relay` (simple_serving/inference.py): the chunks sent, and the usage.
unfoldable pub relay_loop : Feed → Translator → List Chunk × Result Usage
relay_loop closed t = ([], end_of t)
relay_loop broken t = ([], unavailable)
relay_loop (event e feed) t =
    let out = chunks e t in let rest = relay_loop feed out.0 in send out.1 rest

-- The first event, by its error if it has one and by its chunks.
abbrev pub begin :
    Option Json
    → Result (List Chunk)
    → List Chunk × Result Usage
    → Bool × (List Chunk × Result Usage)
begin (some error) cs all = (false, ([], err (first_error error)))
begin none (err code) all = (false, ([], err code))
begin none (ok cs) all = (true, all)

-- `_relay`: the answer 200 starts with the first event that is translated. The measurements are
-- left out.
unfoldable pub relay : Feed → Translator → Bool × (List Chunk × Result Usage)
relay closed t = (false, ([], unavailable))
relay broken t = (false, ([], unavailable))
relay (event e feed) t = begin (get (codes "error") e) (chunks e t).1 (relay_loop (event e feed) t)
