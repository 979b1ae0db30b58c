-- ===== src/Engine.antt =====
-- simple_serving/engine.py: the payloads of a count and of a generation, and what the gateway reads
-- of the engine's answers. The HTTP client is a library: each call's answer is an argument.
pub mod Prompts
pub mod Answers
mod Examples
use simple_serving.Prelude.{
  ◌++◌, length, starts_with, ℕ, zero, suc, ◌==◌, leb, ltb, Bool, true, false, ◌&&◌, ◌||◌, not,
  Option, none, some, List, [], ◌∷◌, Text, text_eq, codes, if◌then◌else◌,
}
use simple_serving.Errors.{Code, Result, ok, err, ◌>>=◌, invalid_request, engine_unavailable}
use simple_serving.Json.{
  ℤ, pos, Number, whole, Json, null, bool, num, str, arr, obj, Elems, done, elem, Fields, end,
  field, get, put,
}
use simple_serving.Messages.{Part, text_part, image_part, Content, plain, parts, Message, is_text}
use simple_serving.Chat.{ChatRequest}
use simple_serving.Stream.{refusal}

-- The parts as `_content` builds them, and the messages of the checked request.
abbrev pub part_json : Part → Json
part_json (text_part s) =
    obj (field (codes "type") (str (codes "text")) (field (codes "text") (str s) end))
part_json (image_part url) = obj (
    field (codes "type") (str (codes "image_url"))
      (field (codes "image_url") (obj (field (codes "url") (str url) end)) end))

abbrev pub parts_json : List Part → Elems
parts_json [] = done
parts_json (p ∷ ps) = elem (part_json p) (parts_json ps)

abbrev pub content_json : Content → Json
content_json (plain s) = str s
content_json (parts ps) = arr (parts_json ps)

abbrev pub message_json : Message → Json
message_json m =
    obj (field (codes "role") (str m.role) (field (codes "content") (content_json m.content) end))

abbrev pub messages_json : List Message → Elems
messages_json [] = done
messages_json (m ∷ ms) = elem (message_json m) (messages_json ms)

abbrev pub thinking_json : ChatRequest → Json
thinking_json r = obj (field (codes "enable_thinking") (bool r.enable_thinking) end)

unfoldable pub tokenize_payload : Text → ChatRequest → Fields
tokenize_payload alias r = field (codes "model") (str alias) (
    field (codes "messages") (arr (messages_json r.messages)) (
      field (codes "add_generation_prompt") (bool true) (
        field (codes "add_special_tokens") (bool false)
          (field (codes "chat_template_kwargs") (thinking_json r) end))))

-- `**request.sampling`
abbrev pub put_all : List (Text × Number) → Fields → Fields
put_all [] fields = fields
put_all (f ∷ fs) fields = put_all fs (put f.0 (num f.1) fields)

abbrev pub put_format : Option Fields → Fields → Fields
put_format none fields = fields
put_format (some format) fields = put (codes "response_format") (obj format) fields

abbrev pub put_budget : Option ℕ → Fields → Fields
put_budget none fields = fields
put_budget (some n) fields = put (codes "thinking_token_budget") (num (whole (pos n))) fields

abbrev pub before_sampling : Text → ChatRequest → Fields
before_sampling alias r = field (codes "model") (str alias) (
    field (codes "messages") (arr (messages_json r.messages)) (
      field (codes "max_tokens") (num (whole (pos r.max_tokens))) (
        field (codes "stream") (bool true) (
          field (codes "stream_options") (obj (field (codes "include_usage") (bool true) end))
            end))))

unfoldable pub generation_payload : Text → ChatRequest → ℤ → Text → Fields
generation_payload alias r priority cache_salt = put_budget r.thinking_token_budget (
    put_format r.response_format (
      put (codes "cache_salt") (str cache_salt) (
        put (codes "priority") (num (whole priority)) (
          put (codes "chat_template_kwargs") (thinking_json r) (
            put (codes "add_special_tokens") (bool false) (
              put (codes "add_generation_prompt") (bool true)
                (put_all r.sampling (before_sampling alias r))))))))

-- An answer by its status and by its JSON, where it has one. Where there is no answer the client
-- raises an `HTTPError`.
pub record Answer : Type 0 where
  pub status : ℕ
  pub json : Option Json

-- `_call`
unfoldable pub call : Option Answer → Result Answer
call none = err engine_unavailable
call (some answer) = if answer.status == 200 then ok answer else err (refusal (pos answer.status))

abbrev pub json_of : Option Json → Result Json
json_of none = err engine_unavailable
json_of (some v) = ok v

-- `_json`
unfoldable pub call_json : Option Answer → Result Json
call_json answer = call answer >>= λ a. json_of a.json

unfoldable pub object_of : Json → Result Fields
object_of (obj fields) = ok fields
object_of _ = err engine_unavailable

abbrev pub least_one : ℕ → Result ℕ
least_one n = if ltb n 1 then err engine_unavailable else ok n

-- An integer of at least 1.
abbrev pub positive : Option Json → Result ℕ
positive (some (num (whole (pos n)))) = least_one n
positive _ = err engine_unavailable

abbrev pub known_length : Result ℕ → Result (Option ℕ)
known_length (err e) = err e
known_length (ok n) = ok (some n)

abbrev pub is_card : Text → Json → Bool
is_card alias (obj card) = is_text alias (get (codes "id") card)
is_card alias _ = false

abbrev pub card_length : Json → Result ℕ
card_length (obj card) = positive (get (codes "max_model_len") card)
card_length _ = err engine_unavailable

-- The loop over the cards.
unfoldable pub first_length : Text → Elems → Result (Option ℕ)
first_length alias done = ok none
first_length alias (elem card rest) =
    let later = first_length alias rest in
    if is_card alias card then known_length (card_length card) else later

abbrev pub cards_length : Text → Option Json → Result (Option ℕ)
cards_length alias (some (arr cards)) = first_length alias cards
cards_length alias _ = err engine_unavailable

-- `context_length`, with the answers of /health and /v1/models.
unfoldable pub context_length : Text → Option Answer → Option Answer → Result (Option ℕ)
context_length alias health listed = do
  _ ← call health
  value ← call_json listed
  fields ← object_of value
  cards_length alias (get (codes "data") fields)

abbrev pub length_elems : Elems → ℕ
length_elems done = 0
length_elems (elem v rest) = suc (length_elems rest)

-- The count, or the length of the tokens where the count is no integer.
abbrev pub count_value : Option Json → Option Json → Result ℕ
count_value (some (num (whole (pos n)))) tokens = least_one n
count_value (some (num (whole _))) tokens = err engine_unavailable
count_value _ (some (arr tokens)) = least_one (length_elems tokens)
count_value _ _ = err engine_unavailable

-- `count`, with the answer of /tokenize.
unfoldable pub count : Option Answer → Result ℕ
count answer = do
  value ← call_json answer
  fields ← object_of value
  count_value (get (codes "count") fields) (get (codes "tokens") fields)

-- An answer of /metrics: its status, its content type and the chunks of its body.
pub record TextAnswer : Type 0 where
  pub status : ℕ
  pub content_type : Text
  pub chunks : List (List ℕ)
  pub ended : Bool

abbrev pub metrics_limit_bytes : ℕ
metrics_limit_bytes = 8000000

-- The body up to the limit; a body that the client cannot read to its end is an error.
unfoldable pub read_metrics : List (List ℕ) → Bool → List ℕ → Result (List ℕ)
read_metrics [] ended body = if ended then ok body else err engine_unavailable
read_metrics (chunk ∷ chunks) ended body =
    let more = body ++ chunk in
    let later = read_metrics chunks ended more in
    if ltb metrics_limit_bytes (length more) then err engine_unavailable else later

-- `metrics`, where none is an `HTTPError` or a timeout.
unfoldable pub metrics : Option TextAnswer → Result (List ℕ × Text)
metrics none = err engine_unavailable
metrics (some answer) =
    if not (answer.status == 200) || not (starts_with (codes "text/plain") answer.content_type)
    then err engine_unavailable
    else (read_metrics answer.chunks answer.ended [] >>= λ body. ok (body, answer.content_type))

-- `WARM_REQUEST`
abbrev pub warm_request : ChatRequest
warm_request = record {
  messages = record { role = codes "user"; content = plain (codes "Answer with ok.") } ∷ [];
  max_tokens = 8;
  sampling = (codes "temperature", whole (pos 0)) ∷ [];
  response_format = some (
      field (codes "type") (str (codes "json_schema")) (
        field (codes "json_schema")
          (obj (
            field (codes "name") (str (codes "warm")) (
              field (codes "strict") (bool true) (
                field (codes "schema")
                  (obj (
                    field (codes "type") (str (codes "object")) (
                      field (codes "additionalProperties") (bool false) (
                        field (codes "required") (arr (elem (str (codes "ok")) done)) (
                          field (codes "properties")
                            (obj (
                              field (codes "ok")
                                (obj (field (codes "type") (str (codes "boolean")) end)) end))
                            end)))))
                  end))))
          end));
  enable_thinking = false;
  thinking_token_budget = none;
  pictures = 0;
}
