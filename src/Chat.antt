-- ===== src/Chat.antt =====
-- simple_serving/validation.py: `ChatRequest`, `parse_json` and `check_chat`, the body of a
-- generation and of a count. What the body passes through after the test for unknown fields raises
-- nothing but `invalid_request`, which is `none` there. `json.loads` with its hooks is a parameter,
-- where none is a `ValueError` or a `RecursionError`, and so is the base64 decoder.
pub mod Accepted
pub mod Examples
use simple_serving.Prelude.{
  ℕ, Bool, true, false, leb, Option, none, some, List, Text, codes, if◌then◌else◌, ◌>>=◌,
}
use simple_serving.Errors.{Result, ok, err, invalid_request, unsupported_field}
use simple_serving.Json.{ℤ, pos, Number, whole, Json, null, bool, num, str, arr, obj, Fields, get}
use simple_serving.Shape.{chat_shape, has_unknown}
use simple_serving.Depth.{depth}
use simple_serving.Messages.{Message, is_text, messages, images}
use simple_serving.Sampling.{sampling, response_format, enable_thinking, thinking_token_budget}

pub record ChatRequest : Type 0 where
  pub messages : List Message
  pub max_tokens : ℕ
  pub sampling : List (Text × Number)
  pub response_format : Option Fields
  pub enable_thinking : Bool
  pub thinking_token_budget : Option ℕ
  pub pictures : ℕ

abbrev pub max_depth : ℕ
max_depth = 64

abbrev pub depth_allowed : Option ℕ → Bool
depth_allowed none = false
depth_allowed (some d) = leb d max_depth

abbrev pub shallow : Option Json → Result Json
shallow none = err invalid_request
shallow (some v) = if depth_allowed (depth v) then ok v else err invalid_request

unfoldable pub parse_json : (List ℕ → Option Json) → List ℕ → Result Json
parse_json loads raw = shallow (loads raw)

-- `_require`
abbrev pub required : Bool → Option (Unit {0})
required true = some tt
required false = none

abbrev pub is_true : Option Json → Bool
is_true (some (bool true)) = true
is_true _ = false

abbrev pub has_usage : Option Json → Bool
has_usage (some (obj options)) = is_true (get (codes "include_usage") options)
has_usage _ = false

abbrev pub at_least_one : Option Json → Option ℕ
at_least_one (some (num (whole (pos n)))) = if leb 1 n then some n else none
at_least_one _ = none

module _ (b64decode : Text → Option (List ℕ)) where
  unfoldable pub chat_request : Text → Bool → Fields → Option ChatRequest
  chat_request alias vision body = do
    _ ← required (is_text alias (get (codes "model") body))
    built ← messages b64decode vision (get (codes "messages") body)
    _ ← required (leb (images built) 1)
    max_tokens ← at_least_one (get (codes "max_tokens") body)
    _ ← required (is_true (get (codes "stream") body))
    _ ← required (has_usage (get (codes "stream_options") body))
    chosen ← sampling body
    format ← response_format (get (codes "response_format") body)
    thinking ← enable_thinking (get (codes "chat_template_kwargs") body)
    budget ← thinking_token_budget (get (codes "thinking_token_budget") body)
    some (record {
      messages = built;
      max_tokens = max_tokens;
      sampling = chosen;
      response_format = format;
      enable_thinking = thinking;
      thinking_token_budget = budget;
      pictures = images built;
    })

  abbrev pub if_known : Bool → Option ChatRequest → Result ChatRequest
  if_known true request = err unsupported_field
  if_known false none = err invalid_request
  if_known false (some request) = ok request

  unfoldable pub check_chat : Text → Bool → Json → Result ChatRequest
  check_chat alias vision (obj body) =
      if_known (has_unknown (obj body) (chat_shape vision)) (chat_request alias vision body)
  check_chat alias vision _ = err invalid_request
