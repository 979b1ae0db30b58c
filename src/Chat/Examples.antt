-- ===== src/Chat/Examples.antt =====
-- A body with a picture, and what it is read as.
use simple_serving.Prelude.{
  ℕ, ◌≡◌, refl, true, false, Option, some, none, List, [], ◌∷◌, Text, text_eq, codes, if◌then◌else◌,
}
use simple_serving.Errors.{ok, err, invalid_request, unsupported_field}
use simple_serving.Json.{
  Json, null, bool, num, str, arr, obj, done, elem, Fields, end, field, pos, whole, real,
}
use simple_serving.Shape.{has_unknown}
use simple_serving.DataUrl.{png_signature}
use simple_serving.Messages.{Message, plain, parts, text_part, image_part}
use simple_serving.Chat.{ChatRequest, check_chat}
use simple_serving.Chat.Accepted.{IsAccepted, check_chat-IsAccepted}

-- A decoder of one text.
abbrev pub decoder : Text → Option (List ℕ)
decoder s = if text_eq s (codes "iVBORw0KGgo=") then some png_signature else none

abbrev url : Text
url = codes "data:image/png;base64,iVBORw0KGgo="

abbrev picture_part : Json
picture_part = obj (
    field (codes "type") (str (codes "image_url"))
      (field (codes "image_url") (obj (field (codes "url") (str url) end)) end))

abbrev question : Json
question = obj (
    field (codes "type") (str (codes "text"))
      (field (codes "text") (str (codes "What is it?")) end))

abbrev talk : Json
talk = arr (
    elem
      (obj (
        field (codes "role") (str (codes "system"))
          (field (codes "content") (str (codes "Be short.")) end)))
      (elem
        (obj (
          field (codes "role") (str (codes "user"))
            (field (codes "content") (arr (elem question (elem picture_part done))) end)))
        done))

abbrev body_with : Fields → Json
body_with more = obj (
    field (codes "model") (str (codes "m")) (
      field (codes "messages") talk (
        field (codes "max_tokens") (num (whole (pos 40))) (
          field (codes "stream") (bool true) (
            field (codes "stream_options") (obj (field (codes "include_usage") (bool true) end))
              more)))))

abbrev pub body : Json
body = body_with (field (codes "temperature") (num (real (pos 1) 1)) end)

abbrev pub request : ChatRequest
request = record {
  messages =
      (record { role = codes "system"; content = plain (codes "Be short.") })
      ∷ ((record {
        role = codes "user";
        content = parts (text_part (codes "What is it?") ∷ (image_part url ∷ []));
      })
          ∷ []);
  max_tokens = 40;
  sampling = (codes "temperature", real (pos 1) 1) ∷ [];
  response_format = none;
  enable_thinking = false;
  thinking_token_budget = none;
  pictures = 1;
}

pub read : check_chat decoder (codes "m") true body ≡ ok request
unfolding check_chat has_unknown simple_serving.Chat.chat_request simple_serving.Messages.messages
    simple_serving.Messages.all_messages simple_serving.Messages.message
    simple_serving.Messages.content simple_serving.Messages.all_parts simple_serving.Messages.part
    simple_serving.DataUrl.picture simple_serving.DataUrl.picture_match
    simple_serving.DataUrl.kind_of simple_serving.Messages.images simple_serving.Sampling.sampling
    simple_serving.Sampling.response_format simple_serving.Sampling.enable_thinking
    simple_serving.Sampling.thinking_token_budget
read = refl

check_chat-IsAccepted_example :
    (fields : Fields) × (body ≡ obj fields) × IsAccepted decoder (codes "m") true fields request
check_chat-IsAccepted_example = check_chat-IsAccepted decoder (codes "m") true body request read

-- Without vision the parts are fields that the contract does not have.
unknown_without_vision :
    check_chat decoder (codes "m") false (body_with (field (codes "n") null end))
    ≡ err unsupported_field
unfolding check_chat has_unknown
unknown_without_vision = refl

-- A temperature above 2 is refused.
too_hot :
    check_chat decoder
      (codes "m")
      true
      (body_with (field (codes "temperature") (num (whole (pos 3))) end))
    ≡ err invalid_request
unfolding check_chat has_unknown simple_serving.Chat.chat_request simple_serving.Messages.messages
    simple_serving.Messages.all_messages simple_serving.Messages.message
    simple_serving.Messages.content simple_serving.Messages.all_parts simple_serving.Messages.part
    simple_serving.DataUrl.picture simple_serving.DataUrl.picture_match
    simple_serving.DataUrl.kind_of simple_serving.Messages.images simple_serving.Sampling.sampling
too_hot = refl
