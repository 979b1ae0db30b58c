-- ===== src/Engine/Examples.antt =====
-- The payloads of one request, and one pair of answers.
use simple_serving.Prelude.{◌≡◌, refl, true, Option, some, none, codes, All}
use simple_serving.Errors.{ok, err, engine_unavailable}
use simple_serving.Json.{Json, num, str, arr, obj, done, elem, end, field, pos, negsuc, whole}
use simple_serving.Chat.Examples.{decoder, body, request, read}
use simple_serving.Sampling.{response_format}
use simple_serving.Engine.{warm_request, Answer, context_length, count}
use simple_serving.Engine.Prompts.{rendered, SameFor, payloads_agree}
use simple_serving.Engine.Answers.{IsAnswered, context_length-IsAnswered}

payloads_agree_example : All (SameFor (codes "m") request (pos 0) (codes "salt")) rendered
payloads_agree_example =
    payloads_agree (codes "m") request (pos 0) (codes "salt") decoder true body read

abbrev healthy : Option Answer
healthy = some (record { status = 200; json = none })

abbrev card_of : Json → Json
card_of n = obj (field (codes "id") (str (codes "m")) (field (codes "max_model_len") n end))

abbrev cards : Json → Option Answer
cards n = some (record {
  status = 200;
  json =
      some (obj (field (codes "data") (arr (elem (str (codes "m")) (elem (card_of n) done))) end));
})

found : context_length (codes "m") healthy (cards (num (whole (pos 8192)))) ≡ ok (some 8192)
unfolding context_length simple_serving.Engine.call simple_serving.Engine.call_json
    simple_serving.Engine.object_of simple_serving.Engine.first_length
found = refl

context_length-IsAnswered_example :
    IsAnswered (codes "m") healthy (cards (num (whole (pos 8192)))) (some 8192)
context_length-IsAnswered_example =
    context_length-IsAnswered (codes "m") healthy (cards (num (whole (pos 8192)))) (some 8192) found

other_model : context_length (codes "x") healthy (cards (num (whole (pos 8192)))) ≡ ok none
unfolding context_length simple_serving.Engine.call simple_serving.Engine.call_json
    simple_serving.Engine.object_of simple_serving.Engine.first_length
other_model = refl

no_length :
    context_length (codes "m") healthy (cards (num (whole (pos 0)))) ≡ err engine_unavailable
unfolding context_length simple_serving.Engine.call simple_serving.Engine.call_json
    simple_serving.Engine.object_of simple_serving.Engine.first_length
no_length = refl

abbrev counted : Json → Option Answer
counted v = some (record {
  status = 200;
  json = some (
      obj (
        field (codes "count") v (
          field (codes "tokens") (arr (elem (str (codes "a")) (elem (str (codes "b")) done)))
            end)));
})

-- The tokens are counted only where the count is no integer.
from_tokens : count (counted (str (codes "7"))) ≡ ok 2
unfolding count simple_serving.Engine.call_json simple_serving.Engine.call
    simple_serving.Engine.object_of
from_tokens = refl

negative_count : count (counted (num (whole (negsuc 0)))) ≡ err engine_unavailable
unfolding count simple_serving.Engine.call_json simple_serving.Engine.call
    simple_serving.Engine.object_of
negative_count = refl

-- The gateway's own warm-up keeps what it asks of a reader's response format.
warm_format :
    response_format (elim warm_request.response_format [ none ↦ none | some f ↦ some (obj f) ])
    ≡ some warm_request.response_format
unfolding response_format
warm_format = refl
