-- ===== src/Relay/Examples.antt =====
-- A stream of three events, and the theorems at it.
use simple_serving.Prelude.{◌≡◌, refl, ◌⊎◌, none, Text, codes}
use simple_serving.Errors.{ok}
use simple_serving.Json.{pos, whole, Json, null, num, str, arr, obj, done, elem, Fields, end, field}
use simple_serving.Delta.{parts_of}
use simple_serving.Stream.{
  Usage, FinishReason, init, is_count, usage_of, translate, after_finish, choice, chunks, end_of,
}
use simple_serving.Relay.{Feed, closed, event, relay_loop, relay}
use simple_serving.Delta.Texts.{content_in, reasoning_in, content_said, reasoning_said}
use simple_serving.Stream.Texts.{in_chunks}
use simple_serving.Stream.Finish.{IsOpen, IsFinished}
use simple_serving.Relay.Texts.{in_feed, relay_keeps_text}
use simple_serving.Relay.Finish.{relay_finishes, relay_one_finish}

abbrev alias : Text
alias = codes "m"

abbrev one : Json → Json
one c = arr (elem c done)

abbrev choice_of : Fields → Json → Json
choice_of delta reason = obj (
    field (codes "index") (num (whole (pos 0)))
      (field (codes "delta") (obj delta) (field (codes "finish_reason") reason end)))

abbrev event_of : Json → Json → Fields
event_of cs usage = field (codes "object") (str (codes "chat.completion.chunk")) (
    field (codes "model") (str alias)
      (field (codes "choices") cs (field (codes "usage") usage end)))

abbrev first : Fields
first =
    event_of
      (one (
        choice_of
          (field (codes "role") (str (codes "assistant")) (
            field (codes "reasoning") (str (codes "why"))
              (field (codes "content") (str (codes "Hi")) end)))
          null))
      null

abbrev last : Fields
last =
    event_of (one (choice_of (field (codes "content") (str (codes "!")) end) (str (codes "stop"))))
      null

abbrev counted : Fields
counted = event_of (arr done) (
    obj (
      field (codes "prompt_tokens") (num (whole (pos 5)))
        (field (codes "completion_tokens") (num (whole (pos 3))) end)))

abbrev pub feed : Feed
feed = event first (event last (event counted closed))

abbrev usage : Usage
usage = record { prompt_tokens = 5; completion_tokens = 3; cached_tokens = none }

ends_well : (relay feed (init (codes "x") 0 alias)).1.1 ≡ ok usage
unfolding relay relay_loop chunks choice translate after_finish parts_of usage_of is_count end_of
    init
ends_well = refl

relay_keeps_text_example :
    (in_chunks content_in (relay feed (init (codes "x") 0 alias)).1.0 ≡ in_feed content_said feed)
    × (in_chunks reasoning_in (relay feed (init (codes "x") 0 alias)).1.0
        ≡ in_feed reasoning_said feed)
relay_keeps_text_example = relay_keeps_text feed (init (codes "x") 0 alias) usage ends_well

relay_finishes_example :
    (r : FinishReason) × IsFinished r (relay feed (init (codes "x") 0 alias)).1.0
relay_finishes_example = relay_finishes feed (codes "x") 0 alias usage ends_well

relay_one_finish_example :
    IsOpen (relay feed (init (codes "x") 0 alias)).1.0
    ⊎ ((r : FinishReason) × IsFinished r (relay feed (init (codes "x") 0 alias)).1.0)
relay_one_finish_example = relay_one_finish feed (codes "x") 0 alias
