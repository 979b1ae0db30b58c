-- ===== src/TextLane/Examples.antt =====
-- A boot whose engine answers twice, a reader's generation in it, and the theorems at them.
use simple_serving.Prelude.{
  List, Option, Text, text_eq, if◌then◌else◌, ℕ, ◌+◌, ◌≤◌, ◌≡◌, ◌⊎◌, refl, true, false, none, some,
  [], ◌∷◌, codes,
}
use simple_serving.Errors.{ok}
use simple_serving.Config.{reader}
use simple_serving.Json.{pos, whole, Json, bool, num, str, arr, obj, done, elem, Fields, end, field}
use simple_serving.Body.{Incoming, chunk, read_body, read_loop}
use simple_serving.Depth.{depth, depth_loop, size}
use simple_serving.Shape.{has_unknown}
use simple_serving.Sampling.{sampling, response_format, enable_thinking, thinking_token_budget}
use simple_serving.Samples.{small, bot_key}
use simple_serving.Policy.{Caller}
use simple_serving.Messages.{plain, messages, all_messages, message, content, images}
use simple_serving.Chat.{ChatRequest, parse_json, check_chat, chat_request}
use simple_serving.Work.{Work, work, Task}
use simple_serving.Lifecycle.{
  Lifecycle, starting, accept, check_serving, status, first_verified, idle_check, fall_asleep,
  close, engine_ready, engine_changes,
}
use simple_serving.TextLane.Received.{IsReceived, received-IsReceived}
use simple_serving.TextLane.{
  received, Service, init, generation, prepare, check_kind, check_max_tokens, check_min_p,
  min_p_refused, check_thinking_budget, check_input, engine_answered,
}
use simple_serving.TextLane.Guards.{Within}
use simple_serving.TextLane.Checks.{IsChecked, generation-IsChecked}
use simple_serving.TextLane.Length.{
  Answers, answers, first_length, context_from_first, generation_fits_engine,
}

abbrev pub life : Lifecycle
life = record {
  drain_deadline_s = 60;
  idle_timeout_s = 780;
  boot_id = codes "b";
  drain_generation = 0;
  draining = false;
  sleep_requested = false;
  engine_status = starting;
  engine_changed = false;
  work = [];
  ours_inflight = 0;
  idle_since = 0;
  no_work = true;
  deadline = none;
  idle = none;
  sleep = none;
  stopped = false;
}

abbrev given : Answers
given = (1, none) ∷ ((2, some 300) ∷ ((3, some 300) ∷ []))

abbrev alice : Caller
alice = record { key = bot_key; cls = reader; scope = some (codes "reader.alice-0001") }

abbrev request : ChatRequest
request = record {
  messages = record { role = codes "user"; content = plain (codes "Hello") } ∷ [];
  max_tokens = 40;
  sampling = (codes "temperature", whole (pos 0)) ∷ [];
  thinking_token_budget = some 8;
  response_format = none;
  enable_thinking = true;
  pictures = 0;
}

abbrev s : Service
s = answers given (init small life)

abbrev w : Work
w = work 1 false

abbrev t : Service
t = record s {
  life = record s.life { work = record w { task = Task.running } ∷ []; no_work = false };
}

accepted : prepare generation alice request w s ≡ ok t
unfolding init engine_answered first_verified idle_check engine_ready engine_changes prepare
    check_kind check_max_tokens check_min_p min_p_refused check_thinking_budget accept check_serving
    status fall_asleep close
accepted = refl

passes : check_input t alice 100 40 ≡ ok tt
unfolding init engine_answered first_verified idle_check engine_ready engine_changes check_input
    fall_asleep close
passes = refl

generation-IsChecked_example : IsChecked s alice request 100
generation-IsChecked_example = generation-IsChecked s t alice request w 100 accepted passes

context_from_first_example :
    (c : ℕ) × (((answers given (init small life)).context_tokens ≡ some c)
      × ((c ≤ 300)
          × (Within small.context_tokens c × ((c ≡ 300) ⊎ (small.context_tokens ≡ some c)))))
context_from_first_example = context_from_first small life given 300 refl

generation_fits_engine_example : (n : ℕ) × ((first_length given ≡ some n) × (100 + 40 ≤ n))
generation_fits_engine_example =
    generation_fits_engine small life given t alice request w 100 accepted passes

-- The same generation from its bytes, with a reader of one text.
abbrev sent_bytes : List ℕ
sent_bytes = codes "{}"

abbrev sent_body : Fields
sent_body = field (codes "model") (str (codes "m")) (
    field (codes "messages")
      (arr (
        elem
          (obj (
            field (codes "role") (str (codes "user"))
              (field (codes "content") (str (codes "Hello")) end)))
          done))
      (field (codes "max_tokens") (num (whole (pos 40))) (
        field (codes "stream") (bool true) (
          field (codes "stream_options") (obj (field (codes "include_usage") (bool true) end)) (
            field (codes "temperature") (num (whole (pos 0))) (
              field (codes "chat_template_kwargs")
                (obj (field (codes "enable_thinking") (bool true) end))
                (field (codes "thinking_token_budget") (num (whole (pos 8))) end)))))))

abbrev one_reader : List ℕ → Option Json
one_reader raw = if text_eq raw sent_bytes then some (obj sent_body) else none

abbrev no_pictures : Text → Option (List ℕ)
no_pictures b = none

abbrev in_chunks : List Incoming
in_chunks = chunk (codes "{") true ∷ (chunk (codes "}") false ∷ [])

all_read : received one_reader no_pictures generation alice [] in_chunks w s ≡ ok (request, t)
unfolding received read_body read_loop parse_json depth depth_loop size check_chat has_unknown
    chat_request messages all_messages message content images sampling response_format
    enable_thinking thinking_token_budget init engine_answered first_verified idle_check
    engine_ready engine_changes prepare check_kind check_max_tokens check_min_p min_p_refused
    check_thinking_budget accept check_serving status fall_asleep close
all_read = refl

received-IsReceived_example : IsReceived one_reader no_pictures in_chunks s alice request 100
received-IsReceived_example =
    received-IsReceived one_reader no_pictures alice [] in_chunks w s t request 100 all_read passes
