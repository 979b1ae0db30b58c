-- ===== src/Chat/Accepted.antt =====
-- What every accepted body of a generation is, and every refusal.
use simple_serving.Prelude.{
  length, both_Gives, ℕ, ◌≤◌, ◌≡◌, ◌≢◌, refl, sym, ap, subst, ◌∙◌, arith, inl, inr, Bool, true,
  false, leb, Option, none, some, List, [], Text, codes, if◌then◌else◌, All, Bool-cases, Gives,
  bind-Gives, none-Gives, some-Gives,
}
use simple_serving.Errors.{ok, err, ok_ne_err, invalid_request}
use simple_serving.Json.{pos, whole, Json, null, bool, num, str, arr, obj, Fields, get}
use simple_serving.Shape.{chat_shape, has_unknown}
use simple_serving.Depth.Equivalence.{nesting, depth-nesting}
use simple_serving.Messages.{is_text, messages, images}
use simple_serving.Messages.Accepted.{IsMessage, messages-Gives}
use simple_serving.Messages.Sent.{AllSent, picture_urls, images-length, text_lem, messages-Sent}
use simple_serving.Sampling.Sent.{
  FormatSent, ThinkingSent, BudgetSent, format-Sent, thinking-Sent, budget-Sent,
}
use simple_serving.Sampling.Bounds.{IsSampled, sampling-IsSampled}
use simple_serving.Shape.Known.{KnownBody, known_body}
use simple_serving.Sampling.{
  sampling_checks, sampling, response_format, enable_thinking, thinking_token_budget,
}
use simple_serving.Sampling.Accepted.{IsSampling, sampling-Gives}
use simple_serving.Chat.{
  ChatRequest, required, is_true, has_usage, at_least_one, chat_request, if_known, check_chat,
  max_depth, depth_allowed, shallow, parse_json,
}

-- A body that the engine may get, as the request that stands for it.
pub record IsAccepted (b64decode : Text → Option (List ℕ)) (alias : Text) (vision : Bool)
    (fields : Fields) (r : ChatRequest) : Type 0 where
  pub model : get (codes "model") fields ≡ some (str alias)
  pub known : KnownBody vision fields
  pub messages_sent : AllSent (get (codes "messages") fields) r.messages
  pub some_message : r.messages ≢ []
  pub messages_sound : All (IsMessage b64decode vision) r.messages
  pub one_picture : (r.pictures ≡ length (picture_urls r.messages)) × (r.pictures ≤ 1)
  pub max_tokens :
      (get (codes "max_tokens") fields ≡ some (num (whole (pos r.max_tokens)))) × (1 ≤ r.max_tokens)
  pub streams : get (codes "stream") fields ≡ some (bool true)
  pub usage :
      (options : Fields) × (get (codes "stream_options") fields ≡ some (obj options))
      × (get (codes "include_usage") options ≡ some (bool true))
  pub sampled : IsSampled fields r.sampling
  pub sampling_sound : IsSampling fields sampling_checks r.sampling
  pub format : FormatSent (get (codes "response_format") fields) r.response_format
  pub thinking : ThinkingSent (get (codes "chat_template_kwargs") fields) r.enable_thinking
  pub budget : BudgetSent (get (codes "thinking_token_budget") fields) r.thinking_token_budget

required-Gives : (b : Bool) → Gives (λ _. b ≡ true) (required b)
required-Gives true = some-Gives tt refl
required-Gives false = none-Gives _

true_lem : (v : Option Json) → is_true v ≡ true → v ≡ some (bool true)
true_lem (some (bool true)) h = refl
true_lem (some (bool false)) h = cc
true_lem none h = cc
true_lem (some null) h = cc
true_lem (some (num n)) h = cc
true_lem (some (str s)) h = cc
true_lem (some (arr xs)) h = cc
true_lem (some (obj fs)) h = cc

usage_lem :
    (o : Option Json)
    → has_usage o ≡ true
    → (options : Fields) × (o ≡ some (obj options))
      × (get (codes "include_usage") options ≡ some (bool true))
usage_lem (some (obj options)) h = (options, refl, true_lem _ h)
usage_lem none h = cc
usage_lem (some null) h = cc
usage_lem (some (bool b)) h = cc
usage_lem (some (num n)) h = cc
usage_lem (some (str s)) h = cc
usage_lem (some (arr xs)) h = cc

at_least_one-Gives :
    (v : Option Json) → Gives (λ n. (v ≡ some (num (whole (pos n)))) × (1 ≤ n)) (at_least_one v)
at_least_one-Gives v = record { given = λ n h. ground arith }

module _ (b64decode : Text → Option (List ℕ)) (alias : Text) (vision : Bool) where
  chat_request-Gives :
      (body : Fields)
      → KnownBody vision body
      → Gives (IsAccepted b64decode alias vision body) (chat_request b64decode alias vision body)
  unfolding chat_request
  chat_request-Gives body known =
      bind-Gives (required (is_text alias (get (codes "model") body))) (required-Gives _) λ _ model.
        bind-Gives (messages b64decode vision (get (codes "messages") body))
          (both_Gives (messages-Gives b64decode vision _) (messages-Sent b64decode vision _))
          λ built h_built. bind-Gives (required (leb (images built) 1)) (required-Gives _) λ _ one.
            bind-Gives (at_least_one (get (codes "max_tokens") body)) (at_least_one-Gives _)
              λ max_tokens h_max.
                bind-Gives (required (is_true (get (codes "stream") body))) (required-Gives _)
                  λ _ streams.
                    bind-Gives (required (has_usage (get (codes "stream_options") body)))
                      (required-Gives _)
                      λ _ usage.
                        bind-Gives (sampling body)
                          (both_Gives (sampling-Gives body) (sampling-IsSampled body))
                          λ chosen h_chosen.
                            bind-Gives (response_format (get (codes "response_format") body))
                              (format-Sent _)
                              λ format h_format.
                                bind-Gives
                                  (enable_thinking (get (codes "chat_template_kwargs") body))
                                  (thinking-Sent _)
                                  λ thinking h_thinking.
                                    bind-Gives
                                      (thinking_token_budget
                                        (get (codes "thinking_token_budget") body))
                                      (budget-Sent _)
                                      λ budget h_budget. some-Gives _ (record {
                                        model = text_lem alias _ model;
                                        known = known;
                                        messages_sent = h_built.1;
                                        some_message = h_built.0.0;
                                        messages_sound = h_built.0.1;
                                        one_picture = (images-length built, ground arith);
                                        max_tokens = h_max;
                                        streams = true_lem _ streams;
                                        usage = usage_lem _ usage;
                                        sampled = h_chosen.1;
                                        sampling_sound = h_chosen.0;
                                        format = h_format;
                                        thinking = h_thinking;
                                        budget = h_budget;
                                      })

  known_lem :
      (unknown : Bool) (o : Option ChatRequest) (r : ChatRequest)
      → if_known b64decode unknown o ≡ ok r
      → (unknown ≡ false) × (o ≡ some r)
  known_lem true o r h = cc
  known_lem false none r h = cc
  known_lem false (some q) r h = (refl, cc)

  -- A body that is accepted as a request: it is an object with no field but the contract's, in the
  -- body itself, in its messages with their parts, in the response format and in the other objects,
  -- and it names the alias. The request has its messages as they were sent and in their order, at
  -- least one, each of a known role, with parts only from a user while the engine takes pictures;
  -- every picture, of which there is at most one, is a data URL that decodes to a picture of the type
  -- it names. The body asks for at least one token, for a stream and for its usage. Each sampling
  -- field of the body is kept as it is and is in its bounds, and the response format, the thinking
  -- and its budget are those of the body.
  pub check_chat-IsAccepted :
      (body : Json) (r : ChatRequest)
      → check_chat b64decode alias vision body ≡ ok r
      → (fields : Fields) × (body ≡ obj fields) × IsAccepted b64decode alias vision fields r
  unfolding check_chat
  check_chat-IsAccepted (obj fields) r h =
      let k =
        known_lem (has_unknown (obj fields) (chat_shape vision))
          (chat_request b64decode alias vision fields) r h in
      (fields, refl, (chat_request-Gives fields (known_body vision fields k.0)).given r k.1)
  check_chat-IsAccepted null r h = cc
  check_chat-IsAccepted (bool b) r h = cc
  check_chat-IsAccepted (num n) r h = cc
  check_chat-IsAccepted (str s) r h = cc
  check_chat-IsAccepted (arr xs) r h = cc

ok_injective : (u v : Json) → ok u ≡ ok v → u ≡ v
ok_injective u v h = cc

bounded_lem :
    (n : ℕ) (u v : Json)
    → (if depth_allowed (some n) then ok u else err invalid_request) ≡ ok v
    → (u ≡ v) × (n ≤ max_depth)
bounded_lem n u v h = elim (Bool-cases (leb n max_depth)) [
  | inl e ↦ (ok_injective u v (sym (rw e refl) ∙ h), ground arith)
  | inr e ↦ absurd (ok_ne_err {a = v} {e = invalid_request} (sym h ∙ rw e refl))
]

shallow_lem :
    (o : Option Json) (v : Json) → shallow o ≡ ok v → (o ≡ some v) × (nesting v ≤ max_depth)
shallow_lem none v h = cc
shallow_lem (some u) v h =
    let k = bounded_lem (nesting u) u v (
      subst (λ d. (if depth_allowed d then ok u else err invalid_request) ≡ ok v) (depth-nesting u)
        h) in
    (ap some k.0, subst (λ w. nesting w ≤ max_depth) k.0 k.1)

-- What is read is what the library reads, where it nests at most 64 deep.
pub parse_json-nesting :
    (loads : List ℕ → Option Json) (raw : List ℕ) (v : Json)
    → parse_json loads raw ≡ ok v
    → (loads raw ≡ some v) × (nesting v ≤ max_depth)
unfolding parse_json
parse_json-nesting loads raw v h = shallow_lem (loads raw) v h
