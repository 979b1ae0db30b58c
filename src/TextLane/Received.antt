-- ===== src/TextLane/Received.antt =====
-- From the bytes of a body to a request that the engine may run.
use simple_serving.Prelude.{ℕ, ◌≤◌, ◌≡◌, sym, ap, subst, ◌∙◌, Option, some, List, Text, length}
use simple_serving.Errors.{ok, bind_ok}
use simple_serving.Json.{Json, obj, Fields}
use simple_serving.Depth.Equivalence.{nesting}
use simple_serving.Body.{Incoming, Body, whole_body, too_large, client_gone, unfinished, read_body}
use simple_serving.Body.Bounds.{sent, read_body_bounded}
use simple_serving.Chat.{ChatRequest, parse_json, check_chat, max_depth}
use simple_serving.Chat.Accepted.{IsAccepted, check_chat-IsAccepted, parse_json-nesting}
use simple_serving.Policy.{Caller}
use simple_serving.Work.{Work}
use simple_serving.TextLane.{Service, generation, body_bytes, received, prepare, check_input}
use simple_serving.TextLane.Checks.{IsChecked, generation-IsChecked}

-- A request, read of what the client sent.
pub record IsReceived (loads : List ℕ → Option Json) (b64decode : Text → Option (List ℕ))
    (messages : List Incoming) (s : Service) (caller : Caller) (request : ChatRequest) (input : ℕ)
    : Type 0 where
  pub in_limit : length (sent messages) ≤ s.config.body_limit_bytes
  pub fields : Fields
  pub read : loads (sent messages) ≡ some (obj fields)
  pub not_deep : nesting (obj fields) ≤ max_depth
  pub accepted : IsAccepted b64decode s.config.alias s.config.vision fields request
  pub checked : IsChecked s caller request input

ok_injective : (p q : ChatRequest × Service) → ok p ≡ ok q → p ≡ q
ok_injective p q h = cc

body_lem : (b : Body) (raw : List ℕ) → body_bytes b ≡ ok raw → b ≡ whole_body raw
body_lem (whole_body bytes) raw h = cc
body_lem too_large raw h = cc
body_lem client_gone raw h = cc
body_lem unfinished raw h = cc

module _ (loads : List ℕ → Option Json) (b64decode : Text → Option (List ℕ)) where
  -- A generation of which everything is read and accepted with `t`, and that passes `check_input` there
  -- with its count `input`, in any state: what the client sent, up to the last chunk, keeps the limit
  -- of a body and is read as an object, nested at most 64 deep, with no field but the contract's; the
  -- request has that object's messages as they were sent and in their order, and its picture, its
  -- sampling, its format and its thinking, each in the contract's bounds; and it keeps the limits of
  -- its class and fits the context.
  pub received-IsReceived :
      (caller : Caller) (said : Text) (messages : List Incoming) (work : Work) (s t : Service)
      (request : ChatRequest) (input : ℕ)
      → received loads b64decode generation caller said messages work s ≡ ok (request, t)
      → check_input t caller input request.max_tokens ≡ ok tt
      → IsReceived loads b64decode messages s caller request input
  unfolding received
  received-IsReceived caller said messages work s t request input h k =
      let a =
        bind_ok (body_bytes (read_body s.config.body_limit_bytes said messages)) _ (request, t) h in
      let b = bind_ok (parse_json loads a.0) _ (request, t) a.1.1 in
      let c =
        bind_ok (check_chat b64decode s.config.alias s.config.vision b.0) _ (request, t) b.1.1 in
      let d = bind_ok (prepare generation caller c.0 work s) _ (request, t) c.1.1 in
      let same = ok_injective (c.0, d.0) (request, t) d.1.1 in
      let passes : check_input d.0 caller input c.0.max_tokens ≡ ok tt =
        subst (λ r. check_input r.1 caller input r.0.max_tokens ≡ ok tt) (sym same) k in
      let whole =
        read_body_bounded s.config.body_limit_bytes said messages a.0
          (body_lem (read_body s.config.body_limit_bytes said messages) a.0 a.1.0) in
      let parsed = parse_json-nesting loads a.0 b.0 b.1.0 in
      let good = check_chat-IsAccepted b64decode s.config.alias s.config.vision b.0 c.0 c.1.0 in
      subst (λ r. IsReceived loads b64decode messages s caller r.0 input) same
        (record {
          in_limit = subst (λ raw. length raw ≤ s.config.body_limit_bytes) whole.1 whole.0;
          fields = good.0;
          read = ap loads (sym whole.1) ∙ parsed.0 ∙ ap some good.1;
          not_deep = subst (λ v. nesting v ≤ max_depth) good.1 parsed.1;
          accepted = good.2;
          checked = generation-IsChecked s d.0 caller c.0 work input d.1.0 passes;
        })
