-- ===== src/Engine/Prompts.antt =====
-- A count and a generation have the engine render the same prompt.
use simple_serving.Prelude.{
  ℕ, ◌≡◌, refl, sym, ap, subst, text_eq_refl, ◌∙◌, arith, inl, inr, Bool, true, false, not, ◌&&◌,
  Option, none, some, List, [], ◌∷◌, Text, text_eq, codes, eq_of_text_eq, if◌then◌else◌, Bool-cases,
  All, Has,
}
use simple_serving.Errors.{ok}
use simple_serving.Json.{ℤ, Number, Json, bool, num, str, whole, Fields, end, field, get, put}
use simple_serving.Sampling.{sampling_checks}
use simple_serving.Sampling.Accepted.{FromBody}
use simple_serving.Chat.{ChatRequest, check_chat}
use simple_serving.Chat.Accepted.{check_chat-IsAccepted}
use simple_serving.Engine.{
  tokenize_payload, put_all, put_format, put_budget, thinking_json, before_sampling,
  generation_payload,
}

-- What the engine renders a prompt from.
abbrev pub rendered : List Text
rendered =
    codes "model"
    ∷ (codes "messages"
        ∷ (codes "add_generation_prompt"
            ∷ (codes "add_special_tokens" ∷ (codes "chat_template_kwargs" ∷ []))))

get-put : (n : Text) (v : Json) (fs : Fields) → get n (put n v fs) ≡ some v
get-put n v end = rw (text_eq_refl n) refl
get-put n v (field m old rest) = elim (Bool-cases (text_eq m n)) [
  | inl e ↦ rw e (rw e refl)
  | inr e ↦ rw e (rw e (get-put n v rest))
]

get-put_other :
    (n m : Text) (v : Json) (fs : Fields) → text_eq m n ≡ false → get n (put m v fs) ≡ get n fs
get-put_other n m v end h = rw h refl
get-put_other n m v (field k old rest) h = elim (Bool-cases (text_eq k m)) [
  | inl e ↦
      let other : text_eq k n ≡ false =
        subst (λ t. text_eq t n ≡ false) (sym (eq_of_text_eq k m e)) h in
      rw e (rw other refl)
  | inr e ↦ rw e (ap (λ g. if text_eq k n then some old else g) (get-put_other n m v rest h))
]

get-put_all :
    (n : Text) (chosen : List (Text × Number)) (fs : Fields)
    → All (λ f. text_eq f.0 n ≡ false) chosen
    → get n (put_all chosen fs) ≡ get n fs
get-put_all n [] fs h = refl
get-put_all n (f ∷ chosen) fs h =
    get-put_all n chosen (put f.0 (num f.1) fs) h.1 ∙ get-put_other n f.0 (num f.1) fs h.0

-- No name of a check is `n`.
abbrev unlike : Text → List (Text × (Number → Bool)) → Bool
unlike n [] = true
unlike n (c ∷ cs) = let later = unlike n cs in not (text_eq c.0 n) && later

unlike_lem :
    (n : Text) (f : Text × (Number → Bool)) (cs : List (Text × (Number → Bool)))
    → unlike n cs ≡ true
    → Has f cs
    → text_eq f.0 n ≡ false
unlike_lem n f [] h m = elim m [ ]
unlike_lem n f (c ∷ cs) h (inl e) = let here : text_eq c.0 n ≡ false = ground arith in rw (← e) here
unlike_lem n f (c ∷ cs) h (inr m) =
    let later : unlike n cs ≡ true = ground arith in unlike_lem n f cs later m

All-unlike :
    (n : Text) (body : Fields) (cs : List (Text × (Number → Bool))) (chosen : List (Text × Number))
    → unlike n cs ≡ true
    → All (FromBody body cs) chosen
    → All (λ f. text_eq f.0 n ≡ false) chosen
All-unlike n body cs [] h s = tt
All-unlike n body cs (f ∷ chosen) h s =
    (unlike_lem n (f.0, s.0.1.0) cs h s.0.1.1.0, All-unlike n body cs chosen h s.1)

get-put_format :
    (n : Text) (o : Option Fields) (fs : Fields)
    → text_eq (codes "response_format") n ≡ false
    → get n (put_format o fs) ≡ get n fs
get-put_format n none fs h = refl
get-put_format n (some format) fs h = get-put_other n (codes "response_format") _ fs h

get-put_budget :
    (n : Text) (o : Option ℕ) (fs : Fields)
    → text_eq (codes "thinking_token_budget") n ≡ false
    → get n (put_budget o fs) ≡ get n fs
get-put_budget n none fs h = refl
get-put_budget n (some b) fs h = get-put_other n (codes "thinking_token_budget") _ fs h

module _ (alias : Text) (r : ChatRequest) (priority : ℤ) (salt : Text) where
  -- What the last fields that are set leave of a payload.
  get-late :
      (n : Text) (fs : Fields)
      → text_eq (codes "response_format") n ≡ false
      → text_eq (codes "thinking_token_budget") n ≡ false
      → text_eq (codes "cache_salt") n ≡ false
      → text_eq (codes "priority") n ≡ false
      → get n (
          put_budget r.thinking_token_budget (
            put_format r.response_format (
              put
                (codes "cache_salt")
                (str salt)
                (put (codes "priority") (num (whole priority)) fs))))
        ≡ get n fs
  get-late n fs a b c d =
      get-put_budget n r.thinking_token_budget _ b
      ∙ get-put_format n r.response_format _ a
      ∙ get-put_other n (codes "cache_salt") _ _ c
      ∙ get-put_other n (codes "priority") _ _ d

  abbrev with_sampling : Fields
  with_sampling = put_all r.sampling (before_sampling alias r)

  abbrev with_generation : Fields
  with_generation = put (codes "add_generation_prompt") (bool true) with_sampling

  abbrev with_prompt : Fields
  with_prompt = put (codes "add_special_tokens") (bool false) with_generation

  abbrev with_thinking : Fields
  with_thinking = put (codes "chat_template_kwargs") (thinking_json r) with_prompt

  -- A field that only the first ones set.
  get-early :
      (n : Text)
      → All (λ f. text_eq f.0 n ≡ false) r.sampling
      → text_eq (codes "chat_template_kwargs") n ≡ false
      → text_eq (codes "add_special_tokens") n ≡ false
      → text_eq (codes "add_generation_prompt") n ≡ false
      → get n with_thinking ≡ get n (before_sampling alias r)
  get-early n h a b c =
      get-put_other n (codes "chat_template_kwargs") _ _ a
      ∙ get-put_other n (codes "add_special_tokens") _ _ b
      ∙ get-put_other n (codes "add_generation_prompt") _ _ c
      ∙ get-put_all n r.sampling _ h

  abbrev pub SameFor : Text → Type 0
  SameFor n = get n (tokenize_payload alias r) ≡ get n (generation_payload alias r priority salt)

  same_prompt :
      (body : Fields) → All (FromBody body sampling_checks) r.sampling → All SameFor rendered
  unfolding tokenize_payload generation_payload
  same_prompt body s = (
    sym (
        get-late (codes "model") with_thinking refl refl refl refl
        ∙ get-early (codes "model")
            (All-unlike (codes "model") body sampling_checks r.sampling refl s) refl refl refl),
    (
      sym (
          get-late (codes "messages") with_thinking refl refl refl refl
          ∙ get-early (codes "messages")
              (All-unlike (codes "messages") body sampling_checks r.sampling refl s) refl refl
              refl),
      (
        sym (
            get-late (codes "add_generation_prompt") with_thinking refl refl refl refl
            ∙ get-put_other (codes "add_generation_prompt") (codes "chat_template_kwargs")
                (thinking_json r) with_prompt refl
            ∙ get-put_other (codes "add_generation_prompt") (codes "add_special_tokens")
                (bool false) with_generation refl
            ∙ get-put (codes "add_generation_prompt") (bool true) with_sampling),
        (
          sym (
              get-late (codes "add_special_tokens") with_thinking refl refl refl refl
              ∙ get-put_other (codes "add_special_tokens") (codes "chat_template_kwargs")
                  (thinking_json r) with_prompt refl
              ∙ get-put (codes "add_special_tokens") (bool false) with_generation),
          (
            sym (
                get-late (codes "chat_template_kwargs") with_thinking refl refl refl refl
                ∙ get-put (codes "chat_template_kwargs") (thinking_json r) with_prompt),
            tt,
          ),
        ),
      ),
    ),
  )

  -- For a request that `check_chat` accepted, with any decoder of pictures: the count and the
  -- generation send the engine the same model, messages, generation prompt, special tokens and
  -- template arguments, which are what it renders the prompt from, whatever else the body asks for.
  pub payloads_agree :
      (b64decode : Text → Option (List ℕ)) (vision : Bool) (body : Json)
      → check_chat b64decode alias vision body ≡ ok r
      → All SameFor rendered
  payloads_agree b64decode vision body h =
      let accepted = check_chat-IsAccepted b64decode alias vision body r h in
      same_prompt accepted.0 accepted.2.sampling_sound.1
