-- ===== src/TextLane/Length.antt =====
-- The context length: fixed by the first answer of a boot that verifies the engine.
use simple_serving.Prelude.{
  ℕ, ◌+◌, ◌≤◌, ◌≡◌, ◌≢◌, ◌⊎◌, inl, inr, refl, sym, ap, subst, ◌∙◌, arith, Option, none, some, List,
  [], ◌∷◌, ltb, Bool-cases, Option-cases,
}
use simple_serving.Errors.{ok}
use simple_serving.Config.{Config}
use simple_serving.Policy.{Caller}
use simple_serving.Chat.{ChatRequest}
use simple_serving.Work.{Work}
use simple_serving.TextLane.Guards.{Within}
use simple_serving.TextLane.Checks.{generation-IsChecked}
use simple_serving.Lifecycle.{Lifecycle}
use simple_serving.TextLane.{
  Service, generation, prepare, check_input, init, smaller, first_answer, same_length, later_answer,
  by_known, engine_answered,
}

-- The answers of the engine's checks, each with its time: the length, or another model.
abbrev pub Answers : Type 0
Answers = List (ℕ × Option ℕ)

abbrev pub answers : Answers → Service → Service
answers [] s = s
answers (a ∷ rest) s = answers rest (engine_answered a.0 a.1 s)

abbrev pub or_else : Option ℕ → Option ℕ → Option ℕ
or_else none later = later
or_else (some n) later = some n

-- The first length that an answer gives.
abbrev pub first_length : Answers → Option ℕ
first_length [] = none
first_length (a ∷ rest) = or_else a.1 (first_length rest)

-- The context for the engine's length: at most it, and at most the configuration's limit.
abbrev pub context_for : Config → Option ℕ → Option ℕ
context_for config none = none
context_for config (some n) = some (smaller n config.context_tokens)

-- The engine's length and the context agree.
record Agrees (s : Service) (known : Option ℕ) : Type 0 where
  length_known : s.engine_length ≡ known
  context_known : s.context_tokens ≡ context_for s.config known

first_answer-Agrees :
    (now : ℕ) (length : Option ℕ) (s : Service)
    → Agrees s none
    → Agrees (first_answer now length s) length
first_answer-Agrees now none s h = h
first_answer-Agrees now (some n) s h = record { length_known = refl; context_known = refl }

first_answer-config :
    (now : ℕ) (length : Option ℕ) (s : Service) → (first_answer now length s).config ≡ s.config
first_answer-config now none s = refl
first_answer-config now (some n) s = refl

module _ (now : ℕ) (length : Option ℕ) (s : Service) where
  later_answer-same :
      (known : ℕ)
      → ((later_answer known length s).engine_length ≡ s.engine_length)
        × (((later_answer known length s).context_tokens ≡ s.context_tokens)
            × ((later_answer known length s).config ≡ s.config))
  later_answer-same known = elim (Bool-cases (same_length length known)) [
    | inl e ↦ rw e (refl, (refl, refl))
    | inr e ↦ rw e (refl, (refl, refl))
  ]

  later_answer-Agrees :
      (known : ℕ) → Agrees s (some known) → Agrees (later_answer known length s) (some known)
  later_answer-Agrees known h =
      let k = later_answer-same known in
      record {
        length_known = k.0 ∙ h.length_known;
        context_known = k.1.0 ∙ h.context_known ∙ sym (ap (λ c. context_for c (some known)) k.1.1);
      }

  by_known-config : (known : Option ℕ) → (by_known known now length s).config ≡ s.config
  by_known-config none = first_answer-config now length s
  by_known-config (some known) = (later_answer-same known).1.1

  by_known-Agrees :
      (known : Option ℕ)
      → Agrees s known
      → Agrees (by_known known now length s) (or_else known length)
  by_known-Agrees none h = first_answer-Agrees now length s h
  by_known-Agrees (some known) h = later_answer-Agrees known h

engine_answered-Agrees :
    (now : ℕ) (length : Option ℕ) (s : Service) (known : Option ℕ)
    → Agrees s known
    → Agrees (engine_answered now length s) (or_else known length)
unfolding engine_answered
engine_answered-Agrees now length s known h =
    subst (λ o. Agrees (by_known o now length s) (or_else known length)) (sym h.length_known)
      (by_known-Agrees now length s known h)

engine_answered-config :
    (now : ℕ) (length : Option ℕ) (s : Service) → (engine_answered now length s).config ≡ s.config
unfolding engine_answered
engine_answered-config now length s = by_known-config now length s s.engine_length

or_else_assoc : (a b c : Option ℕ) → or_else (or_else a b) c ≡ or_else a (or_else b c)
or_else_assoc none b c = refl
or_else_assoc (some n) b c = refl

or_else-none : (a : Option ℕ) → or_else a none ≡ a
or_else-none none = refl
or_else-none (some n) = refl

answers-Agrees :
    (given : Answers) (s : Service) (known : Option ℕ)
    → Agrees s known
    → Agrees (answers given s) (or_else known (first_length given))
      × ((answers given s).config ≡ s.config)
answers-Agrees [] s known h = (subst (Agrees s) (sym (or_else-none known)) h, refl)
answers-Agrees (a ∷ rest) s known h =
    let t = engine_answered a.0 a.1 s in
    let k = answers-Agrees rest t (or_else known a.1) (engine_answered-Agrees a.0 a.1 s known h) in
    (
      subst (Agrees (answers rest t)) (or_else_assoc known a.1 (first_length rest)) k.0,
      k.1 ∙ engine_answered-config a.0 a.1 s,
    )

smaller-least : (n : ℕ) (limit : Option ℕ) → smaller n limit ≤ n
smaller-least n none = omega arith
smaller-least n (some l) = ground arith

smaller-limit : (n : ℕ) (limit : Option ℕ) → Within limit (smaller n limit)
smaller-limit n none = tt
smaller-limit n (some l) = ground arith

smaller-either :
    (n : ℕ) (limit : Option ℕ) → (smaller n limit ≡ n) ⊎ (limit ≡ some (smaller n limit))
smaller-either n none = inl refl
smaller-either n (some l) = elim (Bool-cases (ltb l n)) [
  | inl e ↦ inr (rw e refl)
  | inr e ↦ inl (rw e refl)
]

unknown_context :
    (config : Config) (life : Lifecycle) (given : Answers)
    → first_length given ≡ none
    → (answers given (init config life)).context_tokens ≡ none
unfolding init
unknown_context config life given h =
    let k =
      answers-Agrees given (init config life) none
        (record { length_known = refl; context_known = refl }) in
    k.0.context_known ∙ ap (λ c. context_for c (first_length given)) k.1 ∙ ap (context_for config) h

some_ne_none : (n : ℕ) → some n ≢ none
some_ne_none n h = cc

some-injective_lem : (a b : ℕ) → some a ≡ some b → a ≡ b
some-injective_lem a b h = cc

within_both : {a b c n : ℕ} → a ≤ b → b ≡ c → c ≤ n → a ≤ n
within_both h e k = omega arith

-- The engine's answers of a boot, in any number and with any lengths, of which the first that gives
-- a length gives `n`: the context length is at most `n` and at most the configuration's limit, and
-- it is one of the two. No later answer changes it.
pub context_from_first :
    (config : Config) (life : Lifecycle) (given : Answers) (n : ℕ)
    → first_length given ≡ some n
    → (c : ℕ) × (((answers given (init config life)).context_tokens ≡ some c)
        × ((c ≤ n)
            × (Within config.context_tokens c × ((c ≡ n) ⊎ (config.context_tokens ≡ some c)))))
unfolding init
context_from_first config life given n h =
    let k =
      answers-Agrees given (init config life) none
        (record { length_known = refl; context_known = refl }) in
    let e =
      k.0.context_known
      ∙ ap (λ c. context_for c (first_length given)) k.1
      ∙ ap (context_for config) h in
    let limit = config.context_tokens in
    (smaller n limit, (e, (smaller-least n limit, (smaller-limit n limit, smaller-either n limit))))

-- Answers of a boot, and then a generation that is accepted and passes its checks with its count
-- `input`: an answer gave a length, and the prompt with the whole output fits the first such
-- length.
pub generation_fits_engine :
    (config : Config) (life : Lifecycle) (given : Answers) (t : Service) (caller : Caller)
    (request : ChatRequest) (work : Work) (input : ℕ)
    → prepare generation caller request work (answers given (init config life)) ≡ ok t
    → check_input t caller input request.max_tokens ≡ ok tt
    → (n : ℕ) × ((first_length given ≡ some n) × (input + request.max_tokens ≤ n))
generation_fits_engine config life given t caller request work input h k =
    let f =
      (generation-IsChecked (answers given (init config life)) t caller request work input h
        k).fits in
    elim (Option-cases (first_length given)) [
      | inl e ↦ absurd (some_ne_none f.0 (sym f.1.0 ∙ unknown_context config life given e))
      | inr (n, e) ↦
          let c = context_from_first config life given n e in
          (n, (e, within_both f.1.1 (some-injective_lem f.0 c.0 (sym f.1.0 ∙ c.1.0)) c.1.1.0))
    ]
