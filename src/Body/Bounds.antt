-- ===== src/Body/Bounds.antt =====
-- A body that is read keeps the limit and is what was sent.
use simple_serving.Prelude.{
  ℕ, ◌≤◌, ◌≡◌, refl, sym, ◌∙◌, subst, arith, inl, inr, Bool, true, false, List, [], ◌∷◌, ◌++◌, Text,
  ltb, length, if◌then◌else◌, Bool-cases, append_assoc_lem,
}
use simple_serving.Body.{
  Incoming, chunk, disconnect, Body, whole_body, too_large, read_loop, says_too_much, read_body,
}

-- The bodies of messages, joined, up to the first with no more to come.
abbrev pub sent : List Incoming → List ℕ
sent [] = []
sent (disconnect ∷ rest) = []
sent (chunk bytes more ∷ rest) = let later = sent rest in if more then bytes ++ later else bytes

whole_injective : (a b : List ℕ) → whole_body a ≡ whole_body b → a ≡ b
whole_injective a b h = cc

by_more :
    (limit : ℕ) (rest : List Incoming) (before bytes here : List ℕ) (more : Bool) (next : Body)
    → (next ≡ whole_body bytes → (length bytes ≤ limit) × (bytes ≡ (before ++ here) ++ sent rest))
    → ltb limit (length (before ++ here)) ≡ false
    → (if more then next else whole_body (before ++ here)) ≡ whole_body bytes
    → (length bytes ≤ limit) × (bytes ≡ before ++ sent (chunk here more ∷ rest))
by_more limit rest before bytes here true next ih fits h =
    ((ih h).0, (ih h).1 ∙ append_assoc_lem before here (sent rest))
by_more limit rest before bytes here false next ih fits h =
    let e = whole_injective (before ++ here) bytes h in
    (subst (λ b. length b ≤ limit) e (ground arith), sym e)

loop_lem :
    (limit : ℕ) (messages : List Incoming) (before bytes : List ℕ)
    → read_loop limit messages before ≡ whole_body bytes
    → (length bytes ≤ limit) × (bytes ≡ before ++ sent messages)
unfolding read_loop
loop_lem limit [] before bytes h = cc
loop_lem limit (disconnect ∷ rest) before bytes h = cc
loop_lem limit (chunk here more ∷ rest) before bytes h =
    elim (Bool-cases (ltb limit (length (before ++ here)))) [
      | inl over ↦ let refused : too_large ≡ whole_body bytes = sym (rw over refl) ∙ h in cc
      | inr fits ↦
          by_more limit rest before bytes here more (read_loop limit rest (before ++ here))
            (loop_lem limit rest (before ++ here) bytes) fits (sym (rw fits refl) ∙ h)
    ]

pub read_body_bounded :
    (limit : ℕ) (said : Text) (messages : List Incoming) (bytes : List ℕ)
    → read_body limit said messages ≡ whole_body bytes
    → (length bytes ≤ limit) × (bytes ≡ sent messages)
unfolding read_body
read_body_bounded limit said messages bytes h = elim (Bool-cases (says_too_much limit said)) [
  | inl e ↦ let refused : too_large ≡ whole_body bytes = sym (rw e refl) ∙ h in cc
  | inr e ↦ loop_lem limit messages [] bytes (sym (rw e refl) ∙ h)
]
