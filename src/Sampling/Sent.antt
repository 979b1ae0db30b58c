-- ===== src/Sampling/Sent.antt =====
-- The response format and the thinking of a request are those of its body.
use simple_serving.Prelude.{
  ℕ, ◌≡◌, refl, arith, ◌⊎◌, inl, inr, Bool, true, false, Option, none, some, Text, codes, Gives,
  none-Gives, some-Gives, if_Gives,
}
use simple_serving.Json.{
  pos, negsuc, whole, real, Json, null, bool, num, str, arr, obj, Fields, get,
}
use simple_serving.Messages.Sent.{text_lem}
use simple_serving.Sampling.{
  is_schema, is_format, response_format, enable_thinking, thinking_token_budget,
}

-- A format is an object of the type `json_schema`, whose schema has a name, is strict or not, and
-- holds an object; it is kept whole.
abbrev pub FormatSent : Option Json → Option Fields → Type 0
FormatSent o none = o ≡ none
FormatSent o (some value) =
    (o ≡ some (obj value))
    × (get (codes "type") value ≡ some (str (codes "json_schema")))
    × ((schema : Fields) × (get (codes "json_schema") value ≡ some (obj schema))
        × ((name : Text) × (get (codes "name") schema ≡ some (str name)))
        × ((strict : Bool) × (get (codes "strict") schema ≡ some (bool strict)))
        × ((inner : Fields) × (get (codes "schema") schema ≡ some (obj inner))))

-- Thinking is off unless the body's object says otherwise.
abbrev pub ThinkingSent : Option Json → Bool → Type 0
ThinkingSent o b =
    ((o ≡ none) × (b ≡ false))
    ⊎ ((value : Fields) × (o ≡ some (obj value))
        × (((get (codes "enable_thinking") value ≡ none) × (b ≡ false))
            ⊎ (get (codes "enable_thinking") value ≡ some (bool b))))

abbrev pub BudgetSent : Option Json → Option ℕ → Type 0
BudgetSent o none = o ≡ none
BudgetSent o (some n) = o ≡ some (num (whole (pos n)))

schema_lem :
    (o : Option Json)
    → is_schema o ≡ true
    → (schema : Fields) × (o ≡ some (obj schema))
      × ((name : Text) × (get (codes "name") schema ≡ some (str name)))
      × ((strict : Bool) × (get (codes "strict") schema ≡ some (bool strict)))
      × ((inner : Fields) × (get (codes "schema") schema ≡ some (obj inner)))
schema_lem (some (obj schema)) h = (schema, refl, ground arith, ground arith, ground arith)
schema_lem none h = cc
schema_lem (some null) h = cc
schema_lem (some (bool b)) h = cc
schema_lem (some (num n)) h = cc
schema_lem (some (str s)) h = cc
schema_lem (some (arr xs)) h = cc

pub format-Sent : (o : Option Json) → Gives (FormatSent o) (response_format o)
unfolding response_format
format-Sent none = some-Gives none refl
format-Sent (some (obj value)) =
    if_Gives (is_format value)
      (λ e.
        some-Gives (some value) (refl, text_lem _ _ (ground arith), schema_lem _ (ground arith)))
      λ _. none-Gives _
format-Sent (some null) = none-Gives _
format-Sent (some (bool b)) = none-Gives _
format-Sent (some (num n)) = none-Gives _
format-Sent (some (str s)) = none-Gives _
format-Sent (some (arr xs)) = none-Gives _

pub thinking-Sent : (o : Option Json) → Gives (ThinkingSent o) (enable_thinking o)
unfolding enable_thinking
thinking-Sent none = some-Gives false (inl (refl, refl))
thinking-Sent (some (obj value)) = record { given = λ b h. inr (value, refl, ground arith) }
thinking-Sent (some null) = none-Gives _
thinking-Sent (some (bool b)) = none-Gives _
thinking-Sent (some (num n)) = none-Gives _
thinking-Sent (some (str s)) = none-Gives _
thinking-Sent (some (arr xs)) = none-Gives _

pub budget-Sent : (o : Option Json) → Gives (BudgetSent o) (thinking_token_budget o)
unfolding thinking_token_budget
budget-Sent none = some-Gives none refl
budget-Sent (some (num (whole (pos n)))) = some-Gives (some n) refl
budget-Sent (some (num (whole (negsuc n)))) = none-Gives _
budget-Sent (some (num (real z d))) = none-Gives _
budget-Sent (some null) = none-Gives _
budget-Sent (some (bool b)) = none-Gives _
budget-Sent (some (str s)) = none-Gives _
budget-Sent (some (arr xs)) = none-Gives _
budget-Sent (some (obj fs)) = none-Gives _
