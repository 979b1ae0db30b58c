-- ===== src/Sampling.antt =====
-- simple_serving/validation.py: `_sampling`, `_response_format`, `_enable_thinking` and
-- `_thinking_token_budget`, the optional fields of a generation; `none` is `invalid_request`.
pub mod Accepted
pub mod Sent
pub mod Bounds
use simple_serving.Prelude.{
  ℕ, Bool, true, false, ◌&&◌, not, Option, none, some, List, [], ◌∷◌, ◌++◌, Text, codes, leb,
  if◌then◌else◌, ◌>>=◌,
}
use simple_serving.Json.{
  ℤ, pos, negsuc, Number, whole, real, number_gt, Json, null, bool, num, str, arr, obj, Fields, get,
}
use simple_serving.Messages.{is_text}

abbrev pub at_most : Number → Number → Bool
at_most x y = not (number_gt x y)

-- `_is_integer(v) and v >= 1`
abbrev pub is_above_zero : Number → Bool
is_above_zero (whole (pos n)) = leb 1 n
is_above_zero _ = false

abbrev pub is_integer : Number → Bool
is_integer (whole z) = true
is_integer (real z d) = false

-- 0 <= v <= n
abbrev pub up_to : ℕ → Number → Bool
up_to n v = at_most (whole (pos 0)) v && at_most v (whole (pos n))

-- 0 < v <= n
abbrev pub above_up_to : ℕ → Number → Bool
above_up_to n v = number_gt v (whole (pos 0)) && at_most v (whole (pos n))

abbrev pub checked : Text → (Number → Bool) → Option Json → Option (List (Text × Number))
checked name check none = some []
checked name check (some (num x)) = if check x then some ((name, x) ∷ []) else none
checked name check (some _) = none

-- `checks`
abbrev pub sampling_checks : List (Text × (Number → Bool))
sampling_checks =
    (codes "temperature", up_to 2)
    ∷ ((codes "top_p", above_up_to 1)
        ∷ ((codes "top_k", is_above_zero)
            ∷ ((codes "min_p", up_to 1)
                ∷ ((codes "repetition_penalty", above_up_to 2)
                    ∷ ((codes "seed", is_integer) ∷ [])))))

abbrev pub run_checks : List (Text × (Number → Bool)) → Fields → Option (List (Text × Number))
run_checks [] fields = some []
run_checks (c ∷ cs) fields =
    let later = run_checks cs fields in
    checked c.0 c.1 (get c.0 fields) >>= λ here. later >>= λ rest. some (here ++ rest)

unfoldable pub sampling : Fields → Option (List (Text × Number))
sampling fields = run_checks sampling_checks fields

abbrev pub is_str : Option Json → Bool
is_str (some (str s)) = true
is_str _ = false

abbrev pub is_bool : Option Json → Bool
is_bool (some (bool b)) = true
is_bool _ = false

abbrev pub is_dict : Option Json → Bool
is_dict (some (obj fields)) = true
is_dict _ = false

abbrev pub is_schema : Option Json → Bool
is_schema (some (obj schema)) =
    is_str (get (codes "name") schema)
    && is_bool (get (codes "strict") schema)
    && is_dict (get (codes "schema") schema)
is_schema _ = false

abbrev pub is_format : Fields → Bool
is_format value =
    is_text (codes "json_schema") (get (codes "type") value)
    && is_schema (get (codes "json_schema") value)

unfoldable pub response_format : Option Json → Option (Option Fields)
response_format none = some none
response_format (some (obj value)) = if is_format value then some (some value) else none
response_format (some _) = none

abbrev pub thinking_flag : Option Json → Option Bool
thinking_flag none = some false
thinking_flag (some (bool b)) = some b
thinking_flag (some _) = none

unfoldable pub enable_thinking : Option Json → Option Bool
enable_thinking none = some false
enable_thinking (some (obj value)) = thinking_flag (get (codes "enable_thinking") value)
enable_thinking (some _) = none

unfoldable pub thinking_token_budget : Option Json → Option (Option ℕ)
thinking_token_budget none = some none
thinking_token_budget (some (num (whole (pos n)))) = some (some n)
thinking_token_budget (some _) = none
