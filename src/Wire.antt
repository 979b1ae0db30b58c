-- ===== src/Wire.antt =====
-- simple_serving/engine.py: `_lines`, `EngineStream.next_event` and `_event`, which read the
-- engine's body as server-sent events. The body comes as the chunks that the HTTP client gives,
-- and its end; an error of that client is not modelled. `json.loads` of decoded bytes is the
-- argument `loads`.
pub mod Chunks
pub mod Events
mod Examples
use simple_serving.Prelude.{
  ℕ, Bool, true, false, ◌==◌, Option, none, some, List, [], ◌∷◌, ◌++◌, map, length, codes, drop,
  text_eq, starts_with, ltb, if◌then◌else◌,
}
use simple_serving.Errors.{Result, ok, err, engine_unavailable}
use simple_serving.Json.{Json, null, bool, num, str, arr, obj, Fields}

abbrev pub Bytes : Type 0
Bytes = List ℕ

-- `MAX_LINE_BYTES`
abbrev pub max_line_bytes : ℕ
max_line_bytes = 1000000

-- A byte that is no line feed, before what is cut.
abbrev pub before : ℕ → List Bytes × Bytes → List Bytes × Bytes
before b ([], pending) = ([], b ∷ pending)
before b (line ∷ lines, pending) = ((b ∷ line) ∷ lines, pending)

abbrev pub cut_byte : Bool → ℕ → List Bytes × Bytes → List Bytes × Bytes
cut_byte true b rest = ([] ∷ rest.0, rest.1)
cut_byte false b rest = before b rest

-- `*lines, pending = pending.split(b"\n")`
abbrev pub cut : Bytes → List Bytes × Bytes
cut [] = ([], [])
cut (b ∷ bs) = let rest = cut bs in cut_byte (b == 10) b rest

-- `removesuffix(b"\r")`
abbrev pub strip_return : Bytes → Bytes
strip_return [] = []
strip_return (b ∷ []) = if b == 13 then [] else b ∷ []
strip_return (b ∷ (c ∷ bs)) = b ∷ strip_return (c ∷ bs)

-- What is left at the end of the body.
abbrev pub last_line : Bytes → List Bytes
last_line [] = []
last_line (b ∷ bs) = (b ∷ bs) ∷ []

abbrev pub within_bound : Bool → List Bytes → List Bytes × Bool → List Bytes × Bool
within_bound true lines rest = (lines, false)
within_bound false lines rest = (lines ++ rest.0, rest.1)

-- `_lines`: the lines that it yields, and whether the body ended well.
unfoldable pub read_lines : List Bytes → Bytes → List Bytes × Bool
read_lines [] pending = (last_line pending, true)
read_lines (chunk ∷ chunks) pending =
    let now = cut (pending ++ chunk) in
    let rest = read_lines chunks now.1 in
    within_bound (ltb max_line_bytes (length now.1)) (map strip_return now.0) rest

-- `removeprefix(b" ")`
abbrev pub strip_space : Bytes → Bytes
strip_space [] = []
strip_space (b ∷ bs) = if b == 32 then bs else b ∷ bs

-- `b"\n".join`
abbrev pub join_lines : List Bytes → Bytes
join_lines [] = []
join_lines (l ∷ []) = l
join_lines (l ∷ (m ∷ ls)) = l ++ 10 ∷ join_lines (m ∷ ls)

-- What a call of `next_event` reads: an event's bytes, an error, or nothing more.
pub data Read : Type 0 where
  broken : Read
  data_of : Bytes → List Bytes → Read  -- with the lines that are left

abbrev pub at_blank : List Bytes → List Bytes → Read → Read
at_blank [] lines rest = rest
at_blank (d ∷ ds) lines rest = data_of (join_lines (d ∷ ds)) lines

-- The loop of `next_event`, over the data lines found.
unfoldable pub next_data : List Bytes → List Bytes → Read
next_data found [] = broken
next_data found (line ∷ lines) =
    let more = next_data (found ++ strip_space (drop 5 line) ∷ []) lines in
    let skip = next_data found lines in
    if starts_with (codes "data:") line
    then more
    else if starts_with (codes ":") line
    then skip
    else if text_eq line []
    then at_blank found lines skip
    else broken

-- `_object`
abbrev pub object : Option Json → Result (Option Fields)
object (some (obj fields)) = ok (some fields)
object (some _) = err engine_unavailable
object none = err engine_unavailable

-- `_event`: nothing where the data is the marker of the end.
unfoldable pub event_of : (Bytes → Option Json) → Bytes → Result (Option Fields)
event_of loads bytes = if text_eq bytes (codes "[DONE]") then ok none else object (loads bytes)
