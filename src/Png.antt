-- ===== src/Png.antt =====
-- simple_serving/pictures/graphs.py: `strip_png`, the picture without its text chunks, which hold
-- the prompt. Bytes are numbers; `data[at:]` is the list that is left. The loop runs on fuel, one
-- more than the bytes, and `no_fuel` stands for fuel that is used up.
pub mod Chunks
pub mod Stripping
mod Examples
use simple_serving.Prelude.{
  ℕ, zero, suc, ◌+◌, ◌*◌, Bool, true, false, ◌||◌, not, List, [], ◌∷◌, ◌++◌, ltb, if◌then◌else◌,
  length, take, drop, text_eq, codes,
}

-- `NotPng` with its two messages, or the kept chunks.
pub data Stripped {ℓ} (A : Type ℓ) : Type ℓ where
  kept : A → Stripped A
  not_a_png truncated_png no_fuel : Stripped A

-- `PNG_SIGNATURE`
abbrev pub signature : List ℕ
signature = 0x89 ∷ 0x50 ∷ 0x4e ∷ 0x47 ∷ 0x0d ∷ 0x0a ∷ 0x1a ∷ 0x0a ∷ []

-- Membership in `KEPT_CHUNKS`.
unfoldable pub is_kept : List ℕ → Bool
is_kept kind =
    text_eq kind (codes "IHDR")
    || text_eq kind (codes "PLTE")
    || text_eq kind (codes "tRNS")
    || text_eq kind (codes "IDAT")
    || text_eq kind (codes "IEND")

unfoldable pub is_end : List ℕ → Bool
is_end kind = text_eq kind (codes "IEND")

-- `int.from_bytes(…, "big")`
abbrev pub from_bytes : ℕ → List ℕ → ℕ
from_bytes acc [] = acc
from_bytes acc (b ∷ bs) = from_bytes (acc * 256 + b) bs

abbrev pub also : List (List ℕ) → Stripped (List (List ℕ)) → Stripped (List (List ℕ))
also here (kept more) = kept (here ++ more)
also here not_a_png = not_a_png
also here truncated_png = truncated_png
also here no_fuel = no_fuel

abbrev pub chunk_length : List ℕ → ℕ
chunk_length rest = from_bytes 0 (take 4 rest)

abbrev pub chunk_kind : List ℕ → List ℕ
chunk_kind rest = take 4 (drop 4 rest)

-- The chunk at the head of `rest`, if it is to be kept.
unfoldable pub kept_here : ℕ → List ℕ → List (List ℕ)
kept_here end rest = if is_kept (chunk_kind rest) then take end rest ∷ [] else []

-- The `while` loop, with what it appends to `kept`.
unfoldable pub strip_loop : ℕ → List ℕ → Stripped (List (List ℕ))
strip_loop zero rest = no_fuel
strip_loop (suc fuel) rest =
    let end = 12 + chunk_length rest in
    let more = strip_loop fuel (drop end rest) in
    if ltb (length rest) 8
    then kept []
    else if ltb (length rest) end
    then truncated_png
    else if is_end (chunk_kind rest)
    then kept (kept_here end rest)
    else also (kept_here end rest) more

-- `b"".join`
abbrev pub join : List (List ℕ) → List ℕ
join [] = []
join (b ∷ bs) = b ++ join bs

-- `if len(kept) < 3`, where `kept` begins with the signature, and the join.
abbrev pub finish : Stripped (List (List ℕ)) → Stripped (List ℕ)
finish (kept chunks) = if ltb (length chunks) 2 then not_a_png else kept (signature ++ join chunks)
finish not_a_png = not_a_png
finish truncated_png = truncated_png
finish no_fuel = no_fuel

unfoldable pub strip_png : List ℕ → Stripped (List ℕ)
strip_png bytes =
    if ltb (length bytes) 8 || not (text_eq (take 8 bytes) signature)
    then not_a_png
    else finish (strip_loop (suc (length bytes)) (drop 8 bytes))
