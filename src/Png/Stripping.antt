-- ===== src/Png/Stripping.antt =====
-- `strip_png` keeps exactly the chunks that make the picture.
use simple_serving.Prelude.{
  append_assoc_lem, append_nil_lem, ℕ, zero, suc, ◌+◌, ◌≤◌, ◌<◌, ◌≡◌, ◌≢◌, refl, ap, sym, ◌∙◌,
  arith, inl, inr, false, List, [], ◌∷◌, ◌++◌, map, length, length-append, All, ltb, if◌then◌else◌,
  text_eq, codes, eq_of_text_eq, Bool-cases,
}
use simple_serving.Png.{
  kept, signature, is_kept, is_end, also, chunk_length, kept_here, strip_loop, join, finish,
  strip_png,
}
use simple_serving.Png.Chunks.{
  Chunk, IsChunk, encode, encode_all, length-encode, chunk_length-encode, chunk_kind-encode,
  take-encode, drop-encode,
}

-- What the loop keeps of one chunk.
abbrev kept_of : Chunk → List (List ℕ)
kept_of c = if is_kept c.kind then encode c ∷ [] else []

module _ (c : Chunk) (h : IsChunk c) (rest : List ℕ) where
  not_short : ltb (length (encode c ++ rest)) 8 ≡ false
  not_short = ground (arith, length-append (encode c) rest, length-encode c h rest)

  not_truncated : ltb (length (encode c ++ rest)) (12 + chunk_length (encode c ++ rest)) ≡ false
  not_truncated =
      ground
        (arith, length-append (encode c) rest, length-encode c h rest, chunk_length-encode c h rest)

  kept_here-encode : kept_here (12 + chunk_length (encode c ++ rest)) (encode c ++ rest) ≡ kept_of c
  unfolding kept_here
  kept_here-encode = rw (chunk_kind-encode c h rest, take-encode c h rest) refl

  strip_loop-encode :
      (fuel : ℕ)
      → strip_loop (suc fuel) (encode c ++ rest)
        ≡ (if is_end c.kind then kept (kept_of c) else also (kept_of c) (strip_loop fuel rest))
  unfolding strip_loop
  strip_loop-encode fuel =
      rw
        (
          not_short,
          not_truncated,
          kept_here-encode,
          chunk_kind-encode c h rest,
          drop-encode c h rest,
        )
        refl

-- The chunks of a list that are kept.
abbrev pub kept_only : List Chunk → List Chunk
kept_only [] = []
kept_only (c ∷ cs) = let rest = kept_only cs in if is_kept c.kind then c ∷ rest else rest

abbrev pub IsEnd : Chunk → Type 0
IsEnd e = IsChunk e × (e.kind ≡ codes "IEND")

-- A chunk of a picture before its end.
abbrev pub IsInner : Chunk → Type 0
IsInner c = IsChunk c × (c.kind ≢ codes "IEND")

is_end-IsInner : (c : Chunk) → IsInner c → is_end c.kind ≡ false
unfolding is_end
is_end-IsInner c h = elim (Bool-cases (text_eq c.kind (codes "IEND"))) [
  | inl e ↦ absurd (h.1 (eq_of_text_eq c.kind (codes "IEND") e))
  | inr e ↦ e
]

strip_loop-end :
    (fuel : ℕ) (e : Chunk) (junk : List ℕ)
    → IsEnd e
    → strip_loop (suc fuel) (encode e ++ junk) ≡ kept (encode e ∷ [])
unfolding is_end is_kept
strip_loop-end fuel e junk h = rw (strip_loop-encode e h.0 junk fuel, h.1) refl

also-kept_of :
    (c : Chunk) (cs : List Chunk) (e : Chunk)
    → also (kept_of c) (kept (map encode (kept_only cs) ++ encode e ∷ []))
      ≡ kept (map encode (kept_only (c ∷ cs)) ++ encode e ∷ [])
also-kept_of c cs e = elim (Bool-cases (is_kept c.kind)) [ inl x ↦ rw x refl | inr x ↦ rw x refl ]

strip_loop-encode_all :
    (fuel : ℕ) (cs : List Chunk) (e : Chunk) (junk : List ℕ)
    → length cs < fuel
    → All IsInner cs
    → IsEnd e
    → strip_loop fuel (encode_all cs ++ (encode e ++ junk))
      ≡ kept (map encode (kept_only cs) ++ encode e ∷ [])
strip_loop-encode_all zero cs e junk l h k = absurd (omega arith)
strip_loop-encode_all (suc fuel) [] e junk l h k = strip_loop-end fuel e junk k
strip_loop-encode_all (suc fuel) (c ∷ cs) e junk l h k =
    let ih = strip_loop-encode_all fuel cs e junk (omega arith) h.1 k in
    let s = strip_loop-encode c h.0.0 (encode_all cs ++ (encode e ++ junk)) fuel in
    let t = append_assoc_lem (encode c) (encode_all cs) (encode e ++ junk) in
    rw (t, s, is_end-IsInner c h.0, ih) (also-kept_of c cs e)

join-map-encode :
    (cs : List Chunk) (e : Chunk)
    → join (map encode cs ++ encode e ∷ []) ≡ encode_all cs ++ encode e
join-map-encode [] e = append_nil_lem (encode e)
join-map-encode (c ∷ cs) e =
    ap (◌++◌ (encode c)) (join-map-encode cs e)
    ∙ sym (append_assoc_lem (encode c) (encode_all cs) (encode e))

length-map-encode :
    (cs : List Chunk) (e : Chunk) → length (map encode cs ++ encode e ∷ []) ≡ suc (length cs)
length-map-encode [] e = refl
length-map-encode (c ∷ cs) e = ap suc (length-map-encode cs e)

length-encode_all : (cs : List Chunk) → All IsInner cs → length cs ≤ length (encode_all cs)
length-encode_all [] h = omega arith
length-encode_all (c ∷ cs) h = omega (
  arith,
  length-encode_all cs h.1,
  length-append (encode c) (encode_all cs),
  length-encode c h.0.0 [],
)

finish-kept :
    (cs : List Chunk) (e : Chunk)
    → 1 ≤ length cs
    → finish (kept (map encode cs ++ encode e ∷ []))
      ≡ kept (signature ++ (encode_all cs ++ encode e))
finish-kept cs e h =
    let l = length-map-encode cs e in
    let t : ltb (length (map encode cs ++ encode e ∷ [])) 2 ≡ false = ground arith in
    rw (t, join-map-encode cs e) refl

strip_png-signature :
    (rest : List ℕ)
    → strip_png (signature ++ rest) ≡ finish (strip_loop (suc (length (signature ++ rest))) rest)
unfolding strip_png
strip_png-signature rest =
    let t : ltb (length (signature ++ rest)) 8 ≡ false = ground arith in rw t refl

-- A file that is a PNG's signature, well-formed chunks of which at least one is kept, a well-formed
-- `IEND` and any bytes after it: what `strip_png` returns is the signature, the chunks of the kept
-- kinds in their order and byte for byte, and `IEND`. Every other chunk and what follows `IEND` is
-- gone, and the loop ends.
pub strip_png_encoded :
    (cs : List Chunk) (e : Chunk) (junk : List ℕ)
    → All IsInner cs
    → IsEnd e
    → 1 ≤ length (kept_only cs)
    → strip_png (signature ++ (encode_all cs ++ (encode e ++ junk)))
      ≡ kept (signature ++ (encode_all (kept_only cs) ++ encode e))
strip_png_encoded cs e junk h k m =
    let bytes = encode_all cs ++ (encode e ++ junk) in
    let enough : length cs < suc (length (signature ++ bytes)) =
      omega (arith, length-encode_all cs h, length-append (encode_all cs) (encode e ++ junk)) in
    strip_png-signature bytes
    ∙ ap finish (strip_loop-encode_all (suc (length (signature ++ bytes))) cs e junk enough h k)
    ∙ finish-kept (kept_only cs) e m
