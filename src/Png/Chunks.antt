-- ===== src/Png/Chunks.antt =====
-- An independent description of a PNG: a signature and chunks, each of a length in four bytes, a
-- kind in four, a body of that length and a check sum in four.
use simple_serving.Prelude.{
  append_assoc_lem, ℕ, ◌+◌, ◌≡◌, ap, ◌∙◌, arith, List, [], ◌∷◌, ◌++◌, length, take, drop,
  take-append_length, drop-append_length, length-append,
}
use simple_serving.Png.{from_bytes, chunk_length, chunk_kind}

pub record Chunk : Type 0 where
  pub size : List ℕ
  pub kind : List ℕ
  pub body : List ℕ
  pub crc : List ℕ

pub record IsChunk (c : Chunk) : Type 0 where
  pub size_4 : length c.size ≡ 4
  pub kind_4 : length c.kind ≡ 4
  pub crc_4 : length c.crc ≡ 4
  pub body_size : from_bytes 0 c.size ≡ length c.body

abbrev pub encode : Chunk → List ℕ
encode c = c.size ++ (c.kind ++ (c.body ++ c.crc))

abbrev pub encode_all : List Chunk → List ℕ
encode_all [] = []
encode_all (c ∷ cs) = encode c ++ encode_all cs

module _ (c : Chunk) (h : IsChunk c) (rest : List ℕ) where
  pub length-encode : length (encode c) ≡ 12 + length c.body
  length-encode = omega (
    arith,
    h.size_4,
    h.kind_4,
    h.crc_4,
    length-append c.size (c.kind ++ (c.body ++ c.crc)),
    length-append c.kind (c.body ++ c.crc),
    length-append c.body c.crc,
  )

  split_size : encode c ++ rest ≡ c.size ++ (c.kind ++ ((c.body ++ c.crc) ++ rest))
  split_size =
      append_assoc_lem c.size (c.kind ++ (c.body ++ c.crc)) rest
      ∙ ap (◌++◌ c.size) (append_assoc_lem c.kind (c.body ++ c.crc) rest)

  pub chunk_length-encode : chunk_length (encode c ++ rest) ≡ length c.body
  chunk_length-encode =
      let e : take 4 (encode c ++ rest) ≡ c.size =
        rw (split_size, ← h.size_4)
          (take-append_length c.size (c.kind ++ ((c.body ++ c.crc) ++ rest))) in
      ap (from_bytes 0) e ∙ h.body_size

  pub chunk_kind-encode : chunk_kind (encode c ++ rest) ≡ c.kind
  chunk_kind-encode =
      let e : drop 4 (encode c ++ rest) ≡ c.kind ++ ((c.body ++ c.crc) ++ rest) =
        rw (split_size, ← h.size_4)
          (drop-append_length c.size (c.kind ++ ((c.body ++ c.crc) ++ rest))) in
      ap (take 4) e ∙ rw (← h.kind_4) (take-append_length c.kind ((c.body ++ c.crc) ++ rest))

  pub take-encode : take (12 + chunk_length (encode c ++ rest)) (encode c ++ rest) ≡ encode c
  take-encode = rw chunk_length-encode (rw (← length-encode) (take-append_length (encode c) rest))

  pub drop-encode : drop (12 + chunk_length (encode c ++ rest)) (encode c ++ rest) ≡ rest
  drop-encode = rw chunk_length-encode (rw (← length-encode) (drop-append_length (encode c) rest))
