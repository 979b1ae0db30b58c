-- ===== src/Png/Examples.antt =====
-- Witnesses of the theorem on `strip_png`: a header, a text chunk that holds a prompt, and the end.
use simple_serving.Prelude.{
  ℕ, ◌≡◌, refl, arith, ◌≤◌, List, [], ◌∷◌, ◌++◌, codes, length, ne_of_text_eq,
}
use simple_serving.Png.{kept, signature, is_kept, strip_png}
use simple_serving.Png.Chunks.{Chunk, encode, encode_all}
use simple_serving.Png.Stripping.{IsInner, IsEnd, kept_only, strip_png_encoded}

abbrev check_sum : List ℕ
check_sum = 1 ∷ 2 ∷ 3 ∷ 4 ∷ []

abbrev header : Chunk
header = record { size = 0 ∷ 0 ∷ 0 ∷ 1 ∷ []; kind = codes "IHDR"; body = 7 ∷ []; crc = check_sum }

abbrev prompt : Chunk
prompt = record {
  size = 0 ∷ 0 ∷ 0 ∷ 2 ∷ [];
  kind = codes "tEXt";
  body = 104 ∷ 105 ∷ [];
  crc = check_sum;
}

abbrev end : Chunk
end = record { size = 0 ∷ 0 ∷ 0 ∷ 0 ∷ []; kind = codes "IEND"; body = []; crc = check_sum }

header_fits : IsInner header
header_fits = (
  record { size_4 = refl; kind_4 = refl; crc_4 = refl; body_size = refl },
  ne_of_text_eq header.kind (codes "IEND") refl,
)

prompt_fits : IsInner prompt
prompt_fits = (
  record { size_4 = refl; kind_4 = refl; crc_4 = refl; body_size = refl },
  ne_of_text_eq prompt.kind (codes "IEND") refl,
)

end_fits : IsEnd end
end_fits = (record { size_4 = refl; kind_4 = refl; crc_4 = refl; body_size = refl }, refl)

keeps_header : 1 ≤ length (kept_only (header ∷ prompt ∷ []))
unfolding is_kept
keeps_header = omega arith

strip_png_encoded_example :
    strip_png (signature ++ (encode_all (header ∷ prompt ∷ []) ++ (encode end ++ 9 ∷ [])))
    ≡ kept (signature ++ (encode_all (header ∷ []) ++ encode end))
unfolding is_kept
strip_png_encoded_example =
    strip_png_encoded (header ∷ prompt ∷ []) end (9 ∷ []) (header_fits, (prompt_fits, tt)) end_fits
      keeps_header
