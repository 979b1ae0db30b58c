-- ===== src/Body/Examples.antt =====
-- Bodies in chunks, at a limit of four bytes.
use simple_serving.Prelude.{◌≡◌, refl, true, false, [], ◌∷◌, codes}
use simple_serving.Body.{
  chunk, disconnect, whole_body, too_large, client_gone, read_loop, read_body,
}

in_two :
    read_body 4 [] (chunk (codes "ab") true ∷ (chunk (codes "cd") false ∷ []))
    ≡ whole_body (codes "abcd")
unfolding read_body read_loop
in_two = refl

fifth_byte : read_body 4 [] (chunk (codes "abc") true ∷ (chunk (codes "de") false ∷ [])) ≡ too_large
unfolding read_body read_loop
fifth_byte = refl

said_first : read_body 4 (codes "5") [] ≡ too_large
unfolding read_body
said_first = refl

left : read_body 4 [] (chunk (codes "a") true ∷ (disconnect ∷ [])) ≡ client_gone
unfolding read_body read_loop
left = refl
