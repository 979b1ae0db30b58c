-- ===== src/Wire/Chunks.antt =====
-- The chunks that the HTTP client gives do not change the lines.
use simple_serving.Prelude.{
  ℕ, ◌≡◌, ◌≢◌, refl, ap, sym, ◌∙◌, Bool, true, false, ◌==◌, List, [], ◌∷◌, ◌++◌, map, length, ltb,
  Bool-cases, inl, inr, append_assoc_lem, append_nil_lem,
}
use simple_serving.Wire.{
  Bytes, before, cut, strip_return, last_line, within_bound, read_lines, max_line_bytes,
}

-- The body in one piece.
abbrev pub body : List Bytes → Bytes
body [] = []
body (chunk ∷ chunks) = chunk ++ body chunks

-- The lines of a whole body: those that a line feed ends, without a return, and what is left.
abbrev pub lines_of : List Bytes × Bytes → List Bytes
lines_of (lines, pending) = map strip_return lines ++ last_line pending

false_ne_true : false ≢ true
false_ne_true h = cc

-- A cut, and then the cut of what was left with more bytes.
abbrev onward : List Bytes × Bytes → Bytes → List Bytes × Bytes
onward (lines, pending) more = (lines ++ (cut (pending ++ more)).0, (cut (pending ++ more)).1)

onward-before :
    (b : ℕ) (r : List Bytes × Bytes) (more : Bytes)
    → (b == 10) ≡ false
    → onward (before b r) more ≡ before b (onward r more)
onward-before b ([], pending) more h = rw h refl
onward-before b (line ∷ lines, pending) more h = refl

cut-append : (a more : Bytes) → cut (a ++ more) ≡ onward (cut a) more
cut-append [] more = refl
cut-append (b ∷ bs) more = elim (Bool-cases (b == 10)) [
  | inl e ↦ rw (e, cut-append bs more) refl
  | inr e ↦ rw (e, cut-append bs more) (sym (onward-before b (cut bs) more e))
]

pending_before :
    (b : ℕ) (r : List Bytes × Bytes)
    → (b == 10) ≡ false
    → cut r.1 ≡ ([], r.1)
    → cut (before b r).1 ≡ ([], (before b r).1)
pending_before b ([], pending) e h = rw (e, h) refl
pending_before b (line ∷ lines, pending) e h = h

-- What a cut leaves has no line feed.
pending_cut : (bytes : Bytes) → cut (cut bytes).1 ≡ ([], (cut bytes).1)
pending_cut [] = refl
pending_cut (b ∷ bs) = elim (Bool-cases (b == 10)) [
  | inl e ↦ rw e (pending_cut bs)
  | inr e ↦ rw e (pending_before b (cut bs) e (pending_cut bs))
]

map_append {ℓ κ} :
    {A : Type ℓ} {B : Type κ} (f : A → B) (xs ys : List A) → map f (xs ++ ys) ≡ map f xs ++ map f ys
map_append f [] ys = refl
map_append f (x ∷ xs) ys = ap (◌∷◌ (f x)) (map_append f xs ys)

lines_of-onward :
    (r : List Bytes × Bytes) (more : Bytes)
    → lines_of (onward r more) ≡ map strip_return r.0 ++ lines_of (cut (r.1 ++ more))
lines_of-onward (lines, pending) more =
    let rest = cut (pending ++ more) in
    ap (λ x. x ++ last_line rest.1) (map_append strip_return lines rest.0)
    ∙ append_assoc_lem (map strip_return lines) (map strip_return rest.0) (last_line rest.1)

bounded :
    (far : Bool) (lines : List Bytes) (rest : List Bytes × Bool) (want : List Bytes)
    → (rest.1 ≡ true → rest.0 ≡ want)
    → (within_bound far lines rest).1 ≡ true
    → (within_bound far lines rest).0 ≡ lines ++ want
bounded true lines rest want k h = absurd (false_ne_true h)
bounded false lines rest want k h = ap (◌++◌ lines) (k h)

read_lines-pending :
    (chunks : List Bytes) (pending : Bytes)
    → cut pending ≡ ([], pending)
    → (read_lines chunks pending).1 ≡ true
    → (read_lines chunks pending).0 ≡ lines_of (cut (pending ++ body chunks))
unfolding read_lines
read_lines-pending [] pending p h = rw (append_nil_lem pending, p) refl
read_lines-pending (chunk ∷ chunks) pending p h =
    let now = cut (pending ++ chunk) in
    let rest = read_lines chunks now.1 in
    let whole : cut (pending ++ (chunk ++ body chunks)) ≡ onward now (body chunks) =
      ap cut (sym (append_assoc_lem pending chunk (body chunks)))
      ∙ cut-append (pending ++ chunk) (body chunks) in
    bounded (ltb max_line_bytes (length now.1)) (map strip_return now.0) rest
      (lines_of (cut (now.1 ++ body chunks)))
      (read_lines-pending chunks now.1 (pending_cut (pending ++ chunk))) h
    ∙ sym (ap lines_of whole ∙ lines_of-onward now (body chunks))

-- A body that is read to its end gives the lines of the whole body, however it comes in chunks: a
-- line or its end may be cut anywhere.
pub read_lines_whole :
    (chunks : List Bytes)
    → (read_lines chunks []).1 ≡ true
    → (read_lines chunks []).0 ≡ lines_of (cut (body chunks))
read_lines_whole chunks h = read_lines-pending chunks [] refl h
