-- ===== src/Wire/Examples.antt =====
-- A body in three chunks, of which one ends between a return and a line feed.
use simple_serving.Prelude.{◌≡◌, refl, true, List, [], ◌∷◌, ◌++◌, codes, none}
use simple_serving.Errors.{ok}
use simple_serving.Wire.{Bytes, cut, read_lines, data_of, next_data, event_of}
use simple_serving.Wire.Chunks.{body, lines_of, read_lines_whole}

abbrev chunks : List Bytes
chunks = codes "dat" ∷ ((codes "a: {}" ++ 13 ∷ []) ∷ ((10 ∷ 10 ∷ []) ∷ []))

reads : (read_lines chunks []).1 ≡ true
unfolding read_lines
reads = refl

read_lines_whole_example : (read_lines chunks []).0 ≡ lines_of (cut (body chunks))
read_lines_whole_example = read_lines_whole chunks reads

first_event : next_data [] (lines_of (cut (body chunks))) ≡ data_of (codes "{}") []
unfolding next_data
first_event = refl

end_of_events : event_of (λ _. none) (codes "[DONE]") ≡ ok none
unfolding event_of
end_of_events = refl
