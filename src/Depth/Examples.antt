-- ===== src/Depth/Examples.antt =====
-- Depth at one value.
use simple_serving.Prelude.{◌≡◌, refl, codes, some}
use simple_serving.Json.{Json, null, str, arr, obj, done, elem, end, field}
use simple_serving.Depth.{depth}
use simple_serving.Depth.Equivalence.{nesting, depth-nesting}

-- {"messages": [{"content": "x"}, null]}
abbrev body : Json
body = obj (
    field (codes "messages")
      (arr (elem (obj (field (codes "content") (str (codes "x")) end)) (elem null done))) end)

depth-nesting_example : depth body ≡ some (nesting body)
depth-nesting_example = depth-nesting body

depth_body : depth body ≡ some 3
unfolding depth simple_serving.Depth.depth_loop simple_serving.Depth.size
depth_body = refl
