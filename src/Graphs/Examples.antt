-- ===== src/Graphs/Examples.antt =====
-- A reader's graph that loads its own upload.
use simple_serving.Prelude.{Bool, ◌≡◌, refl, some, none, List, [], ◌∷◌, Text, text_eq, codes}
use simple_serving.Config.{reader}
use simple_serving.Json.{Json, num, str, arr, obj, done, elem, Fields, end, field, pos, whole}
use simple_serving.Graphs.{Checked, check, with_nonce}

abbrev owns_a : Text → Bool
owns_a name = text_eq name (codes "a.png")

abbrev kinds : List Text
kinds = codes "LoadImage" ∷ (codes "PreviewImage" ∷ [])

abbrev load_node : Text → Json
load_node image = obj (
    field (codes "class_type") (str (codes "LoadImage"))
      (field (codes "inputs") (obj (field (codes "image") (str image) end)) end))

abbrev preview : Fields → Json
preview more = obj (
    field (codes "class_type") (str (codes "PreviewImage")) (
      field (codes "inputs")
        (obj (
          field (codes "images") (arr (elem (str (codes "1")) (elem (num (whole (pos 0))) done)))
            more))
        end))

abbrev graph_of : Text → Fields
graph_of image = field (codes "1") (load_node image) (field (codes "2") (preview end) end)

abbrev checked_graph : Checked
checked_graph = record {
  graph = graph_of (codes "bot-references/a.png [temp]");
  copies = codes "2" ∷ [];
  references = 1;
}

-- Another's upload is refused.
refuses :
    check reader kinds 8 owns_a (some (obj (graph_of (codes "bot-references/b.png [temp]")))) none
    ≡ none
unfolding check simple_serving.Graphs.nodes simple_serving.Graphs.node
    simple_serving.Graphs.is_node_id simple_serving.Graphs.field_strings
    simple_serving.Graphs.uploaded
refuses = refl

nonced :
    with_nonce (codes "n") (graph_of (codes "x"))
    ≡ field
        (codes "1")
        (load_node (codes "x"))
        (field (codes "2") (preview (field (codes "nonce") (str (codes "n")) end)) end)
unfolding with_nonce simple_serving.Graphs.node_with_nonce
nonced = refl
