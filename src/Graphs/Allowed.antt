-- ===== src/Graphs/Allowed.antt =====
-- What a graph touches that passes the check.
use simple_serving.Prelude.{
  ℕ, ◌≤◌, ◌≡◌, ◌≢◌, ◌⊎◌, Bool, true, false, Option, some, List, [], ◌∷◌, Text, codes, length, All,
}
use simple_serving.Config.{ServiceClass, internal}
use simple_serving.Json.{Json, str, obj, Fields, end, field, get, has_name, fields_within}
use simple_serving.Messages.{is_here}
use simple_serving.Graphs.{
  node_fields, is_node_id, field_strings, count_fields, max_copies, Checked,
}
use simple_serving.Graphs.Files.{TempOwned, IsImage}

module _ (owns : Text → Bool) where
  module _ (cls : ServiceClass) (reader_nodes : List Text) where
    -- What a node of a graph may be and touch.
    pub record IsNode (value : Json) : Type 0 where
      pub fields : Fields
      pub kind : Text
      pub inputs : Fields
      pub is_object : value ≡ obj fields
      pub known : fields_within node_fields fields ≡ true
      pub of_kind : get (codes "class_type") fields ≡ some (str kind)
      pub with_inputs : get (codes "inputs") fields ≡ some (obj inputs)
      pub kind_allowed : (cls ≡ internal) ⊎ (has_name kind reader_nodes ≡ true)
      pub image_allowed : (kind ≢ codes "LoadImage") ⊎ IsImage owns cls (get (codes "image") inputs)
      pub files_owned : All (TempOwned owns) (field_strings inputs)

    abbrev PartsAllowed : Text → Fields → Type 0
    PartsAllowed kind inputs =
        ((cls ≡ internal) ⊎ (has_name kind reader_nodes ≡ true))
        × (All (TempOwned owns) (field_strings inputs)
            × ((kind ≢ codes "LoadImage") ⊎ IsImage owns cls (get (codes "image") inputs)))

    abbrev pub AllNodes : Fields → Type 0
    AllNodes end = Unit
    AllNodes (field id value rest) = ((is_node_id id ≡ true) × IsNode value) × AllNodes rest

-- Copies are nodes of the graph, each once.
abbrev pub AreCopies : Fields → List Text → Type 0
AreCopies graph [] = Unit
AreCopies graph (id ∷ ids) =
    (is_here (get id graph) ≡ true) × ((has_name id ids ≡ false) × AreCopies graph ids)

pub record IsAllowed (cls : ServiceClass) (reader_nodes : List Text) (max_nodes : ℕ)
    (owns : Text → Bool) (value : Option Json) (c : Checked) : Type 0 where
  pub as_sent : value ≡ some (obj c.graph)
  pub size : (1 ≤ count_fields c.graph) × (count_fields c.graph ≤ max_nodes)
  pub nodes_allowed : AllNodes owns cls reader_nodes c.graph
  pub copies_allowed : AreCopies c.graph c.copies × (length c.copies ≤ max_copies)
