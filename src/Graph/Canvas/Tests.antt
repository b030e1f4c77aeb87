-- ===== src/Graph/Canvas/Tests.antt =====
-- A tool that an agent may use and that also monitors it.
use htn.Prelude.{
  ◌≡◌, refl, String, Bool, true, false, none, some, List, [], ◌∷◌, All, lookup, string_eq,
}
use htn.Stream.Types.{healthy}
use htn.Graph.Topology.{
  TopologyNode, TopologyEdge, TopologyModel, EdgeLayer, base_size, mesh, access, oversight,
  renderable_edges,
}
use htn.Graph.Canvas.{
  CanvasNode, CanvasEdge, canvas, thrown, build_canvas, canvas_node, add_edges, all_layers, Live,
  set_live, is_dimmed, node_look, edge_look, hidden, path_step, selection, plain, dim,
}
use htn.Graph.Canvas.Laws.{IsSimple, is_between, is_joined, add_edges-IsDrawing}

abbrev node : String → String → TopologyNode
node id t = record { id = id; node_type = t; security_state = healthy; attrs = [] }

abbrev edge : String → String → String → TopologyEdge
edge s t kind = record { source = s; target = t; edge_type = kind }

abbrev edges : List TopologyEdge
edges = edge "b" "a" "trusts" ∷ edge "a" "t" "can_access" ∷ edge "t" "a" "monitors" ∷ []

abbrev model : TopologyModel
model = record {
  structure_key = "k";
  nodes = node "a" "agent" ∷ node "b" "agent" ∷ node "t" "tool" ∷ [];
  edges = edges;
  mesh_only = false;
}

abbrev line : String → String → EdgeLayer → String → CanvasEdge
line s t layer kind = record { source = s; target = t; layer = layer; edge_type = kind }

abbrev drawn_nodes : List CanvasNode
drawn_nodes =
    record { id = "a"; size = 34; color = "#7b8698"; node_type = "agent"; z_index = 0 }
    ∷ record { id = "b"; size = 34; color = "#7b8698"; node_type = "agent"; z_index = 0 }
    ∷ record { id = "t"; size = 50; color = "#7b8698"; node_type = "tool"; z_index = 1 }
    ∷ []

-- The edge of the oversight layer has no line of its own, so it is hidden with the access layer.
first_layer_only :
    build_canvas model
    ≡ canvas (record {
      nodes = drawn_nodes;
      edges = line "b" "a" mesh "trusts" ∷ line "a" "t" access "can_access" ∷ [];
    })
unfolding build_canvas lookup base_size
first_layer_only = refl

repeated_node :
    build_canvas (record model { nodes = node "a" "agent" ∷ node "a" "tool" ∷ [] }) ≡ thrown
unfolding build_canvas
repeated_node = refl

add_edges-IsDrawing_example :
    let out = add_edges drawn_nodes edges in
    IsSimple out
    × All (λ e. is_between drawn_nodes e ≡ true) out
    × All (λ e. is_joined drawn_nodes out e ≡ true) (renderable_edges edges all_layers)
add_edges-IsDrawing_example = add_edges-IsDrawing drawn_nodes edges

abbrev shown : EdgeLayer → Bool
shown oversight = false
shown _ = true

abbrev at_rest : Live
at_rest = record {
  layers = shown;
  selected_id = none;
  hovered_id = none;
  path_ids = [];
  path_edge_keys = [];
  focus_ids = none;
}

abbrev on_path : Live
unfolding set_live
on_path = set_live shown (some "t") (some ("a" ∷ "b" ∷ [])) none at_rest

looks :
    (edge_look on_path (line "b" "a" mesh "trusts") ≡ path_step)
    × (edge_look on_path (line "a" "t" access "can_access") ≡ selection)
    × (edge_look on_path (line "t" "a" oversight "monitors") ≡ hidden)
    × (edge_look on_path (line "c" "d" mesh "trusts") ≡ plain mesh true)
    × (is_dimmed on_path "t" ≡ true)
    × ((node_look on_path (canvas_node (node "t" "tool"))).z_index ≡ 2)
unfolding edge_look node_look set_live canvas_node on_path
looks = (refl, refl, refl, refl, refl, refl)

mixed : dim (some 15881567) ≡ some (68, 30, 36)
unfolding dim
mixed = refl
