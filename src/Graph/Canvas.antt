-- ===== src/Graph/Canvas.antt =====
-- The graph on its canvas: `TopologyGraph` of frontend/src/components/graph/TopologyGraph.tsx. The
-- graph is an undirected one without parallel edges, in which a node cannot be added twice; the
-- positions are those of the layout, which is not modelled.
pub mod Laws
mod Tests
use Prim.Native.String.{◌++◌ as append}
use htn.Prelude.{
  ℕ, ◌+◌, ◌*◌, ◌/◌, ◌%◌, String, Bool, true, false, not, ◌&&◌, ◌||◌, Option, none, some, List, [],
  ◌∷◌, ◌++◌, map, any, foldl, coalesce, contains, same_option, string_eq, ◌==◌, if◌then◌else◌,
}
use htn.Severity.{severity_hex, security_state_severity}
use htn.Graph.Topology.{
  TopologyNode, TopologyEdge, TopologyModel, EdgeLayer, mesh, access, oversight, node_size,
  edge_layer, renderable_edges, text_before,
}

unfoldable pub node_color : TopologyNode → String
unfolding severity_hex security_state_severity
node_color n = severity_hex (security_state_severity n.security_state)

pub record CanvasNode : Type 0 where
  pub id : String
  pub size : ℕ
  pub color : String
  pub node_type : String
  pub z_index : ℕ

pub record CanvasEdge : Type 0 where
  pub source : String
  pub target : String
  pub layer : EdgeLayer
  pub edge_type : String

pub record Canvas : Type 0 where
  pub nodes : List CanvasNode
  pub edges : List CanvasEdge

abbrev pub has_node : String → List CanvasNode → Bool
has_node id nodes = contains id (map (λ (n : CanvasNode). n.id) nodes)

-- `graph.hasEdge`, in either direction.
unfoldable pub joins : String → String → CanvasEdge → Bool
joins a b e = (e.source == a && e.target == b) || (e.source == b && e.target == a)

unfoldable pub canvas_node : TopologyNode → CanvasNode
unfolding node_size node_color
canvas_node n = record {
  id = n.id;
  size = node_size n;
  color = node_color n;
  node_type = n.node_type;
  z_index = if n.node_type == "agent" then 0 else 1;
}

-- The loop over the nodes; a node that is there already is an exception.
unfoldable pub add_nodes : List CanvasNode → List TopologyNode → Option (List CanvasNode)
unfolding canvas_node contains
add_nodes nodes [] = some nodes
add_nodes nodes (n ∷ ns) =
    let rest = add_nodes (nodes ++ canvas_node n ∷ []) ns in
    if has_node n.id nodes then none else rest

unfoldable pub canvas_edge : TopologyEdge → CanvasEdge
unfolding edge_layer
canvas_edge e = record {
  source = e.source;
  target = e.target;
  layer = edge_layer e.edge_type;
  edge_type = e.edge_type;
}

-- The loop over the edges.
unfoldable pub add_edge : List CanvasNode → List CanvasEdge → TopologyEdge → List CanvasEdge
unfolding joins contains
add_edge nodes edges e =
    if not (has_node e.source nodes) || not (has_node e.target nodes)
    then edges
    else if any (joins e.source e.target) edges
    then edges
    else edges ++ canvas_edge e ∷ []

abbrev pub all_layers : EdgeLayer → Bool
all_layers _ = true

unfoldable pub add_edges : List CanvasNode → List TopologyEdge → List CanvasEdge
unfolding add_edge canvas_edge renderable_edges
add_edges nodes edges = foldl (add_edge nodes) [] (renderable_edges edges all_layers)

pub data Built : Type 0 where
  -- there is nothing to draw, and so no graph
  empty : Built
  thrown : Built
  canvas : Canvas → Built

-- The effect on a changed structure.
unfoldable pub build_canvas : TopologyModel → Built
unfolding add_nodes add_edges
build_canvas model = elim (model.nodes) [
  | [] ↦ empty
  | n ∷ ns ↦ elim (add_nodes [] (n ∷ ns)) [
    | none ↦ thrown
    | some nodes ↦ canvas (record { nodes = nodes; edges = add_edges nodes model.edges })
  ]
]

-- The effect on a changed model: only colours change.
abbrev pub recolored : TopologyNode → CanvasNode → CanvasNode
recolored n c = if c.id == n.id then record c { color = node_color n } else c

unfoldable pub recolor : List TopologyNode → List CanvasNode → List CanvasNode
unfolding node_color
recolor ns nodes = foldl (λ cs n. map (recolored n) cs) nodes ns

-- `Live`, less the model. A set of edges of the path is the list of their keys.
pub record Live : Type 0 where
  pub layers : EdgeLayer → Bool
  pub selected_id : Option String
  pub hovered_id : Option String
  pub path_ids : List String
  pub path_edge_keys : List String
  pub focus_ids : Option (List String)

unfoldable pub path_edge_key : String → String → String
path_edge_key a b = if text_before a b then append a (append "|" b) else append b (append "|" a)

unfoldable pub path_keys : List String → List String
unfolding path_edge_key
path_keys [] = []
path_keys (a ∷ []) = []
path_keys (a ∷ b ∷ rest) = path_edge_key a b ∷ path_keys (b ∷ rest)

-- The effect on the props; what is hovered stays.
unfoldable pub set_live :
    (EdgeLayer → Bool) → Option String → Option (List String) → Option (List String) → Live → Live
unfolding path_keys
set_live layers selected_id highlight_path focus_ids live =
    let path = coalesce highlight_path [] in
    record live {
      layers = layers;
      selected_id = selected_id;
      path_ids = path;
      path_edge_keys = path_keys path;
      focus_ids = focus_ids;
    }

-- Hovering, on and off a node.
abbrev pub hover : Option String → Live → Live
hover id live = record live { hovered_id = id }

unfoldable pub is_dimmed : Live → String → Bool
unfolding contains
is_dimmed live id = elim (live.path_ids) [
  | [] ↦ elim (live.focus_ids) [ none ↦ false | some focus ↦ not (contains id focus) ]
  | a ∷ rest ↦ not (contains id (a ∷ rest))
]

-- What `nodeReducer` changes: whether the colour is dimmed, and the height.
pub record NodeLook : Type 0 where
  pub dimmed : Bool
  pub z_index : ℕ

unfoldable pub node_look : Live → CanvasNode → NodeLook
unfolding is_dimmed
node_look live n = record {
  dimmed = is_dimmed live n.id;
  z_index =
      if same_option live.selected_id (some n.id) || contains n.id live.path_ids
      then 2
      else n.z_index;
}

-- What `edgeReducer` returns: `plain` has the colour of its layer, dimmed or not.
pub data EdgeLook : Type 0 where
  hidden : EdgeLook
  path_step : EdgeLook
  selection : EdgeLook
  plain : EdgeLayer → Bool → EdgeLook

unfoldable pub edge_look : Live → CanvasEdge → EdgeLook
unfolding is_dimmed path_edge_key
edge_look live e =
    if not (live.layers e.layer)
    then hidden
    else if contains (path_edge_key e.source e.target) live.path_edge_keys
    then path_step
    else if same_option live.selected_id (some e.source)
        || same_option live.selected_id (some e.target)
    then selection
    else plain e.layer (is_dimmed live e.source && is_dimmed live e.target)

-- `dim`, of the number that the six digits of a colour denote: red, green and blue. Anything else
-- that is not such a colour has none.
unfoldable pub dim : Option ℕ → Option (ℕ × ℕ × ℕ)
dim none = none
dim (some value) = some (
  (value / 65536 % 256 + 30 + 2) / 4,
  (value / 256 % 256 + 36 + 2) / 4,
  (value % 256 + 48 + 2) / 4,
)
