-- ===== src/Graph/Topology.antt =====
-- The topology that the graph draws: frontend/src/lib/graph/model.ts, with the layers of
-- frontend/src/lib/vocabulary.ts. Sizes are in tenths of a unit. How a number is written is an
-- argument; texts are compared by code points.
use Prim.Native.Nat.{Ordering}
use Prim.Native.String.{◌++◌ as append, compare}
use htn.Prelude.{
  ℕ, ◌*◌, ◌/◌, String, Bool, true, false, not, ◌&&◌, ◌||◌, Option, none, some, List, [], ◌∷◌, map,
  foldl, Dict, values, lookup, insert, add, coalesce, length, string_eq, ◌==◌, if◌then◌else◌,
}
use htn.Stream.Types.{SecurityState, AgentKind, simulated, real, Json, NodeView, EdgeView}
use htn.Stream.Reducer.{GraphState, index_nodes}
use htn.Runtime.TestRuns.{is_text}
use htn.Graph.Collect.{none_seen, first_of_each}

pub record TopologyNode : Type 0 where
  pub id : String
  pub node_type : String
  pub security_state : SecurityState
  pub attrs : Dict String Json

pub record TopologyEdge : Type 0 where
  pub source : String
  pub target : String
  pub edge_type : String

pub record TopologyModel : Type 0 where
  pub structure_key : String
  pub nodes : List TopologyNode
  pub edges : List TopologyEdge
  pub mesh_only : Bool

-- `SecurityGraphView`: a node has the fields of a `TopologyNode`, an edge those of a `TopologyEdge`
-- and attributes that are not read.
pub record SecurityGraphView : Type 0 where
  pub nodes : List TopologyNode
  pub edges : List TopologyEdge

abbrev pub agent_kind_text : AgentKind → String
agent_kind_text simulated = "simulated"
agent_kind_text real = "real"

-- `{ ...attrs, software_type, agent_kind }`
unfoldable pub overlay_attrs : Dict String Json → NodeView → Dict String Json
overlay_attrs attrs live =
    insert "agent_kind" (Json.str (agent_kind_text live.agent_kind))
      (insert "software_type" (Json.str live.software_type) attrs)

-- A node while only the mesh is known.
unfoldable pub mesh_node : NodeView → TopologyNode
mesh_node n = record {
  id = n.id;
  node_type = "agent";
  security_state = n.security_state;
  attrs = overlay_attrs [] n;
}

abbrev pub mesh_edge : EdgeView → TopologyEdge
mesh_edge e = record { source = e.source; target = e.target; edge_type = "communicates_with" }

-- A node of the security graph, with what the stream knows of it laid over.
unfoldable pub overlay_node : Dict String NodeView → TopologyNode → TopologyNode
overlay_node live n = elim (lookup n.id live) [
  | none ↦ n
  | some v ↦ record n { security_state = v.security_state; attrs = overlay_attrs n.attrs v }
]

unfoldable pub all_agents : List TopologyNode → Bool
all_agents [] = true
all_agents (n ∷ ns) = n.node_type == "agent" && all_agents ns

module _ (show : ℕ → String) where
  unfoldable pub structure_key : String → Option String → ℕ → ℕ → String
  structure_key prefix experiment nodes edges = append prefix (
      append ":" (
        append (coalesce experiment "none")
          (append ":" (append (show nodes) (append ":" (show edges))))))

  -- The line opens all that a test runs.
  unfoldable pub build_topology_model : Option SecurityGraphView → GraphState → TopologyModel
  unfolding structure_key overlay_attrs mesh_node overlay_node all_agents index_nodes lookup insert
  build_topology_model none stream =
      let nodes = map mesh_node (values stream.nodes) in
      let edges = map mesh_edge stream.edges in
      record {
        structure_key = structure_key "stream" stream.experiment_id (length nodes) (length edges);
        nodes = nodes;
        edges = edges;
        mesh_only = true;
      }
  build_topology_model (some graph) stream =
      let live_states = index_nodes [] (values stream.nodes) in
      let nodes = map (overlay_node live_states) graph.nodes in
      record {
        structure_key =
            structure_key "graph" stream.experiment_id (length nodes) (length graph.edges);
        nodes = nodes;
        edges = graph.edges;
        mesh_only = all_agents nodes;
      }

pub data NodeShape : Type 0 where
  circle square diamond hexagon triangle shield : NodeShape

-- `nodeShape`, with the table `NODE_SHAPE`
unfoldable pub node_shape : String → NodeShape
node_shape t =
    if t == "agent"
    then circle
    else if t == "tool" || t == "mcp_server"
    then square
    else if t == "credential"
    then diamond
    else if t == "resource" || t == "memory_store"
    then hexagon
    else if t == "sentinel"
    then triangle
    else if t == "security_control"
    then shield
    else circle

-- `NODE_SIZE[nodeType] ?? 4`
unfoldable pub base_size : String → ℕ
base_size t =
    if t == "agent"
    then 34
    else if t == "tool" || t == "memory_store"
    then 50
    else if t == "mcp_server"
    then 54
    else if t == "credential"
    then 52
    else if t == "resource"
    then 56
    else if t == "sentinel"
    then 66
    else if t == "security_control"
    then 60
    else 40

unfoldable pub node_size : TopologyNode → ℕ
node_size n =
    if n.node_type == "agent" && is_text (lookup "agent_kind" n.attrs) "real"
    then base_size n.node_type * 3 / 2
    else base_size n.node_type

pub data EdgeLayer : Type 0 where
  mesh access oversight : EdgeLayer

abbrev pub layer_text : EdgeLayer → String
layer_text mesh = "mesh"
layer_text access = "access"
layer_text oversight = "oversight"

-- `edgeLayer`, with the table `EDGE_LAYER_OF`
unfoldable pub edge_layer : String → EdgeLayer
edge_layer t =
    if t == "can_access" || t == "uses_credential"
    then access
    else if t == "monitors" || t == "quarantine_authority" || t == "updates_threat_memory"
    then oversight
    else mesh

-- `a < b` on texts
abbrev pub text_before : String → String → Bool
text_before a b = elim (compare a b) [ Ordering.lt ↦ true | _ ↦ false ]

-- The key of `renderableEdges`: the layer and the two ends, the smaller first.
unfoldable pub render_key : TopologyEdge → String
render_key e =
    let join = λ (a b : String).
      append (layer_text (edge_layer e.edge_type)) (append ":" (append a (append ":" b))) in
    if text_before e.source e.target then join e.source e.target else join e.target e.source

-- The two guards of its loop.
abbrev pub is_drawn : (EdgeLayer → Bool) → TopologyEdge → Bool
is_drawn layers e = not (e.source == e.target) && layers (edge_layer e.edge_type)

unfoldable pub renderable_edges : List TopologyEdge → (EdgeLayer → Bool) → List TopologyEdge
unfolding first_of_each render_key edge_layer
renderable_edges edges layers = (first_of_each (is_drawn layers) render_key none_seen edges).out

abbrev pub is_mesh : EdgeLayer → Bool
is_mesh mesh = true
is_mesh _ = false

-- One round of `meshNeighbors`.
unfoldable pub add_neighbor : String → List String → TopologyEdge → List String
add_neighbor node_id out e =
    if not (is_mesh (edge_layer e.edge_type))
    then out
    else if e.source == node_id
    then add e.target out
    else if e.target == node_id
    then add e.source out
    else out

-- The set of `meshNeighbors`, before it is sorted.
unfoldable pub mesh_neighbors : List TopologyEdge → String → List String
unfolding add_neighbor edge_layer add
mesh_neighbors edges node_id = foldl (add_neighbor node_id) [] edges

abbrev pub touches : String → TopologyEdge → Bool
touches node_id e = e.source == node_id || e.target == node_id

-- The key of `incidentEdges`: the type and the other end.
unfoldable pub incident_key : String → TopologyEdge → String
incident_key node_id e =
    append e.edge_type (append ":" (if e.source == node_id then e.target else e.source))

unfoldable pub incident_edges : List TopologyEdge → String → List TopologyEdge
unfolding first_of_each incident_key
incident_edges edges node_id =
    (first_of_each (touches node_id) (incident_key node_id) none_seen edges).out
