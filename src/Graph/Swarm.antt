-- ===== src/Graph/Swarm.antt =====
-- The graph of a live swarm: frontend/src/lib/runtime/swarmModel.ts. How a number is written is an
-- argument.
use Prim.Native.String.{◌++◌ as append}
use htn.Prelude.{
  ℕ, String, Bool, true, ◌&&◌, Option, none, some, List, [], ◌∷◌, ◌++◌, map, Dict, lookup, contains,
  truthy, length, string_eq, if◌then◌else◌,
}
use htn.Stream.Types.{SecurityState, Json, NodeView}
use htn.Stream.Reducer.{GraphState, same_experiment}
use htn.Graph.Collect.{none_seen, first_of_each}
use htn.Graph.Topology.{TopologyNode, TopologyEdge, TopologyModel}

-- `WorkerView`, less the fields that are not read. A missing `upstream` is the empty list, which the
-- code puts in its place.
pub record WorkerView : Type 0 where
  pub id : String
  pub role : String
  pub security_state : SecurityState
  pub upstream : List String
  pub replaces : Option String
  pub model_backed : Bool
  pub current_task : Option String
  pub quarantine_reason : Option String

pub record RuntimeSessionSummary : Type 0 where
  pub session_id : String
  pub workers : List WorkerView

abbrev pub json_of_text : Option String → Json
json_of_text none = Json.null
json_of_text (some s) = Json.str s

-- `live`: the stream's nodes, if it is about this session.
unfoldable pub live_nodes : RuntimeSessionSummary → GraphState → Option (Dict String NodeView)
live_nodes summary stream =
    if same_experiment summary.session_id stream.experiment_id then some stream.nodes else none

-- `live?.get(worker.id)?.security_state ?? worker.security_state`
unfoldable pub live_state : Option (Dict String NodeView) → WorkerView → SecurityState
live_state none w = w.security_state
live_state (some nodes) w = elim (lookup w.id nodes) [
  | none ↦ w.security_state
  | some v ↦ v.security_state
]

unfoldable pub worker_node : Option (Dict String NodeView) → WorkerView → TopologyNode
worker_node live w = record {
  id = w.id;
  node_type = "agent";
  security_state = live_state live w;
  attrs =
      ("software_type", Json.str w.role)
      ∷ ("agent_kind", Json.str "real")
      ∷ ("replaces", json_of_text w.replaces)
      ∷ ("model_backed", Json.bool w.model_backed)
      ∷ [];
}

abbrev pub handoff : String → String → TopologyEdge
handoff source target = record { source = source; target = target; edge_type = "delegates_to" }

-- The calls of `add` in the first loop.
unfoldable pub declared : List WorkerView → List TopologyEdge
declared [] = []
declared (w ∷ ws) = map (λ u. handoff u w.id) w.upstream ++ declared ws

-- The calls of `add` for a worker that replaces another one.
unfoldable pub inherited_by : String → String → List WorkerView → List TopologyEdge
inherited_by id replaced [] = []
inherited_by id replaced (o ∷ os) =
    if contains replaced o.upstream
    then handoff id o.id ∷ inherited_by id replaced os
    else inherited_by id replaced os

-- The calls of `add` in the second loop.
unfoldable pub inherited : List WorkerView → List WorkerView → List TopologyEdge
inherited all [] = []
inherited all (w ∷ ws) = elim (truthy w.replaces) [
  | none ↦ inherited all ws
  | some replaced ↦ inherited_by w.id replaced all ++ inherited all ws
]

-- The guard of `add`, and its key.
abbrev pub is_known : List WorkerView → TopologyEdge → Bool
is_known ws e =
    contains e.source (map (λ (w : WorkerView). w.id) ws)
    && contains e.target (map (λ (w : WorkerView). w.id) ws)

abbrev pub handoff_key : TopologyEdge → String
handoff_key e = append e.source (append "|" e.target)

unfoldable pub swarm_edges : List WorkerView → List TopologyEdge
unfolding first_of_each declared inherited inherited_by
swarm_edges ws =
    (first_of_each (is_known ws) handoff_key
      (first_of_each (is_known ws) handoff_key none_seen (declared ws)) (inherited ws ws)).out

module _ (show : ℕ → String) where
  -- The line opens all that a test runs.
  unfoldable pub build_swarm_model : Option RuntimeSessionSummary → GraphState → TopologyModel
  unfolding swarm_edges worker_node live_state live_nodes
  build_swarm_model none stream = record {
    structure_key = "swarm:none";
    nodes = [];
    edges = [];
    mesh_only = true;
  }
  build_swarm_model (some summary) stream =
      let nodes = map (worker_node (live_nodes summary stream)) summary.workers in
      let edges = swarm_edges summary.workers in
      record {
        structure_key = append "swarm:" (
            append summary.session_id
              (append ":" (append (show (length nodes)) (append ":" (show (length edges))))));
        nodes = nodes;
        edges = edges;
        mesh_only = true;
      }
