-- ===== src/Graph/Workspace.antt =====
-- The investigation of a graph: frontend/src/components/graph/TopologyWorkspace.tsx with
-- frontend/src/components/graph/AttackPathFinder.tsx. How a search for paths is answered is an input;
-- texts are compared by code points.
pub mod Laws
mod Tests
use htn.Prelude.{
  ℕ, ◌≤◌, min, String, Bool, true, false, not, ◌&&◌, ◌||◌, Option, none, some, List, [], ◌∷◌, ◌++◌,
  map, filter, foldl, any, add, length, truthy, lookup, Dict, coalesce, ltb, string_eq, ◌==◌,
  if◌then◌else◌,
}
use htn.Prelude.Sort.{sort}
use htn.Stream.Types.{Event}
use htn.Stream.Reducer.{GraphState}
use htn.Graph.Topology.{
  TopologyNode, TopologyEdge, TopologyModel, EdgeLayer, mesh, access, oversight, is_mesh,
  edge_layer, text_before,
}

abbrev pub same_layer : EdgeLayer → EdgeLayer → Bool
same_layer mesh mesh = true
same_layer access access = true
same_layer oversight oversight = true
same_layer _ _ = false

-- `ALL_LAYERS`
abbrev pub workspace_layers : List EdgeLayer
workspace_layers = mesh ∷ access ∷ oversight ∷ []

-- `INITIAL_LAYERS`
abbrev pub initial_layers : List EdgeLayer
initial_layers = mesh ∷ access ∷ []

abbrev pub has_layer : List EdgeLayer → EdgeLayer → Bool
has_layer layers l = any (same_layer l) layers

-- `BlastRadiusResponse`, less the fraction.
pub record BlastRadius : Type 0 where
  pub compromised : List String
  pub reachable : List String

-- The variables of the workspace, and those of its path finder. `open_searches` are the requests
-- that have not been answered.
pub record Workspace : Type 0 where
  pub selected_id : Option String
  pub layers : List EdgeLayer
  pub path : Option (List String)
  pub path_source : String
  pub path_target : String
  pub focus_blast_radius : Bool
  pub paths : Option (List (List String))
  pub error : Option String
  pub loading : Bool
  pub open_searches : List (String × String)

abbrev pub initial_workspace : Workspace
initial_workspace = record {
  selected_id = none;
  layers = initial_layers;
  path = none;
  path_source = "";
  path_target = "";
  focus_blast_radius = false;
  paths = none;
  error = none;
  loading = false;
  open_searches = [];
}

unfoldable pub toggle_layer : EdgeLayer → List EdgeLayer → List EdgeLayer
toggle_layer l layers =
    if has_layer layers l then filter (λ k. not (same_layer l k)) layers else layers ++ l ∷ []

pub data SearchAnswer : Type 0 where
  answered : List (List String) → SearchAnswer
  failed : String → SearchAnswer

-- A search that starts: its ends must not be blank.
unfoldable pub start_search : (String → String) → Workspace → Workspace
start_search trim w = if trim w.path_source == "" || trim w.path_target == "" then w else record w {
  loading = true;
  error = none;
  open_searches = w.open_searches ++ (trim w.path_source, trim w.path_target) ∷ [];
}

abbrev pub head_of : List (List String) → Option (List String)
head_of [] = none
head_of (p ∷ ps) = some p

-- The callbacks of a request.
unfoldable pub take_paths : SearchAnswer → Workspace → Workspace
take_paths (answered paths) w = record w {
  paths = some paths;
  path = head_of paths;
  loading = false;
}
take_paths (failed message) w = record w {
  paths = none;
  path = none;
  error = some message;
  loading = false;
}

abbrev pub same_search : String × String → String × String → Bool
same_search a b = a.0 == b.0 && a.1 == b.1

-- The first of the open requests for the same ends is no longer open.
unfoldable pub without_search : String × String → List (String × String) → List (String × String)
without_search s [] = []
without_search s (t ∷ ts) =
    let rest = without_search s ts in if same_search s t then ts else t ∷ rest

pub data WorkspaceEvent : Type 0 where
  select : Option String → WorkspaceEvent
  layer_toggled : EdgeLayer → WorkspaceEvent
  path_selected : Option (List String) → WorkspaceEvent
  source_typed : String → WorkspaceEvent
  target_typed : String → WorkspaceEvent
  blast_radius_toggled : WorkspaceEvent
  search_clicked : WorkspaceEvent
  -- Enter in one of the fields, which is not disabled while a search runs
  enter_pressed : WorkspaceEvent
  search_answered : String × String → SearchAnswer → WorkspaceEvent

module _ (trim : String → String) where
  unfoldable pub workspace_step : Workspace → WorkspaceEvent → Workspace
  unfolding toggle_layer start_search take_paths without_search
  workspace_step w (select id) = record w { selected_id = id }
  workspace_step w (layer_toggled l) = record w { layers = toggle_layer l w.layers }
  workspace_step w (path_selected p) = record w { path = p }
  workspace_step w (source_typed s) = record w { path_source = s }
  workspace_step w (target_typed s) = record w { path_target = s }
  workspace_step w blast_radius_toggled = record w { focus_blast_radius = not w.focus_blast_radius }
  workspace_step w search_clicked =
      if w.loading || w.path_source == "" || w.path_target == "" then w else start_search trim w
  workspace_step w enter_pressed = start_search trim w
  workspace_step w (search_answered s a) =
      if any (same_search s) w.open_searches
      then take_paths a (record w { open_searches = without_search s w.open_searches })
      else w

-- The types of the nodes, agents first.
abbrev pub type_before : String → String → Bool
type_before a b = if a == "agent" then true else if b == "agent" then false else text_before a b

unfoldable pub node_types : List TopologyNode → List String
unfolding add sort
node_types nodes = sort type_before (foldl (λ seen n. add n.node_type seen) [] nodes)

-- The badge of a type: how many nodes have it.
abbrev pub type_count : String → List TopologyNode → ℕ
type_count t nodes = length (filter (λ n. n.node_type == t) nodes)

unfoldable pub available_layers : List TopologyEdge → List EdgeLayer
unfolding edge_layer
available_layers edges =
    filter (λ l. any (λ e. same_layer l (edge_layer e.edge_type)) edges) workspace_layers

unfoldable pub focus_ids : Workspace → Option BlastRadius → Option (List String)
focus_ids w none = none
focus_ids w (some b) = if w.focus_blast_radius then some b.reachable else none

-- The share of the graph that is reached, as a fraction.
unfoldable pub reachable_share : Option BlastRadius → List TopologyNode → ℕ × ℕ
reachable_share none nodes = (0, 1)
reachable_share (some b) [] = (0, 1)
reachable_share (some b) (n ∷ ns) = (min (length b.reachable) (length (n ∷ ns)), length (n ∷ ns))

unfoldable pub selected_incidents : Workspace → GraphState → List Event
unfolding lookup
selected_incidents w stream = elim (truthy w.selected_id) [
  | none ↦ []
  | some id ↦ coalesce (lookup id stream.incidents_by_agent) []
]

-- The list of the path finder, unless there is an error.
abbrev pub displayed_paths : Workspace → Option (List (List String))
displayed_paths w = elim (truthy w.error) [ none ↦ w.paths | some message ↦ none ]
