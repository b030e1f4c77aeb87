-- ===== src/Graph/Tests.antt =====
-- Drawing a small mesh and a swarm with a replacement.
use htn.Prelude.{◌≡◌, refl, String, Bool, true, Option, none, some, List, [], ◌∷◌, string_eq}
use htn.Stream.Types.{healthy}
use htn.Graph.Topology.{TopologyEdge, EdgeLayer, renderable_edges, mesh_neighbors}
use htn.Graph.Swarm.{WorkerView, handoff, swarm_edges}

abbrev edge : String → String → String → TopologyEdge
edge s t kind = record { source = s; target = t; edge_type = kind }

abbrev edges : List TopologyEdge
edges =
    edge "a" "b" "communicates_with"
    ∷ edge "b" "a" "trusts"
    ∷ edge "a" "a" "trusts"
    ∷ edge "s" "a" "monitors"
    ∷ []

abbrev all_layers : EdgeLayer → Bool
all_layers _ = true

drawn :
    renderable_edges edges all_layers
    ≡ edge "a" "b" "communicates_with" ∷ edge "s" "a" "monitors" ∷ []
unfolding renderable_edges
drawn = refl

neighbors : mesh_neighbors edges "b" ≡ "a" ∷ []
unfolding mesh_neighbors
neighbors = refl

abbrev worker : String → List String → Option String → WorkerView
worker id upstream replaces = record {
  id = id;
  role = "role";
  security_state = healthy;
  upstream = upstream;
  replaces = replaces;
  model_backed = true;
  current_task = none;
  quarantine_reason = none;
}

abbrev team : List WorkerView
team = worker "r" [] none ∷ worker "w" ("r" ∷ "gone" ∷ []) none ∷ worker "q" [] (some "r") ∷ []

handoffs : swarm_edges team ≡ handoff "r" "w" ∷ handoff "q" "w" ∷ []
unfolding swarm_edges
handoffs = refl
