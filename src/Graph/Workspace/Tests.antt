-- ===== src/Graph/Workspace/Tests.antt =====
-- Clicks on the layers, and two searches that overlap.
use htn.Prelude.{◌≡◌, refl, String, some, List, [], ◌∷◌, ◌++◌, foldl}
use htn.Stream.Types.{healthy}
use htn.Graph.Topology.{TopologyNode, mesh, oversight}
use htn.Graph.Workspace.{
  Workspace, initial_workspace, WorkspaceEvent, source_typed, target_typed, search_clicked,
  enter_pressed, search_answered, answered, workspace_step, node_types, available_layers,
  BlastRadius, reachable_share, focus_ids, blast_radius_toggled,
}

abbrev trim : String → String
trim s = s

abbrev run : List WorkspaceEvent → Workspace
run = foldl (workspace_step trim) initial_workspace

abbrev two_searches : List WorkspaceEvent
two_searches =
    source_typed "a"
    ∷ target_typed "b"
    ∷ search_clicked
    ∷ target_typed "c"
    ∷ search_clicked
    ∷ enter_pressed
    ∷ []

-- The button waits for the answer, and the key does not.
overlapping : (run two_searches).open_searches ≡ ("a", "b") ∷ ("a", "c") ∷ []
unfolding workspace_step
overlapping = refl

-- The answer to the first search, if it comes last, is what is shown for the second.
last_answer :
    (run (
      two_searches
      ++ search_answered ("a", "c") (answered (("a" ∷ "c" ∷ []) ∷ []))
        ∷ search_answered ("a", "b") (answered (("a" ∷ "b" ∷ []) ∷ []))
        ∷ [])).path
    ≡ some ("a" ∷ "b" ∷ [])
unfolding workspace_step
last_answer = refl

abbrev node : String → String → TopologyNode
node id t = record { id = id; node_type = t; security_state = healthy; attrs = [] }

types :
    node_types (node "t" "tool" ∷ node "a" "agent" ∷ node "c" "credential" ∷ node "b" "agent" ∷ [])
    ≡ "agent" ∷ "credential" ∷ "tool" ∷ []
unfolding node_types
types = refl

layers :
    available_layers (
      record { source = "t"; target = "a"; edge_type = "monitors" }
      ∷ record { source = "a"; target = "b"; edge_type = "trusts" }
      ∷ [])
    ≡ mesh ∷ oversight ∷ []
unfolding available_layers
layers = refl

shares :
    let b : BlastRadius = record { compromised = "a" ∷ []; reachable = "a" ∷ "b" ∷ [] } in
    (reachable_share (some b) (node "a" "agent" ∷ []) ≡ (1, 1))
    × (focus_ids (run (blast_radius_toggled ∷ [])) (some b) ≡ some ("a" ∷ "b" ∷ []))
unfolding reachable_share focus_ids workspace_step
shares = (refl, refl)
