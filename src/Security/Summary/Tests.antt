-- ===== src/Security/Summary/Tests.antt =====
-- A small security graph.
use htn.Prelude.{◌≡◌, refl, none, [], ◌∷◌, map, string_eq}
use htn.Severity.{critical}
use htn.Stream.Types.{healthy, compromised, SecurityState}
use htn.Graph.Topology.{TopologyNode, SecurityGraphView}
use htn.Security.Summary.{
  ExposedAsset, summarize_non_agent_nodes, tally_security_states, worst_severity, exposed_assets,
}
use htn.Prelude.{String}

abbrev node : String → String → SecurityState → TopologyNode
node id type state = record { id = id; node_type = type; security_state = state; attrs = [] }

abbrev small : SecurityGraphView
small = record {
  nodes =
      node "a" "agent" compromised
      ∷ node "t" "tool" healthy
      ∷ node "c" "credential" compromised
      ∷ node "u" "tool" compromised
      ∷ [];
  edges = [];
}

rows :
    summarize_non_agent_nodes small
    ≡ record { node_type = "credential"; total = 1; compromised = 1 }
      ∷ record { node_type = "tool"; total = 2; compromised = 1 }
      ∷ []
unfolding summarize_non_agent_nodes
rows = refl

tallied : tally_security_states small none ≡ ("compromised", 3) ∷ ("healthy", 1) ∷ []
unfolding tally_security_states
tallied = refl

worst : worst_severity ("healthy" ∷ "compromised" ∷ "lost" ∷ "recovered" ∷ []) ≡ critical
unfolding worst_severity
worst = refl

exposed : map (λ (a : ExposedAsset). a.id) (exposed_assets small ("c" ∷ "t" ∷ [])) ≡ "c" ∷ []
unfolding exposed_assets
exposed = refl
