-- ===== src/Security/Summary.antt =====
-- Counts over a security graph: frontend/src/lib/security/summary.ts. Types of nodes are sorted by
-- code points where the source asks for the order of the locale.
pub mod Laws
mod Tests
use htn.Prelude.{
  ℕ, ◌+◌, String, Bool, true, not, ◌&&◌, ◌||◌, Option, none, some, List, [], ◌∷◌, map, foldl,
  filter, Dict, lookup, insert, contains, coalesce, ltb, string_eq, ◌==◌, if◌then◌else◌,
}
use htn.Prelude.Sort.{sort}
use htn.Severity.{Severity, critical, high, warn, contained, ok, neutral, security_state_severity}
use htn.Stream.Types.{SecurityState, healthy, suspicious, compromised, quarantined, recovered}
use htn.Stream.Reducer.{is_compromised}
use htn.Graph.Topology.{TopologyNode, SecurityGraphView, text_before}

pub record TypeCount : Type 0 where
  pub total : ℕ
  pub compromised : ℕ

pub record NonAgentNodeTypeSummary : Type 0 where
  pub node_type : String
  pub total : ℕ
  pub compromised : ℕ

-- One round of the loop of `summarizeNonAgentNodes`.
unfoldable pub count_node : Dict String TypeCount → TopologyNode → Dict String TypeCount
count_node counts n =
    let entry = coalesce (lookup n.node_type counts) (record { total = 0; compromised = 0 }) in
    if n.node_type == "agent"
    then counts
    else insert n.node_type
        (record {
          total = entry.total + 1;
          compromised = entry.compromised + (if is_compromised n.security_state then 1 else 0);
        })
        counts

abbrev pub summary_of : String × TypeCount → NonAgentNodeTypeSummary
summary_of (node_type, c) = record {
  node_type = node_type;
  total = c.total;
  compromised = c.compromised;
}

abbrev pub by_type : NonAgentNodeTypeSummary → NonAgentNodeTypeSummary → Bool
by_type a b = text_before a.node_type b.node_type

-- The line opens all that a test runs.
unfoldable pub summarize_non_agent_nodes : SecurityGraphView → List NonAgentNodeTypeSummary
unfolding count_node lookup insert sort
summarize_non_agent_nodes graph = sort by_type (map summary_of (foldl count_node [] graph.nodes))

-- The keys of the histogram are states.
abbrev pub state_text : SecurityState → String
state_text healthy = "healthy"
state_text suspicious = "suspicious"
state_text compromised = "compromised"
state_text quarantined = "quarantined"
state_text recovered = "recovered"

-- `nodeType` is `none` where it is left out, and an empty text counts as left out.
abbrev pub is_of_type : Option String → TopologyNode → Bool
is_of_type none n = true
is_of_type (some t) n = t == "" || n.node_type == t

unfoldable pub tally_state : Option String → Dict String ℕ → TopologyNode → Dict String ℕ
tally_state node_type tally n =
    let state = state_text n.security_state in
    if is_of_type node_type n
    then insert state (coalesce (lookup state tally) 0 + 1) tally
    else tally

unfoldable pub tally_security_states : SecurityGraphView → Option String → Dict String ℕ
unfolding tally_state lookup insert
tally_security_states graph node_type = foldl (tally_state node_type) [] graph.nodes

-- `order.indexOf`
abbrev pub rank : Severity → ℕ
rank neutral = 0
rank ok = 1
rank contained = 2
rank warn = 3
rank high = 4
rank critical = 5

-- `SECURITY_STATE_SEVERITY[state]`, for any text.
abbrev pub severity_of_text : String → Option Severity
severity_of_text state =
    if state == "healthy"
    then some neutral
    else if state == "suspicious"
    then some warn
    else if state == "compromised"
    then some critical
    else if state == "quarantined"
    then some contained
    else if state == "recovered"
    then some ok
    else none

unfoldable pub worse : Severity → String → Severity
worse worst state = elim (severity_of_text state) [
  | none ↦ worst
  | some severity ↦ if ltb (rank worst) (rank severity) then severity else worst
]

unfoldable pub worst_severity : List String → Severity
unfolding worse
worst_severity = foldl worse neutral

pub record ExposedAsset : Type 0 where
  pub id : String
  pub node_type : String
  pub security_state : SecurityState

unfoldable pub exposed_assets : SecurityGraphView → List String → List ExposedAsset
unfolding contains
exposed_assets graph reachable =
    map
      (λ (n : TopologyNode). record {
        id = n.id;
        node_type = n.node_type;
        security_state = n.security_state;
      })
      (filter
        (λ (n : TopologyNode).
          (n.node_type == "credential" || n.node_type == "resource") && contains n.id reachable)
        graph.nodes)
