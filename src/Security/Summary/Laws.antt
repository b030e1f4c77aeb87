-- ===== src/Security/Summary/Laws.antt =====
-- What the counts of summary.ts add up to.
use htn.Prelude.{
  ℕ, ◌+◌, ◌≡◌, refl, sym, ap, ◌∙◌, String, Bool, not, ◌&&◌, none, some, List, [], ◌∷◌, map, foldl,
  filter, length, Dict, values, lookup, insert, coalesce, string_eq, ◌==◌, if◌then◌else◌,
  Bool-cases, Option-cases, inl, inr, arith, max,
}
use htn.Prelude.Sums.{total, total-map, total-sort, total-insert}
use htn.Severity.{Severity, neutral}
use htn.Stream.Reducer.{is_compromised}
use htn.Graph.Topology.{TopologyNode, SecurityGraphView}
use htn.Security.Summary.{
  TypeCount, NonAgentNodeTypeSummary, count_node, summary_of, by_type, summarize_non_agent_nodes,
  rank, severity_of_text, worse, worst_severity,
}

abbrev pub is_asset : TopologyNode → Bool
is_asset n = not (n.node_type == "agent")

abbrev pub is_fallen : TopologyNode → Bool
is_fallen n = is_asset n && is_compromised n.security_state

-- The sums of the two columns of the counts.
abbrev totals : Dict String TypeCount → ℕ
totals m = total (λ (c : TypeCount). c.total) (values m)

abbrev falls : Dict String TypeCount → ℕ
falls m = total (λ (c : TypeCount). c.compromised) (values m)

module _ (f : TypeCount → ℕ) where
  -- The total once the entry of a type has been written.
  total-entry :
      (t : String) (c d : TypeCount) (m : Dict String TypeCount)
      → coalesce (lookup t m) d ≡ c
      → f d ≡ 0
      → (new : TypeCount) → total f (values (insert t new m)) + f c ≡ total f (values m) + f new
  total-entry t c d m h zero new = elim (Option-cases (lookup t m)) [
    | inl absent ↦
        let sum = total-insert f t new m in
        let sum' = rw absent at sum in
        let same : d ≡ c = rw absent at h in
        let nothing : f c ≡ 0 = ap f (sym same) ∙ zero in omega arith
    | inr (old, there) ↦
        let sum = total-insert f t new m in
        let sum' = rw there at sum in
        let same : old ≡ c = rw there at h in
        let counted : f c ≡ f old = ap f (sym same) in omega arith
  ]

count_node-totals :
    (m : Dict String TypeCount) (n : TopologyNode)
    → (totals (count_node m n) ≡ totals m + (if is_asset n then 1 else 0))
      × (falls (count_node m n) ≡ falls m + (if is_fallen n then 1 else 0))
unfolding summarize_non_agent_nodes
count_node-totals m n =
    let none_yet : TypeCount = record { total = 0; compromised = 0 } in
    let old = coalesce (lookup n.node_type m) none_yet in
    let new : TypeCount = record {
      total = old.total + 1;
      compromised = old.compromised + (if is_compromised n.security_state then 1 else 0);
    } in
    let more = total-entry (λ (c : TypeCount). c.total) n.node_type old none_yet m refl refl new in
    let worse =
      total-entry (λ (c : TypeCount). c.compromised) n.node_type old none_yet m refl refl new in
    elim (Bool-cases (n.node_type == "agent")) [
      | inl agent ↦ rw agent (omega arith, omega arith)
      | inr asset ↦ rw asset (omega arith, omega arith)
    ]

foldl-count_node :
    (m : Dict String TypeCount) (ns : List TopologyNode)
    → (totals (foldl count_node m ns) ≡ totals m + length (filter is_asset ns))
      × (falls (foldl count_node m ns) ≡ falls m + length (filter is_fallen ns))
foldl-count_node m [] = (omega arith, omega arith)
foldl-count_node m (n ∷ ns) =
    let (first, second) = count_node-totals m n in
    let (more, worse) = foldl-count_node (count_node m n) ns in
    (
      more ∙ elim (Bool-cases (is_asset n)) [
        | inl h ↦ rw h (omega (arith, rw h at first))
        | inr h ↦ rw h (omega (arith, rw h at first))
      ],
      worse ∙ elim (Bool-cases (is_fallen n)) [
        | inl h ↦ rw h (omega (arith, rw h at second))
        | inr h ↦ rw h (omega (arith, rw h at second))
      ],
    )

-- The rows of the summary count every node of the security graph that is not an agent exactly once,
-- and every such node that is compromised exactly once.
summarize_non_agent_nodes-total :
    (g : SecurityGraphView)
    → let rows = summarize_non_agent_nodes g in
      (total (λ (r : NonAgentNodeTypeSummary). r.total) rows ≡ length (filter is_asset g.nodes))
      × (total (λ (r : NonAgentNodeTypeSummary). r.compromised) rows
          ≡ length (filter is_fallen g.nodes))
unfolding summarize_non_agent_nodes
summarize_non_agent_nodes-total g =
    let m = foldl count_node [] g.nodes in
    let (all, fallen) = foldl-count_node [] g.nodes in
    (
      total-sort (λ (r : NonAgentNodeTypeSummary). r.total) by_type (map summary_of m)
          ∙ total-map (λ (r : NonAgentNodeTypeSummary). r.total) summary_of m
          ∙ sym (total-map (λ (c : TypeCount). c.total) (λ e. e.1) m)
          ∙ all
          ∙ omega arith,
      total-sort (λ (r : NonAgentNodeTypeSummary). r.compromised) by_type (map summary_of m)
          ∙ total-map (λ (r : NonAgentNodeTypeSummary). r.compromised) summary_of m
          ∙ sym (total-map (λ (c : TypeCount). c.compromised) (λ e. e.1) m)
          ∙ fallen
          ∙ omega arith,
    )

-- How bad a text is: that of no known state is not bad.
abbrev pub badness : String → ℕ
badness state = elim (severity_of_text state) [ none ↦ 0 | some severity ↦ rank severity ]

worse-rank : (w : Severity) (state : String) → rank (worse w state) ≡ max (rank w) (badness state)
unfolding worse
worse-rank w state = ground arith

foldl-worse :
    (w : Severity) (states : List String)
    → rank (foldl worse w states) ≡ foldl (λ n s. max n (badness s)) (rank w) states
foldl-worse w [] = refl
foldl-worse w (s ∷ states) =
    foldl-worse (worse w s) states
    ∙ ap (λ n. foldl (λ n s. max n (badness s)) n states) (worse-rank w s)

-- The worst severity is as bad as the worst of the texts, by the order of the source.
worst_severity-rank :
    (states : List String)
    → rank (worst_severity states) ≡ foldl (λ n s. max n (badness s)) 0 states
unfolding worst_severity
worst_severity-rank states = foldl-worse neutral states
