-- ===== src/Graph/Labels/Tests.antt =====
-- Three nodes close to each other, one of them hovered.
use htn.Prelude.{◌≡◌, refl, String, true, none, some, List, [], ◌∷◌, map, filter, ltb, ℕ}
use htn.Prelude.Int.{ℤ, pos, ◌+ℤ◌, ◌-ℤ◌}
use htn.Prelude.Sort.{sort}
use htn.Stream.Types.{Json, healthy}
use htn.Graph.Topology.{TopologyNode}
use htn.Graph.Labels.{Box, Label, obstacle, priority_of, wants_label, first_free, draw_sorted}
use htn.Graph.Labels.Laws.{IsClear, is_first, draw_sorted-IsClear}

abbrev text_width : String → ℤ
text_width _ = pos 30

abbrev label : String → ℕ → ℕ → Label
label id x priority = record { id = id; x = pos x; y = pos 50; radius = pos 3; priority = priority }

abbrev labels : List Label
labels = label "a" 20 1 ∷ label "b" 40 1 ∷ label "c" 60 3 ∷ []

-- The hovered label is drawn over its neighbour; the others find room above and below.
drawn :
    map
      (λ (d : Label × Box). d.0.id)
      (draw_sorted text_width (pos 300) (map obstacle labels) labels)
    ≡ "c" ∷ "a" ∷ "b" ∷ []
unfolding draw_sorted first_free ◌+ℤ◌ ◌-ℤ◌
drawn = refl

draw_sorted-IsClear_example :
    let drawn = draw_sorted text_width (pos 300) (map obstacle labels) labels in
    IsClear text_width (pos 300) (map obstacle labels) drawn
    × (filter (is_first text_width (pos 300)) (map (λ (d : Label × Box). d.0) drawn)
        ≡ filter (is_first text_width (pos 300)) (sort (λ a b. ltb b.priority a.priority) labels))
draw_sorted-IsClear_example = draw_sorted-IsClear text_width (pos 300) (map obstacle labels) labels

abbrev node : String → TopologyNode
node t = record { id = "n"; node_type = t; security_state = healthy; attrs = [] }

priorities :
    (priority_of (some "n") none ("n" ∷ []) (node "agent") ≡ 3)
    × (priority_of none none ("n" ∷ []) (node "agent") ≡ 2)
    × (priority_of none none [] (node "tool") ≡ 1)
    × (wants_label 0 (record (node "agent") { attrs = ("agent_kind", Json.str "real") ∷ [] })
        ≡ true)
unfolding priority_of wants_label
priorities = (refl, refl, refl, refl)
