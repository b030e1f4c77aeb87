-- ===== src/Graph/Labels.antt =====
-- Where the labels of the graph go: `drawOverlay` of frontend/src/components/graph/TopologyGraph.tsx.
-- Coordinates are whole pixels; the place and the radius of a node on the screen and the width of a
-- text are the renderer's.
pub mod Laws
mod Tests
use htn.Prelude.{
  ℕ, String, Bool, true, false, not, ◌&&◌, ◌||◌, Option, none, some, List, [], ◌∷◌, ◌++◌, map, any,
  find, ltb, ℕ_eq, string_eq, ◌==◌, same_option, contains, lookup, if◌then◌else◌,
}
use htn.Prelude.Int.{ℤ, pos, negsuc, ◌+ℤ◌, ◌-ℤ◌, ltb_ℤ}
use htn.Prelude.Sort.{sort}
use htn.Runtime.TestRuns.{is_text}
use htn.Graph.Topology.{TopologyNode}

-- `[number, number, number, number]`
pub record Box : Type 0 where
  pub x : ℤ
  pub y : ℤ
  pub w : ℤ
  pub h : ℤ

unfoldable pub overlaps : Box → Box → Bool
overlaps a b =
    ltb_ℤ a.x (b.x +ℤ b.w)
    && ltb_ℤ b.x (a.x +ℤ a.w)
    && ltb_ℤ a.y (b.y +ℤ b.h)
    && ltb_ℤ b.y (a.y +ℤ a.h)

pub record Label : Type 0 where
  pub id : String
  pub x : ℤ
  pub y : ℤ
  pub radius : ℤ
  pub priority : ℕ

-- The square around a node, which no label may cover.
abbrev pub obstacle : Label → Box
obstacle l = record {
  x = l.x -ℤ l.radius -ℤ pos 4;
  y = l.y -ℤ l.radius -ℤ pos 4;
  w = (l.radius +ℤ pos 4) +ℤ (l.radius +ℤ pos 4);
  h = (l.radius +ℤ pos 4) +ℤ (l.radius +ℤ pos 4);
}

unfoldable pub priority_of : Option String → Option String → List String → TopologyNode → ℕ
unfolding contains
priority_of selected hovered path n =
    if same_option selected (some n.id) || same_option hovered (some n.id)
    then 3
    else if contains n.id path
    then 2
    else if not (n.node_type == "agent")
    then 1
    else 0

unfoldable pub wants_label : ℕ → TopologyNode → Bool
unfolding lookup
wants_label priority n = ltb 0 priority || is_text (lookup "agent_kind" n.attrs) "real"

-- A place for a label, to the left or the right of its node.
abbrev pub place_at : Label → ℤ → Bool → ℤ → Box
place_at l box_width to_left dy = record {
  x = if to_left then l.x -ℤ (l.radius +ℤ pos 6) -ℤ box_width else l.x +ℤ (l.radius +ℤ pos 6);
  y = l.y -ℤ pos 7 +ℤ dy;
  w = box_width;
  h = pos 14;
}

module _ (text_width : String → ℤ) (width : ℤ) where
  -- The two loops over `dx` and `dy`; `outward` is to the left in the left half.
  unfoldable pub candidates : Label → List Box
  candidates l =
      let box_width = text_width l.id +ℤ pos 8 in
      let to_left = ltb_ℤ (l.x +ℤ l.x) width in
      map (place_at l box_width to_left) (pos 0 ∷ negsuc 14 ∷ pos 15 ∷ [])
      ++ map (place_at l box_width (not to_left)) (pos 0 ∷ negsuc 14 ∷ pos 15 ∷ [])

  -- Whether a place is taken: what is selected or hovered is never refused one.
  abbrev pub is_free : List Box → Label → Box → Bool
  is_free placed l box = l.priority == 3 || not (any (overlaps box) placed)

  -- The first candidate that is free.
  unfoldable pub first_free : List Box → Label → Option Box
  unfolding candidates overlaps
  first_free placed l = find (is_free placed l) (candidates l)

  -- The loop over the labels, with `placed` so far.
  unfoldable pub draw_labels : List Box → List Label → List (Label × Box)
  draw_labels placed [] = []
  draw_labels placed (l ∷ ls) = elim (first_free placed l) [
    | none ↦ draw_labels placed ls
    | some box ↦ (l, box) ∷ draw_labels (placed ++ box ∷ []) ls
  ]

  unfoldable pub draw_sorted : List Box → List Label → List (Label × Box)
  unfolding draw_labels sort
  draw_sorted obstacles labels =
      draw_labels obstacles (sort (λ a b. ltb b.priority a.priority) labels)
