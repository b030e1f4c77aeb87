-- ===== src/Graph/Labels/Laws.antt =====
-- No label covers a node or another label: TopologyGraph.tsx.
use htn.Prelude.{
  ◌≡◌, refl, ap, String, Bool, true, not, ◌||◌, none, some, List, [], ◌∷◌, ◌++◌, map, filter, any,
  find, ltb, ℕ_eq, ◌==◌, Bool-cases, Option-cases, inl, inr, arith,
}
use htn.Prelude.Int.{ℤ}
use htn.Prelude.Sort.{sort}
use htn.Graph.Labels.{
  Box, Label, overlaps, candidates, is_free, first_free, draw_labels, draw_sorted,
}

find-found : {A : Type 0} (p : A → Bool) (xs : List A) (x : A) → find p xs ≡ some x → p x ≡ true
find-found p [] x h = cc
find-found p (y ∷ xs) x h = ground (arith, find-found p xs x)

find_all : {A : Type 0} (p : A → Bool) (x : A) (xs : List A) → p x ≡ true → find p (x ∷ xs) ≡ some x
find_all p x xs h = rw h refl

module _ (text_width : String → ℤ) (width : ℤ) where
  -- Each label is free of what was placed before it, unless it has the highest priority.
  abbrev pub IsClear : List Box → List (Label × Box) → Type 0
  IsClear placed [] = Unit
  IsClear placed ((l, box) ∷ rest) =
      ((l.priority == 3 || not (any (overlaps box) placed)) ≡ true)
      × IsClear (placed ++ box ∷ []) rest

  abbrev pub is_first : Label → Bool
  is_first l = l.priority == 3

  first_free-found :
      (placed : List Box) (l : Label) (box : Box)
      → first_free text_width width placed l ≡ some box
      → (l.priority == 3 || not (any (overlaps box) placed)) ≡ true
  unfolding first_free
  first_free-found placed l box =
      find-found (is_free text_width width placed l) (candidates text_width width l) box

  first_free-first :
      (placed : List Box) (l : Label)
      → is_first l ≡ true
      → (first_free text_width width placed l ≡ none)
      → ⊥
  unfolding first_free candidates
  first_free-first placed l h e = ground arith

  draw_labels-IsClear :
      (placed : List Box) (ls : List Label)
      → IsClear placed (draw_labels text_width width placed ls)
  unfolding draw_labels
  draw_labels-IsClear placed [] = tt
  draw_labels-IsClear placed (l ∷ ls) = elim (Option-cases (first_free text_width width placed l)) [
    | inl no_place ↦ rw (no_place, IsClear, draw_labels) (draw_labels-IsClear placed ls)
    | inr (box, found) ↦
        rw (found, IsClear, draw_labels)
          (first_free-found placed l box found, draw_labels-IsClear (placed ++ box ∷ []) ls)
  ]

  filter-cons :
      (l : Label) (xs ys : List Label)
      → filter is_first xs ≡ filter is_first ys
      → filter is_first (l ∷ xs) ≡ filter is_first (l ∷ ys)
  filter-cons l xs ys e = elim (Bool-cases (is_first l)) [
    | inl first ↦ rw first (ap (λ zs. l ∷ zs) e)
    | inr other ↦ rw other e
  ]

  draw_labels-first :
      (placed : List Box) (ls : List Label)
      → filter is_first (map (λ (d : Label × Box). d.0) (draw_labels text_width width placed ls))
        ≡ filter is_first ls
  unfolding draw_labels
  draw_labels-first placed [] = refl
  draw_labels-first placed (l ∷ ls) = elim (Option-cases (first_free text_width width placed l)) [
    | inl no_place ↦ elim (Bool-cases (is_first l)) [
      | inl first ↦ absurd (first_free-first placed l first no_place)
      | inr other ↦ rw (no_place, other, draw_labels) (draw_labels-first placed ls)
    ]
    | inr (box, found) ↦
        rw (found, draw_labels)
          (filter-cons l
            (map (λ (d : Label × Box). d.0) (draw_labels text_width width (placed ++ box ∷ []) ls))
            ls (draw_labels-first (placed ++ box ∷ []) ls))
  ]

  -- A label that is drawn covers no node and no label that was drawn before it, unless its node is
  -- selected or hovered; and of the labels for what is selected or hovered all are drawn.
  pub draw_sorted-IsClear :
      (obstacles : List Box) (labels : List Label)
      → let drawn = draw_sorted text_width width obstacles labels in
        IsClear obstacles drawn
        × (filter is_first (map (λ (d : Label × Box). d.0) drawn)
            ≡ filter is_first (sort (λ a b. ltb b.priority a.priority) labels))
  unfolding draw_sorted
  draw_sorted-IsClear obstacles labels =
      let sorted = sort (λ (a b : Label). ltb b.priority a.priority) labels in
      (draw_labels-IsClear obstacles sorted, draw_labels-first obstacles sorted)
