-- ===== src/Graph/Canvas/Laws.antt =====
-- The lines on the canvas: TopologyGraph.tsx.
use text.Mathlib.TextEquality.{eq_iff}
use htn.Prelude.{
  ◌≡◌, refl, Bool, true, false, not, ◌&&◌, ◌||◌, List, [], ◌∷◌, ◌++◌, foldl, any, All, string_eq,
  ◌⊎◌, inl, inr, arith,
}
use htn.Prelude.Every.{All-concat}
use htn.Graph.Topology.{TopologyEdge, renderable_edges}
use htn.Graph.Canvas.{
  CanvasNode, CanvasEdge, has_node, joins, canvas_edge, add_edge, add_edges, all_layers,
}

-- No two of the edges join the same nodes.
abbrev pub IsSimple : List CanvasEdge → Type 0
IsSimple [] = Unit
IsSimple (e ∷ es) = (any (joins e.source e.target) es ≡ false) × IsSimple es

any-append :
    (p : CanvasEdge → Bool) (xs ys : List CanvasEdge) → any p (xs ++ ys) ≡ (any p xs || any p ys)
any-append p [] ys = refl
any-append p (x ∷ xs) ys = ground (arith, any-append p xs ys)

joins_swap : (d e : CanvasEdge) → joins d.source d.target e ≡ joins e.source e.target d
unfolding joins
joins_swap d e = ground (
  arith,
  eq_iff d.source e.source,
  eq_iff e.source d.source,
  eq_iff d.target e.target,
  eq_iff e.target d.target,
  eq_iff d.source e.target,
  eq_iff e.target d.source,
  eq_iff d.target e.source,
  eq_iff e.source d.target,
)

IsSimple-concat :
    (es : List CanvasEdge) (e : CanvasEdge)
    → IsSimple es
    → any (joins e.source e.target) es ≡ false
    → IsSimple (es ++ e ∷ [])
IsSimple-concat [] e s h = (refl, tt)
IsSimple-concat (d ∷ es) e (s, ss) h = (
  ground (arith, any-append (joins d.source d.target) es (e ∷ []), joins_swap d e),
  IsSimple-concat es e ss (ground arith),
)

module _ (nodes : List CanvasNode) where
  abbrev pub is_between : CanvasEdge → Bool
  is_between e = has_node e.source nodes && has_node e.target nodes

  abbrev pub has_ends : TopologyEdge → Bool
  has_ends e = has_node e.source nodes && has_node e.target nodes

  abbrev pub IsDrawing : List CanvasEdge → Type 0
  IsDrawing es = IsSimple es × All (λ e. is_between e ≡ true) es

  add_edge-cases :
      (es : List CanvasEdge) (e : TopologyEdge)
      → ((add_edge nodes es e ≡ es)
          × ((not (has_ends e) || any (joins e.source e.target) es) ≡ true))
        ⊎ ((add_edge nodes es e ≡ es ++ canvas_edge e ∷ [])
            × (has_ends e ≡ true)
            × (any (joins e.source e.target) es ≡ false))
  unfolding add_edge
  add_edge-cases es e = ground arith

  add_edge-IsDrawing :
      (es : List CanvasEdge) (e : TopologyEdge) → IsDrawing es → IsDrawing (add_edge nodes es e)
  unfolding canvas_edge
  add_edge-IsDrawing es e (s, a) = elim (add_edge-cases es e) [
    | inl (same, known) ↦ rw same (s, a)
    | inr (new, ends, apart) ↦ rw new (
      IsSimple-concat es (canvas_edge e) s apart,
      All-concat (λ d. is_between d ≡ true) es (canvas_edge e) a ends,
    )
  ]

  add_edge-keeps :
      (p : CanvasEdge → Bool) (es : List CanvasEdge) (e : TopologyEdge)
      → any p es ≡ true
      → any p (add_edge nodes es e) ≡ true
  add_edge-keeps p es e h = elim (add_edge-cases es e) [
    | inl (same, known) ↦ rw same h
    | inr (new, ends, apart) ↦ rw new (ground (arith, any-append p es (canvas_edge e ∷ [])))
  ]

  add_edge-joins :
      (es : List CanvasEdge) (e : TopologyEdge)
      → (not (has_ends e) || any (joins e.source e.target) (add_edge nodes es e)) ≡ true
  unfolding canvas_edge joins
  add_edge-joins es e = elim (add_edge-cases es e) [
    | inl (same, known) ↦ rw same known
    | inr (new, ends, apart) ↦ rw new (
        ground (
          arith,
          any-append (joins e.source e.target) es (canvas_edge e ∷ []),
          eq_iff e.source e.source,
          eq_iff e.target e.target,
        ))
  ]

  -- Whether the nodes of an edge are joined, if both are there.
  abbrev pub is_joined : List CanvasEdge → TopologyEdge → Bool
  is_joined es e = not (has_ends e) || any (joins e.source e.target) es

  is_joined-keeps :
      (es : List CanvasEdge) (d e : TopologyEdge)
      → is_joined es d ≡ true
      → is_joined (add_edge nodes es e) d ≡ true
  is_joined-keeps es d e h = ground (arith, add_edge-keeps (joins d.source d.target) es e)

  foldl-keeps :
      (es : List CanvasEdge) (d : TopologyEdge) (rest : List TopologyEdge)
      → is_joined es d ≡ true
      → is_joined (foldl (add_edge nodes) es rest) d ≡ true
  foldl-keeps es d [] h = h
  foldl-keeps es d (e ∷ rest) h =
      foldl-keeps (add_edge nodes es e) d rest (is_joined-keeps es d e h)

  foldl-joins :
      (es : List CanvasEdge) (rest : List TopologyEdge)
      → IsDrawing es
      → let out = foldl (add_edge nodes) es rest in
        IsDrawing out × All (λ e. is_joined out e ≡ true) rest
  foldl-joins es [] d = (d, tt)
  foldl-joins es (e ∷ rest) d =
      let (drawing, all) = foldl-joins (add_edge nodes es e) rest (add_edge-IsDrawing es e d) in
      (drawing, (foldl-keeps (add_edge nodes es e) e rest (add_edge-joins es e), all))

  -- The lines on the canvas join nodes that are on it, no two join the same nodes, and where an edge
  -- is to be drawn between nodes that are on the canvas, a line joins them.
  pub add_edges-IsDrawing :
      (edges : List TopologyEdge)
      → let out = add_edges nodes edges in
        IsSimple out
        × All (λ e. is_between e ≡ true) out
        × All (λ e. is_joined out e ≡ true) (renderable_edges edges all_layers)
  unfolding add_edges
  add_edges-IsDrawing edges =
      let ((simple, between), all) = foldl-joins [] (renderable_edges edges all_layers) (tt, tt) in
      (simple, between, all)
