-- ===== src/Graph/Workspace/Laws.antt =====
-- The layers that are shown, and the searches: TopologyWorkspace.tsx and AttackPathFinder.tsx.
use htn.Prelude.{◌≡◌, refl, Bool, true, false, not, ◌&&◌, List, [], ◌∷◌, ◌++◌, filter, foldl, arith}
use htn.Graph.Topology.{EdgeLayer, mesh, access, oversight}
use htn.Graph.Workspace.{same_layer, has_layer, toggle_layer}

-- `exclusive or`
abbrev pub differ : Bool → Bool → Bool
differ true b = not b
differ false b = b

has-without :
    (k l : EdgeLayer) (ls : List EdgeLayer)
    → has_layer (filter (λ j. not (same_layer l j)) ls) k ≡ (not (same_layer k l) && has_layer ls k)
has-without k l [] = ground arith
has-without k l (j ∷ ls) = ground (arith, has-without k l ls)

has-concat :
    (k l : EdgeLayer) (ls : List EdgeLayer)
    → has_layer (ls ++ l ∷ []) k ≡ differ (has_layer ls k) (same_layer k l && not (has_layer ls k))
has-concat k l [] = ground arith
has-concat k l (j ∷ ls) = ground (arith, has-concat k l ls)

has-same :
    (k l : EdgeLayer) (ls : List EdgeLayer)
    → same_layer k l ≡ true
    → has_layer ls k ≡ has_layer ls l
has-same mesh mesh ls h = refl
has-same access access ls h = refl
has-same oversight oversight ls h = refl
has-same mesh access ls h = cc
has-same mesh oversight ls h = cc
has-same access mesh ls h = cc
has-same access oversight ls h = cc
has-same oversight mesh ls h = cc
has-same oversight access ls h = cc

toggle_layer-has :
    (k l : EdgeLayer) (ls : List EdgeLayer)
    → has_layer (toggle_layer l ls) k ≡ differ (same_layer k l) (has_layer ls k)
unfolding toggle_layer
toggle_layer-has k l ls = ground (arith, has-without k l ls, has-concat k l ls, has-same k l ls)

abbrev pub toggles : List EdgeLayer → List EdgeLayer → List EdgeLayer
toggles = foldl (λ ls l. toggle_layer l ls)

-- Whether a layer is among those an odd number of times.
abbrev pub is_odd : EdgeLayer → List EdgeLayer → Bool
is_odd k [] = false
is_odd k (l ∷ ls) = differ (same_layer k l) (is_odd k ls)

-- After any clicks, a layer is shown if it was shown at first and was clicked an even number of times,
-- or was hidden at first and clicked an odd number of times.
toggles-has :
    (k : EdgeLayer) (clicks ls : List EdgeLayer)
    → has_layer (toggles ls clicks) k ≡ differ (is_odd k clicks) (has_layer ls k)
toggles-has k [] ls = refl
toggles-has k (l ∷ clicks) ls =
    ground (arith, toggles-has k clicks (toggle_layer l ls), toggle_layer-has k l ls)
