-- ===== src/History/Selection/Tests.antt =====
-- A third pick takes the place of the first.
use htn.Prelude.{◌≡◌, refl, not, some, [], ◌∷◌, contains, string_eq}
use htn.History.Selection.{toggle_select, compare_link}
use htn.History.Selection.Laws.{IsPair, toggles, toggle_select-toggles}

third : compare_link (toggles [] ("a" ∷ "b" ∷ "c" ∷ [])) ≡ some "/history/compare?a=b&b=c"
unfolding toggle_select compare_link
third = refl

toggle_select-toggles_example :
    let s = toggles [] ("a" ∷ "b" ∷ []) in
    IsPair s
    × IsPair (toggle_select "a" s)
    × (contains "a" (toggle_select "a" s) ≡ not (contains "a" s))
toggle_select-toggles_example = toggle_select-toggles ("a" ∷ "b" ∷ []) "a"
