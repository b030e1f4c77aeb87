-- ===== src/Comparison/Arms/Laws.antt =====
-- Two arms of a comparison settle in either order: useComparison.ts.
use htn.Prelude.{◌≡◌, refl, ap, ◌∙◌, false, List, [], ◌∷◌, ◌++◌, map, foldl}
use htn.Comparison.Pair.{Pair, PairInput, requested, pair_step}
use htn.Comparison.Pair.Laws.{played, settled_pair, foldl-pair_step}
use htn.Comparison.Arms.{
  ArmState, ArmJob, Outcome, CompareRequest, CompareInput, clicked, arm_a_settled, arm_b_settled,
  running_arm, jobs_of, result_of, apply_result, input_of, compare,
}

module _ {Metrics : Type 0} where
  -- A click that starts a comparison, and how its arms settle, with clicks between.
  abbrev pub compared :
      CompareRequest
      → List CompareRequest
      → CompareInput Metrics
      → List CompareRequest
      → CompareInput Metrics
      → List (CompareInput Metrics)
  compared q early i late j =
      clicked q ∷ (map clicked early ++ (i ∷ (map clicked late ++ (j ∷ []))))

  map-clicked :
      (qs : List CompareRequest) (is : List (CompareInput Metrics))
      (js : List (PairInput (ArmState Metrics) (ArmJob × ArmJob)))
      → map input_of is ≡ js
      → map input_of (map clicked qs ++ is) ≡ map requested (map jobs_of qs) ++ js
  unfolding input_of
  map-clicked [] is js h = h
  map-clicked (q ∷ qs) is js h = ap (λ ks. requested (jobs_of q) ∷ ks) (map-clicked qs is js h)

  map-compared :
      (q : CompareRequest) (early late : List CompareRequest) (i j : CompareInput Metrics)
      → map input_of (compared q early i late j)
        ≡ played (jobs_of q) (map jobs_of early) (input_of i) (map jobs_of late) (input_of j)
  unfolding input_of
  map-compared q early late i j =
      ap (λ ks. requested (jobs_of q) ∷ ks)
        (map-clicked early _ _ (ap (λ ks. input_of i ∷ ks) (map-clicked late _ _ refl)))

  -- If no comparison is in flight, then a click starts one, further clicks until it is over come to
  -- nothing, and in whichever order the two arms settle, in the end each shows its own outcome, no
  -- comparison is in flight, and one more has been started, on the two jobs of the click.
  pub compare_settles :
      (c : Pair (ArmState Metrics) (ArmJob × ArmJob)) (q : CompareRequest)
      (early late : List CompareRequest) (x y : Outcome Metrics)
      → c.running ≡ false
      → let end =
          settled_pair c (jobs_of q) (apply_result (result_of x)) (apply_result (result_of y)) in
        (compare c (compared q early (arm_a_settled x) late (arm_b_settled y)) ≡ end)
        × (compare c (compared q early (arm_b_settled y) late (arm_a_settled x)) ≡ end)
  unfolding compare
  compare_settles c q early late x y h =
      let (first, second) =
        foldl-pair_step running_arm c (jobs_of q) (map jobs_of early) (map jobs_of late)
          (apply_result (result_of x)) (apply_result (result_of y)) h in
      let run = foldl (pair_step running_arm) c in
      (
        ap run (map-compared q early late (arm_a_settled x) (arm_b_settled y)) ∙ first,
        ap run (map-compared q early late (arm_b_settled y) (arm_a_settled x)) ∙ second,
      )
