-- ===== src/Comparison/Arms/Tests.antt =====
-- A comparison of two recorded runs, one of which cannot be loaded.
use htn.Prelude.{ℕ, ◌≡◌, refl, true, some, none, [], ◌∷◌}
use htn.Experiment.Config.{default_config}
use htn.Comparison.Pair.{Pair, initial_pair}
use htn.Comparison.Pair.Laws.{settled_pair}
use htn.Comparison.Arms.{
  ArmState, ArmJob, HistoricalArmResult, load_experiment, run_comparison, compare_historical,
  reconstructed, threw, arm_a_settled, arm_b_settled, idle_arm, load_historical_arm, compare, done,
  error,
}
use htn.Comparison.Arms.Laws.{compared, compare_settles}

abbrev fresh : Pair (ArmState ℕ) (ArmJob × ArmJob)
fresh = initial_pair idle_arm

abbrev loaded_arm : HistoricalArmResult ℕ
loaded_arm = record { experiment_id = "a"; metrics = 3; incomplete = true }

incomplete_record : load_historical_arm "a" (some 3) (some none) ≡ some loaded_arm
unfolding load_historical_arm
incomplete_record = refl

compare_settles_example :
    let x = reconstructed loaded_arm in
    let end =
      settled_pair fresh
        (load_experiment "a", load_experiment "b")
        (record { status = done; metrics = some 3; error = none; incomplete = some true })
        (record { status = error; metrics = none; error = some "gone"; incomplete = none }) in
    let q = compare_historical "a" "b" in
    let again = run_comparison default_config ∷ [] in
    (compare fresh (compared q again (arm_a_settled x) [] (arm_b_settled (threw "gone"))) ≡ end)
    × (compare fresh (compared q again (arm_b_settled (threw "gone")) [] (arm_a_settled x)) ≡ end)
unfolding compare
compare_settles_example =
    compare_settles fresh (compare_historical "a" "b") (run_comparison default_config ∷ []) []
      (reconstructed loaded_arm) (threw "gone") refl
