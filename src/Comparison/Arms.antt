-- ===== src/Comparison/Arms.antt =====
-- A comparison: frontend/src/lib/comparison/useComparison.ts and loadHistoricalArm.ts. How each of its
-- two promises settles is an input.
pub mod Laws
mod Tests
use htn.Prelude.{String, Bool, true, false, Option, none, some, List, map, foldl}
use htn.Experiment.Config.{ExperimentConfig}
use htn.Replay.Load.{is_incomplete}
use htn.Comparison.Pair.{
  Pair, PairInput, requested, first_settled, second_settled, initial_pair, pair_step,
}

pub data ArmStatus : Type 0 where
  idle running done error : ArmStatus

module _ (Metrics : Type 0) where
  pub data ArmResult : Type 0 where
    measured : Metrics → Option Bool → ArmResult
    failed : String → ArmResult

  pub record ArmState : Type 0 where
    pub status : ArmStatus
    pub metrics : Option Metrics
    pub error : Option String
    pub incomplete : Option Bool

  pub record HistoricalArmResult : Type 0 where
    pub experiment_id : String
    pub metrics : Metrics
    pub incomplete : Bool

  -- How the promise of an arm settles: as a run, as a recorded one, or with a message.
  pub data Outcome : Type 0 where
    ran : String → Metrics → Outcome
    reconstructed : HistoricalArmResult → Outcome
    threw : String → Outcome

module _ {Metrics : Type 0} where
  -- `loadHistoricalArm`: `Promise.all` over the metrics and the detail's `is_complete`.
  unfoldable pub load_historical_arm :
      String → Option Metrics → Option (Option Bool) → Option (HistoricalArmResult Metrics)
  unfolding is_incomplete
  load_historical_arm id (some m) (some is_complete) =
      some (record { experiment_id = id; metrics = m; incomplete = is_incomplete is_complete })
  load_historical_arm id _ _ = none

  abbrev pub idle_arm : ArmState Metrics
  idle_arm = record { status = idle; metrics = none; error = none; incomplete = none }

  abbrev pub running_arm : ArmState Metrics
  running_arm = record idle_arm { status = running }

  -- What the promise is mapped to before `onArmUpdate`.
  unfoldable pub result_of : Outcome Metrics → ArmResult Metrics
  result_of (ran id m) = measured m none
  result_of (reconstructed r) = measured r.metrics (some r.incomplete)
  result_of (threw message) = failed message

  -- `applyResult`
  unfoldable pub apply_result : ArmResult Metrics → ArmState Metrics
  apply_result (measured m incomplete) = record {
    status = done;
    metrics = some m;
    error = none;
    incomplete = incomplete;
  }
  apply_result (failed message) = record idle_arm { status = error; error = some message }

unfoldable pub build_comparison_configs : ExperimentConfig → ExperimentConfig × ExperimentConfig
build_comparison_configs base_config =
    (record base_config { defense_enabled = true }, record base_config { defense_enabled = false })

-- What the two arms are asked to do: to run, or to load.
pub data ArmJob : Type 0 where
  run_config : ExperimentConfig → ArmJob
  load_experiment : String → ArmJob

pub data CompareRequest : Type 0 where
  run_comparison : ExperimentConfig → CompareRequest
  compare_historical : String → String → CompareRequest

unfoldable pub jobs_of : CompareRequest → ArmJob × ArmJob
jobs_of (run_comparison base_config) =
    let (config_a, config_b) = build_comparison_configs base_config in
    (run_config config_a, run_config config_b)
jobs_of (compare_historical a b) = (load_experiment a, load_experiment b)

pub data CompareInput (Metrics : Type 0) : Type 0 where
  clicked : CompareRequest → CompareInput Metrics
  arm_a_settled : Outcome Metrics → CompareInput Metrics
  arm_b_settled : Outcome Metrics → CompareInput Metrics

module _ {Metrics : Type 0} where
  unfoldable pub input_of : CompareInput Metrics → PairInput (ArmState Metrics) (ArmJob × ArmJob)
  unfolding result_of apply_result jobs_of build_comparison_configs
  input_of (clicked q) = requested (jobs_of q)
  input_of (arm_a_settled o) = first_settled (apply_result (result_of o))
  input_of (arm_b_settled o) = second_settled (apply_result (result_of o))

  unfoldable pub compare :
      Pair (ArmState Metrics) (ArmJob × ArmJob)
      → List (CompareInput Metrics)
      → Pair (ArmState Metrics) (ArmJob × ArmJob)
  unfolding input_of pair_step
  compare c is = foldl (pair_step running_arm) c (map input_of is)
