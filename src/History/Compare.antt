-- ===== src/History/Compare.antt =====
-- Two persisted runs side by side: frontend/src/app/history/compare/page.tsx. The comparison itself is
-- that of Comparison.Arms; what a request is answered is an input.
mod Tests
use Prim.Native.String.{◌++◌ as append}
use htn.Prelude.{
  ℕ, String, Bool, true, false, not, ◌&&◌, ◌||◌, Option, none, some, truthy, same_option, string_eq,
  ℕ_eq, ◌==◌, if◌then◌else◌,
}
use htn.Experiment.Config.{ExperimentConfig}
use htn.Comparison.Pair.{Pair, initial_pair, pair_step}
use htn.Comparison.Arms.{
  ArmState, ArmJob, idle_arm, running_arm, CompareInput, clicked, compare_historical, input_of,
}

pub record ExperimentDetail : Type 0 where
  pub seed : ℕ
  pub config : ExperimentConfig
  pub is_complete : Option Bool

pub data DetailState : Type 0 where
  loading : DetailState
  error : String → DetailState
  loaded : ExperimentDetail → DetailState

-- `useExperimentDetailState`: `fetching` is the request that is neither answered nor cancelled.
pub record Detail : Type 0 where
  pub id : Option String
  pub state : DetailState
  pub fetching : Option String

abbrev pub mounted_detail : Detail
mounted_detail = record { id = none; state = loading; fetching = none }

-- The effect on a changed id. What was shown before stays.
unfoldable pub ask_detail : Option String → Detail → Detail
ask_detail id d = if same_option id d.id then d else record d { id = id; fetching = truthy id }

-- The answer to the request for an id.
unfoldable pub take_detail : String → DetailState → Detail → Detail
take_detail id answer d =
    if same_option d.fetching (some id) then record d { state = answer; fetching = none } else d

module _ (Metrics : Type 0) where
  pub record ComparePage : Type 0 where
    pub detail_a : Detail
    pub detail_b : Detail
    pub started_for : Option String
    pub comparison : Pair (ArmState Metrics) (ArmJob × ArmJob)

  -- The parameters of the address, the answers to the two requests, and what settles the arms.
  pub data CompareEvent : Type 0 where
    visited : Option String → Option String → CompareEvent
    answered_a : String → DetailState → CompareEvent
    answered_b : String → DetailState → CompareEvent
    compared : CompareInput Metrics → CompareEvent

module _ {Metrics : Type 0} where
  abbrev pub opened_page : ComparePage Metrics
  opened_page = record {
    detail_a = mounted_detail;
    detail_b = mounted_detail;
    started_for = none;
    comparison = initial_pair idle_arm;
  }

  -- The effect that starts the comparison.
  unfoldable pub start_comparison :
      Option String → Option String → ComparePage Metrics → ComparePage Metrics
  unfolding input_of pair_step
  start_comparison a b p = elim (truthy a) [
    | none ↦ p
    | some id_a ↦ elim (truthy b) [
      | none ↦ p
      | some id_b ↦
          let key = some (append id_a (append ":" id_b)) in
          if same_option p.started_for key then p else record p {
            started_for = key;
            comparison =
                pair_step running_arm p.comparison
                  (input_of (clicked (compare_historical id_a id_b)));
          }
    ]
  ]

  unfoldable pub page_step : ComparePage Metrics → CompareEvent Metrics → ComparePage Metrics
  unfolding ask_detail take_detail start_comparison
  page_step p (visited a b) =
      start_comparison a b
        (record p { detail_a = ask_detail a p.detail_a; detail_b = ask_detail b p.detail_b })
  page_step p (answered_a id answer) = record p { detail_a = take_detail id answer p.detail_a }
  page_step p (answered_b id answer) = record p { detail_b = take_detail id answer p.detail_b }
  page_step p (compared i) = record p {
    comparison = pair_step running_arm p.comparison (input_of i);
  }

-- Whether the banner is shown.
unfoldable pub differs_beyond_defense : DetailState → DetailState → Bool
differs_beyond_defense (loaded a) (loaded b) =
    not (a.seed == b.seed)
    || not (a.config.node_count == b.config.node_count)
    || not (a.config.max_ticks == b.config.max_ticks)
differs_beyond_defense _ _ = false
