-- ===== src/Overview.antt =====
-- The overview of an assessment: frontend/src/app/page.tsx. Its panels show what other parts derive.
mod Tests
use htn.Prelude.{
  ℕ, String, Bool, true, false, not, ◌&&◌, ◌||◌, Option, none, some, List, [], ◌∷◌, truthy, is_some,
  ltb, ℕ_eq, ◌==◌, if◌then◌else◌,
}
use htn.Experiment.Config.{ExperimentConfig, default_config}

pub data StageState : Type 0 where
  done active pending : StageState

-- A step of the workflow; its description is left out.
pub record WorkflowStage : Type 0 where
  pub id : String
  pub label : String
  pub href : String
  pub state : StageState

abbrev pub stage_state : Bool → Bool → StageState
stage_state true b = done
stage_state false true = active
stage_state false false = pending

-- `has_run` tells whether there is an experiment with a configuration.
unfoldable pub has_run : Option String → Option ExperimentConfig → Bool
has_run experiment_id config = is_some (truthy experiment_id) && is_some config

unfoldable pub build_stages : Bool → ℕ → ℕ → Bool → ℕ → List WorkflowStage
build_stages has_run observed_events compromised has_metrics findings =
    record {
      id = "map";
      label = "Map";
      href = "/topology";
      state = stage_state has_run (not has_run);
    }
    ∷ record {
      id = "attack";
      label = "Attack";
      href = "/";
      state = stage_state (has_run && ltb 0 observed_events) (has_run && (observed_events == 0));
    }
    ∷ record {
      id = "observe";
      label = "Observe";
      href = "/activity";
      state = stage_state (ltb 0 compromised || ltb 20 observed_events) (ltb 0 observed_events);
    }
    ∷ record {
      id = "measure";
      label = "Measure";
      href = "/metrics";
      state = stage_state has_metrics has_run;
    }
    ∷ record {
      id = "remediate";
      label = "Remediate";
      href = "/remediation";
      state = stage_state (ltb 0 findings) has_metrics;
    }
    ∷ record {
      id = "retest";
      label = "Re-test";
      href = "/remediation";
      state = stage_state false (ltb 0 findings);
    }
    ∷ []

-- Whether the form for a new run is shown, and whether its button can be pressed.
abbrev pub shows_configurator : Bool → Bool → Bool
shows_configurator has_run configuring = not has_run || configuring

abbrev pub can_configure : Bool → Bool → Bool
can_configure can_start configuring = can_start || configuring

-- The configuration that the form opens with.
abbrev pub opening_config : Option ExperimentConfig → ExperimentConfig
opening_config none = default_config
opening_config (some c) = c
