-- ===== src/Experiment/Config.antt =====
-- The configuration of an experiment: frontend/src/lib/api/schema.d.ts, and the defaults of
-- frontend/src/lib/experiment/presets.ts. Probabilities, rates, the sensitivity and the threshold
-- are counted in hundredths, as every value of the source has two decimals at most.
use htn.Prelude.{ℕ, String, Bool, true, Option, some, List, [], ◌∷◌}
use htn.Prelude.Int.{ℤ, pos}

pub record ExperimentConfig : Type 0 where
  -- `none` is `NaN`
  pub seed : Option ℤ
  pub node_count : ℕ
  pub edge_density : ℕ
  pub software_type_count : ℕ
  pub p_same : ℕ
  pub p_cross : ℕ
  pub max_ticks : ℕ
  pub detector_sensitivity : ℕ
  pub defense_enabled : Bool
  pub initial_compromised : String
  pub real_agent_count : ℕ
  pub model_provider : String
  pub model_name : String
  pub model_max_tokens : ℕ
  pub model_timeout_s : ℕ
  pub model_max_retries : ℕ
  pub model_max_concurrency : ℕ
  pub model_max_requests_per_experiment : ℕ
  pub tool_count : ℕ
  pub credential_count : ℕ
  pub resource_count : ℕ
  pub sentinel_count : ℕ
  pub active_scenarios : Option (List String)
  pub adaptive_detection_threshold : ℕ
  pub false_quarantine_rate : ℕ
  pub sentinel_compromise_rate : ℕ
  pub attestation_replay_rate : ℕ
  pub byzantine_collusion_rate : ℕ

-- `DEFAULT_CONFIG`
abbrev pub default_config : ExperimentConfig
default_config = record {
  seed = some (pos 42);
  node_count = 60;
  edge_density = 2;
  software_type_count = 3;
  p_same = 15;
  p_cross = 3;
  max_ticks = 200;
  detector_sensitivity = 20;
  defense_enabled = true;
  initial_compromised = "highest_degree";
  real_agent_count = 0;
  model_provider = "mock";
  model_name = "qwen-mock";
  model_max_tokens = 64;
  model_timeout_s = 20;
  model_max_retries = 1;
  model_max_concurrency = 4;
  model_max_requests_per_experiment = 500;
  tool_count = 0;
  credential_count = 0;
  resource_count = 0;
  sentinel_count = 0;
  active_scenarios = some ("propagation" ∷ "prompt_injection" ∷ []);
  adaptive_detection_threshold = 30;
  false_quarantine_rate = 0;
  sentinel_compromise_rate = 0;
  attestation_replay_rate = 0;
  byzantine_collusion_rate = 0;
}
