-- ===== src/Vocabulary/Scenarios.antt =====
-- The attack scenarios and the labels of the configuration, of frontend/src/lib/vocabulary.ts. A list
-- that is left out is empty.
use htn.Prelude.{String, List, [], ◌∷◌, Dict, lookup, find, coalesce, string_eq, ◌==◌}

pub record ScenarioMeta : Type 0 where
  pub value : String
  pub label : String
  pub hint : String
  pub requires : List String
  pub exclusive_with : List String

abbrev pub scenarios : List ScenarioMeta
scenarios =
    record {
      value = "propagation";
      label = "Lateral propagation";
      hint =
          "Probabilistic compromise spread along communication edges, faster within a software type than across.";
      requires = [];
      exclusive_with = "adaptive_attacker" ∷ [];
    }
    ∷ record {
      value = "adaptive_attacker";
      label = "Adaptive attacker";
      hint =
          "Observes the quarantine rate each tick and switches between aggressive and stealthy targeting.";
      requires = [];
      exclusive_with = "propagation" ∷ [];
    }
    ∷ record {
      value = "prompt_injection";
      label = "Indirect prompt injection";
      hint =
          "A compromised LLM-backed agent tries to extract a neighbour's confidential token. Needs real agents.";
      requires = "real_agent_count" ∷ [];
      exclusive_with = [];
    }
    ∷ record {
      value = "sentinel_compromise";
      label = "Sentinel subversion";
      hint =
          "A sentinel watching a compromised agent is itself subverted, then suppresses detection and poisons threat memory.";
      requires = "sentinel_count" ∷ "sentinel_compromise_rate" ∷ [];
      exclusive_with = [];
    }
    ∷ record {
      value = "attestation";
      label = "Attestation replay";
      hint = "A compromised agent presents a stale attestation nonce and is accepted.";
      requires = "sentinel_count" ∷ "attestation_replay_rate" ∷ [];
      exclusive_with = [];
    }
    ∷ record {
      value = "byzantine_collusion";
      label = "Byzantine collusion";
      hint =
          "Two compromised agents jointly exceed credential scope on a credential neither legitimately holds.";
      requires = "credential_count" ∷ "byzantine_collusion_rate" ∷ [];
      exclusive_with = [];
    }
    ∷ []

unfoldable pub scenario_meta : String → ScenarioMeta
scenario_meta value =
    coalesce (find (λ (s : ScenarioMeta). s.value == value) scenarios)
      (record { value = value; label = value; hint = ""; requires = []; exclusive_with = [] })

-- `CONFIG_LABEL`
abbrev pub config_labels : Dict String String
config_labels =
    ("seed", "Seed")
    ∷ ("node_count", "Agents")
    ∷ ("edge_density", "Edge density")
    ∷ ("software_type_count", "Software diversity")
    ∷ ("p_same", "Same-stack infection rate")
    ∷ ("p_cross", "Cross-stack infection rate")
    ∷ ("max_ticks", "Max ticks")
    ∷ ("detector_sensitivity", "Detector sensitivity")
    ∷ ("defense_enabled", "Defense")
    ∷ ("initial_compromised", "Initial foothold")
    ∷ ("real_agent_count", "LLM-backed agents")
    ∷ ("model_provider", "Model provider")
    ∷ ("tool_count", "Tools")
    ∷ ("credential_count", "Credentials")
    ∷ ("resource_count", "Resources")
    ∷ ("sentinel_count", "Sentinels")
    ∷ ("adaptive_detection_threshold", "Adaptive threshold")
    ∷ ("false_quarantine_rate", "False-quarantine rate")
    ∷ ("sentinel_compromise_rate", "Sentinel-subversion rate")
    ∷ ("attestation_replay_rate", "Attestation-replay rate")
    ∷ ("byzantine_collusion_rate", "Collusion rate")
    ∷ ("active_scenarios", "Attack scenarios")
    ∷ []

unfoldable pub config_label : String → String
unfolding lookup
config_label key = coalesce (lookup key config_labels) key
