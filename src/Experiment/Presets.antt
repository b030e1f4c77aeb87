-- ===== src/Experiment/Presets.antt =====
-- The bounds of the form and its starting points: frontend/src/lib/experiment/presets.ts. Rates and
-- probabilities are in hundredths, as in the configuration.
pub mod Laws
use htn.Prelude.{ℕ, String, Bool, false, ◌&&◌, Option, none, some, List, [], ◌∷◌, min, max, leb}
use htn.Prelude.Int.{ℤ, pos, pos_part}
use htn.Experiment.Config.{ExperimentConfig, default_config}

-- The keys of `BOUNDS`.
pub data NumberKey : Type 0 where
  node_count edge_density software_type_count p_same p_cross max_ticks detector_sensitivity
        real_agent_count tool_count credential_count resource_count sentinel_count
        adaptive_detection_threshold false_quarantine_rate sentinel_compromise_rate
        attestation_replay_rate byzantine_collusion_rate :
      NumberKey

abbrev pub number_keys : List NumberKey
number_keys =
    node_count ∷ edge_density ∷ software_type_count ∷ p_same ∷ p_cross ∷ max_ticks
    ∷ detector_sensitivity ∷ real_agent_count ∷ tool_count ∷ credential_count ∷ resource_count
    ∷ sentinel_count ∷ adaptive_detection_threshold ∷ false_quarantine_rate
    ∷ sentinel_compromise_rate ∷ attestation_replay_rate ∷ byzantine_collusion_rate ∷ []

-- `BOUNDS`
abbrev pub bounds : NumberKey → ℕ × ℕ
bounds node_count = (25, 100)
bounds edge_density = (1, 5)
bounds software_type_count = (1, 5)
bounds p_same = (0, 100)
bounds p_cross = (0, 100)
bounds max_ticks = (1, 2000)
bounds detector_sensitivity = (0, 100)
bounds real_agent_count = (0, 20)
bounds tool_count = (0, 20)
bounds credential_count = (0, 20)
bounds resource_count = (0, 20)
bounds sentinel_count = (0, 5)
bounds adaptive_detection_threshold = (0, 100)
bounds false_quarantine_rate = (0, 100)
bounds sentinel_compromise_rate = (0, 100)
bounds attestation_replay_rate = (0, 100)
bounds byzantine_collusion_rate = (0, 100)

-- `config[key]`
abbrev pub number_at : NumberKey → ExperimentConfig → ℕ
number_at node_count c = c.node_count
number_at edge_density c = c.edge_density
number_at software_type_count c = c.software_type_count
number_at p_same c = c.p_same
number_at p_cross c = c.p_cross
number_at max_ticks c = c.max_ticks
number_at detector_sensitivity c = c.detector_sensitivity
number_at real_agent_count c = c.real_agent_count
number_at tool_count c = c.tool_count
number_at credential_count c = c.credential_count
number_at resource_count c = c.resource_count
number_at sentinel_count c = c.sentinel_count
number_at adaptive_detection_threshold c = c.adaptive_detection_threshold
number_at false_quarantine_rate c = c.false_quarantine_rate
number_at sentinel_compromise_rate c = c.sentinel_compromise_rate
number_at attestation_replay_rate c = c.attestation_replay_rate
number_at byzantine_collusion_rate c = c.byzantine_collusion_rate

-- `clamp` for bounds that are not negative; `none` is `NaN`.
unfoldable pub clamp : Option ℤ → ℕ → ℕ → ℕ
clamp none lo hi = lo
clamp (some value) lo hi = min hi (max lo (pos_part value))

pub record Preset : Type 0 where
  pub id : String
  pub label : String
  pub description : String
  pub config : ExperimentConfig

abbrev pub presets : List Preset
presets =
    record {
      id = "baseline";
      label = "Baseline propagation";
      description =
          "Homogeneous agent mesh, lateral compromise spread, anomaly-detection defense enabled.";
      config = default_config;
    }
    ∷ record {
      id = "undefended";
      label = "Undefended control";
      description =
          "The same system with the defense switched off — the control arm for any defense claim.";
      config = record default_config {
        defense_enabled = false;
        tool_count = 6;
        credential_count = 4;
        resource_count = 3;
        sentinel_count = 2;
        active_scenarios = some ("propagation" ∷ []);
      };
    }
    ∷ record {
      id = "security-plane";
      label = "Security-plane assault";
      description =
          "Tools, credentials and sentinels in play; the attacker subverts a sentinel, replays an attestation, and colludes to exceed credential scope.";
      config = record default_config {
        max_ticks = 120;
        tool_count = 6;
        credential_count = 4;
        resource_count = 3;
        sentinel_count = 2;
        sentinel_compromise_rate = 8;
        attestation_replay_rate = 5;
        byzantine_collusion_rate = 5;
        false_quarantine_rate = 5;
        active_scenarios =
            some
              ("propagation" ∷ "sentinel_compromise" ∷ "attestation" ∷ "byzantine_collusion" ∷ []);
      };
    }
    ∷ record {
      id = "adaptive";
      label = "Adaptive attacker";
      description =
          "An attacker that watches the quarantine rate each tick and switches between aggressive and stealthy targeting.";
      config = record default_config {
        seed = some (pos 7);
        node_count = 80;
        max_ticks = 150;
        detector_sensitivity = 50;
        tool_count = 8;
        credential_count = 5;
        resource_count = 4;
        sentinel_count = 3;
        active_scenarios = some ("adaptive_attacker" ∷ []);
      };
    }
    ∷ []
