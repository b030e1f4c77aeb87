-- ===== src/Experiment/Form.antt =====
-- The launch form: frontend/src/components/run/RunConfigurator.tsx. What a number field passes on is
-- counted in hundredths, the step of its finest fields; `none` is `NaN`.
pub mod Laws
mod Tests
use htn.Prelude.{
  ℕ, zero, suc, ◌/◌, String, Bool, true, false, not, ◌&&◌, ◌||◌, Option, none, some, List, [], ◌∷◌,
  ◌++◌, filter, drop, contains, coalesce, nat_eq, string_eq, ◌==◌, if◌then◌else◌,
}
use htn.Prelude.Int.{ℤ, pos, negsuc, sub_ℕ}
use htn.Experiment.Config.{ExperimentConfig}
use htn.Experiment.Presets.{
  NumberKey, Preset, presets, bounds, clamp, node_count, edge_density, software_type_count, p_same,
  p_cross, max_ticks, detector_sensitivity, real_agent_count, tool_count, credential_count,
  resource_count, sentinel_count, adaptive_detection_threshold, false_quarantine_rate,
  sentinel_compromise_rate, attestation_replay_rate, byzantine_collusion_rate,
}
use htn.Vocabulary.Scenarios.{scenario_meta}

pub record Form : Type 0 where
  pub draft : ExperimentConfig
  pub preset_id : Option String
  pub show_advanced : Bool

abbrev pub initial_form : ExperimentConfig → Form
initial_form initial_config = record {
  draft = initial_config;
  preset_id = some "baseline";
  show_advanced = false;
}

-- `{ ...prev, [key]: value }`
abbrev pub write_number : NumberKey → ℕ → ExperimentConfig → ExperimentConfig
write_number node_count n c = record c { node_count = n }
write_number edge_density n c = record c { edge_density = n }
write_number software_type_count n c = record c { software_type_count = n }
write_number p_same n c = record c { p_same = n }
write_number p_cross n c = record c { p_cross = n }
write_number max_ticks n c = record c { max_ticks = n }
write_number detector_sensitivity n c = record c { detector_sensitivity = n }
write_number real_agent_count n c = record c { real_agent_count = n }
write_number tool_count n c = record c { tool_count = n }
write_number credential_count n c = record c { credential_count = n }
write_number resource_count n c = record c { resource_count = n }
write_number sentinel_count n c = record c { sentinel_count = n }
write_number adaptive_detection_threshold n c = record c { adaptive_detection_threshold = n }
write_number false_quarantine_rate n c = record c { false_quarantine_rate = n }
write_number sentinel_compromise_rate n c = record c { sentinel_compromise_rate = n }
write_number attestation_replay_rate n c = record c { attestation_replay_rate = n }
write_number byzantine_collusion_rate n c = record c { byzantine_collusion_rate = n }

-- The fields whose `onChange` passes `false` for `integer`.
abbrev pub is_integer : NumberKey → Bool
is_integer p_same = false
is_integer p_cross = false
is_integer detector_sensitivity = false
is_integer adaptive_detection_threshold = false
is_integer false_quarantine_rate = false
is_integer sentinel_compromise_rate = false
is_integer attestation_replay_rate = false
is_integer byzantine_collusion_rate = false
is_integer _ = true

-- `Math.trunc`, from hundredths to whole numbers.
abbrev pub trunc : Option ℤ → Option ℤ
trunc none = none
trunc (some (pos n)) = some (pos (n / 100))
trunc (some (negsuc n)) = some (sub_ℕ 0 (suc n / 100))

-- `setNumber`
unfoldable pub set_number : NumberKey → Option ℤ → Form → Form
unfolding clamp
set_number key value f =
    let (lo, hi) = bounds key in
    let number = clamp (if is_integer key then trunc value else value) lo hi in
    record f { draft = write_number key number f.draft; preset_id = none }

abbrev pub chosen : ExperimentConfig → List String
chosen c = coalesce c.active_scenarios []

abbrev pub without : List String → List String → List String
without dropped = filter (λ s. not (contains s dropped))

-- `toggleScenario`, on the scenarios of the draft.
unfoldable pub toggled : String → List String → List String
unfolding contains
toggled scenario current =
    if contains scenario current
    then filter (λ s. not (s == scenario)) current
    else without (scenario_meta scenario).exclusive_with current ++ scenario ∷ []

unfoldable pub toggle_scenario : String → Form → Form
toggle_scenario scenario f = record f {
  draft = record f.draft { active_scenarios = some (toggled scenario (chosen f.draft)) };
  preset_id = none;
}

pub data FormAction : Type 0 where
  -- the preset with this index
  pick_preset : ℕ → FormAction
  enter_number : NumberKey → Option ℤ → FormAction
  enter_seed : Option ℤ → FormAction
  pick_foothold : String → FormAction
  pick_provider : String → FormAction
  set_defense : Bool → FormAction
  toggle : String → FormAction
  toggle_advanced : FormAction

-- `usesAdaptive` and the like.
unfoldable pub uses : String → Form → Bool
unfolding contains
uses scenario f = contains scenario (chosen f.draft)

-- Some scenario is chosen that has fields of its own.
unfoldable pub shows_rates : Form → Bool
shows_rates f =
    uses "adaptive_attacker" f
    || uses "prompt_injection" f
    || uses "sentinel_compromise" f
    || uses "attestation" f
    || uses "byzantine_collusion" f

-- The number fields that are on the screen and not disabled by the form itself.
unfoldable pub is_offered : NumberKey → Form → Bool
is_offered p_same f = shows_rates f && not (uses "adaptive_attacker" f)
is_offered p_cross f = shows_rates f && not (uses "adaptive_attacker" f)
is_offered adaptive_detection_threshold f = uses "adaptive_attacker" f
is_offered real_agent_count f = uses "prompt_injection" f
is_offered sentinel_compromise_rate f = uses "sentinel_compromise" f
is_offered attestation_replay_rate f = uses "attestation" f
is_offered byzantine_collusion_rate f = uses "byzantine_collusion" f
is_offered detector_sensitivity f = f.draft.defense_enabled
is_offered max_ticks f = f.show_advanced
is_offered _ f = true

-- Whether the control is there and takes input; `disabled` is the form's property.
unfoldable pub is_enabled : Bool → FormAction → Form → Bool
is_enabled disabled toggle_advanced f = true
is_enabled disabled (enter_number key value) f = not disabled && is_offered key f
is_enabled disabled (pick_provider provider) f =
    not disabled && uses "prompt_injection" f && not (nat_eq f.draft.real_agent_count 0)
is_enabled disabled _ f = not disabled

-- The handler of a control.
unfoldable pub handle : FormAction → Form → Form
handle (pick_preset n) f = elim (drop n presets) [
  | [] ↦ f
  | p ∷ _ ↦ record f { draft = p.config; preset_id = some p.id }
]
handle (enter_number key value) f = set_number key value f
handle (enter_seed value) f = record f {
  draft = record f.draft { seed = trunc value };
  preset_id = none;
}
handle (pick_foothold v) f = record f {
  draft = record f.draft { initial_compromised = v };
  preset_id = none;
}
handle (pick_provider v) f = record f {
  draft = record f.draft { model_provider = v };
  preset_id = none;
}
handle (set_defense v) f = record f {
  draft = record f.draft { defense_enabled = v };
  preset_id = none;
}
handle (toggle scenario) f = toggle_scenario scenario f
handle toggle_advanced f = record f { show_advanced = not f.show_advanced }

-- The line opens all that a test runs.
unfoldable pub form_step : Bool → Form → FormAction → Form
unfolding set_number toggled toggle_scenario uses shows_rates is_offered is_enabled handle
    scenario_meta
form_step disabled f a = if is_enabled disabled a f then handle a f else f

-- The warnings.
unfoldable pub needs_sentinels : Form → Bool
needs_sentinels f =
    (uses "sentinel_compromise" f || uses "attestation" f) && nat_eq f.draft.sentinel_count 0

unfoldable pub needs_credentials : Form → Bool
needs_credentials f = uses "byzantine_collusion" f && nat_eq f.draft.credential_count 0

unfoldable pub needs_real_agents : Form → Bool
needs_real_agents f = uses "prompt_injection" f && nat_eq f.draft.real_agent_count 0

unfoldable pub warns_of_vllm : Form → Bool
warns_of_vllm f =
    uses "prompt_injection" f
    && not (nat_eq f.draft.real_agent_count 0)
    && f.draft.model_provider == "vllm"
