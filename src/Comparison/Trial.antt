-- ===== src/Comparison/Trial.antt =====
-- The trial of a recommended fix: frontend/src/lib/remediation/useFixTrial.ts. A configuration is the
-- object that is sent, so that the recommended fields can be written over it; how those are
-- written as a text is an argument.
pub mod Laws
mod Tests
use htn.Prelude.{
  ◌≡◌, refl, sym, ap, ◌∙◌, String, Bool, Option, none, some, List, [], ◌∷◌, map, foldl, last, Dict,
  lookup, insert, lookup-insert, or_else, string_eq, Bool-cases, inl, inr, if◌then◌else◌, ◌==◌,
  arith, false,
}
use mathlib.Core.Option
use htn.Stream.Types.{Json}
use htn.Comparison.Pair.{Pair, PairInput, requested, first_settled, second_settled, pair_step}
use htn.Comparison.Pair.Laws.{played, settled_pair, foldl-pair_step}

pub data TrialArm (Metrics : Type 0) : Type 0 where
  idle running : TrialArm Metrics
  done : Metrics → String → TrialArm Metrics
  error : String → TrialArm Metrics

abbrev pub Config : Type 0
Config = Dict String Json

-- `{ ...baseConfig, ...configDiff }`
unfoldable pub remediated : Config → Config → Config
remediated base [] = base
remediated base ((field, value) ∷ diff) = remediated (insert field value base) diff

-- What is validated, with the two configurations that are run.
pub record Validation : Type 0 where
  pub config_diff : Config
  pub before_config : Config
  pub after_config : Config

unfoldable pub validate : Config → Config → Validation
validate base_config config_diff = record {
  config_diff = config_diff;
  before_config = base_config;
  after_config = remediated base_config config_diff;
}

-- How `runExperimentToCompletion` settles: with an id and metrics, or a message.
pub data TrialOutcome (Metrics : Type 0) : Type 0 where
  ran : String → Metrics → TrialOutcome Metrics
  threw : String → TrialOutcome Metrics

pub data TrialInput (Metrics : Type 0) : Type 0 where
  clicked : Config → Config → TrialInput Metrics
  before_settled : TrialOutcome Metrics → TrialInput Metrics
  after_settled : TrialOutcome Metrics → TrialInput Metrics

module _ {Metrics : Type 0} where
  unfoldable pub trial_arm : TrialOutcome Metrics → TrialArm Metrics
  trial_arm (ran id m) = done m id
  trial_arm (threw message) = error message

  unfoldable pub trial_input : TrialInput Metrics → PairInput (TrialArm Metrics) Validation
  unfolding trial_arm validate remediated insert
  trial_input (clicked base_config config_diff) = requested (validate base_config config_diff)
  trial_input (before_settled o) = first_settled (trial_arm o)
  trial_input (after_settled o) = second_settled (trial_arm o)

  -- The hook: `before` and `after` are the two arms, and `running` its flag and its state.
  unfoldable pub trial :
      Pair (TrialArm Metrics) Validation
      → List (TrialInput Metrics)
      → Pair (TrialArm Metrics) Validation
  unfolding trial_input pair_step
  trial p is = foldl (pair_step running) p (map trial_input is)

  -- `diffKey`: the text of the fields last validated.
  unfoldable pub diff_key : (Config → String) → Pair (TrialArm Metrics) Validation → Option String
  diff_key stringify p = Option.map (λ (v : Validation). stringify v.config_diff) (last p.started)
