-- ===== src/Stream/Series.antt =====
-- The outbreak curve, one sample for each tick: frontend/src/lib/stream/useOutbreakSeries.ts.
-- The two refs and the state of the hook are a record; a `lastTick` of -1 is `none`, as ticks are
-- natural numbers. The updater given to `setState` runs within the call.
pub mod Laws
mod Tests
use htn.Prelude.{
  ℕ, ◌+◌, ◌-◌, ◌≤◌, ◌<◌, ◌≡◌, ◌⊎◌, refl, Bool, true, false, not, String, Option, none, some, List,
  [], ◌∷◌, ◌++◌, foldl, length, filter, drop, slice_last, slice_last-length, All, ltb, nat_eq,
  same_option, string_eq, ℕ_eq, if◌then◌else◌, Bool-cases, Option-cases, inl, inr, arith,
}
use htn.Stream.Reducer.{GraphState, select_metrics}

pub record OutbreakSample : Type 0 where
  pub tick : ℕ
  pub healthy : ℕ
  pub compromised : ℕ
  pub quarantined : ℕ
  pub total : ℕ

abbrev pub max_samples : ℕ
max_samples = 2000

pub record Series : Type 0 where
  pub samples : List OutbreakSample
  pub last_tick : Option ℕ
  pub experiment_id : Option String

abbrev pub empty_series : Series
empty_series = record { samples = []; last_tick = none; experiment_id = none }

unfoldable pub sample_of : GraphState → OutbreakSample
sample_of g =
    let m = select_metrics g in
    record {
      tick = g.tick;
      healthy = m.healthy;
      compromised = m.compromised;
      quarantined = m.quarantined;
      total = m.total;
    }

-- `state.tick < lastTick.current`
abbrev pub is_rewound : ℕ → Option ℕ → Bool
is_rewound t none = false
is_rewound t (some last) = ltb t last

-- The samples that are kept before the new one.
unfoldable pub base : ℕ → Series → List OutbreakSample
base t s =
    if is_rewound t s.last_tick
    then filter (λ (x : OutbreakSample). ltb x.tick t) s.samples
    else s.samples

-- The effect, for one state.
unfoldable pub observe : Series → GraphState → Series
observe s g =
    if not (same_option g.experiment_id s.experiment_id)
    then record { samples = []; last_tick = none; experiment_id = g.experiment_id }
    else if nat_eq (length g.nodes) 0
    then s
    else if same_option (some g.tick) s.last_tick
    then s
    else record s {
      samples = slice_last max_samples (base g.tick s ++ sample_of g ∷ []);
      last_tick = some g.tick;
    }

-- The line opens all that a test runs.
unfoldable pub observe_all : Series → List GraphState → Series
unfolding observe base sample_of slice_last select_metrics
observe_all s gs = foldl observe s gs
