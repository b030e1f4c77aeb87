-- ===== src/Controls/Storage.antt =====
-- A reload of the page: the stored run of frontend/src/lib/experiment/ExperimentProvider.tsx, with the
-- guard of frontend/src/components/shell/RequiresRun.tsx and the bar of RunContextBar.tsx, which wait
-- for it. The session storage holds one text.
pub mod Laws
mod Tests
use htn.Prelude.{
  ℕ, min, String, Bool, true, false, Option, none, some, List, [], ◌∷◌, foldl, truthy, or_else,
  is_some, ltb, if◌then◌else◌,
}
use htn.Experiment.Config.{ExperimentConfig}
use htn.Controls.Reducer.{ControlStatus, paused, ControlState}
use htn.Controls.Provider.{Provider, Summary, Input, initial_provider, adopt, step}

pub record Tab : Type 0 where
  pub provider : Provider
  pub hydrating : Bool
  pub stored : Option String

-- The first render, with what an earlier one has stored.
abbrev pub opened_tab : Option String → Tab
opened_tab stored = record { provider = initial_provider; hydrating = true; stored = stored }

-- The effect that stores the run.
unfoldable pub remember : Tab → Tab
remember t = elim (truthy t.provider.control.experiment_id) [
  | none ↦ t
  | some id ↦ record t { stored = some id }
]

-- The promise of the first effect: without a stored run it resolves to nothing, and otherwise the
-- backend is asked for that run (`getExperiment`) and confirms it, or the request fails, which is
-- `none`, and the run is dropped.
unfoldable pub hydrate : (String → Option Summary) → Tab → Tab
unfolding adopt
hydrate get_experiment t = elim (truthy t.stored) [
  | none ↦ record t { hydrating = false }
  | some id ↦ elim (get_experiment id) [
    | some summary ↦ record t { provider = adopt summary t.provider; hydrating = false }
    | none ↦ record t { stored = none; hydrating = false }
  ]
]

pub data TabEvent : Type 0 where
  -- the promise settles, with the backend as it answers then
  hydrated : (String → Option Summary) → TabEvent
  happened : Input → TabEvent

-- Until the promise has settled, no screen offers a control.
unfoldable pub tab_step : Tab → TabEvent → Tab
unfolding remember hydrate
tab_step t (hydrated get_experiment) =
    if t.hydrating then remember (hydrate get_experiment t) else t
tab_step t (happened i) =
    if t.hydrating then t else remember (record t { provider = step t.provider i })

pub data Gate : Type 0 where
  restoring missing : Gate
  running_on : String → Gate

-- `RequiresRun`
unfoldable pub gate : Tab → Gate
gate t = elim (t.hydrating) [
  | true ↦ restoring
  | false ↦ elim (truthy t.provider.control.experiment_id) [
    | none ↦ missing
    | some id ↦ running_on id
  ]
]

-- How far the bar is filled, as a fraction; the second number is the budget of ticks.
unfoldable pub progress : ℕ → Option ExperimentConfig → ℕ × ℕ
progress tick none = (0, 1)
progress tick (some c) = (min tick c.max_ticks, c.max_ticks)

-- The alert below the bar.
abbrev pub alert : Option String → ControlState → Option String
alert schema_error control = elim (truthy control.error) [
  | some e ↦ or_else schema_error control.error
  | none ↦ truthy schema_error
]
