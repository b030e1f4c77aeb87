-- ===== src/Overview/Tests.antt =====
-- The steps at the start, and after an attack.
use htn.Prelude.{◌≡◌, refl, true, false, none, some, List, [], ◌∷◌, map}
use htn.Experiment.Config.{default_config}
use htn.Overview.{
  WorkflowStage, StageState, done, active, pending, build_stages, has_run, shows_configurator,
}

abbrev states : List WorkflowStage → List StageState
states = map (λ s. s.state)

at_start :
    (states (build_stages (has_run none none) 0 0 false 0)
      ≡ active ∷ pending ∷ pending ∷ pending ∷ pending ∷ pending ∷ [])
    × (shows_configurator (has_run (some "") (some default_config)) false ≡ true)
unfolding build_stages has_run
at_start = (refl, refl)

under_attack :
    states (build_stages (has_run (some "e") (some default_config)) 3 1 true 0)
    ≡ done ∷ done ∷ done ∷ done ∷ active ∷ pending ∷ []
unfolding build_stages has_run
under_attack = refl
