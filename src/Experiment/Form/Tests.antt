-- ===== src/Experiment/Form/Tests.antt =====
-- The form, from the default configuration.
use htn.Prelude.{◌≡◌, refl, Bool, true, false, none, some, List, [], ◌∷◌, contains, arith}
use htn.Prelude.Int.{pos, negsuc}
use htn.Experiment.Config.{default_config}
use htn.Experiment.Presets.{node_count, p_same, max_ticks}
use htn.Experiment.Form.{
  FormAction, initial_form, chosen, needs_real_agents, enter_number, enter_seed, handle, toggle,
  toggle_advanced, form_step,
}
use htn.Experiment.Form.Laws.{IsLaunchable, edited, edited-IsLaunchable}

abbrev steps : List (Bool × FormAction)
steps =
    (false, enter_number node_count (some (pos 100000)))
    ∷ (false, toggle "adaptive_attacker")
    ∷ (true, toggle "propagation")
    ∷ (false, enter_number p_same (some (pos 50)))
    ∷ (false, enter_number max_ticks (some (negsuc 5)))
    ∷ (false, toggle_advanced)
    ∷ []

-- The count is clamped, the other owner of the tick is deselected, and fields that are hidden or
-- disabled take nothing.
typed :
    let f = edited (initial_form default_config) steps in
    (f.draft.node_count ≡ 100)
    × (f.draft.p_same ≡ 15)
    × (f.draft.max_ticks ≡ 200)
    × (chosen f.draft ≡ "prompt_injection" ∷ "adaptive_attacker" ∷ [])
    × (f.preset_id ≡ none)
unfolding form_step
typed = (refl, refl, refl, refl, refl)

-- A seed is cut to a whole number, and is not bounded.
seeds :
    ((handle (enter_seed (some (negsuc 249))) (initial_form default_config)).draft.seed
      ≡ some (negsuc 1))
    × ((handle (enter_seed none) (initial_form default_config)).draft.seed ≡ none)
unfolding handle
seeds = (refl, refl)

-- What is launched by default is warned of.
default_warned : needs_real_agents (initial_form default_config) ≡ true
unfolding form_step needs_real_agents
default_warned = refl

edited-IsLaunchable_example : IsLaunchable (edited (initial_form default_config) steps).draft
unfolding contains
edited-IsLaunchable_example = edited-IsLaunchable default_config steps (λ k. ground arith, refl)
