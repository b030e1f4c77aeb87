-- ===== src/Experiment/Form/Laws.antt =====
-- What the form can launch: RunConfigurator.tsx.
use mathlib.Core.Path.{subst}
use text.Mathlib.TextEquality.{eq_iff}
use htn.Prelude.{
  ==_refl, ℕ, ◌≤◌, ◌≡◌, refl, String, Bool, false, not, ◌&&◌, ◌||◌, Option, some, List, [], ◌∷◌,
  ◌++◌, filter, foldl, drop, contains, contains-append, sym, ap, ◌∙◌, All, string_eq, ◌==◌,
  if◌then◌else◌, Bool-cases, inl, inr, arith,
}
use htn.Prelude.Every.{All-drop}
use htn.Prelude.Int.{ℤ}
use htn.Experiment.Config.{ExperimentConfig}
use htn.Experiment.Presets.{NumberKey, Preset, bounds, clamp, presets}
use htn.Experiment.Presets.Laws.{IsBounded, IsWithinBounds, clamp-bounds, presets-IsWithinBounds}
use htn.Vocabulary.Scenarios.{scenario_meta}
use htn.Experiment.Form.{
  Form, FormAction, initial_form, write_number, is_integer, trunc, set_number, chosen, without,
  toggled, handle, is_enabled, form_step, pick_preset, enter_number, enter_seed, pick_foothold,
  pick_provider, set_defense, toggle, toggle_advanced,
}

bounds_ordered : (k : NumberKey) → (bounds k).0 ≤ (bounds k).1
bounds_ordered k = ground arith

write_number-IsBounded :
    (j k : NumberKey) (n : ℕ) (c : ExperimentConfig)
    → (bounds j).0 ≤ n
    → n ≤ (bounds j).1
    → IsBounded k c
    → IsBounded k (write_number j n c)
write_number-IsBounded j k n c lo hi b = ground arith

contains-filter :
    (p : String → Bool) (k : String) (l : List String)
    → contains k (filter p l) ≡ (p k && contains k l)
unfolding contains
contains-filter p k [] = ground arith
contains-filter p k (j ∷ l) = elim (Bool-cases (j == k)) [
  | inl same ↦
      subst (λ i. contains i (filter p (j ∷ l)) ≡ (p i && contains i (j ∷ l))) ((eq_iff j k).0 same)
        (elim (Bool-cases (p j)) [
          | inl kept ↦ rw (kept, contains, ==_refl j) refl
          | inr dropped ↦ rw (dropped, contains-filter p j l, dropped) refl
        ])
  | inr other ↦ elim (Bool-cases (p j)) [
    | inl kept ↦ rw (kept, contains, other) (contains-filter p k l)
    | inr dropped ↦ rw (dropped, other) (contains-filter p k l)
  ]
]

-- The two scenarios that own the tick are not both chosen.
abbrev pub IsExclusive : List String → Type 0
IsExclusive l = (contains "propagation" l && contains "adaptive_attacker" l) ≡ false

filter-IsExclusive :
    (p : String → Bool) (l : List String) → IsExclusive l → IsExclusive (filter p l)
filter-IsExclusive p l h =
    rw (contains-filter p "propagation" l, contains-filter p "adaptive_attacker" l) (ground arith)

contains-added :
    (k s : String) (dropped l : List String)
    → contains k (without dropped l ++ s ∷ [])
      ≡ (not (contains k dropped) && contains k l || contains k (s ∷ []))
contains-added k s dropped l =
    contains-append k (without dropped l) (s ∷ [])
    ∙ ap (λ b. b || contains k (s ∷ [])) (contains-filter (λ t. not (contains t dropped)) k l)

abbrev added : String → List String → List String
added s l = without (scenario_meta s).exclusive_with l ++ s ∷ []

propagation_added : (l : List String) → IsExclusive (added "propagation" l)
unfolding toggled scenario_meta
propagation_added l =
    rw (contains-added "adaptive_attacker" "propagation" ("adaptive_attacker" ∷ []) l)
      (ground arith)

adaptive_attacker_added : (l : List String) → IsExclusive (added "adaptive_attacker" l)
unfolding toggled scenario_meta
adaptive_attacker_added l =
    rw (contains-added "propagation" "adaptive_attacker" ("propagation" ∷ []) l) (ground arith)

other_added :
    (s : String) (l : List String)
    → (s == "propagation") ≡ false
    → (s == "adaptive_attacker") ≡ false
    → IsExclusive l
    → IsExclusive (added s l)
unfolding toggled
other_added s l p a h =
    let dropped = (scenario_meta s).exclusive_with in
    rw
      (
        contains-added "propagation" s dropped l,
        contains-added "adaptive_attacker" s dropped l,
        p,
        a,
      )
      (ground arith)

added-IsExclusive : (s : String) (l : List String) → IsExclusive l → IsExclusive (added s l)
added-IsExclusive s l h = elim (Bool-cases (s == "propagation")) [
  | inl same ↦
      subst (λ t. IsExclusive (added t l)) (sym ((eq_iff s "propagation").0 same))
        (propagation_added l)
  | inr p ↦ elim (Bool-cases (s == "adaptive_attacker")) [
    | inl same ↦
        subst (λ t. IsExclusive (added t l)) (sym ((eq_iff s "adaptive_attacker").0 same))
          (adaptive_attacker_added l)
    | inr a ↦ other_added s l p a h
  ]
]

toggled-IsExclusive : (s : String) (l : List String) → IsExclusive l → IsExclusive (toggled s l)
unfolding toggled
toggled-IsExclusive s l h = elim (Bool-cases (contains s l)) [
  | inl there ↦ rw (there, toggled) (filter-IsExclusive (λ t. not (t == s)) l h)
  | inr new ↦ rw (new, toggled) (added-IsExclusive s l h)
]

-- What can be launched: each number is within its bounds, and not both of the scenarios that own the
-- tick are chosen.
abbrev pub IsLaunchable : ExperimentConfig → Type 0
IsLaunchable c = IsWithinBounds c × IsExclusive (chosen c)

write_number-chosen :
    (k : NumberKey) (n : ℕ) (c : ExperimentConfig) → chosen (write_number k n c) ≡ chosen c
write_number-chosen k n c = ground arith

set_number-IsLaunchable :
    (k : NumberKey) (value : Option ℤ) (f : Form)
    → IsLaunchable f.draft
    → IsLaunchable (set_number k value f).draft
unfolding set_number
set_number-IsLaunchable k value f (b, e) =
    let typed = if is_integer k then trunc value else value in
    let (lo, hi, _) = clamp-bounds typed (bounds k).0 (bounds k).1 (bounds_ordered k) in
    let n = clamp typed (bounds k).0 (bounds k).1 in
    (λ j. write_number-IsBounded k j n f.draft lo hi (b j), rw (write_number-chosen k n f.draft) e)

presets-IsLaunchable : All (λ (p : Preset). IsLaunchable p.config) presets
unfolding contains
presets-IsLaunchable =
    let w = presets-IsWithinBounds in
    ((w.0, refl), ((w.1.0, refl), ((w.1.1.0, refl), ((w.1.1.1.0, refl), tt))))

pick_preset-IsLaunchable :
    (ps : List Preset) (f : Form)
    → All (λ (p : Preset). IsLaunchable p.config) ps
    → IsLaunchable f.draft
    → IsLaunchable
        (elim ps as (λ _. Form) [
          | [] ↦ f
          | p ∷ _ ↦ record f { draft = p.config; preset_id = some p.id }
        ]).draft
pick_preset-IsLaunchable [] f a l = l
pick_preset-IsLaunchable (p ∷ ps) f a l = a.0

handle-IsLaunchable :
    (a : FormAction) (f : Form) → IsLaunchable f.draft → IsLaunchable (handle a f).draft
unfolding form_step
handle-IsLaunchable (pick_preset n) f l =
    pick_preset-IsLaunchable (drop n presets) f
      (All-drop (λ (p : Preset). IsLaunchable p.config) n presets presets-IsLaunchable) l
handle-IsLaunchable (enter_number key value) f l = set_number-IsLaunchable key value f l
handle-IsLaunchable (enter_seed value) f l = (λ j. ground (arith, l.0 j), l.1)
handle-IsLaunchable (pick_foothold v) f l = (λ j. ground (arith, l.0 j), l.1)
handle-IsLaunchable (pick_provider v) f l = (λ j. ground (arith, l.0 j), l.1)
handle-IsLaunchable (set_defense v) f l = (λ j. ground (arith, l.0 j), l.1)
handle-IsLaunchable (toggle s) f l =
    (λ j. ground (arith, l.0 j), toggled-IsExclusive s (chosen f.draft) l.1)
handle-IsLaunchable toggle_advanced f l = l

form_step-IsLaunchable :
    (disabled : Bool) (f : Form) (a : FormAction)
    → IsLaunchable f.draft
    → IsLaunchable (form_step disabled f a).draft
unfolding form_step
form_step-IsLaunchable disabled f a l = elim (Bool-cases (is_enabled disabled a f)) [
  | inl taken ↦ rw (taken, form_step) (handle-IsLaunchable a f l)
  | inr ignored ↦ rw (ignored, form_step) l
]

abbrev pub edited : Form → List (Bool × FormAction) → Form
edited = foldl (λ f ((disabled, a) : Bool × FormAction). form_step disabled f a)

edited_from :
    (f : Form) (steps : List (Bool × FormAction))
    → IsLaunchable f.draft
    → IsLaunchable (edited f steps).draft
edited_from f [] l = l
edited_from f ((disabled, a) ∷ steps) l =
    edited_from (form_step disabled f a) steps (form_step-IsLaunchable disabled f a l)

-- If the form opens on a configuration whose numbers are within their bounds and that does not choose
-- both of the scenarios that own the tick, then whatever is typed, picked and toggled, enabled or
-- not, what it would launch is such a configuration again.
pub edited-IsLaunchable :
    (initial_config : ExperimentConfig) (steps : List (Bool × FormAction))
    → IsLaunchable initial_config
    → IsLaunchable (edited (initial_form initial_config) steps).draft
edited-IsLaunchable initial_config steps l = edited_from (initial_form initial_config) steps l
