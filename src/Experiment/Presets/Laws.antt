-- ===== src/Experiment/Presets/Laws.antt =====
-- The starting points are within the bounds of the form: presets.ts.
use htn.Prelude.{ℕ, ◌≤◌, ◌≡◌, Option, none, some, All, arith}
use htn.Prelude.Int.{ℤ, pos, negsuc}
use htn.Experiment.Config.{ExperimentConfig}
use htn.Experiment.Presets.{Preset, NumberKey, bounds, number_at, presets, clamp}

-- A value is brought within its bounds, and left alone if it is within them.
pub clamp-bounds :
    (value : Option ℤ) (lo hi : ℕ)
    → lo ≤ hi
    → (lo ≤ clamp value lo hi)
      × (clamp value lo hi ≤ hi)
      × ((n : ℕ) → value ≡ some (pos n) → lo ≤ n → n ≤ hi → clamp value lo hi ≡ n)
unfolding clamp
clamp-bounds none lo hi h = (omega arith, omega arith, λ n e. absurd (cc))
clamp-bounds (some (pos value)) lo hi h = (omega arith, omega arith, λ n e l u. ground arith)
clamp-bounds (some (negsuc value)) lo hi h = (omega arith, omega arith, λ n e. absurd (cc))

abbrev pub IsBounded : NumberKey → ExperimentConfig → Type 0
IsBounded k c = ((bounds k).0 ≤ number_at k c) × (number_at k c ≤ (bounds k).1)

-- Every field is within its bounds.
abbrev pub IsWithinBounds : ExperimentConfig → Type 0
IsWithinBounds c = (k : NumberKey) → IsBounded k c

-- Every preset is within the bounds.
pub presets-IsWithinBounds : All (λ (p : Preset). IsWithinBounds p.config) presets
presets-IsWithinBounds =
    (λ k. ground arith, (λ k. ground arith, (λ k. ground arith, (λ k. ground arith, tt))))
