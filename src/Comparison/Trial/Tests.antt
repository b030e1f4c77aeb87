-- ===== src/Comparison/Trial/Tests.antt =====
-- A trial of one recommended field.
use htn.Prelude.{ℕ, ◌≡◌, refl, true, false, some, [], ◌∷◌, string_eq}
use htn.Stream.Types.{Json}
use htn.Comparison.Pair.{Pair, initial_pair}
use htn.Comparison.Trial.{
  Config, TrialArm, Validation, idle, done, error, clicked, before_settled, after_settled, ran,
  threw, trial, diff_key,
}

abbrev base : Config
base = ("seed", Json.bool true) ∷ ("defense_enabled", Json.bool false) ∷ []

abbrev fix : Config
fix = ("defense_enabled", Json.bool true) ∷ []

abbrev fresh : Pair (TrialArm ℕ) Validation
fresh = initial_pair idle

tried :
    trial fresh (clicked base fix ∷ after_settled (ran "b" 2) ∷ before_settled (threw "gone") ∷ [])
    ≡ record {
      first = error "gone";
      second = done 2 "b";
      running = false;
      first_open = false;
      second_open = false;
      started =
          record {
            config_diff = fix;
            before_config = base;
            after_config = ("seed", Json.bool true) ∷ ("defense_enabled", Json.bool true) ∷ [];
          }
          ∷ [];
    }
unfolding trial
tried = refl

keyed : diff_key (λ c. "{}") (trial fresh (clicked base fix ∷ [])) ≡ some "{}"
unfolding trial diff_key
keyed = refl
