-- ===== src/History/Compare/Tests.antt =====
-- A second pair opened while the first one is compared.
use htn.Prelude.{ℕ, ◌≡◌, refl, true, false, some, List, [], ◌∷◌, foldl, ℕ_eq}
use htn.Experiment.Config.{default_config}
use htn.Comparison.Arms.{arm_a_settled, arm_b_settled, load_experiment, threw}
use htn.History.Compare.{
  ComparePage, opened_page, page_step, visited, compared, answered_a, loaded, ExperimentDetail,
  differs_beyond_defense, CompareEvent,
}

abbrev pair_ab : CompareEvent ℕ
pair_ab = visited (some "a") (some "b")

abbrev pair_cd : CompareEvent ℕ
pair_cd = visited (some "c") (some "d")

abbrev visits : List (CompareEvent ℕ) → ComparePage ℕ
visits = foldl page_step opened_page

-- The same pair, visited again, is not loaded again.
visited_again :
    (visits (pair_ab ∷ pair_ab ∷ [])).comparison.started
    ≡ (load_experiment "a", load_experiment "b") ∷ []
unfolding page_step
visited_again = refl

-- The second pair is noted as started, and is not.
second_pair :
    let p = visits (
      pair_ab
      ∷ pair_cd
      ∷ compared (arm_a_settled (threw "x"))
      ∷ compared (arm_b_settled (threw "y"))
      ∷ pair_cd
      ∷ []) in
    (p.started_for ≡ some "c:d")
    × (p.comparison.started ≡ (load_experiment "a", load_experiment "b") ∷ [])
unfolding page_step
second_pair = (refl, refl)

abbrev detail : ExperimentDetail
detail = record { seed = 1; config = default_config; is_complete = some true }

-- The configuration of the first run is shown under the id of the next one while that loads.
stale_detail :
    (visits (pair_ab ∷ answered_a "a" (loaded detail) ∷ pair_cd ∷ [])).detail_a.state
    ≡ loaded detail
unfolding page_step
stale_detail = refl

-- Runs of another edge density differ without a warning.
other_density :
    differs_beyond_defense
      (loaded detail)
      (loaded (record detail { config = record default_config { edge_density = 9 } }))
    ≡ false
unfolding differs_beyond_defense
other_density = refl
