-- ===== src/Stream/Series/Tests.antt =====
-- The curve of a short run that is scrubbed back.
use htn.Prelude.{ℕ, ◌≡◌, refl, List, [], ◌∷◌, map}
use htn.Stream.Reducer.{GraphState, reduce_all}
use htn.Stream.Samples.{start}
use htn.Stream.Series.{OutbreakSample, empty_series, observe_all}
use htn.Stream.Series.Laws.{IsCurve, observe_all-IsCurve}

abbrev at : ℕ → GraphState
at t = record start { tick = t }

abbrev scrubbed : List GraphState
scrubbed = at 0 ∷ at 1 ∷ at 2 ∷ at 2 ∷ at 5 ∷ at 2 ∷ at 3 ∷ []

ticks :
    map (λ (x : OutbreakSample). x.tick) (observe_all empty_series scrubbed).samples
    ≡ 1 ∷ 2 ∷ 3 ∷ []
unfolding observe_all reduce_all
ticks = refl

observe_all-IsCurve_example : IsCurve (observe_all empty_series scrubbed)
observe_all-IsCurve_example = observe_all-IsCurve scrubbed
