-- ===== src/Security/Insights/Tests.antt =====
-- A live run, one of whose rounds fails.
use htn.Prelude.{ℕ, ◌+◌, ◌≡◌, refl, false, none, some, List, [], ◌∷◌, foldl, length}
use htn.Security.Insights.{
  live, replay, Round, Answer, loaded, failed, Hook, mounted, empty_insights, take_answer,
  hook_step,
}
use htn.Security.Insights.Laws.{round, told, rounds-told}

-- What the requests return are numbers here.
abbrev first : Round ℕ ℕ ℕ ℕ ℕ
first = record {
  metrics = 1;
  graph = 2;
  critical_nodes = 3 ∷ [];
  remediation = 4;
  blast_radius = 5;
}

abbrev later : List (Answer (Round ℕ ℕ ℕ ℕ ℕ))
later = failed "503" ∷ []

abbrev start : Hook ℕ ℕ ℕ ℕ ℕ
start = mounted

-- The failure is shown next to the data.
stale_kept :
    ((foldl (round live) start (loaded first ∷ later)).insights.metrics ≡ some 1)
    × ((foldl (round live) start (loaded first ∷ later)).insights.error ≡ some "503")
unfolding hook_step
stale_kept = (refl, refl)

-- Nothing has loaded yet, but the spinner is gone.
failed_first :
    let s = (foldl (round live) start (failed "503" ∷ [])).insights in
    (s.loading ≡ false) × (s.metrics ≡ none)
unfolding hook_step
failed_first = (refl, refl)

rounds-told_example :
    let all = loaded first ∷ later in
    ((foldl (round live) start all).insights ≡ told empty_insights all)
    × ((foldl (round live) start all).rounds ≡ 2 + length later)
    × ((foldl (round replay) start all).insights ≡ take_answer (loaded first) empty_insights)
    × ((foldl (round replay) start all).rounds ≡ 1)
rounds-told_example = rounds-told (loaded first) later
