-- ===== src/Runtime/Stage/Tests.antt =====
-- A chain of three workers, the second of which is replaced, and a cycle.
use htn.Prelude.{
  ℕ, ◌+◌, ◌≡◌, refl, String, true, Option, none, some, List, [], ◌∷◌, map, lookup, length,
  string_eq, ◌==◌, if◌then◌else◌, arith,
}
use htn.Stream.Types.{healthy, quarantined}
use htn.Stream.Reducer.{initial_graph_state}
use htn.Graph.Swarm.{WorkerView}
use htn.Runtime.Stage.{StageNode, StageColumn, depths, build_stage}
use htn.Runtime.Stage.Chain.{chain, depths-chain}

abbrev worker : String → List String → Option String → WorkerView
worker id upstream replaces = record {
  id = id;
  role = "role";
  security_state = if id == "w" then quarantined else healthy;
  upstream = upstream;
  replaces = replaces;
  model_backed = true;
  current_task = none;
  quarantine_reason = none;
}

-- Children are listed before the workers that hand over to them.
abbrev team : List WorkerView
team =
    worker "p" ("w" ∷ "gone" ∷ []) none
    ∷ worker "q" [] (some "w")
    ∷ worker "w" ("r" ∷ []) none
    ∷ worker "r" [] none
    ∷ []

laid_out :
    map
      (λ (c : StageColumn). map (λ (n : StageNode). n.id) c.nodes)
      (build_stage (some (record { session_id = "s"; workers = team })) initial_graph_state).columns
    ≡ ("r" ∷ []) ∷ ("w" ∷ "q" ∷ []) ∷ ("p" ∷ []) ∷ []
unfolding build_stage initial_graph_state
laid_out = refl

-- A cycle ends after one pass more than there are workers.
cycle :
    depths (worker "a" ("b" ∷ []) none ∷ worker "b" ("a" ∷ []) none ∷ []) ≡ ("a", 5) ∷ ("b", 6) ∷ []
unfolding build_stage
cycle = refl

abbrev level : String → ℕ
level id = if id == "p" then 2 else if id == "r" then 0 else if id == "w" then 1 else 2

depths-chain_example : lookup "p" (depths team) ≡ some (chain (length team + 1) team "p")
unfolding build_stage
depths-chain_example =
    depths-chain team level (refl, (refl, (refl, (refl, tt))))
      (
        (λ _. omega arith, (λ h. cc, tt)),
        ((λ _. omega arith, tt), ((λ _. omega arith, tt), (tt, tt))),
      )
      (omega arith) "p" refl
