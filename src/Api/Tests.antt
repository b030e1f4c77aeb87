-- ===== src/Api/Tests.antt =====
-- What some of the requests read, and how they end.
use htn.Prelude.{ℕ, ◌≡◌, refl, String, false, none, some, [], ◌∷◌}
use htn.Prelude.Int.{ℤ, pos, negsuc}
use htn.Api.Request.{get, post, settle, resolved, rejected, no_live_session}
use htn.Api.Experiments.{list_experiments, stop_experiment, backend_ws_query}
use htn.Api.Analysis.{get_replay_attack_paths}
use htn.Api.Sessions.{get_current_runtime_session, get_runtime_explanation, get_runtime_events}

abbrev show : ℕ → String
show _ = "n"

abbrev show_int : ℤ → String
show_int (pos _) = "n"
show_int (negsuc _) = "-n"

-- An empty cursor is left out, and `false` is not.
listed :
    (list_experiments "h" "w" show show_int (record {
      status = none;
      defense_enabled = some false;
      limit = some 5;
      cursor = some "";
    })).request
    ≡ record {
      method = get;
      url = "h/api/experiments";
      query = ("defense_enabled", "false") ∷ ("limit", "n") ∷ [];
      body = none;
    }
listed = refl

stopped :
    (stop_experiment "h" "w" show show_int "e").request
    ≡ record { method = post; url = "h/api/experiments/e/stop"; query = []; body = none }
stopped = refl

paths : (get_replay_attack_paths "h" show "e" "a" "b").request ≡ record {
  method = get;
  url = "h/api/experiments/e/replay/analysis/attack-paths";
  query = ("source", "a") ∷ ("target", "b") ∷ [];
  body = none;
}
paths = refl

stream : backend_ws_query "h" "w" show show_int "e" none ≡ ("w/api/experiments/e/stream", [])
stream = refl

buffered :
    (get_runtime_events "h" "w" show_int "s" (negsuc 0)).request.query ≡ ("since_seq", "-n") ∷ []
buffered = refl

-- Only where a session may not be live yet is a missing one told from a failure.
missing :
    (settle show {A = ℕ} (get_current_runtime_session "h" "w" show_int) 404 1 ≡ no_live_session)
    × (settle show {A = ℕ} (get_runtime_explanation "h" "w" show_int "s") 404 1
        ≡ rejected "failed to get the incident explanation: n")
    × (settle show {A = ℕ} (stop_experiment "h" "w" show show_int "e") 409 1
        ≡ rejected "failed to stop experiment: n")
    × (settle show {A = ℕ} (stop_experiment "h" "w" show show_int "e") 200 1 ≡ resolved 1)
unfolding settle
missing = (refl, refl, refl, refl)
