-- ===== src/Api/Analysis.antt =====
-- The graph, the analyses, the metrics and the remediation of a run, live or replayed: the second
-- half of frontend/src/lib/api/client.ts.
use Prim.Native.String.{◌++◌ as append}
use mathlib.Core.Option
use htn.Prelude.{String, Option, none, List, [], ◌∷◌, ℕ}
use htn.Api.Request.{get, Call, call, optional}

module _ (backend_url : String) (show : ℕ → String) where
  abbrev pub analysis_call : String → String → List (String × String) → String → Call
  analysis_call id path query failure =
      call get (append backend_url (append "/api/experiments/" (append id path))) query none failure

  abbrev pub get_security_graph : String → Call
  get_security_graph id = analysis_call id "/graph" [] "failed to get security graph"

  abbrev pub get_attack_paths : String → String → String → Call
  get_attack_paths id source target =
      analysis_call id "/analysis/attack-paths" (("source", source) ∷ ("target", target) ∷ [])
        "failed to get attack paths"

  abbrev pub get_blast_radius : String → Call
  get_blast_radius id = analysis_call id "/analysis/blast-radius" [] "failed to get blast radius"

  abbrev pub get_critical_nodes : String → Option ℕ → Call
  get_critical_nodes id top_n =
      analysis_call id "/analysis/critical-nodes" (optional "top_n" (Option.map show top_n))
        "failed to get critical nodes"

  abbrev pub get_provenance : String → String → Call
  get_provenance id node_id =
      analysis_call id "/analysis/provenance" (("node_id", node_id) ∷ []) "failed to get provenance"

  abbrev pub get_metrics : String → Call
  get_metrics id = analysis_call id "/metrics" [] "failed to get metrics"

  abbrev pub get_remediation : String → Call
  get_remediation id = analysis_call id "/remediation" [] "failed to get remediation"

  abbrev pub get_replay_security_graph : String → Call
  get_replay_security_graph id =
      analysis_call id "/replay/graph" [] "failed to get replay security graph"

  abbrev pub get_replay_attack_paths : String → String → String → Call
  get_replay_attack_paths id source target =
      analysis_call id "/replay/analysis/attack-paths"
        (("source", source) ∷ ("target", target) ∷ []) "failed to get replay attack paths"

  abbrev pub get_replay_blast_radius : String → Call
  get_replay_blast_radius id =
      analysis_call id "/replay/analysis/blast-radius" [] "failed to get replay blast radius"

  abbrev pub get_replay_critical_nodes : String → Option ℕ → Call
  get_replay_critical_nodes id top_n =
      analysis_call id "/replay/analysis/critical-nodes" (optional "top_n" (Option.map show top_n))
        "failed to get replay critical nodes"

  abbrev pub get_replay_provenance : String → String → Call
  get_replay_provenance id node_id =
      analysis_call id "/replay/analysis/provenance" (("node_id", node_id) ∷ [])
        "failed to get replay provenance"

  abbrev pub get_replay_metrics : String → Call
  get_replay_metrics id = analysis_call id "/replay/metrics" [] "failed to get replay metrics"

  abbrev pub get_replay_remediation : String → Call
  get_replay_remediation id =
      analysis_call id "/replay/remediation" [] "failed to get replay remediation"
