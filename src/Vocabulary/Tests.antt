-- ===== src/Vocabulary/Tests.antt =====
-- Some machine names, and what is shown for them.
use htn.Prelude.{◌≡◌, refl, true, some, [], ◌∷◌}
use htn.Severity.{critical, ok}
use htn.Stream.Types.{Json}
use htn.Vocabulary.Events.{event_meta, event_severity, lifecycle_event}
use htn.Vocabulary.Nodes.{node_type_meta, data_plane}
use htn.Vocabulary.Scenarios.{scenario_meta, config_label}

replayed_attestation :
    event_severity "ATTESTATION_VERIFIED" (some (("replayed", Json.bool true) ∷ [])) ≡ critical
unfolding event_severity
replayed_attestation = refl

recovered : (event_meta "WORKFLOW_RECOVERED").severity ≡ ok
unfolding event_meta
recovered = refl

unknown_event : event_meta "NEW_EVENT" ≡ lifecycle_event "NEW_EVENT"
unfolding event_meta
unknown_event = refl

credentials : (node_type_meta "credential").plane ≡ data_plane
unfolding node_type_meta
credentials = refl

exclusive : (scenario_meta "propagation").exclusive_with ≡ "adaptive_attacker" ∷ []
unfolding scenario_meta
exclusive = refl

labelled : config_label "seed" ≡ "Seed"
unfolding config_label
labelled = refl
