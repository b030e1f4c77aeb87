-- ===== src/Format/Tests.antt =====
-- A node that was struck before the connection, and the texts of some entries.
use htn.Prelude.{ℕ, ℕ_eq, ◌==◌, if◌then◌else◌, ◌≡◌, refl, String, Option, none, some, [], ◌∷◌}
use htn.Stream.Types.{Json, NodeView, compromised, simulated}
use htn.Format.{
  format_percent, format_config_diff, format_event_metadata, format_provenance_chain,
  describe_compromised_by, describe_tick_compromised, derive_neighbors,
}

abbrev show : ℕ → String
show n = if n == 67 then "67" else "n"

abbrev stringify : Json → String
stringify _ = "json"

abbrev struck : Option ℕ → NodeView
struck t = record {
  id = "a";
  software_type = "x";
  security_state = compromised;
  compromised_by = none;
  tick_compromised = t;
  agent_kind = simulated;
}

struck_nodes :
    (describe_compromised_by (struck (some 0)) ≡ "— (initial compromise)")
    × (describe_tick_compromised show (struck (some 0)) ≡ "n")
    × (describe_tick_compromised show (struck (some 3))
        ≡ "unknown (before this session's connection)")
unfolding describe_compromised_by describe_tick_compromised
struck_nodes = (refl, refl, refl)

texts :
    (format_percent show 2 3 ≡ "67%")
    × (format_config_diff stringify (("seed", Json.null) ∷ []) ≡ "seed → json")
    × (format_event_metadata stringify (some (("a", Json.str "b") ∷ ("c", Json.null) ∷ []))
        ≡ "a=b  c=json")
    × (format_provenance_chain ("a" ∷ "b" ∷ []) ≡ "a → b")
unfolding format_percent format_config_diff format_event_metadata format_provenance_chain
texts = (refl, refl, refl, refl)

neighbors :
    derive_neighbors "a"
      (record { source = "b"; target = "a" } ∷ record { source = "a"; target = "c" } ∷ [])
    ≡ "b" ∷ "c" ∷ []
unfolding derive_neighbors
neighbors = refl
