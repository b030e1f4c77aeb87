-- ===== src/Format.antt =====
-- Texts for the screens: frontend/src/lib/format.ts. The texts of numbers and of JSON, and the first
-- characters of a text, are JavaScript's; the date of a time is left out.
mod Tests
use Prim.Native.String.{◌++◌ as append}
use htn.Prelude.{
  ℕ, ◌+◌, ◌*◌, ◌/◌, String, Bool, true, false, not, ◌&&◌, ◌||◌, Option, none, some, List, [], ◌∷◌,
  map, filter, Dict, is_some, ℕ_eq, string_eq, ◌==◌, if◌then◌else◌,
}
use htn.Stream.Types.{Json, EdgeView, NodeView, SecurityState, compromised, quarantined}

-- `Array.prototype.join`
abbrev pub join : String → List String → String
join sep [] = ""
join sep (s ∷ []) = s
join sep (s ∷ t ∷ rest) = append s (append sep (join sep (t ∷ rest)))

abbrev pub is_struck : SecurityState → Bool
is_struck compromised = true
is_struck quarantined = true
is_struck _ = false

-- The seeded compromise is that of tick zero.
abbrev pub is_tick_zero : Option ℕ → Bool
is_tick_zero none = false
is_tick_zero (some t) = t == 0

abbrev pub since_connection : String
since_connection = "unknown (before this session's connection)"

unfoldable pub describe_compromised_by : NodeView → String
describe_compromised_by n =
    if not (is_struck n.security_state) then "—" else elim (n.compromised_by) as (λ o. String) [
      | some by_agent ↦ by_agent
      | none ↦
          if is_tick_zero n.tick_compromised then "— (initial compromise)" else since_connection
    ]

unfoldable pub derive_neighbors : String → List EdgeView → List String
derive_neighbors node_id edges =
    map (λ e. if e.source == node_id then e.target else e.source)
      (filter (λ e. e.source == node_id || e.target == node_id) edges)

unfoldable pub format_provenance_chain : List String → String
format_provenance_chain [] = "(no provenance chain)"
format_provenance_chain (a ∷ chain) = join " → " (a ∷ chain)

module _ (stringify : Json → String) where
  unfoldable pub format_config_diff : Dict String Json → String
  format_config_diff [] = "(no change)"
  format_config_diff (e ∷ entries) =
      join ", "
        (map (λ (d : String × Json). append d.0 (append " → " (stringify d.1))) (e ∷ entries))

  abbrev pub metadata_text : Json → String
  metadata_text (Json.str s) = s
  metadata_text other = stringify other

  unfoldable pub format_event_metadata : Option (Dict String Json) → String
  format_event_metadata none = ""
  format_event_metadata (some entries) =
      join "  " (map (λ (d : String × Json). append d.0 (append "=" (metadata_text d.1))) entries)

module _ (show : ℕ → String) where
  -- Of the fraction `n / d`, rounded to whole percents.
  unfoldable pub format_percent : ℕ → ℕ → String
  format_percent n d = append (show ((200 * n + d) / (2 * d))) "%"

  unfoldable pub describe_tick_compromised : NodeView → String
  describe_tick_compromised n =
      if is_struck n.security_state
        && not (is_some n.compromised_by)
        && not (is_tick_zero n.tick_compromised)
      then since_connection
      else elim (n.tick_compromised) as (λ o. String) [ none ↦ "—" | some t ↦ show t ]
