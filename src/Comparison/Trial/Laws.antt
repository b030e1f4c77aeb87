-- ===== src/Comparison/Trial/Laws.antt =====
-- What a trial runs: useFixTrial.ts.
use htn.Prelude.{
  ◌≡◌, refl, ap, ◌∙◌, String, false, none, [], ◌∷◌, lookup, insert, lookup-insert, keys, contains,
  Distinct, or_else, string_eq, ◌==◌, Bool-cases, inl, inr,
}
use text.Mathlib.TextEquality.{eq_iff}
use htn.Comparison.Trial.{Config, remediated}

lookup_absent : (a : String) (c : Config) → contains a (keys c) ≡ false → lookup a c ≡ none
unfolding lookup contains
lookup_absent a [] h = refl
lookup_absent a ((k, v) ∷ c) h = elim (Bool-cases (k == a)) [
  | inl same ↦ cc (rw same at h)
  | inr other ↦ rw other (lookup_absent a c (rw other at h))
]

-- If no field is recommended twice, then the configuration that is tried has each recommended field
-- as recommended, and every other one as the base configuration has it.
pub lookup-remediated :
    (base diff : Config) (a : String)
    → Distinct (keys diff)
    → lookup a (remediated base diff) ≡ or_else (lookup a diff) (lookup a base)
unfolding remediated lookup
lookup-remediated base [] a d = refl
lookup-remediated base ((k, v) ∷ diff) a d =
    let before =
      lookup-remediated (insert k v base) diff a d.1
      ∙ ap (or_else (lookup a diff)) (lookup-insert k a v base) in
    elim (Bool-cases (k == a)) [
      | inl same ↦
          let absent : contains a (keys diff) ≡ false = rw ((eq_iff k a).0 same) at d.0 in
          rw same (before ∙ rw (same, lookup_absent a diff absent) refl)
      | inr other ↦ rw other (before ∙ rw other refl)
    ]
