-- ===== src/Runtime/Provenance/Laws.antt =====
-- The calls add up: provenance.ts.
use htn.Prelude.{
  ℕ, ◌+◌, ◌≡◌, refl, ◌∙◌, String, Bool, Option, none, some, List, [], ◌∷◌, foldl, Dict, lookup,
  insert, string_eq, ◌==◌, Bool-cases, Option-cases, inl, inr, arith, values,
}
use htn.Prelude.Sort.{insert_sorted}
use htn.Stream.Types.{EventType, Event}
use htn.Runtime.Provenance.{
  ModelProvenance, Tallies, entry_of, add_call, count_distinct, key_of, count_call, tally_calls,
  derive_provenance,
}

abbrev pub total_calls : List ModelProvenance → ℕ
total_calls [] = 0
total_calls (p ∷ ps) = p.calls + total_calls ps

abbrev old_calls : Option ModelProvenance → ℕ
old_calls none = 0
old_calls (some p) = p.calls

total_calls-insert :
    (k : String) (p : ModelProvenance) (m : Dict String ModelProvenance)
    → total_calls (values (insert k p m)) + old_calls (lookup k m)
      ≡ total_calls (values m) + p.calls
unfolding insert lookup
total_calls-insert k p [] = omega arith
total_calls-insert k p ((j, q) ∷ m) = elim (Bool-cases (j == k)) [
  | inl same ↦ rw same (omega arith)
  | inr other ↦ rw other (omega (arith, total_calls-insert k p m))
]

total_calls-count_distinct :
    (entry : ModelProvenance) (m : Dict String ModelProvenance)
    → entry.calls ≡ 1
    → total_calls (values (count_distinct entry m)) ≡ total_calls (values m) + 1
unfolding derive_provenance
total_calls-count_distinct entry m one = elim (Option-cases (lookup (key_of entry) m)) [
  | inl new ↦
      let sum = total_calls-insert (key_of entry) entry m in
      let sum' = rw new at sum in rw (new, count_distinct) (omega arith)
  | inr (seen, found) ↦
      let sum = total_calls-insert (key_of entry) (add_call seen seen entry) m in
      let sum' = rw found at sum in rw (found, count_distinct) (omega arith)
]

total_calls-insert_sorted :
    (less : ModelProvenance → ModelProvenance → Bool) (ps : List ModelProvenance)
    (p : ModelProvenance)
    → total_calls (insert_sorted less ps p) ≡ total_calls ps + p.calls
unfolding insert_sorted
total_calls-insert_sorted less [] p = omega arith
total_calls-insert_sorted less (q ∷ ps) p = elim (Bool-cases (less p q)) [
  | inl first ↦ rw first (omega arith)
  | inr after ↦ rw after (omega (arith, total_calls-insert_sorted less ps p))
]

foldl-insert_sorted :
    (less : ModelProvenance → ModelProvenance → Bool) (ps qs : List ModelProvenance)
    → total_calls (foldl (insert_sorted less) ps qs) ≡ total_calls ps + total_calls qs
foldl-insert_sorted less ps [] = omega arith
foldl-insert_sorted less ps (q ∷ qs) =
    foldl-insert_sorted less (insert_sorted less ps q) qs
    ∙ rw (total_calls-insert_sorted less ps q) (omega arith)

-- The calls of the models that have been seen are all that are counted.
abbrev AddsUp : Tallies → Type 0
AddsUp t = total_calls (values t.distinct) ≡ t.calls

count_call-AddsUp : (y : EventType) (t : Tallies) (e : Event) → AddsUp t → AddsUp (count_call y t e)
unfolding derive_provenance
count_call-AddsUp y t e h = ground (arith, total_calls-count_distinct (entry_of e) t.distinct refl)

foldl-AddsUp :
    (t : Tallies) (es : List Event)
    → AddsUp t
    → AddsUp (foldl (λ t (e : Event). count_call e.event_type t e) t es)
foldl-AddsUp t [] h = h
foldl-AddsUp t (e ∷ es) h =
    foldl-AddsUp (count_call e.event_type t e) es (count_call-AddsUp e.event_type t e h)

-- The calls of the distinct models, as ranked, add up to the calls of the session.
pub derive_provenance-calls :
    (es : List Event) → total_calls (derive_provenance es).distinct ≡ (derive_provenance es).calls
unfolding derive_provenance
derive_provenance-calls es =
    let sum = foldl-insert_sorted _ [] (values (tally_calls es).distinct) in
    let adds = foldl-AddsUp (record { by_worker = []; distinct = []; calls = 0 }) es refl in
    sum ∙ omega (arith, adds)
