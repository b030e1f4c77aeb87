-- ===== src/Runtime/Incident/Laws.antt =====
-- The cascade is pinned to the events that caused it: incident.ts.
use mathlib.Core.Option
use htn.Prelude.{
  ◌≡◌, refl, sym, ap, ◌∙◌, Bool, true, false, ◌||◌, Option, none, some, List, [], ◌∷◌, any, find,
  or_else, if◌then◌else◌, Bool-cases, inl, inr, arith,
}
use htn.Prelude.Int.{ℤ}
use htn.Stream.Types.{Event}
use htn.Runtime.Fields.{is_policy_violation, is_quarantine, is_tool_denied}
use htn.Runtime.Verdict.{derive_verdict}
use htn.Runtime.Verdict.Laws.{derive_verdict-lights}
use htn.Runtime.Incident.{
  CascadeKey, requested, denied, violation, quarantined, CascadeStep, Hit, Scan, initial_scan,
  register, scan_case, scan, incident_of, derive_incident,
}

abbrev seq_of : Option Hit → Option ℤ
seq_of = Option.map (λ (h : Hit). h.seq)

-- The number of the first event of a kind.
abbrev pub first_seq : (Event → Bool) → List Event → Option ℤ
first_seq p es = Option.map (λ (e : Event). e.seq) (find p es)

-- What a round does to the fields that the cascade and the banner show.
scan_case-marks :
    (s : Scan) (e : Event)
    → let t = scan_case e.event_type e s in
      (t.detected ≡ (s.detected || is_policy_violation e))
      × (seq_of t.reached_denied
          ≡ or_else (seq_of s.reached_denied) (first_seq is_tool_denied (e ∷ [])))
      × (seq_of t.reached_violation
          ≡ or_else (seq_of s.reached_violation) (first_seq is_policy_violation (e ∷ [])))
      × (seq_of t.reached_quarantined
          ≡ or_else (seq_of s.reached_quarantined) (first_seq is_quarantine (e ∷ [])))
unfolding scan_case register
scan_case-marks s e = ground arith

first_seq-cons :
    (p : Event → Bool) (o : Option ℤ) (e : Event) (es : List Event)
    → or_else (or_else o (first_seq p (e ∷ []))) (first_seq p es) ≡ or_else o (first_seq p (e ∷ es))
first_seq-cons p none e es = elim (Bool-cases (p e)) [ inl h ↦ rw h refl | inr h ↦ rw h refl ]
first_seq-cons p (some n) e es = refl

scan-marks :
    (s : Scan) (es : List Event)
    → let t = scan s es in
      (t.detected ≡ (s.detected || any is_policy_violation es))
      × (seq_of t.reached_denied ≡ or_else (seq_of s.reached_denied) (first_seq is_tool_denied es))
      × (seq_of t.reached_violation
          ≡ or_else (seq_of s.reached_violation) (first_seq is_policy_violation es))
      × (seq_of t.reached_quarantined
          ≡ or_else (seq_of s.reached_quarantined) (first_seq is_quarantine es))
unfolding scan
scan-marks s [] = ground arith
scan-marks s (e ∷ es) =
    let t = scan_case e.event_type e s in
    let (d, a, b, c) = scan-marks t es in
    let (d', a', b', c') = scan_case-marks s e in
    (
      ground arith,
      a
          ∙ ap (λ o. or_else o (first_seq is_tool_denied es)) a'
          ∙ first_seq-cons is_tool_denied (seq_of s.reached_denied) e es,
      b
          ∙ ap (λ o. or_else o (first_seq is_policy_violation es)) b'
          ∙ first_seq-cons is_policy_violation (seq_of s.reached_violation) e es,
      c
          ∙ ap (λ o. or_else o (first_seq is_quarantine es)) c'
          ∙ first_seq-cons is_quarantine (seq_of s.reached_quarantined) e es,
    )

-- The banner and the verdict light agree on whether an attack was detected.
derive_incident-detected :
    (es : List Event) → (derive_incident es).detected ≡ (derive_verdict es).attack_detected
unfolding derive_incident
derive_incident-detected es = (scan-marks initial_scan es).0 ∙ sym (derive_verdict-lights es).0

abbrev same_key : CascadeKey → CascadeKey → Bool
same_key requested requested = true
same_key denied denied = true
same_key violation violation = true
same_key quarantined quarantined = true
same_key _ _ = false

-- The sequence number of a step of the cascade, if the cascade has the step.
abbrev pub seq_at : CascadeKey → List CascadeStep → Option (Option ℤ)
seq_at k [] = none
seq_at k (c ∷ cs) = if same_key c.key k then some c.seq else seq_at k cs

-- The denial, the violation and the quarantine of the cascade are the first TOOL_DENIED, the first
-- POLICY_VIOLATION and the first AGENT_QUARANTINED of the history, and are not reached if it holds
-- none: what the worker does later moves none of them.
pub derive_incident-cascade :
    (es : List Event)
    → let c = (derive_incident es).cascade in
      (seq_at denied c ≡ some (first_seq is_tool_denied es))
      × (seq_at violation c ≡ some (first_seq is_policy_violation es))
      × (seq_at quarantined c ≡ some (first_seq is_quarantine es))
unfolding derive_incident incident_of
derive_incident-cascade es =
    let s = scan initial_scan es in
    let (_, a, b, c) = scan-marks initial_scan es in (ap some (a), ap some (b), ap some (c))
