-- ===== src/Runtime/Verdict/Laws.antt =====
-- Each light says what the events say: verdict.ts.
use htn.Prelude.{
  ◌≡◌, refl, sym, ap, ◌∙◌, String, Bool, false, ◌||◌, Option, none, some, List, [], ◌∷◌, ◌++◌,
  foldl, any, last, filter_map, last-concat, last-cons, coalesce, or_else, string_eq, ◌==◌,
  if◌then◌else◌, Option-cases, Bool-cases, inl, inr, arith,
}
use mathlib.Core.List.{append_assoc, append-nil}
use text.Mathlib.TextEquality.{eq_iff}
use mathlib.Core.Option
use htn.Stream.Types.{Json, Event, EventType, meta, is_true}
use htn.Runtime.Fields.{str_or_null, is_policy_violation, is_quarantine, is_workflow_recovered}
use htn.Runtime.TestRuns.{
  is_text, TestCount, TestRun, test_run, push_run, collect_runs, evidence_of, derive_test_evidence,
}
use htn.Runtime.Verdict.{
  CompletedStep, DemoVerdict, empty_verdict, verdict_case, verdict_step, derive_verdict,
}

-- The step that an event of the type completes, if it completes one.
abbrev pub step_at : EventType → Event → Option CompletedStep
step_at EventType.task_completed e = elim (str_or_null (meta e "step")) [
  | none ↦ none
  | some step ↦ some (record {
    step = step;
    worker_id = e.agent_id;
    detail = coalesce (str_or_null (meta e "detail")) "";
    seq = e.seq;
  })
]
step_at _ e = none

abbrev pub completed_step : Event → Option CompletedStep
completed_step e = step_at e.event_type e

-- The outcome of the run of the suite that an event of the type reports, if it reports one.
abbrev pub outcome_at : EventType → Event → Option Bool
outcome_at EventType.task_completed e =
    if is_text (meta e "step") "pytest" then some (is_true (meta e "passed")) else none
outcome_at _ e = none

abbrev pub outcome : Event → Option Bool
outcome e = outcome_at e.event_type e

verdict_case-lights :
    (v : DemoVerdict) (e : Event)
    → ((verdict_step v e).attack_detected ≡ (v.attack_detected || is_policy_violation e))
      × ((verdict_step v e).agent_quarantined ≡ (v.agent_quarantined || is_quarantine e))
      × ((verdict_step v e).workflow_recovered ≡ (v.workflow_recovered || is_workflow_recovered e))
unfolding verdict_step
verdict_case-lights v e = ground arith

foldl-lights :
    (v : DemoVerdict) (es : List Event)
    → let w = foldl verdict_step v es in
      (w.attack_detected ≡ (v.attack_detected || any is_policy_violation es))
      × (w.agent_quarantined ≡ (v.agent_quarantined || any is_quarantine es))
      × (w.workflow_recovered ≡ (v.workflow_recovered || any is_workflow_recovered es))
foldl-lights v [] = ground arith
foldl-lights v (e ∷ es) =
    ground (arith, verdict_case-lights v e, foldl-lights (verdict_step v e) es)

-- The attack, quarantine and recovery flags are set exactly if the history holds a POLICY_VIOLATION,
-- an AGENT_QUARANTINED and a WORKFLOW_RECOVERED.
pub derive_verdict-lights :
    (es : List Event)
    → ((derive_verdict es).attack_detected ≡ any is_policy_violation es)
      × ((derive_verdict es).agent_quarantined ≡ any is_quarantine es)
      × ((derive_verdict es).workflow_recovered ≡ any is_workflow_recovered es)
unfolding derive_verdict
derive_verdict-lights es = foldl-lights empty_verdict es

verdict_case-completed :
    (t : EventType) (e : Event) (v : DemoVerdict)
    → (verdict_case t e v).completed_steps
      ≡ v.completed_steps ++ elim (step_at t e) [ none ↦ [] | some c ↦ c ∷ [] ]
unfolding verdict_case
verdict_case-completed EventType.task_completed e v =
    elim (Option-cases (str_or_null (meta e "step"))) [
      | inl missing ↦ ground (arith, append-nil v.completed_steps)
      | inr (step, h) ↦ ground arith
    ]
verdict_case-completed EventType.agent_created e v = ground (arith, append-nil v.completed_steps)
verdict_case-completed _ e v = sym (append-nil v.completed_steps)

foldl-completed :
    (v : DemoVerdict) (es : List Event)
    → (foldl verdict_step v es).completed_steps ≡ v.completed_steps ++ filter_map completed_step es
unfolding verdict_step
foldl-completed v [] = sym (append-nil v.completed_steps)
foldl-completed v (e ∷ es) =
    foldl-completed (verdict_step v e) es
    ∙ ap (λ steps. steps ++ filter_map completed_step es) (verdict_case-completed e.event_type e v)
    ∙ regroup (completed_step e)
  where
    regroup :
        (o : Option CompletedStep)
        → (v.completed_steps ++ elim o [ none ↦ [] | some c ↦ c ∷ [] ])
            ++ filter_map completed_step es
          ≡ v.completed_steps ++ elim o [
            | none ↦ filter_map completed_step es
            | some c ↦ c ∷ filter_map completed_step es
          ]
    regroup none =
        ap (λ steps. steps ++ filter_map completed_step es) (append-nil v.completed_steps)
    regroup (some c) = append_assoc v.completed_steps (c ∷ []) (filter_map completed_step es)

-- The completed steps are the named steps of the TASK_COMPLETED events, all of them, in order.
derive_verdict-completed_steps :
    (es : List Event) → (derive_verdict es).completed_steps ≡ filter_map completed_step es
unfolding derive_verdict
derive_verdict-completed_steps es = foldl-completed empty_verdict es

step-is_text :
    (o : Option Json)
    → is_text o "pytest" ≡ elim (str_or_null o) [ none ↦ false | some s ↦ s == "pytest" ]
step-is_text none = refl
step-is_text (some (Json.str s)) = elim (Bool-cases (s == "")) [
  | inl h ↦ rw ((eq_iff s "").0 h) refl
  | inr h ↦ rw h refl
]
step-is_text (some Json.null) = refl
step-is_text (some _) = refl

verdict_case-tests :
    (t : EventType) (e : Event) (v : DemoVerdict)
    → (verdict_case t e v).tests_passed ≡ or_else (outcome_at t e) v.tests_passed
unfolding verdict_case
verdict_case-tests EventType.task_completed e v =
    elim (Option-cases (str_or_null (meta e "step"))) [
      | inl missing ↦ ground (arith, step-is_text (meta e "step"))
      | inr (step, h) ↦ ground (arith, step-is_text (meta e "step"))
    ]
verdict_case-tests EventType.agent_created e v = ground arith
verdict_case-tests _ e v = refl

foldl-tests :
    (v : DemoVerdict) (es : List Event)
    → (foldl verdict_step v es).tests_passed ≡ or_else (last (filter_map outcome es)) v.tests_passed
unfolding verdict_step
foldl-tests v [] = refl
foldl-tests v (e ∷ es) =
    foldl-tests (verdict_step v e) es
    ∙ ap (or_else (last (filter_map outcome es))) (verdict_case-tests e.event_type e v)
    ∙ later (outcome e)
  where
    later :
        (o : Option Bool)
        → or_else (last (filter_map outcome es)) (or_else o v.tests_passed)
          ≡ or_else
              (last (elim o [ none ↦ filter_map outcome es | some b ↦ b ∷ filter_map outcome es ]))
              v.tests_passed
    later none = refl
    later (some b) = ground (arith, last-cons b (filter_map outcome es))

module _ (parse_counts : String → List TestCount) where
  passed_last : List TestRun → Option Bool
  passed_last rs = Option.map (λ (r : TestRun). r.passed) (last rs)

  push_run-passed :
      (t : EventType) (rs : List TestRun) (e : Event)
      → passed_last (push_run parse_counts t rs e) ≡ or_else (outcome_at t e) (passed_last rs)
  unfolding push_run passed_last test_run
  push_run-passed EventType.task_completed rs e =
      ground (arith, last-concat rs (test_run parse_counts e))
  push_run-passed _ rs e = refl

  collect_runs-passed :
      (rs : List TestRun) (es : List Event)
      → passed_last (collect_runs parse_counts rs es)
        ≡ or_else (last (filter_map outcome es)) (passed_last rs)
  unfolding collect_runs
  collect_runs-passed rs [] = refl
  collect_runs-passed rs (e ∷ es) = elim (Option-cases (outcome e)) [
    | inl silent ↦ ground (
      arith,
      collect_runs-passed (push_run parse_counts e.event_type rs e) es,
      push_run-passed e.event_type rs e,
    )
    | inr (b, reported) ↦ ground (
      arith,
      collect_runs-passed (push_run parse_counts e.event_type rs e) es,
      push_run-passed e.event_type rs e,
      last-cons b (filter_map outcome es),
    )
  ]

  evidence_of-runs : (rs : List TestRun) → (evidence_of parse_counts rs).runs ≡ rs
  unfolding evidence_of
  evidence_of-runs [] = refl
  evidence_of-runs (r ∷ []) = refl
  evidence_of-runs (r ∷ q ∷ rs) = refl

  -- The verdict light for the tests and the evidence panel agree: the light shows the outcome of the
  -- last run that the panel lists, and nothing if it lists none.
  pub derive_verdict-tests_passed :
      (es : List Event)
      → (derive_verdict es).tests_passed
        ≡ Option.map (λ (r : TestRun). r.passed) (last (derive_test_evidence parse_counts es).runs)
  unfolding derive_verdict derive_test_evidence passed_last
  derive_verdict-tests_passed es =
      foldl-tests empty_verdict es
      ∙ sym (collect_runs-passed [] es)
      ∙ ap passed_last (sym (evidence_of-runs (collect_runs parse_counts [] es)))
