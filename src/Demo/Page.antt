-- ===== src/Demo/Page.antt =====
-- The live demo: `DemoPage` of frontend/src/app/demo/page.tsx. The polling, the stream of the session
-- (Runtime.Attach) and how requests are answered are inputs; the effects that a change sets off run
-- before the next input. Of the session and of its explanation nothing is read but the id.
pub mod Laws
mod Tests
use htn.Prelude.{
  ℕ, String, Bool, true, false, not, ◌&&◌, ◌||◌, Option, none, some, List, [], ◌∷◌, truthy,
  coalesce, is_some, same_option, string_eq, Dict, lookup, if◌then◌else◌,
}
use htn.Stream.Types.{Event}
use htn.Stream.Reducer.{GraphState, initial_graph_state}
use htn.Graph.Swarm.{RuntimeSessionSummary}
use htn.Runtime.Verdict.{derive_verdict, CompletedStep}
use htn.Runtime.Stage.{Stage, build_stage}

abbrev pub poll_ms : ℕ
poll_ms = 1500

pub data PollAnswer : Type 0 where
  found : RuntimeSessionSummary → PollAnswer
  no_live_session : PollAnswer
  failed : String → PollAnswer

module _ (Explanation : Type 0) where
  -- `attached_to` and `detected` are the dependencies with which the effect of the explanation ran
  -- last, `asking` the session of its request, while that is neither answered nor aborted.
  pub record DemoPage : Type 0 where
    pub summary : Option RuntimeSessionSummary
    pub load_error : Option String
    pub explanation : Option Explanation
    pub explained_for : Option String
    pub resetting : Bool
    pub stream : GraphState
    pub attached_to : Option String
    pub detected : Bool
    pub asking : Option String

  pub data DemoEvent : Type 0 where
    polled : PollAnswer → DemoEvent
    streamed : GraphState → DemoEvent
    -- the request for a session's explanation is answered, or fails
    explained : String → Explanation → DemoEvent
    unexplained : String → DemoEvent
    reset_pressed : DemoEvent
    reset_done : DemoEvent
    reset_failed : String → DemoEvent

-- Whose explanation is requested.
unfoldable pub request : Option String → Bool → Option String → Option String
request session detected explained_for = elim (truthy session) [
  | none ↦ none
  | some s ↦ if not detected || same_option explained_for (some s) then none else some s
]

abbrev pub same_flag : Bool → Bool → Bool
same_flag true b = b
same_flag false b = not b

module _ {Explanation : Type 0} where
  unfoldable pub opened_page : DemoPage Explanation
  unfolding initial_graph_state
  opened_page = record {
    summary = none;
    load_error = none;
    explanation = none;
    explained_for = none;
    resetting = false;
    stream = initial_graph_state;
    attached_to = none;
    detected = false;
    asking = none;
  }

  abbrev pub session_id : DemoPage Explanation → Option String
  session_id p = elim (p.summary) [ none ↦ none | some s ↦ some s.session_id ]

  -- What the stream has told of the session that is attached.
  unfoldable pub live_events : DemoPage Explanation → List Event
  live_events p = elim (truthy (session_id p)) [
    | none ↦ []
    | some s ↦ if same_option p.stream.experiment_id (some s) then p.stream.recent_events else []
  ]

  unfoldable pub attack_detected : DemoPage Explanation → Bool
  unfolding live_events derive_verdict
  attack_detected p = (derive_verdict (live_events p)).attack_detected

  -- The body of `poll`.
  unfoldable pub take_poll : PollAnswer → DemoPage Explanation → DemoPage Explanation
  take_poll (found next) p = record p { summary = some next; load_error = none }
  take_poll no_live_session p = record p { summary = none; load_error = none }
  take_poll (failed message) p = record p { load_error = some message }

  -- The effect of the explanation: on a change the last request is aborted.
  unfoldable pub explain_at : Option String → Bool → DemoPage Explanation → DemoPage Explanation
  unfolding request
  explain_at session now p =
      if same_option p.attached_to session && same_flag p.detected now then p else record p {
        attached_to = session;
        detected = now;
        asking = request session now p.explained_for;
      }

  unfoldable pub explain : DemoPage Explanation → DemoPage Explanation
  unfolding attack_detected explain_at
  explain p = explain_at (session_id p) (attack_detected p) p

  -- An answer to a request that was aborted is not seen.
  unfoldable pub take_explanation :
      String → Option Explanation → DemoPage Explanation → DemoPage Explanation
  take_explanation s (some next) p =
      if same_option p.asking (some s)
      then record p { explained_for = some s; explanation = some next; asking = none }
      else p
  take_explanation s none p =
      if same_option p.asking (some s) then record p { asking = none } else p

  -- `onReset`, before its request and after it.
  unfoldable pub press_reset : DemoPage Explanation → DemoPage Explanation
  press_reset p = if p.resetting then p else record p { resetting = true }

  unfoldable pub finish_reset : Option String → DemoPage Explanation → DemoPage Explanation
  finish_reset none p =
      if p.resetting
      then record p {
        summary = none;
        explanation = none;
        explained_for = none;
        load_error = none;
        resetting = false;
      }
      else p
  finish_reset (some message) p =
      if p.resetting then record p { load_error = some message; resetting = false } else p

  unfoldable pub react : DemoPage Explanation → DemoEvent Explanation → DemoPage Explanation
  unfolding take_poll take_explanation press_reset finish_reset
  react p (polled answer) = take_poll answer p
  react p (streamed state) = record p { stream = state }
  react p (explained s next) = take_explanation s (some next) p
  react p (unexplained s) = take_explanation s none p
  react p reset_pressed = press_reset p
  react p reset_done = finish_reset none p
  react p (reset_failed message) = finish_reset (some message) p

  unfoldable pub page_step : DemoPage Explanation → DemoEvent Explanation → DemoPage Explanation
  unfolding react explain
  page_step p e = explain (react p e)

-- What the page shows below its header.
pub data Body : Type 0 where
  connecting : Body
  sections : Body
  unreachable : String → Body
  waiting : Body

pub record Screen : Type 0 where
  -- the detail of each banner
  pub lost_contact : Option String
  pub schema_mismatch : Option ℕ
  pub body : Body

module _ {Explanation : Type 0} where
  unfoldable pub body_of : DemoPage Explanation → Body
  unfolding live_events
  body_of p = elim (p.summary) [
    | none ↦ elim (truthy p.load_error) [ none ↦ waiting | some message ↦ unreachable message ]
    | some s ↦ elim (live_events p) [
      | [] ↦ elim (truthy p.load_error) [ none ↦ connecting | some message ↦ sections ]
      | e ∷ es ↦ sections
    ]
  ]

  -- The error of the stream's schema is another output of its hook.
  unfoldable pub screen_of : Option ℕ → DemoPage Explanation → Screen
  unfolding body_of
  screen_of schema_error p = record {
    lost_contact = if is_some p.summary then truthy p.load_error else none;
    schema_mismatch = schema_error;
    body = body_of p;
  }

  abbrev pub stage_of_page : DemoPage Explanation → Stage
  unfolding build_stage
  stage_of_page p = build_stage p.summary p.stream

-- `STEP_LABEL`
abbrev pub step_label : Dict String String
step_label =
    ("analysis", "Repository analysed")
    ∷ ("research", "Vulnerability investigated")
    ∷ ("patch", "Patch applied")
    ∷ ("pytest", "Tests run")
    ∷ ("review", "Independently reviewed")
    ∷ []

-- A row of the completed work: its label and its detail, and the worker if there is one.
unfoldable pub step_row : CompletedStep → String × String × Option String
unfolding lookup
step_row s = (coalesce (lookup s.step step_label) s.step, s.detail, truthy s.worker_id)
