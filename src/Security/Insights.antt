-- ===== src/Security/Insights.antt =====
-- The polling of what is derived of a run: frontend/src/lib/security/useSecurityInsights.ts. How the
-- five requests of a round are answered together, the timer and the unmounting are inputs. What the
-- requests return is only passed on.
pub mod Laws
mod Tests
use htn.Prelude.{
  ℕ, ◌+◌, String, Bool, true, false, not, ◌&&◌, Option, none, some, List, [], ◌∷◌, if◌then◌else◌,
}

abbrev pub poll_interval_ms : ℕ
poll_interval_ms = 2000

abbrev pub critical_node_count : ℕ
critical_node_count = 6

pub data InsightsMode : Type 0 where
  live replay : InsightsMode

module _ (Metrics Graph CriticalNode BlastRadius Remediation : Type 0) where
  -- What `Promise.all` resolves to.
  pub record Round : Type 0 where
    pub metrics : Metrics
    pub graph : Graph
    pub critical_nodes : List CriticalNode
    pub remediation : Remediation
    pub blast_radius : BlastRadius

  pub record SecurityInsights : Type 0 where
    pub metrics : Option Metrics
    pub graph : Option Graph
    pub critical_nodes : List CriticalNode
    pub blast_radius : Option BlastRadius
    pub remediation : Option Remediation
    pub loading : Bool
    pub error : Option String

-- An answer: a round, or the message of the first request that failed.
pub data Answer (R : Type 0) : Type 0 where
  loaded : R → Answer R
  failed : String → Answer R

pub data HookInput (R : Type 0) : Type 0 where
  answered : Answer R → HookInput R
  timer_fired : HookInput R
  unmounted : HookInput R

module _ {Metrics Graph CriticalNode BlastRadius Remediation : Type 0} where
  abbrev pub empty_insights : SecurityInsights Metrics Graph CriticalNode BlastRadius Remediation
  empty_insights = record {
    metrics = none;
    graph = none;
    critical_nodes = [];
    blast_radius = none;
    remediation = none;
    loading = true;
    error = none;
  }

  -- What is set for an answer.
  unfoldable pub take_answer :
      Answer (Round Metrics Graph CriticalNode BlastRadius Remediation)
      → SecurityInsights Metrics Graph CriticalNode BlastRadius Remediation
      → SecurityInsights Metrics Graph CriticalNode BlastRadius Remediation
  take_answer (loaded r) prev = record {
    metrics = some r.metrics;
    graph = some r.graph;
    critical_nodes = r.critical_nodes;
    blast_radius = some r.blast_radius;
    remediation = some r.remediation;
    loading = false;
    error = none;
  }
  take_answer (failed message) prev = record prev { loading = false; error = some message }

module _ (Metrics Graph CriticalNode BlastRadius Remediation : Type 0) where
  -- The variables of the effect; `rounds` counts the rounds of requests, `in_flight` tells whether
  -- one has not been answered.
  pub record Hook : Type 0 where
    pub insights : SecurityInsights Metrics Graph CriticalNode BlastRadius Remediation
    pub cancelled : Bool
    pub in_flight : Bool
    pub timer : Bool
    pub rounds : ℕ

abbrev pub is_live : InsightsMode → Bool
is_live live = true
is_live replay = false

module _ {Metrics Graph CriticalNode BlastRadius Remediation : Type 0} where
  -- The effect runs: `poll()`.
  abbrev pub mounted : Hook Metrics Graph CriticalNode BlastRadius Remediation
  mounted = record {
    insights = empty_insights;
    cancelled = false;
    in_flight = true;
    timer = false;
    rounds = 1;
  }

  -- `then` or `catch`, and `finally`.
  unfoldable pub settle_round :
      InsightsMode
      → Answer (Round Metrics Graph CriticalNode BlastRadius Remediation)
      → Hook Metrics Graph CriticalNode BlastRadius Remediation
      → Hook Metrics Graph CriticalNode BlastRadius Remediation
  settle_round mode a h =
      if not h.in_flight
      then h
      else if h.cancelled
      then record h { in_flight = false }
      else record h { insights = take_answer a h.insights; in_flight = false; timer = is_live mode }

  unfoldable pub fire_poll :
      Hook Metrics Graph CriticalNode BlastRadius Remediation
      → Hook Metrics Graph CriticalNode BlastRadius Remediation
  fire_poll h =
      if h.timer then record h { timer = false; in_flight = true; rounds = h.rounds + 1 } else h

  unfoldable pub hook_step :
      InsightsMode
      → Hook Metrics Graph CriticalNode BlastRadius Remediation
      → HookInput (Round Metrics Graph CriticalNode BlastRadius Remediation)
      → Hook Metrics Graph CriticalNode BlastRadius Remediation
  unfolding take_answer settle_round fire_poll
  hook_step mode h (answered a) = settle_round mode a h
  hook_step mode h timer_fired = fire_poll h
  hook_step mode h unmounted = record h { cancelled = true; timer = false }

  -- What the hook returns, with the id of the run.
  abbrev pub shown :
      Option String
      → Hook Metrics Graph CriticalNode BlastRadius Remediation
      → SecurityInsights Metrics Graph CriticalNode BlastRadius Remediation
  shown none h = empty_insights
  shown (some id) h = h.insights
