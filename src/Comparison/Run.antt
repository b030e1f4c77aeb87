-- ===== src/Comparison/Run.antt =====
-- One run that is watched to its end: frontend/src/lib/comparison/runToCompletion.ts. The replies of
-- the backend, the frames of the socket, the timers and the abort signal are inputs, in the order in
-- which they come; the metrics of a run are only passed on.
pub mod Ends
pub mod Laws
mod Tests
use htn.Prelude.{
  ℕ, ◌+◌, String, Bool, true, false, not, ◌&&◌, Option, none, some, foldl, ltb, if◌then◌else◌,
}
use htn.Prelude.Int.{ℤ, ltb_ℤ}
use htn.Stream.Types.{StreamFrame}
use htn.Stream.Reducer.{ok, GraphState, initial_graph_state, reduce}
use htn.Controls.Reducer.{ControlStatus, finished, stopped}

abbrev pub catch_up_poll_ms : ℕ
catch_up_poll_ms = 20

abbrev pub catch_up_timeout_ms : ℕ
catch_up_timeout_ms = 5000

pub data RunError : Type 0 where
  create_failed : RunError
  aborted : RunError
  metrics_failed : RunError

-- `s.status === "finished" || s.status === "stopped"`
unfoldable pub is_terminal : ControlStatus → Bool
is_terminal finished = true
is_terminal stopped = true
is_terminal _ = false

module _ (Metrics : Type 0) where
  -- What the function waits for.
  pub data RunPhase : Type 0 where
    creating : RunPhase
    -- the timer of the next poll
    waiting : String → RunPhase
    -- the status
    asking : String → RunPhase
    -- the timer of the catch-up loop, with the final number and the deadline
    catching_up : String → ℤ → ℕ → RunPhase
    fetching : String → RunPhase
    -- the reply to `stopExperiment` once the metrics are there, or once the run is aborted
    stopping : String → Metrics → RunPhase
    aborting : RunPhase
    resolved : String → Metrics → RunPhase
    rejected : RunError → RunPhase

  -- The variables; `closed` tells whether `ws.close` was called, `stops` how often
  -- `stopExperiment` was.
  pub record Run : Type 0 where
    pub graph_state : GraphState
    pub socket_open : Bool
    pub closed : Bool
    pub stops : ℕ
    pub signal_aborted : Bool
    pub phase : RunPhase

module _ {Metrics : Type 0} where
  abbrev pub initial_run : Run Metrics
  initial_run = record {
    graph_state = initial_graph_state;
    socket_open = false;
    closed = false;
    stops = 0;
    signal_aborted = false;
    phase = creating;
  }

  -- The `catch` around the polls.
  unfoldable pub abort_run : Run Metrics → Run Metrics
  abort_run r = record r { closed = true; stops = r.stops + 1; phase = aborting }

  -- `createExperiment` answers, and the socket is opened.
  unfoldable pub got_created : Option String → Run Metrics → Run Metrics
  got_created none r = record r { phase = rejected create_failed }
  got_created (some id) r =
      let opened : Run Metrics = record r { socket_open = true; phase = waiting id } in
      if r.signal_aborted then abort_run opened else opened

  unfoldable pub is_behind : Run Metrics → ℤ → ℕ → ℕ → Bool
  is_behind r final deadline now =
      ltb_ℤ r.graph_state.last_seq final && r.socket_open && ltb now deadline

  -- The condition of the catch-up loop is tested, and what comes after the loop.
  unfoldable pub catch_up : String → ℤ → ℕ → ℕ → Run Metrics → Run Metrics
  catch_up id final deadline now r =
      if is_behind r final deadline now
      then record r { phase = catching_up id final deadline }
      else record r { closed = true; phase = fetching id }

  -- A poll answers with a status and a number at some time, or fails.
  unfoldable pub got_status : String → Option (ControlStatus × ℤ) → ℕ → Run Metrics → Run Metrics
  got_status id none now r = record r { phase = waiting id }
  got_status id (some (status, last_seq)) now r =
      if is_terminal status
      then catch_up id last_seq (now + catch_up_timeout_ms) now r
      else record r { phase = waiting id }

  unfoldable pub got_metrics : String → Option Metrics → Run Metrics → Run Metrics
  got_metrics id none r = record r { phase = rejected metrics_failed }
  got_metrics id (some m) r = record r { stops = r.stops + 1; phase = stopping id m }

  -- `ws.onmessage`: a frame that the reducer throws at changes nothing.
  unfoldable pub take_frame : StreamFrame → Run Metrics → Run Metrics
  take_frame f r =
      if r.socket_open && not r.closed
      then elim (reduce r.graph_state f) [ ok s ↦ record r { graph_state = s } | _ ↦ r ]
      else r

pub data RunInput (Metrics : Type 0) : Type 0 where
  created : Option String → RunInput Metrics
  frame_arrived : StreamFrame → RunInput Metrics
  socket_lost : RunInput Metrics
  signalled : RunInput Metrics
  -- a timer fires at some time
  timer_fired : ℕ → RunInput Metrics
  status_answered : Option (ControlStatus × ℤ) → ℕ → RunInput Metrics
  metrics_answered : Option Metrics → RunInput Metrics
  stop_answered : RunInput Metrics

module _ {Metrics : Type 0} where
  -- The abort signal: there is a listener while the run is polled.
  unfoldable pub signal : RunPhase Metrics → Run Metrics → Run Metrics
  signal (waiting id) r = abort_run (record r { signal_aborted = true })
  signal (asking id) r = abort_run (record r { signal_aborted = true })
  signal _ r = record r { signal_aborted = true }

  unfoldable pub fire_timer : RunPhase Metrics → ℕ → Run Metrics → Run Metrics
  fire_timer (waiting id) now r = record r { phase = asking id }
  fire_timer (catching_up id final deadline) now r = catch_up id final deadline now r
  fire_timer _ now r = r

  -- A reply to what the function waits for; any other comes to nothing.
  unfoldable pub reply : RunPhase Metrics → RunInput Metrics → Run Metrics → Run Metrics
  reply creating (created c) r = got_created c r
  reply (asking id) (status_answered s now) r = got_status id s now r
  reply (fetching id) (metrics_answered m) r = got_metrics id m r
  reply (stopping id m) stop_answered r = record r { phase = resolved id m }
  reply aborting stop_answered r = record r { phase = rejected aborted }
  reply _ _ r = r

  unfoldable pub run_step : Run Metrics → RunInput Metrics → Run Metrics
  unfolding got_created abort_run catch_up got_status got_metrics is_terminal is_behind take_frame
      signal fire_timer reply
  run_step r (frame_arrived f) = take_frame f r
  run_step r socket_lost = record r { socket_open = false }
  run_step r signalled = signal r.phase r
  run_step r (timer_fired now) = fire_timer r.phase now r
  run_step r i = reply r.phase i r
