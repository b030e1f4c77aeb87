-- ===== src/Comparison/Run/Laws.antt =====
-- What a run leaves behind: `runExperimentToCompletion`.
use htn.Prelude.{ℕ, ◌≡◌, refl, String, Bool, true, false, List, [], ◌∷◌, foldl, arith}
use htn.Prelude.Int.{ℤ}
use htn.Stream.Types.{StreamFrame}
use htn.Comparison.Run.{
  Run, RunPhase, RunInput, initial_run, frame_arrived, socket_lost, signalled, timer_fired,
  status_answered, created, metrics_answered, stop_answered, catch_up, take_frame, run_step, signal,
  fire_timer, reply, creating, waiting, asking, catching_up, fetching, stopping, aborting, resolved,
  rejected, create_failed, aborted, metrics_failed, abort_run,
}

module _ {Metrics : Type 0} where
  -- Whether the socket has been closed, and how often the run was stopped, at each point.
  abbrev pub Leaves : RunPhase Metrics → Bool → ℕ → Type 0
  Leaves creating closed stops = (closed ≡ false) × (stops ≡ 0)
  Leaves (waiting id) closed stops = (closed ≡ false) × (stops ≡ 0)
  Leaves (asking id) closed stops = (closed ≡ false) × (stops ≡ 0)
  Leaves (catching_up id final deadline) closed stops = (closed ≡ false) × (stops ≡ 0)
  Leaves (rejected create_failed) closed stops = (closed ≡ false) × (stops ≡ 0)
  Leaves (fetching id) closed stops = (closed ≡ true) × (stops ≡ 0)
  Leaves (rejected metrics_failed) closed stops = (closed ≡ true) × (stops ≡ 0)
  Leaves (stopping id m) closed stops = (closed ≡ true) × (stops ≡ 1)
  Leaves (resolved id m) closed stops = (closed ≡ true) × (stops ≡ 1)
  Leaves aborting closed stops = (closed ≡ true) × (stops ≡ 1)
  Leaves (rejected aborted) closed stops = (closed ≡ true) × (stops ≡ 1)

  abbrev pub IsTidy : Run Metrics → Type 0
  IsTidy r = Leaves r.phase r.closed r.stops

  take_frame-IsTidy : (f : StreamFrame) (r : Run Metrics) → IsTidy r → IsTidy (take_frame f r)
  unfolding run_step
  take_frame-IsTidy f r t = ground arith

  abort_run-IsTidy : (r : Run Metrics) → r.stops ≡ 0 → IsTidy (abort_run r)
  unfolding run_step
  abort_run-IsTidy r h = (refl, rw h refl)

  catch_up-IsTidy :
      (id : String) (final : ℤ) (deadline now : ℕ) (r : Run Metrics)
      → r.closed ≡ false
      → r.stops ≡ 0
      → IsTidy (catch_up id final deadline now r)
  unfolding run_step
  catch_up-IsTidy id final deadline now r c s = ground arith

  signal-IsTidy :
      (p : RunPhase Metrics) (r : Run Metrics) → r.phase ≡ p → IsTidy r → IsTidy (signal p r)
  unfolding run_step
  signal-IsTidy p r e t = ground arith

  fire_timer-IsTidy :
      (p : RunPhase Metrics) (now : ℕ) (r : Run Metrics)
      → r.phase ≡ p
      → IsTidy r
      → IsTidy (fire_timer p now r)
  unfolding run_step
  fire_timer-IsTidy p now r e t = ground arith

  reply-IsTidy :
      (p : RunPhase Metrics) (i : RunInput Metrics) (r : Run Metrics)
      → r.phase ≡ p
      → IsTidy r
      → IsTidy (reply p i r)
  unfolding run_step
  reply-IsTidy p i r e t = ground arith

  run_step-IsTidy : (r : Run Metrics) (i : RunInput Metrics) → IsTidy r → IsTidy (run_step r i)
  unfolding run_step
  run_step-IsTidy r (frame_arrived f) t = take_frame-IsTidy f r t
  run_step-IsTidy r socket_lost t = t
  run_step-IsTidy r signalled t = signal-IsTidy r.phase r refl t
  run_step-IsTidy r (timer_fired now) t = fire_timer-IsTidy r.phase now r refl t
  run_step-IsTidy r (created c) t = reply-IsTidy r.phase (created c) r refl t
  run_step-IsTidy r (status_answered s now) t =
      reply-IsTidy r.phase (status_answered s now) r refl t
  run_step-IsTidy r (metrics_answered m) t = reply-IsTidy r.phase (metrics_answered m) r refl t
  run_step-IsTidy r stop_answered t = reply-IsTidy r.phase stop_answered r refl t

  steps-IsTidy :
      (r : Run Metrics) (is : List (RunInput Metrics)) → IsTidy r → IsTidy (foldl run_step r is)
  steps-IsTidy r [] t = t
  steps-IsTidy r (i ∷ is) t = steps-IsTidy (run_step r i) is (run_step-IsTidy r i t)

  -- The function's socket is closed, and the experiment stopped exactly once, whenever it resolves
  -- and whenever it rejects for the abort signal; if the metrics cannot be fetched, the socket is
  -- closed and the experiment is never stopped. This holds whatever the replies, frames, timers and
  -- signals, and their order; until then the socket is left open and nothing is stopped.
  pub run-IsTidy : (is : List (RunInput Metrics)) → IsTidy (foldl run_step initial_run is)
  run-IsTidy is = steps-IsTidy initial_run is (refl, refl)
