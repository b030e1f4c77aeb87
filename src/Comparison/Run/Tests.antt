-- ===== src/Comparison/Run/Tests.antt =====
-- A run that finishes while its last event is under way.
use htn.Prelude.{ℕ, ◌+◌, suc, zero, ◌≡◌, refl, some, List, [], ◌∷◌, foldl, arith, length}
use htn.Prelude.Int.{pos}
use htn.Stream.Types.{event}
use htn.Stream.Samples.{compromise, first_frame}
use htn.Stream.Types.{snapshot}
use htn.Stream.Reducer.{initial_graph_state, reduce_all}
use htn.Controls.Reducer.{running, finished}
use htn.Comparison.Run.{
  Run, RunInput, initial_run, run_step, created, timer_fired, status_answered, frame_arrived,
  metrics_answered, signalled, stop_answered, asking, resolved, rejected, aborted,
}
use htn.Comparison.Run.Ends.{Delivery, sleep, HasEnded, IsPaced, catch_up_ends}
use htn.Comparison.Run.Laws.{IsTidy, run-IsTidy}

-- The metrics of the tests are numbers.
abbrev polled : List (RunInput ℕ)
polled =
    created (some "x")
    ∷ frame_arrived (snapshot first_frame)
    ∷ timer_fired 1000
    ∷ status_answered (some (running, pos 0)) 1001
    ∷ timer_fired 2001
    ∷ []

abbrev watched : List (RunInput ℕ)
watched =
    created (some "x")
    ∷ frame_arrived (snapshot first_frame)
    ∷ timer_fired 1000
    ∷ status_answered (some (finished, pos 1)) 1001
    ∷ timer_fired 1021
    ∷ frame_arrived (event compromise)
    ∷ timer_fired 1041
    ∷ metrics_answered (some 7)
    ∷ stop_answered
    ∷ []

ends : (foldl run_step initial_run watched).phase ≡ resolved "x" 7
unfolding run_step reduce_all initial_graph_state
ends = refl

cancelled : (foldl run_step initial_run (signalled ∷ watched)).phase ≡ rejected aborted
unfolding run_step
cancelled = refl

run-IsTidy_example : IsTidy (foldl run_step initial_run watched)
run-IsTidy_example = run-IsTidy watched

-- So many sleeps, in which the socket delivers nothing.
abbrev idle : ℕ → ℕ → List (List Delivery × ℕ)
idle zero t = []
idle (suc n) t = ([], t + 20) ∷ idle n (t + 20)

idle-IsPaced : (n t : ℕ) → IsPaced t (idle n t)
idle-IsPaced zero t = tt
idle-IsPaced (suc n) t = (omega arith, idle-IsPaced n (t + 20))

length-idle : (n t : ℕ) → length (idle n t) ≡ n
length-idle zero t = refl
length-idle (suc n) t = rw (length-idle n (t + 20)) (omega arith)

abbrev asked : Run ℕ
asked = foldl run_step initial_run polled

asked-phase : asked.phase ≡ asking "x"
unfolding run_step reduce_all initial_graph_state
asked-phase = refl

catch_up_ends_example :
    HasEnded "x"
      (foldl sleep (run_step asked (status_answered (some (finished, pos 9)) 2000)) (idle 250 2000))
catch_up_ends_example =
    catch_up_ends "x" asked finished (pos 9) 2000 (idle 250 2000) asked-phase
      (unfold run_step in refl) (idle-IsPaced 250 2000)
      (let e = length-idle 250 2000 in omega arith)
