-- ===== src/Comparison/Run/Ends.antt =====
-- How a run ends, and that the catch-up loop does: `runExperimentToCompletion`.
use htn.Prelude.{
  ℕ, ◌+◌, ◌*◌, ◌≤◌, ◌<◌, ◌≡◌, ◌⊎◌, refl, ◌∙◌, String, true, Option, none, some, List, [], ◌∷◌,
  foldl, length, inl, inr, arith,
}
use htn.Prelude.Int.{ℤ}
use htn.Stream.Types.{StreamFrame}
use htn.Controls.Reducer.{ControlStatus}
use htn.Comparison.Run.{
  catch_up_poll_ms, Run, frame_arrived, socket_lost, timer_fired, status_answered, is_terminal,
  catch_up, run_step, asking, catching_up, fetching,
}

-- What the socket does while the loop sleeps: a frame, or its end.
abbrev pub Delivery : Type 0
Delivery = Option StreamFrame

-- The clock: each sleep ends at least twenty milliseconds after the one before.
abbrev pub IsPaced : ℕ → List (List Delivery × ℕ) → Type 0
IsPaced t [] = Unit
IsPaced t ((ds, now) ∷ ss) = (t + catch_up_poll_ms ≤ now) × IsPaced now ss

module _ {Metrics : Type 0} where
  abbrev pub deliver : Run Metrics → Delivery → Run Metrics
  deliver r none = run_step r socket_lost
  deliver r (some f) = run_step r (frame_arrived f)

  -- A sleep of the loop: what is delivered meanwhile, then the timer at some time.
  abbrev pub sleep : Run Metrics → List Delivery × ℕ → Run Metrics
  sleep r (ds, now) = run_step (foldl deliver r ds) (timer_fired now)

  deliver_keeps :
      (r : Run Metrics) (d : Delivery)
      → ((deliver r d).phase ≡ r.phase) × ((deliver r d).closed ≡ r.closed)
  unfolding run_step
  deliver_keeps r none = (refl, refl)
  deliver_keeps r (some f) = ground arith

  foldl-deliver :
      (r : Run Metrics) (ds : List Delivery)
      → ((foldl deliver r ds).phase ≡ r.phase) × ((foldl deliver r ds).closed ≡ r.closed)
  foldl-deliver r [] = (refl, refl)
  foldl-deliver r (d ∷ ds) =
      let (phase, closed) = foldl-deliver (deliver r d) ds in
      let (first, same) = deliver_keeps r d in (phase ∙ first, closed ∙ same)

  -- The loop is over: the socket is closed and the metrics are asked for.
  abbrev pub HasEnded : String → Run Metrics → Type 0
  HasEnded id r = (r.phase ≡ fetching id) × (r.closed ≡ true)

  sleep-HasEnded :
      (id : String) (r : Run Metrics) (s : List Delivery × ℕ)
      → HasEnded id r
      → HasEnded id (sleep r s)
  unfolding run_step
  sleep-HasEnded id r (ds, now) (p, c) =
      let (phase, closed) = foldl-deliver r ds in rw (phase ∙ p, run_step) (phase ∙ p, closed ∙ c)

  foldl-HasEnded :
      (id : String) (r : Run Metrics) (ss : List (List Delivery × ℕ))
      → HasEnded id r
      → HasEnded id (foldl sleep r ss)
  foldl-HasEnded id r [] e = e
  foldl-HasEnded id r (s ∷ ss) e = foldl-HasEnded id (sleep r s) ss (sleep-HasEnded id r s e)

  -- After a sleep the loop goes on, at a time before the deadline, or it is over.
  catch_up-cases :
      (id : String) (final : ℤ) (deadline now : ℕ) (r : Run Metrics)
      → ((catch_up id final deadline now r).phase ≡ catching_up id final deadline)
          × (now < deadline)
        ⊎ HasEnded id (catch_up id final deadline now r)
  unfolding run_step
  catch_up-cases id final deadline now r = ground arith

  -- One sleep of the loop.
  sleep-cases :
      (id : String) (final : ℤ) (deadline : ℕ) (r : Run Metrics) (ds : List Delivery) (now : ℕ)
      → r.phase ≡ catching_up id final deadline
      → ((sleep r (ds, now)).phase ≡ catching_up id final deadline) × (now < deadline)
        ⊎ HasEnded id (sleep r (ds, now))
  unfolding run_step
  sleep-cases id final deadline r ds now p =
      rw ((foldl-deliver r ds).0 ∙ p, run_step)
        (catch_up-cases id final deadline now (foldl deliver r ds))

  sleeps-HasEnded :
      (id : String) (final : ℤ) (deadline t : ℕ) (r : Run Metrics) (ss : List (List Delivery × ℕ))
      → r.phase ≡ catching_up id final deadline
      → t < deadline
      → IsPaced t ss
      → deadline ≤ t + catch_up_poll_ms * length ss
      → HasEnded id (foldl sleep r ss)
  sleeps-HasEnded id final deadline t r [] p lt paced enough = absurd (omega arith)
  sleeps-HasEnded id final deadline t r ((ds, now) ∷ ss) p lt (slow, paced) enough =
      elim (sleep-cases id final deadline r ds now p) [
        | inl (still, early) ↦
            sleeps-HasEnded id final deadline now (sleep r (ds, now)) ss still early paced
              (omega arith)
        | inr ended ↦ foldl-HasEnded id (sleep r (ds, now)) ss ended
      ]

  -- If a poll reports a status that ends the run, and each sleep of the catch-up loop takes at least
  -- its twenty milliseconds, then after 250 sleeps the loop is over, whatever the socket delivered
  -- meanwhile: the socket is closed and the function waits for the metrics.
  pub catch_up_ends :
      (id : String) (r : Run Metrics) (status : ControlStatus) (final : ℤ) (now : ℕ)
      (ss : List (List Delivery × ℕ))
      → r.phase ≡ asking id
      → is_terminal status ≡ true
      → IsPaced now ss
      → 250 ≤ length ss
      → HasEnded id (foldl sleep (run_step r (status_answered (some (status, final)) now)) ss)
  unfolding run_step
  catch_up_ends id r status final now ss p terminal paced enough =
      rw (p, terminal, run_step)
        (elim (catch_up-cases id final (now + 5000) now r) [
          | inl (still, early) ↦
              sleeps-HasEnded id final (now + 5000) now _ ss still early paced (omega arith)
          | inr ended ↦ foldl-HasEnded id _ ss ended
        ])
