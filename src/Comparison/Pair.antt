-- ===== src/Comparison/Pair.antt =====
-- Two promises that are awaited together, with an arm that shows each: what useComparison.ts and
-- useFixTrial.ts share. A click asks for a job, and starts it unless one is in flight; `finally`
-- clears `runningRef` once both have settled.
pub mod Laws
use htn.Prelude.{Bool, true, false, List, [], ◌∷◌, ◌++◌, foldl, if◌then◌else◌}

module _ (Arm Job : Type 0) where
  -- `first_open` and `second_open`: the promise has not settled.
  pub record Pair : Type 0 where
    pub first : Arm
    pub second : Arm
    pub running : Bool
    pub first_open : Bool
    pub second_open : Bool
    pub started : List Job

-- A click, and a promise that settles: what its arm shows then.
pub data PairInput (Arm Job : Type 0) : Type 0 where
  requested : Job → PairInput Arm Job
  first_settled : Arm → PairInput Arm Job
  second_settled : Arm → PairInput Arm Job

module _ {Arm Job : Type 0} (idle_arm : Arm) where
  abbrev pub initial_pair : Pair Arm Job
  initial_pair = record {
    first = idle_arm;
    second = idle_arm;
    running = false;
    first_open = false;
    second_open = false;
    started = [];
  }

module _ {Arm Job : Type 0} where
  -- A promise settles once.
  unfoldable pub settle_first : Arm → Pair Arm Job → Pair Arm Job
  settle_first arm p =
      if p.first_open
      then record p { first = arm; first_open = false; running = p.second_open }
      else p

  unfoldable pub settle_second : Arm → Pair Arm Job → Pair Arm Job
  settle_second arm p =
      if p.second_open
      then record p { second = arm; second_open = false; running = p.first_open }
      else p

module _ {Arm Job : Type 0} (busy_arm : Arm) where
  unfoldable pub begin_job : Job → Pair Arm Job → Pair Arm Job
  begin_job job p = if p.running then p else record {
    first = busy_arm;
    second = busy_arm;
    running = true;
    first_open = true;
    second_open = true;
    started = p.started ++ job ∷ [];
  }

  unfoldable pub pair_step : Pair Arm Job → PairInput Arm Job → Pair Arm Job
  unfolding begin_job settle_first settle_second
  pair_step p (requested job) = begin_job job p
  pair_step p (first_settled arm) = settle_first arm p
  pair_step p (second_settled arm) = settle_second arm p
