-- ===== src/Stream/Connection.antt =====
-- The socket of the live view: frontend/src/lib/stream/useExperimentStream.ts.
-- The variables of the effect are a record; what the browser delivers is an input. A reconnect
-- timer and a socket carry the `since_seq` that they were made with. One counter numbers the sockets
-- and the timers. What React's `setState` does with an updater that throws is a parameter: with
-- `rethrows` the error comes out of the call, and reaches the `catch` around it; without, the updater
-- waits for the next render, which then fails.
pub mod Laws
mod Tests
use htn.Prelude.{
  ℕ, ◌+◌, ◌*◌, min, String, Bool, true, false, not, ◌&&◌, Option, none, some, List, [], ◌∷◌, ◌++◌,
  is_some, nat_eq, if◌then◌else◌,
}
use htn.Prelude.Int.{ℤ, pos, ◌+ℤ◌, ◌-ℤ◌, eqb_ℤ}
use htn.Stream.Types.{Event, StreamFrame, snapshot, event}
use htn.Stream.Reducer.{
  Thrown, ok, unrecognized_schema_version, type_error, GraphState, initial_graph_state, reduce,
}

abbrev pub min_backoff_ms : ℕ
min_backoff_ms = 250

abbrev pub max_backoff_ms : ℕ
max_backoff_ms = 5000

pub record Socket : Type 0 where
  pub id : ℕ
  pub since_seq : Option ℤ
  -- `close` was called: no more messages come from it
  pub closing : Bool

pub record Timer : Type 0 where
  pub id : ℕ
  pub since_seq : Option ℤ

pub record Connection : Type 0 where
  pub state : GraphState
  -- the version that the message names, while an error is shown
  pub schema_error : Option ℕ
  -- an updater that waits to be run throws, so nothing more is rendered
  pub crashed : Bool
  pub expected_next_seq : Option ℤ
  pub backoff : ℕ
  pub cancelled : Bool
  -- the sockets that have not reported `close`, and the number of the variable `socket`
  pub sockets : List Socket
  pub current : ℕ
  pub next_id : ℕ
  -- the reconnect timers that run, and the number of the variable `reconnectTimer`
  pub timers : List Timer
  pub reconnect_timer : ℕ

-- `connect`
unfoldable pub connect : Option ℤ → Connection → Connection
connect since c = if c.cancelled then c else record c {
  sockets = c.sockets ++ record { id = c.next_id; since_seq = since; closing = false } ∷ [];
  current = c.next_id;
  next_id = c.next_id + 1;
}

-- `scheduleReconnect`
unfoldable pub schedule_reconnect : Option ℤ → Connection → Connection
schedule_reconnect since c = if c.cancelled then c else record c {
  timers = c.timers ++ record { id = c.next_id; since_seq = since } ∷ [];
  reconnect_timer = c.next_id;
  next_id = c.next_id + 1;
}

unfoldable pub mark_closing : ℕ → List Socket → List Socket
mark_closing id [] = []
mark_closing id (s ∷ ss) =
    (if nat_eq s.id id then record s { closing = true } else s) ∷ mark_closing id ss

-- `socket?.close()`
unfoldable pub close : Connection → Connection
close c = record c { sockets = mark_closing c.current c.sockets }

unfoldable pub seq_after : StreamFrame → ℤ
seq_after (snapshot f) = f.last_seq +ℤ pos 1
seq_after (event e) = e.seq +ℤ pos 1

-- The frame is an event whose number is not the expected one.
unfoldable pub is_gap : Option ℤ → StreamFrame → Bool
is_gap expected (snapshot f) = false
is_gap none (event e) = false
is_gap (some n) (event e) = not (eqb_ℤ e.seq n)

-- The lines of the `try` that follow `setState`.
unfoldable pub note_frame : StreamFrame → Connection → Connection
note_frame f c = record c { expected_next_seq = some (seq_after f); schema_error = none }

-- `setState(s)`, as far as it is seen.
abbrev pub set_state : GraphState → Connection → Connection
set_state s c = record c { state = if c.crashed then c.state else s }

-- The `try` of `onmessage`, and its `catch`.
unfoldable pub apply_frame : Bool → StreamFrame → Connection → Connection
apply_frame rethrows f c = elim (reduce c.state f) [
  | ok s ↦ note_frame f (set_state s c)
  | unrecognized_schema_version v ↦
      if rethrows
      then close (record c { schema_error = some v })
      else note_frame f (record c { crashed = true })
  | type_error ↦ if rethrows then close c else note_frame f (record c { crashed = true })
]

-- `onmessage`
unfoldable pub receive : Bool → StreamFrame → Connection → Connection
receive rethrows f c =
    if is_gap c.expected_next_seq f
    then schedule_reconnect none (close c)
    else apply_frame rethrows f c

unfoldable pub remove_socket : ℕ → List Socket → List Socket
remove_socket id [] = []
remove_socket id (s ∷ ss) = if nat_eq s.id id then ss else s ∷ remove_socket id ss

unfoldable pub resume_from : Option ℤ → Option ℤ
resume_from none = none
resume_from (some n) = some (n -ℤ pos 1)

-- `onclose`
unfoldable pub closed : ℕ → Connection → Connection
closed id c =
    let gone = record c { sockets = remove_socket id c.sockets } in
    schedule_reconnect (resume_from c.expected_next_seq) gone

unfoldable pub find_timer : ℕ → List Timer → Option Timer
find_timer id [] = none
find_timer id (t ∷ ts) = if nat_eq t.id id then some t else find_timer id ts

unfoldable pub remove_timer : ℕ → List Timer → List Timer
remove_timer id [] = []
remove_timer id (t ∷ ts) = if nat_eq t.id id then ts else t ∷ remove_timer id ts

-- The timer runs out: the doubled backoff, and a new socket.
unfoldable pub fire : ℕ → Connection → Connection
fire id c = elim (find_timer id c.timers) [
  | none ↦ c
  | some t ↦
      connect t.since_seq (record c {
        timers = remove_timer id c.timers;
        backoff = min (c.backoff * 2) max_backoff_ms;
      })
]

-- The effect's cleanup, which clears the timer of the variable.
unfoldable pub cleanup : Connection → Connection
cleanup c = close (record c { cancelled = true; timers = remove_timer c.reconnect_timer c.timers })

pub data Input : Type 0 where
  opened : Input
  message : StreamFrame → Input
  errored : Input
  socket_closed : ℕ → Input
  timer_fired : ℕ → Input
  unmounted : Input

unfoldable pub step : Bool → Connection → Input → Connection
step rethrows c opened = record c { backoff = min_backoff_ms }
step rethrows c (message f) = receive rethrows f c
step rethrows c errored = close c
step rethrows c (socket_closed id) = closed id c
step rethrows c (timer_fired id) = fire id c
step rethrows c unmounted = cleanup c

abbrev pub initial_connection : Connection
initial_connection = record {
  state = initial_graph_state;
  schema_error = none;
  crashed = false;
  expected_next_seq = none;
  backoff = min_backoff_ms;
  cancelled = false;
  sockets = [];
  current = 0;
  next_id = 1;
  timers = [];
  reconnect_timer = 0;
}

-- The line opens all that a test runs.
unfoldable pub session : Bool → Connection → List Input → Connection
unfolding step receive apply_frame note_frame close closed fire cleanup connect schedule_reconnect
    mark_closing remove_socket resume_from find_timer remove_timer is_gap seq_after ◌+ℤ◌ ◌-ℤ◌
session rethrows c [] = c
session rethrows c (i ∷ is) = session rethrows (step rethrows c i) is

-- The effect: `connect()`, and what comes then.
unfoldable pub run : Bool → List Input → Connection
run rethrows is = session rethrows (connect none initial_connection) is
