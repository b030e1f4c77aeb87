-- ===== src/Stream/Connection/Laws.antt =====
-- Order, backoff and cleanup of the live connection: useExperimentStream.ts.
use htn.Prelude.{
  ℕ, ◌+◌, ◌≤◌, ◌≡◌, ◌⊎◌, refl, ◌∙◌, true, false, Option, none, some, List, [], ◌∷◌, map, Bool-cases,
  or_swap, or_false, Bool, nat_eq, not, ◌&&◌, ◌||◌, any, sym, inl, inr, arith,
}
use htn.Prelude.Int.{ℤ, pos, ◌+ℤ◌, ◌-ℤ◌, eqb_ℤ}
use htn.Stream.Types.{Event, StreamFrame, snapshot, event}
use htn.Stream.Reducer.{
  Thrown, ok, unrecognized_schema_version, type_error, GraphState, reduce, reduce_event,
  reduce_snapshot, advance, initial_graph_state,
}
use htn.Stream.Connection.{
  Socket, Connection, min_backoff_ms, max_backoff_ms, connect, schedule_reconnect, mark_closing,
  close, note_frame, seq_after, is_gap, apply_frame, receive, remove_socket, resume_from, closed,
  fire, find_timer, remove_timer, cleanup, Input, opened, message, errored, socket_closed,
  timer_fired, unmounted, step, initial_connection, session, run,
}

-- A frame that the reducer refuses.
abbrev pub is_foreign : StreamFrame → Bool
is_foreign (snapshot f) = false
is_foreign (event e) = not (nat_eq e.schema_version 1)

-- The updater for a frame of this input throws, and waits to be run.
abbrev pub can_crash : Bool → Input → Bool
can_crash rethrows (message f) = not rethrows && is_foreign f
can_crash rethrows _ = false

-- What holds between two inputs; `b` tells whether an updater may wait that throws. The backoff is
-- within its limits; and unless such an updater waits, either the state is the one before any frame
-- and no number is expected, or the expected number follows the last one that was applied.
pub record IsSound (b : Bool) (c : Connection) : Type 0 where
  pub backoff_low : min_backoff_ms ≤ c.backoff
  pub backoff_high : c.backoff ≤ max_backoff_ms
  pub crashes : (c.crashed ≡ false) ⊎ (b ≡ true)
  pub in_step :
      (c.crashed ≡ true)
      ⊎ ((c.expected_next_seq ≡ none) × (c.state ≡ initial_graph_state))
      ⊎ (c.expected_next_seq ≡ some (c.state.last_seq +ℤ pos 1))

reduce-throws :
    (s : GraphState) (f : StreamFrame)
    → (is_foreign f ≡ true) ⊎ ((t : GraphState) × (reduce s f ≡ ok t))
unfolding reduce reduce_event
reduce-throws s (snapshot f) = inr (_, refl)
reduce-throws s (event e) = elim (Bool-cases (nat_eq e.schema_version 1)) [
  | inl known ↦ inr (advance s e, rw known refl)
  | inr foreign ↦ inl (rw foreign refl)
]

reduce-last_seq :
    (s t : GraphState) (f : StreamFrame) → reduce s f ≡ ok t → seq_after f ≡ t.last_seq +ℤ pos 1
unfolding reduce reduce_snapshot reduce_event advance seq_after
reduce-last_seq s t (snapshot f) h = ground arith
reduce-last_seq s t (event e) h = ground arith

apply_frame-IsSound :
    (rethrows b : Bool) (f : StreamFrame) (c : Connection)
    → IsSound b c
    → IsSound (can_crash rethrows (message f) || b) (apply_frame rethrows f c)
unfolding apply_frame note_frame close
apply_frame-IsSound rethrows b f c h = go (reduce c.state f) refl
  where
    go :
        (r : Thrown GraphState)
        → reduce c.state f ≡ r
        → IsSound (can_crash rethrows (message f) || b) (apply_frame rethrows f c)
    go (ok t) e =
        rw (e, apply_frame) (ground (arith, reduce-last_seq c.state t f e, h.in_step, h.crashes))
    go (unrecognized_schema_version v) e =
        rw (e, apply_frame) (ground (arith, reduce-throws c.state f, h.in_step, h.crashes))
    go type_error e =
        rw (e, apply_frame) (ground (arith, reduce-throws c.state f, h.in_step, h.crashes))

step-IsSound :
    (rethrows b : Bool) (c : Connection) (i : Input)
    → IsSound b c
    → IsSound (can_crash rethrows i || b) (step rethrows c i)
unfolding step receive close closed fire cleanup connect schedule_reconnect
step-IsSound rethrows b c (message f) h = ground (arith, apply_frame-IsSound rethrows b f c h)
step-IsSound rethrows b c opened h = ground arith
step-IsSound rethrows b c errored h = ground arith
step-IsSound rethrows b c (socket_closed id) h = ground arith
step-IsSound rethrows b c (timer_fired id) h = ground arith
step-IsSound rethrows b c unmounted h = ground arith

session-IsSound :
    (rethrows b : Bool) (c : Connection) (is : List Input)
    → IsSound b c
    → IsSound (any (can_crash rethrows) is || b) (session rethrows c is)
unfolding session
session-IsSound rethrows b c [] h = h
session-IsSound rethrows b c (i ∷ is) h =
    rw (or_swap (any (can_crash rethrows) is) (can_crash rethrows i) b) (
      session-IsSound rethrows (can_crash rethrows i || b) (step rethrows c i) is
        (step-IsSound rethrows b c i h))

-- Whatever the browser delivers, the backoff stays between its two limits. An updater that throws
-- waits only if an event of a foreign schema version arrived and the error of an updater does not
-- come out of `setState`. Unless one waits, either no frame has been applied, so that the state is
-- the initial one and no number is expected, or the number that is expected follows the last one
-- that was applied.
pub run-IsSound :
    (rethrows : Bool) (is : List Input) → IsSound (any (can_crash rethrows) is) (run rethrows is)
unfolding run connect
run-IsSound rethrows is =
    rw (sym (or_false (any (can_crash rethrows) is)))
      (session-IsSound rethrows false (connect none initial_connection) is (ground arith))

-- What becomes of an event: it leaves the state alone, for one of three reasons, or it is the first
-- frame or the next event, and is applied.
abbrev pub IsOrdered : Event → Connection → Connection → Type 0
IsOrdered e c d =
    ((d.state ≡ c.state)
      × ((c.crashed ≡ true)
          ⊎ (eqb_ℤ e.seq (c.state.last_seq +ℤ pos 1) ≡ false)
          ⊎ (nat_eq e.schema_version 1 ≡ false)))
    ⊎ (((c.state ≡ initial_graph_state) ⊎ (e.seq ≡ c.state.last_seq +ℤ pos 1))
        × (reduce c.state (event e) ≡ ok d.state)
        × (d.expected_next_seq ≡ some (e.seq +ℤ pos 1)))

step_cancelled :
    (rethrows : Bool) (c : Connection) (i : Input)
    → c.cancelled ≡ true
    → ((step rethrows c i).cancelled ≡ true) × ((step rethrows c i).next_id ≡ c.next_id)
unfolding step receive apply_frame note_frame close closed fire cleanup connect schedule_reconnect
step_cancelled rethrows c i h = ground arith

session_cancelled :
    (rethrows : Bool) (c : Connection) (is : List Input)
    → c.cancelled ≡ true
    → (session rethrows c is).next_id ≡ c.next_id
unfolding session
session_cancelled rethrows c [] h = refl
session_cancelled rethrows c (i ∷ is) h =
    let (still, same) = step_cancelled rethrows c i h in
    session_cancelled rethrows (step rethrows c i) is still ∙ same

-- Once the view is gone no socket is opened and no timer is set, even if a timer still runs out or
-- a frame still arrives: the counter that numbers them stands still.
pub session-after_unmount :
    (rethrows : Bool) (c : Connection) (is : List Input)
    → (session rethrows c (unmounted ∷ is)).next_id ≡ c.next_id
unfolding session step cleanup close
session-after_unmount rethrows c is = session_cancelled rethrows _ is refl

gap_timers :
    (rethrows : Bool) (c : Connection) (s : Socket) (n : ℤ) (e : Event)
    → c.cancelled ≡ false
    → c.sockets ≡ s ∷ []
    → s.id ≡ c.current
    → c.timers ≡ []
    → c.expected_next_seq ≡ some n
    → eqb_ℤ e.seq n ≡ false
    → let d = step rethrows (step rethrows c (message (event e))) (socket_closed c.current) in
      (d.timers
        ≡ record { id = c.next_id; since_seq = none }
          ∷ record { id = c.next_id + 1; since_seq = some (n -ℤ pos 1) }
          ∷ [])
      × (d.sockets ≡ [])
      × (d.cancelled ≡ false)
unfolding step receive is_gap schedule_reconnect close mark_closing closed resume_from remove_socket
gap_timers rethrows c s n e hc hs hi ht he gap = ground arith

fire_both :
    (rethrows : Bool) (d : Connection) (a : ℕ) (u v : Option ℤ)
    → d.cancelled ≡ false
    → d.sockets ≡ []
    → d.timers ≡ record { id = a; since_seq = u } ∷ record { id = a + 1; since_seq = v } ∷ []
    → map
        (λ (s : Socket). s.since_seq)
        (step rethrows (step rethrows d (timer_fired a)) (timer_fired (a + 1))).sockets
      ≡ u ∷ v ∷ []
unfolding step fire find_timer remove_timer connect
fire_both rethrows d a u v hc hs ht = ground arith

-- A gap on the only socket leads to two sockets, not to one: the handler of the message schedules a
-- fresh snapshot, the handler of the close that follows schedules a resumption as well, and when
-- both timers have run out a socket for each is open.
pub session-gap_reconnects_twice :
    (rethrows : Bool) (c : Connection) (s : Socket) (n : ℤ) (e : Event)
    → c.cancelled ≡ false
    → c.sockets ≡ s ∷ []
    → s.id ≡ c.current
    → c.timers ≡ []
    → c.expected_next_seq ≡ some n
    → eqb_ℤ e.seq n ≡ false
    → map
        (λ (s : Socket). s.since_seq)
        (session rethrows c (
          message (event e)
          ∷ socket_closed c.current
          ∷ timer_fired c.next_id
          ∷ timer_fired (c.next_id + 1)
          ∷ [])).sockets
      ≡ none ∷ some (n -ℤ pos 1) ∷ []
session-gap_reconnects_twice rethrows c s n e hc hs hi ht he gap =
    let (timers, sockets, cancelled) = gap_timers rethrows c s n e hc hs hi ht he gap in
    unfold session in
    fire_both rethrows
      (step rethrows (step rethrows c (message (event e))) (socket_closed c.current)) c.next_id none
      (some (n -ℤ pos 1)) cancelled sockets timers
