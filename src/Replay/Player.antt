-- ===== src/Replay/Player.antt =====
-- Playback and seeking: `foldEvents` of frontend/src/lib/replay/loadReplayData.ts and the scheduler
-- of useReplayStream.ts.
use htn.Prelude.{
  ℕ, zero, suc, ◌+◌, min, none, some, List, [], ◌∷◌, length, get_elem?, leb, if◌then◌else◌,
}
use htn.Prelude.Int.{ℤ, pos, negsuc}
use htn.Stream.Types.{Event, event}
use htn.Stream.Reducer.{Thrown, ok, type_error, ◌>>=◌, GraphState, reduce}

-- The loop of `foldEvents`, over the events from the current one on. Past the end of the array
-- there is `undefined`, whose fields cannot be read.
unfoldable pub fold_events : GraphState → List Event → ℕ → Thrown GraphState
fold_events s es zero = ok s
fold_events s [] (suc n) = type_error
fold_events s (e ∷ es) (suc n) = do t ← reduce s (event e); fold_events t es n

-- The refs and the state of the hook, once the data are loaded.
pub record Player : Type 0 where
  pub snapshot_state : GraphState
  pub events : List Event
  pub played_index : ℕ
  pub state : GraphState

-- What `loadReplayData` leaves in them.
unfoldable pub loaded : GraphState → List Event → Player
loaded s es = record { snapshot_state = s; events = es; played_index = 0; state = s }

-- The interval's callback.
unfoldable pub tick : Player → Thrown Player
tick p =
    if leb (length p.events) p.played_index
    then ok p
    else elim (get_elem? p.events p.played_index) [
      | none ↦ type_error
      | some e ↦ (do
        s ← reduce p.state (event e)
        ok (record p { state = s; played_index = p.played_index + 1 }))
    ]

-- `Math.max(0, Math.min(index, events.length))`
unfoldable pub clamp_index : ℤ → ℕ → ℕ
clamp_index (pos i) n = min i n
clamp_index (negsuc i) n = 0

unfoldable pub seek : ℤ → Player → Thrown Player
seek index p = do
  next ← fold_events p.snapshot_state p.events (clamp_index index (length p.events))
  ok (record p { played_index = clamp_index index (length p.events); state = next })

pub data Input : Type 0 where
  ticked : Input
  sought : ℤ → Input

unfoldable pub step : Player → Input → Thrown Player
step p ticked = tick p
step p (sought index) = seek index p

-- The line opens all that a test runs.
unfoldable pub play : Player → List Input → Thrown Player
unfolding step tick seek clamp_index fold_events loaded
play p [] = ok p
play p (i ∷ is) = do q ← step p i; play q is
