-- ===== src/Runtime/Clock.antt =====
-- How long a run has been going: frontend/src/lib/runtime/clock.ts. `Date.parse` is an argument, with
-- `none` for its NaN; instants are milliseconds from 1970 on.
pub mod Laws
use Prim.Native.String.{◌++◌ as append}
use htn.Prelude.{
  ℕ, ◌-◌, ◌/◌, ◌%◌, String, Bool, true, false, Option, none, some, List, [], ◌∷◌, foldl, coalesce,
  ltb, if◌then◌else◌,
}
use htn.Stream.Types.{Event}

pub record RunWindow : Type 0 where
  pub started_at : Option ℕ
  pub last_event_at : Option ℕ

-- `startedAt === null || ms < startedAt`
abbrev pub is_earlier : ℕ → Option ℕ → Bool
is_earlier ms none = true
is_earlier ms (some started) = ltb ms started

-- `lastEventAt === null || ms > lastEventAt`
abbrev pub is_later : ℕ → Option ℕ → Bool
is_later ms none = true
is_later ms (some last) = ltb last ms

unfoldable pub widen : RunWindow → ℕ → RunWindow
widen w ms = record {
  started_at = if is_earlier ms w.started_at then some ms else w.started_at;
  last_event_at = if is_later ms w.last_event_at then some ms else w.last_event_at;
}

module _ (epoch : String → Option ℕ) where
  -- One round of the loop of `runWindow`.
  unfoldable pub window_step : RunWindow → Event → RunWindow
  window_step w e = elim (epoch e.wall_time) [ none ↦ w | some ms ↦ widen w ms ]

  unfoldable pub run_window : List Event → RunWindow
  unfolding window_step widen
  run_window es = foldl window_step (record { started_at = none; last_event_at = none }) es

-- The difference is cut off at 0, as `Math.max(0, …)` cuts it.
unfoldable pub elapsed_ms : RunWindow → Bool → ℕ → Option ℕ
elapsed_ms w live now = elim (w.started_at) [
  | none ↦ none
  | some started ↦ some ((if live then now else coalesce w.last_event_at started) - started)
]

-- Hours, minutes and seconds, of milliseconds.
unfoldable pub clock_parts : ℕ → ℕ × ℕ × ℕ
clock_parts ms = let seconds = ms / 1000 in (seconds / 3600, seconds / 60 % 60, seconds % 60)

module _ (show : ℕ → String) where
  -- `padStart(2, "0")`
  abbrev pub padded : ℕ → String
  padded n = if ltb n 10 then append "0" (show n) else show n

  unfoldable pub format_duration : Option ℕ → String
  unfolding clock_parts
  format_duration none = "—"
  format_duration (some ms) =
      let (hours, minutes, seconds) = clock_parts ms in
      if ltb 0 hours
      then append (show hours) (append ":" (append (padded minutes) (append ":" (padded seconds))))
      else append (show minutes) (append ":" (padded seconds))
