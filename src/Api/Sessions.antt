-- ===== src/Api/Sessions.antt =====
-- The live sessions: frontend/src/lib/runtime/client.ts.
use Prim.Native.String.{◌++◌ as append}
use mathlib.Core.Option
use htn.Prelude.{String, true, Option, none, List, [], ◌∷◌}
use htn.Prelude.Int.{ℤ}
use htn.Api.Request.{get, delete, Call, call, optional}

-- A call whose missing resource means that no session is live.
abbrev pub live_call : String → List (String × String) → String → Call
live_call url query failure = record (call get url query none failure) { may_be_missing = true }

module _ (backend_url backend_ws_url : String) (show_int : ℤ → String) where
  abbrev pub sessions_url : String
  sessions_url = append backend_url "/api/runtime/sessions"

  abbrev pub session_url : String → String → String
  session_url id rest = append sessions_url (append "/" (append id rest))

  abbrev pub get_current_runtime_session : Call
  get_current_runtime_session =
      live_call (append sessions_url "/current") [] "failed to get the live runtime session"

  abbrev pub get_runtime_session : String → Call
  get_runtime_session id = live_call (session_url id "") [] "failed to get runtime session"

  abbrev pub get_runtime_snapshot : String → Call
  get_runtime_snapshot id =
      live_call (session_url id "/snapshot") [] "failed to get the runtime snapshot"

  -- A caller that leaves the number out asks for all that is kept: it is -1 then.
  abbrev pub get_runtime_events : String → ℤ → Call
  get_runtime_events id since_seq =
      live_call (session_url id "/events") (("since_seq", show_int since_seq) ∷ [])
        "failed to get runtime events"

  abbrev pub get_runtime_explanation : String → Call
  get_runtime_explanation id =
      call get (session_url id "/explanation") [] none "failed to get the incident explanation"

  abbrev pub reset_runtime_sessions : Call
  reset_runtime_sessions = call delete sessions_url [] none "failed to reset the demo"

  abbrev pub runtime_ws_query : String → Option ℤ → String × List (String × String)
  runtime_ws_query id since_seq = (
    append backend_ws_url (append "/api/runtime/sessions/" (append id "/stream")),
    optional "since_seq" (Option.map show_int since_seq),
  )
