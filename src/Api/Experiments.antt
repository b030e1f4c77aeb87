-- ===== src/Api/Experiments.antt =====
-- The life of an experiment, and the archive: the first half of frontend/src/lib/api/client.ts. The
-- texts of numbers and of a configuration are JavaScript's.
use Prim.Native.String.{◌++◌ as append}
use mathlib.Core.Option
use htn.Prelude.{String, Bool, true, false, Option, none, some, List, [], ◌∷◌, ◌++◌, ℕ, truthy}
use htn.Prelude.Int.{ℤ}
use htn.Experiment.Config.{ExperimentConfig}
use htn.Api.Request.{get, post, Call, call, optional}

-- The action of `postControl`.
pub data ControlAction : Type 0 where
  stop pause resume : ControlAction

abbrev pub action_text : ControlAction → String
action_text stop = "stop"
action_text pause = "pause"
action_text resume = "resume"

pub data PageKind : Type 0 where
  events incidents : PageKind

abbrev pub page_text : PageKind → String
page_text events = "events"
page_text incidents = "incidents"

pub record ListExperimentsParams : Type 0 where
  pub status : Option String
  pub defense_enabled : Option Bool
  pub limit : Option ℕ
  pub cursor : Option String

abbrev pub bool_text : Bool → String
bool_text true = "true"
bool_text false = "false"

module _ (backend_url backend_ws_url : String) (show : ℕ → String) (show_int : ℤ → String) where
  abbrev pub experiments_url : String
  experiments_url = append backend_url "/api/experiments"

  abbrev pub experiment_url : String → String → String
  experiment_url id rest = append experiments_url (append "/" (append id rest))

  abbrev pub create_experiment : (ExperimentConfig → String) → ExperimentConfig → Call
  create_experiment stringify config =
      call post experiments_url [] (some (stringify config)) "failed to create experiment"

  abbrev pub get_experiment : String → Call
  get_experiment id = call get (experiment_url id "") [] none "failed to get experiment"

  abbrev pub post_control : String → ControlAction → Call
  post_control id action =
      call post (experiment_url id (append "/" (action_text action))) [] none
        (append "failed to " (append (action_text action) " experiment"))

  abbrev pub stop_experiment : String → Call
  stop_experiment id = post_control id stop

  abbrev pub pause_experiment : String → Call
  pause_experiment id = post_control id pause

  abbrev pub resume_experiment : String → Call
  resume_experiment id = post_control id resume

  -- A multiplier is counted in hundredths; `stringify` writes the number.
  abbrev pub set_speed : (ℕ → String) → String → ℕ → Call
  set_speed stringify id multiplier =
      call post (experiment_url id "/speed") []
        (some (append "{\"multiplier\":" (append (stringify multiplier) "}"))) "failed to set speed"

  -- The address of the stream: its path, and its query.
  abbrev pub backend_ws_query : String → Option ℤ → String × List (String × String)
  backend_ws_query id since_seq = (
    append backend_ws_url (append "/api/experiments/" (append id "/stream")),
    optional "since_seq" (Option.map show_int since_seq),
  )

  abbrev pub list_experiments : ListExperimentsParams → Call
  list_experiments p =
      call get experiments_url
        (optional "status" (truthy p.status)
          ++ (optional "defense_enabled" (Option.map bool_text p.defense_enabled)
              ++ (optional "limit" (Option.map show p.limit)
                  ++ optional "cursor" (truthy p.cursor))))
        none "failed to list experiments"

  abbrev pub get_experiment_detail : String → Call
  get_experiment_detail id =
      call get (experiment_url id "/detail") [] none "failed to get experiment detail"

  abbrev pub fetch_event_page : PageKind → String → ℤ → Option ℕ → Call
  fetch_event_page kind id since_seq limit =
      call get (experiment_url id (append "/" (page_text kind)))
        (("since_seq", show_int since_seq) ∷ optional "limit" (Option.map show limit)) none
        (append "failed to fetch " (page_text kind))

  abbrev pub fetch_event_history : String → ℤ → Option ℕ → Call
  fetch_event_history = fetch_event_page events

  abbrev pub fetch_incidents : String → ℤ → Option ℕ → Call
  fetch_incidents = fetch_event_page incidents

  abbrev pub fetch_replay_snapshot : String → Call
  fetch_replay_snapshot id =
      call get (experiment_url id "/replay-snapshot") [] none "failed to fetch replay snapshot"
