-- ===== src/History/Runs.antt =====
-- The list of persisted runs, page by page: `HistoryList` of frontend/src/app/history/page.tsx. How a
-- request is answered is an input; the fields of a run that the list only prints are left out.
pub mod Laws
mod Tests
use htn.Prelude.{
  ℕ, ◌-◌, String, Bool, true, false, not, ◌&&◌, Option, none, some, List, [], ◌∷◌, ◌++◌, take,
  length, coalesce, truthy, is_some, ltb, if◌then◌else◌,
}

pub data StatusFilter : Type 0 where
  any_status finished stopped incomplete : StatusFilter

pub data DefenseFilter : Type 0 where
  any_defense defended undefended : DefenseFilter

-- The parameters of the request: `undefined` is `none`.
pub record ListParams : Type 0 where
  pub status : Option String
  pub defense_enabled : Option Bool
  pub cursor : Option String

abbrev pub status_text : StatusFilter → Option String
status_text any_status = none
status_text finished = some "finished"
status_text stopped = some "stopped"
status_text incomplete = some "incomplete"

abbrev pub defense_value : DefenseFilter → Option Bool
defense_value any_defense = none
defense_value defended = some true
defense_value undefended = some false

abbrev pub to_list_params : StatusFilter → DefenseFilter → ListParams
to_list_params status defense = record {
  status = status_text status;
  defense_enabled = defense_value defense;
  cursor = none;
}

pub record RunItem : Type 0 where
  pub experiment_id : String
  pub active_scenarios : Option (List String)
  pub defense_enabled : Bool
  pub final_status : Option String
  pub is_complete : Option Bool

-- `ExperimentListResponse`
pub record RunPage : Type 0 where
  pub items : List RunItem
  pub next_cursor : Option String

pub data PageAnswer : Type 0 where
  listed : RunPage → PageAnswer
  failed : String → PageAnswer

-- `asked` holds what has been requested and not answered.
pub record RunList : Type 0 where
  pub items : List RunItem
  pub next_cursor : Option String
  pub loading : Bool
  pub error : Option String
  pub asked : Option ListParams

-- The effect of the first render.
abbrev pub mounted : StatusFilter → DefenseFilter → RunList
mounted status defense = record {
  items = [];
  next_cursor = none;
  loading = true;
  error = none;
  asked = some (to_list_params status defense);
}

-- The answer to the first request replaces the items, that to a later one adds to them.
unfoldable pub take_page : Bool → PageAnswer → RunList → RunList
take_page is_first (listed page) l = record l {
  items = if is_first then page.items else l.items ++ page.items;
  next_cursor = page.next_cursor;
  loading = false;
  asked = none;
}
take_page is_first (failed message) l = record l {
  error = some message;
  loading = false;
  asked = none;
}

-- `loadMore`: the button is there while there is a cursor, and disabled while loading.
unfoldable pub load_more : StatusFilter → DefenseFilter → RunList → RunList
load_more status defense l = elim (truthy l.next_cursor) [
  | none ↦ l
  | some cursor ↦ if l.loading then l else record l {
    loading = true;
    asked = some (record (to_list_params status defense) { cursor = some cursor });
  }
]

-- The answer to the request that is open: the first one asks for no cursor.
unfoldable pub answer_page : PageAnswer → RunList → RunList
unfolding take_page
answer_page a l = elim (l.asked) [
  | none ↦ l
  | some params ↦ take_page (not (is_some params.cursor)) a l
]

pub data RunsView : Type 0 where
  failure : String → RunsView
  skeleton : RunsView
  nothing : RunsView
  -- the rows, and whether there is a button for more
  table : List RunItem → Bool → RunsView

unfoldable pub view_of : RunList → RunsView
view_of l = elim (truthy l.error) [
  | some message ↦ failure message
  | none ↦ elim (l.items) [
    | [] ↦ if l.loading then skeleton else nothing
    | item ∷ rest ↦ table (item ∷ rest) (is_some (truthy l.next_cursor))
  ]
]

-- The cell of the attack: at most two scenarios, and how many more there are.
unfoldable pub attack_cell : RunItem → List String × ℕ
attack_cell item =
    let scenarios = coalesce item.active_scenarios [] in (take 2 scenarios, length scenarios - 2)
