-- ===== src/History/Runs/Tests.antt =====
-- Three runs in two pages.
use htn.Prelude.{◌≡◌, refl, String, true, Option, none, some, List, [], ◌∷◌}
use htn.History.Runs.{
  RunItem, RunPage, any_status, defended, mounted, answer_page, load_more, failed, view_of, failure,
  attack_cell,
}
use htn.History.Runs.Laws.{Backend, served, pages_loaded, joined, settled, pages_loaded-joined}

abbrev run : String → RunItem
run id = record {
  experiment_id = id;
  active_scenarios = some ("a" ∷ "b" ∷ "c" ∷ []);
  defense_enabled = true;
  final_status = none;
  is_complete = some true;
}

abbrev first_page : List RunItem
first_page = run "r1" ∷ run "r2" ∷ []

abbrev second_page : List RunItem
second_page = run "r3" ∷ []

abbrev page_at : Option String → RunPage
page_at none = record { items = first_page; next_cursor = some "r2" }
page_at (some cursor) = record { items = second_page; next_cursor = none }

abbrev two_pages : Backend
two_pages params = page_at params.cursor

pages_loaded-joined_example :
    pages_loaded any_status defended two_pages 1 (served two_pages (mounted any_status defended))
    ≡ settled any_status defended two_pages
        (joined any_status defended two_pages first_page (second_page ∷ []))
        none
pages_loaded-joined_example =
    pages_loaded-joined any_status defended two_pages first_page (second_page ∷ [])
      (refl, ("r2", refl, refl, (refl, refl)))

scenarios_shown : attack_cell (run "r1") ≡ ("a" ∷ "b" ∷ [], 1)
unfolding attack_cell
scenarios_shown = refl

-- A further page that fails takes the place of the runs that are loaded.
failed_page :
    let l = served two_pages (mounted any_status defended) in
    view_of (answer_page (failed "gone") (load_more any_status defended l)) ≡ failure "gone"
unfolding view_of answer_page load_more
failed_page = refl
