-- ===== src/History/Runs/Laws.antt =====
-- Clicking through the pages lists every run: history/page.tsx.
use mathlib.Core.List.{append_assoc}
use text.Mathlib.Text.{◌==◌ as str_eq}
use htn.Prelude.{
  ℕ, zero, suc, ◌≡◌, refl, ap, ◌∙◌, String, true, false, Option, none, some, List, [], ◌∷◌, ◌++◌,
  length, string_eq,
}
use htn.History.Runs.{
  StatusFilter, DefenseFilter, ListParams, RunItem, RunPage, listed, RunList, mounted,
  to_list_params, load_more, answer_page,
}

-- What the backend answers.
abbrev pub Backend : Type 0
Backend = ListParams → RunPage

-- The open request is answered.
abbrev pub served : Backend → RunList → RunList
served fetch l = elim (l.asked) [ none ↦ l | some params ↦ answer_page (listed (fetch params)) l ]

module _ (status : StatusFilter) (defense : DefenseFilter) (fetch : Backend) where
  -- One more page: a click, and its answer.
  abbrev pub next_page : RunList → RunList
  next_page l = served fetch (load_more status defense l)

  abbrev pub pages_loaded : ℕ → RunList → RunList
  pages_loaded zero l = l
  pages_loaded (suc n) l = pages_loaded n (next_page l)

  -- The request for the page behind a cursor.
  abbrev pub params_at : Option String → ListParams
  params_at cursor = record (to_list_params status defense) { cursor = cursor }

  -- The backend serves these pages one after the other, from a cursor on, and no cursor is empty.
  abbrev pub Serves : Option String → List RunItem → List (List RunItem) → Type 0
  Serves cursor page [] =
      ((fetch (params_at cursor)).items ≡ page) × ((fetch (params_at cursor)).next_cursor ≡ none)
  Serves cursor page (next ∷ rest) =
      ((fetch (params_at cursor)).items ≡ page)
      × ((d : String) × ((fetch (params_at cursor)).next_cursor ≡ some d)
          × (str_eq d "" ≡ false)
          × Serves (some d) next rest)

  abbrev pub joined : List RunItem → List (List RunItem) → List RunItem
  joined page [] = page
  joined page (next ∷ rest) = page ++ joined next rest

  -- What is shown between two requests.
  abbrev pub settled : List RunItem → Option String → RunList
  settled items cursor = record {
    items = items;
    next_cursor = cursor;
    loading = false;
    error = none;
    asked = none;
  }

  load_more-asked :
      (items : List RunItem) (d : String)
      → str_eq d "" ≡ false
      → load_more status defense (settled items (some d))
        ≡ record (settled items (some d)) { loading = true; asked = some (params_at (some d)) }
  unfolding load_more
  load_more-asked items d e = rw (load_more, e) refl

  next_page-loaded :
      (items : List RunItem) (d : String)
      → str_eq d "" ≡ false
      → let page = fetch (params_at (some d)) in
        next_page (settled items (some d)) ≡ settled (items ++ page.items) page.next_cursor
  unfolding answer_page
  next_page-loaded items d e = ap (served fetch) (load_more-asked items d e)

  pages_loaded-Serves :
      (items : List RunItem) (d : String) (page : List RunItem) (rest : List (List RunItem))
      → str_eq d "" ≡ false
      → Serves (some d) page rest
      → pages_loaded (suc (length rest)) (settled items (some d))
        ≡ settled (items ++ joined page rest) none
  pages_loaded-Serves items d page [] e (here, last) =
      next_page-loaded items d e ∙ rw (here, last) refl
  pages_loaded-Serves items d page (next ∷ rest) e (here, (d', more, e', s)) =
      ap (pages_loaded (suc (length rest))) (next_page-loaded items d e ∙ rw (here, more) refl)
      ∙ pages_loaded-Serves (items ++ page) d' next rest e' s
      ∙ rw (append_assoc items page (joined next rest)) refl

  served-mounted :
      let page = fetch (params_at none) in
      served fetch (mounted status defense) ≡ settled page.items page.next_cursor
  unfolding answer_page
  served-mounted = refl

  -- When the backend serves the runs of a filter in pages, each naming the cursor of the next one, then
  -- after the first answer and one answered click on "Load more" for every further page the list
  -- holds the runs of all pages in their order, without an error, and offers no further page.
  pub pages_loaded-joined :
      (page : List RunItem) (rest : List (List RunItem))
      → Serves none page rest
      → pages_loaded (length rest) (served fetch (mounted status defense))
        ≡ settled (joined page rest) none
  pages_loaded-joined page [] (here, last) = served-mounted ∙ rw (here, last) refl
  pages_loaded-joined page (next ∷ rest) (here, (d, more, e, s)) =
      ap (pages_loaded (suc (length rest))) (served-mounted ∙ rw (here, more) refl)
      ∙ pages_loaded-Serves page d next rest e s
