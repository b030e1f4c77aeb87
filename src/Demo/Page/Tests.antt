-- ===== src/Demo/Page/Tests.antt =====
-- Two live sessions, one after the other, each with an attack.
use htn.Prelude.{
  ◌≡◌, refl, ◌⊎◌, String, true, none, some, List, [], ◌∷◌, ◌++◌, foldl, any, string_eq,
}
use htn.Stream.Types.{EventType}
use htn.Stream.Samples.{bare}
use htn.Stream.Reducer.{initial_graph_state}
use htn.Demo.Page.{
  DemoPage, DemoEvent, polled, streamed, explained, unexplained, reset_pressed, reset_done, found,
  no_live_session, failed, opened_page, page_step, body_of, connecting, sections, waiting,
  unreachable, screen_of,
}
use htn.Demo.Page.Laws.{Answered, IsKept, wanted, is_failure, page_run-wanted}

abbrev pages : List (DemoEvent String) → DemoPage String
pages = foldl page_step opened_page

abbrev attach : String → DemoEvent String
attach s = polled (found (record { session_id = s; workers = [] }))

unfoldable attacked : String → DemoEvent String
unfolding initial_graph_state
attacked s = streamed (record initial_graph_state {
  experiment_id = some s;
  recent_events = bare EventType.policy_violation ∷ [];
})

abbrev seen : List (DemoEvent String)
seen = attach "s" ∷ attacked "s" ∷ []

page_run-wanted_example :
    let events = seen ++ explained "s" "why" ∷ [] in
    let p = pages events in
    IsKept (λ s x. Answered s x events) p
    × ((p.asking ≡ wanted p) ⊎ ((p.asking ≡ none) × (any is_failure events ≡ true)))
page_run-wanted_example = page_run-wanted (seen ++ explained "s" "why" ∷ [])

-- A later answer for the same session, asked for again after a reset, is kept in place of the first.
told_anew :
    let again = reset_pressed ∷ reset_done ∷ attach "s" ∷ explained "s" "what" ∷ [] in
    (pages (seen ++ explained "s" "why" ∷ again)).explanation ≡ some "what"
unfolding page_step opened_page attacked
told_anew = refl

-- The explanation is asked for once the attack is recorded, and again after the session went away.
asked :
    ((pages (attach "s" ∷ [])).asking ≡ none)
    × ((pages seen).asking ≡ some "s")
    × ((pages (seen ++ unexplained "s" ∷ [])).asking ≡ none)
    × ((pages (seen ++ unexplained "s" ∷ polled no_live_session ∷ attach "s" ∷ [])).asking
        ≡ some "s")
unfolding page_step opened_page attacked
asked = (refl, refl, refl, refl)

-- An answer that comes after the session changed is not shown.
late_answer : (pages (seen ++ attach "t" ∷ explained "s" "why" ∷ [])).explanation ≡ none
unfolding page_step opened_page attacked
late_answer = refl

-- Without a reset the explanation of the session before stays on the screen.
stale_explanation :
    let p = pages (seen ++ explained "s" "why" ∷ attach "t" ∷ attacked "t" ∷ []) in
    (p.explanation ≡ some "why") × (p.explained_for ≡ some "s") × (p.asking ≡ some "t")
unfolding page_step opened_page attacked
stale_explanation = (refl, refl, refl)

-- A poll that is answered after a reset brings the old session back.
poll_after_reset :
    let p = pages (seen ++ reset_pressed ∷ reset_done ∷ attach "s" ∷ []) in
    (p.summary ≡ some (record { session_id = "s"; workers = [] })) × (body_of p ≡ sections)
unfolding page_step opened_page attacked body_of
poll_after_reset = (refl, refl)

screens :
    (body_of (pages []) ≡ waiting)
    × (body_of (pages (polled (failed "down") ∷ [])) ≡ unreachable "down")
    × (body_of (pages (attach "s" ∷ [])) ≡ connecting)
    × (screen_of none (pages (seen ++ polled (failed "down") ∷ []))
        ≡ record { lost_contact = some "down"; schema_mismatch = none; body = sections })
unfolding page_step opened_page attacked screen_of
screens = (refl, refl, refl, refl)
