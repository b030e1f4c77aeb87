-- ===== src/Controls/Storage/Laws.antt =====
-- What a reload of the page finds: ExperimentProvider.tsx.
use htn.Prelude.{
  ◌≡◌, refl, ap, ◌∙◌, String, false, Option, none, some, List, [], ◌∷◌, foldl, truthy, Option-cases,
  inl, inr, arith, string_eq, if_either,
}
use htn.Controls.Reducer.{transition}
use htn.Controls.Provider.{Summary, initial_provider, apply, adopt, step}
use htn.Controls.Storage.{
  Tab, TabEvent, hydrated, happened, remember, hydrate, opened_tab, tab_step, gate, running_on,
}

-- The run that is on the screen is the one that is stored.
abbrev pub IsStored : Tab → Type 0
IsStored t = (id : String) → truthy t.provider.control.experiment_id ≡ some id → t.stored ≡ some id

remember-IsStored : (t : Tab) → IsStored (remember t)
unfolding remember
remember-IsStored t = ground arith

tab_step-IsStored : (t : Tab) (e : TabEvent) → IsStored t → IsStored (tab_step t e)
unfolding tab_step
tab_step-IsStored t (hydrated get_experiment) s =
    if_either IsStored t.hydrating (remember (hydrate get_experiment t)) t
      (remember-IsStored (hydrate get_experiment t)) s
tab_step-IsStored t (happened i) s =
    let next = record t { provider = step t.provider i } in
    if_either IsStored t.hydrating t (remember next) s (remember-IsStored next)

foldl-IsStored :
    (t : Tab) (events : List TabEvent) → IsStored t → IsStored (foldl tab_step t events)
foldl-IsStored t [] s = s
foldl-IsStored t (e ∷ events) s = foldl-IsStored (tab_step t e) events (tab_step-IsStored t e s)

truthy-some : (o : Option String) (id : String) → truthy o ≡ some id → truthy (some id) ≡ some id
truthy-some none id h = absurd cc
truthy-some (some s) id h = ground arith

gate-remember : (t : Tab) → gate (remember t) ≡ gate t
unfolding gate remember
gate-remember t = elim (Option-cases (truthy t.provider.control.experiment_id)) [
  | inl nothing ↦ rw (remember, nothing) refl
  | inr (id, e) ↦ rw (remember, e) refl
]

abbrev confirmed : Summary → String → Tab
confirmed summary id = record {
  provider = adopt summary initial_provider;
  hydrating = false;
  stored = some id;
}

hydrate-confirmed :
    (get_experiment : String → Option Summary) (id : String) (summary : Summary)
    → truthy (some id) ≡ some id
    → get_experiment id ≡ some summary
    → hydrate get_experiment (opened_tab (some id)) ≡ confirmed summary id
unfolding hydrate
hydrate-confirmed get_experiment id summary e known = rw (e, known, hydrate) refl

gate-confirmed :
    (id : String) (summary : Summary)
    → truthy (some id) ≡ some id
    → summary.experiment_id ≡ id
    → gate (confirmed summary id) ≡ running_on id
unfolding gate adopt apply transition
gate-confirmed id summary e same = rw same (ground arith)

-- Whatever happens in a tab, the run that its screens are about is the one that is stored; so when
-- the tab is opened again, and the backend still knows the run of that id, and answers with that id,
-- it is the run on the screens again.
pub tabs-IsStored :
    (stored : Option String) (events : List TabEvent) (get_experiment : String → Option Summary)
    (id : String) (summary : Summary)
    → let t = foldl tab_step (opened_tab stored) events in
      truthy t.provider.control.experiment_id ≡ some id
      → get_experiment id ≡ some summary
      → summary.experiment_id ≡ id
      → (t.stored ≡ some id)
        × (gate (tab_step (opened_tab t.stored) (hydrated get_experiment)) ≡ running_on id)
unfolding tab_step
tabs-IsStored stored events get_experiment id summary h known same =
    let t = foldl tab_step (opened_tab stored) events in
    let kept : t.stored ≡ some id = foldl-IsStored (opened_tab stored) events unseen id h in
    let e = truthy-some t.provider.control.experiment_id id h in
    (
      kept,
      gate-remember (hydrate get_experiment (opened_tab t.stored))
          ∙ ap (λ o. gate (hydrate get_experiment (opened_tab o))) kept
          ∙ ap gate (hydrate-confirmed get_experiment id summary e known)
          ∙ gate-confirmed id summary e same,
    )
  where
    unseen : IsStored (opened_tab stored)
    unseen other h = absurd cc
