-- ===== src/History/Selection/Laws.antt =====
-- At most two runs are picked: history/page.tsx.
use text.Mathlib.TextEquality.{eq_iff}
use htn.Prelude.{
  ◌≤◌, ◌≡◌, refl, String, true, false, not, ◌||◌, List, [], ◌∷◌, foldl, filter, length, contains,
  Distinct, string_eq, ◌==◌, ==_refl, Bool-cases, inl, inr, arith,
}
use htn.History.Selection.{pick, toggle_select}

abbrev pub IsPair : List String → Type 0
IsPair s = (length s ≤ 2) × Distinct s

swapped : (a b : String) → (b == a) ≡ false → ((a == b) || false) ≡ false
swapped a b h = ground (arith, eq_iff a b, eq_iff b a)

pick-IsPair :
    (id : String) (s : List String)
    → contains id s ≡ false
    → IsPair s
    → IsPair (pick id s) × (contains id (pick id s) ≡ true)
unfolding toggle_select
pick-IsPair id [] h p = ((omega arith, (refl, tt)), rw (==_refl id) refl)
pick-IsPair id (a ∷ []) h p =
    ((omega arith, (swapped id a (ground arith), (refl, tt))), rw (==_refl id) (ground arith))
pick-IsPair id (a ∷ b ∷ []) h p =
    ((omega arith, (swapped id b (ground arith), (refl, tt))), rw (==_refl id) (ground arith))
pick-IsPair id (a ∷ b ∷ c ∷ s) h p = absurd (omega arith)

drop-IsPair :
    (id : String) (s : List String)
    → IsPair s
    → IsPair (filter (λ x. not (x == id)) s) × (contains id (filter (λ x. not (x == id)) s) ≡ false)
unfolding toggle_select
drop-IsPair id [] p = (p, refl)
drop-IsPair id (a ∷ []) p = ground arith
drop-IsPair id (a ∷ b ∷ []) p = ground arith
drop-IsPair id (a ∷ b ∷ c ∷ s) p = absurd (omega arith)

toggle_select-IsPair :
    (id : String) (s : List String)
    → IsPair s
    → IsPair (toggle_select id s) × (contains id (toggle_select id s) ≡ not (contains id s))
unfolding toggle_select
toggle_select-IsPair id s p = elim (Bool-cases (contains id s)) [
  | inl there ↦ rw (there, toggle_select) (drop-IsPair id s p)
  | inr new ↦ rw (new, toggle_select) (pick-IsPair id s new p)
]

abbrev pub toggles : List String → List String → List String
toggles = foldl (λ s id. toggle_select id s)

toggles-IsPair : (s ids : List String) → IsPair s → IsPair (toggles s ids)
toggles-IsPair s [] p = p
toggles-IsPair s (id ∷ ids) p =
    toggles-IsPair (toggle_select id s) ids (toggle_select-IsPair id s p).0

-- After any clicks on the boxes of the rows, at most two different runs are picked, and a click on a
-- further row changes whether that row is picked, and leaves at most two.
pub toggle_select-toggles :
    (ids : List String) (id : String)
    → let s = toggles [] ids in
      IsPair s
      × IsPair (toggle_select id s)
      × (contains id (toggle_select id s) ≡ not (contains id s))
toggle_select-toggles ids id =
    let p = toggles-IsPair [] ids (omega arith, tt) in
    let q = toggle_select-IsPair id (toggles [] ids) p in (p, q.0, q.1)
