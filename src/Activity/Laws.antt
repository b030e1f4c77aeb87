-- ===== src/Activity/Laws.antt =====
-- The mix of the events counts each of them once: activity/page.tsx.
use htn.Prelude.{
  ℕ, ◌+◌, ◌≡◌, refl, ◌∙◌, String, Option, none, some, List, [], ◌∷◌, foldl, length, Dict, values,
  lookup, coalesce, string_eq, arith,
}
use htn.Prelude.Sums.{total, old_total, total-insert}
use htn.Stream.Types.{Event, EventType}
use htn.Activity.{category_of, count_category, by_category}

abbrev pub itself : ℕ → ℕ
itself n = n

old_total-coalesce : (o : Option ℕ) → old_total itself o ≡ coalesce o 0
old_total-coalesce none = refl
old_total-coalesce (some n) = refl

module _ (type_text : EventType → String) where
  total-count_category :
      (counts : Dict String ℕ) (e : Event)
      → total itself (values (count_category type_text counts e)) ≡ total itself (values counts) + 1
  unfolding count_category
  total-count_category counts e =
      let k = category_of type_text e in
      omega (
        arith,
        total-insert itself k (coalesce (lookup k counts) 0 + 1) counts,
        old_total-coalesce (lookup k counts),
      )

  foldl-total :
      (counts : Dict String ℕ) (events : List Event)
      → total itself (values (foldl (count_category type_text) counts events))
        ≡ total itself (values counts) + length events
  foldl-total counts [] = omega arith
  foldl-total counts (e ∷ events) =
      foldl-total (count_category type_text counts e) events
      ∙ omega (arith, total-count_category counts e)

  -- The counts of the categories add up to the number of the events.
  by_category-total :
      (events : List Event) → total itself (values (by_category type_text events)) ≡ length events
  unfolding by_category
  by_category-total events = foldl-total [] events ∙ omega arith
