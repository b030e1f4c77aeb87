-- ===== src/Prelude/Sort.antt =====
-- `Array.prototype.sort`, which keeps the order of elements that compare equal: insertion, from the
-- left. `less a b` says that the comparator is negative at `a` and `b`.
use mathlib.Core.Bool.{Bool}
use mathlib.Core.List.{List, [], ◌∷◌, foldl}
use htn.Prelude.Tests.{if◌then◌else◌}

module _ {ℓ} {A : Type ℓ} (less : A → A → Bool) where
  unfoldable pub insert_sorted : List A → A → List A
  insert_sorted [] x = x ∷ []
  insert_sorted (y ∷ ys) x = if less x y then x ∷ y ∷ ys else y ∷ insert_sorted ys x

  unfoldable pub sort : List A → List A
  unfolding insert_sorted
  sort xs = foldl insert_sorted [] xs
