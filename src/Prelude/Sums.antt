-- ===== src/Prelude/Sums.antt =====
-- The total of a number over a list, over the values of a dictionary, and over a sorted list.
use htn.Prelude.Tests.{Eq, ◌==◌, Bool-cases}
use htn.Prelude.Maps.{Dict, lookup, insert, values}
use htn.Prelude.Sort.{sort, insert_sorted}
use Prim.Native.Nat.{ℕ, ◌+◌}
use mathlib.Core.Path.{◌≡◌, refl, ◌∙◌}
use mathlib.Core.Logic.{inl, inr}
use mathlib.Core.Bool.{Bool}
use mathlib.Core.Option.{Option, none, some}
use mathlib.Core.List.{List, [], ◌∷◌, foldl, map}
use native.Mathlib.Omega.{arith}

abbrev pub total {ℓ} : {A : Type ℓ} → (A → ℕ) → List A → ℕ
total f [] = 0
total f (x ∷ xs) = f x + total f xs

pub total-map {ℓ κ} :
    {A : Type ℓ} {B : Type κ} (f : B → ℕ) (g : A → B) (xs : List A)
    → total f (map g xs) ≡ total (λ x. f (g x)) xs
total-map f g [] = refl
total-map f g (x ∷ xs) = omega (arith, total-map f g xs)

module _ {ℓ} {A : Type ℓ} (f : A → ℕ) (less : A → A → Bool) where
  total-insert_sorted : (xs : List A) (x : A) → total f (insert_sorted less xs x) ≡ total f xs + f x
  unfolding insert_sorted
  total-insert_sorted [] x = omega arith
  total-insert_sorted (y ∷ ys) x = elim (Bool-cases (less x y)) [
    | inl first ↦ rw first (omega arith)
    | inr after ↦ rw after (omega (arith, total-insert_sorted ys x))
  ]

  total-foldl-insert_sorted :
      (xs ys : List A) → total f (foldl (insert_sorted less) xs ys) ≡ total f xs + total f ys
  total-foldl-insert_sorted xs [] = omega arith
  total-foldl-insert_sorted xs (y ∷ ys) =
      total-foldl-insert_sorted (insert_sorted less xs y) ys
      ∙ rw (total-insert_sorted xs y) (omega arith)

  pub total-sort : (xs : List A) → total f (sort less xs) ≡ total f xs
  unfolding sort
  total-sort xs = total-foldl-insert_sorted [] xs ∙ omega arith

abbrev pub old_total {κ} : {V : Type κ} → (V → ℕ) → Option V → ℕ
old_total f none = 0
old_total f (some v) = f v

module _ {ℓ κ} {K : Type ℓ} {V : Type κ} ⦃e : Eq K⦄ (f : V → ℕ) where
  -- A new value takes the old one's place in the total.
  pub total-insert :
      (k : K) (v : V) (m : Dict K V)
      → total f (values (insert k v m)) + old_total f (lookup k m) ≡ total f (values m) + f v
  unfolding insert lookup
  total-insert k v [] = omega arith
  total-insert k v ((j, w) ∷ m) = elim (Bool-cases (j == k)) [
    | inl same ↦ rw same (omega arith)
    | inr other ↦ rw other (omega (arith, total-insert k v m))
  ]
