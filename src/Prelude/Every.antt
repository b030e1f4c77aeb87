-- ===== src/Prelude/Every.antt =====
-- A property of every element, and an order of all of them, through the list operations.
use Prim.Native.Nat.{ℕ, zero, suc}
use mathlib.Core.Path.{◌≡◌, refl, subst}
use mathlib.Core.Logic.{inl, inr}
use mathlib.Core.Bool.{Bool, true}
use mathlib.Core.Option.{some}
use mathlib.Core.List.{List, [], ◌∷◌, ◌++◌}
use htn.Prelude.Lists.{All, drop, take, filter, last, last-cons}
use htn.Prelude.Tests.{Bool-cases, Option-cases}

module _ {ℓ κ} {A : Type ℓ} (P : A → Type κ) where
  pub All-drop : (n : ℕ) (xs : List A) → All P xs → All P (drop n xs)
  All-drop zero xs a = a
  All-drop (suc n) [] a = tt
  All-drop (suc n) (x ∷ xs) a = All-drop n xs a.1

  pub All-concat : (xs : List A) (x : A) → All P xs → P x → All P (xs ++ x ∷ [])
  All-concat [] x a p = (p, tt)
  All-concat (y ∷ xs) x a p = (a.0, All-concat xs x a.1 p)

  pub All-filter : (p : A → Bool) (xs : List A) → All P xs → All P (filter p xs)
  All-filter p [] a = tt
  All-filter p (x ∷ xs) a = elim (Bool-cases (p x)) [
    | inl h ↦ rw h (a.0, All-filter p xs a.1)
    | inr h ↦ rw h (All-filter p xs a.1)
  ]

  pub All-last : (n : ℕ) (xs : List A) (l : A) → All P xs → last (take n xs) ≡ some l → P l
  All-last zero xs l a h = cc
  All-last (suc n) [] l a h = cc
  All-last (suc n) (x ∷ xs) l a h = elim (Option-cases (last (take n xs))) [
    | inl nothing ↦ subst P (cc (last-cons x (take n xs))) a.0
    | inr (m, found) ↦ All-last n xs l a.1 (cc (last-cons x (take n xs)))
  ]

pub filter-All {ℓ} :
    {A : Type ℓ} (p : A → Bool) (xs : List A) → All (λ x. p x ≡ true) xs → filter p xs ≡ xs
filter-All p [] a = refl
filter-All p (x ∷ xs) a = rw (a.0, filter-All p xs a.1)

pub All-mono {ℓ κ μ} :
    {A : Type ℓ} {P : A → Type κ} {Q : A → Type μ} (xs : List A)
    → ((x : A) → P x → Q x)
    → All P xs
    → All Q xs
All-mono [] f a = tt
All-mono (x ∷ xs) f a = (f x a.0, All-mono xs f a.1)
