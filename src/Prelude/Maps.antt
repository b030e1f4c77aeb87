-- ===== src/Prelude/Maps.antt =====
-- JavaScript's `Map` and `Set`: association lists and lists in the order of insertion.
use mathlib.Core.Path.{◌≡◌, refl}
use mathlib.Core.Logic.{◌↔◌, inl, inr}
use mathlib.Core.Bool.{Bool, true, false, ◌||◌}
use mathlib.Core.Option.{Option, none, some}
use mathlib.Core.List.{List, [], ◌∷◌, ◌++◌}
use native.Mathlib.Omega.{arith}
use htn.Prelude.Tests.{Eq, ◌==◌, if◌then◌else◌, Bool-cases, is_some}

abbrev pub Dict {ℓ κ} : Type ℓ → Type κ → Type (ℓ ⊔ κ)
Dict K V = List (K × V)

module _ {ℓ κ} {K : Type ℓ} {V : Type κ} where
  -- `Map.keys`
  abbrev pub keys : Dict K V → List K
  keys [] = []
  keys ((k, v) ∷ m) = k ∷ keys m

  -- `Map.values`
  abbrev pub values : Dict K V → List V
  values [] = []
  values ((k, v) ∷ m) = v ∷ values m

module _ {ℓ} {K : Type ℓ} ⦃e : Eq K⦄ where
  -- `Set.has`
  unfoldable pub contains : K → List K → Bool
  contains k [] = false
  contains k (j ∷ s) = j == k || contains k s

  -- `Set.add`
  unfoldable pub add : K → List K → List K
  unfolding contains
  add k s = if contains k s then s else s ++ k ∷ []

  pub contains-append :
      (k : K) (s t : List K) → contains k (s ++ t) ≡ (contains k s || contains k t)
  unfolding contains
  contains-append k [] t = refl
  contains-append k (j ∷ s) t = ground (arith, contains-append k s t)

  pub contains-add : (k j : K) (s : List K) → contains j (add k s) ≡ (k == j || contains j s)
  unfolding add contains
  contains-add k j s = ground (arith, e.eqb_iff k j, contains-append j s (k ∷ []))

module _ {ℓ κ} {K : Type ℓ} {V : Type κ} ⦃e : Eq K⦄ where
  -- `Map.get`
  unfoldable pub lookup : K → Dict K V → Option V
  lookup k [] = none
  lookup k ((j, v) ∷ rest) = if j == k then some v else lookup k rest

  -- `Map.set`: a key that is there keeps its place.
  unfoldable pub insert : K → V → Dict K V → Dict K V
  insert k v [] = (k, v) ∷ []
  insert k v ((j, w) ∷ rest) = if j == k then (k, v) ∷ rest else (j, w) ∷ insert k v rest

  pub lookup-insert :
      (k j : K) (new : V) (m : Dict K V)
      → lookup j (insert k new m) ≡ (if k == j then some new else lookup j m)
  unfolding lookup insert
  lookup-insert k j new [] = refl
  lookup-insert k j new ((i, old) ∷ rest) =
      ground (arith, e.eqb_iff k j, e.eqb_iff i j, e.eqb_iff i k, lookup-insert k j new rest)

  -- Writing to a key that is there leaves the keys alone.
  pub keys-insert :
      (k : K) (v : V) (m : Dict K V)
      → keys (insert k v m) ≡ (if is_some (lookup k m) then keys m else keys m ++ k ∷ [])
  unfolding lookup insert
  keys-insert k v [] = refl
  keys-insert k v ((i, w) ∷ m) = elim (Bool-cases (i == k)) [
    | inl h ↦ rw (h, ← (e.eqb_iff i k).0 h)
    | inr h ↦ rw (h, keys-insert k v m) (ground arith)
  ]

-- No key twice.
abbrev pub Distinct {ℓ} : {K : Type ℓ} ⦃e : Eq K⦄ → List K → Type 0
Distinct [] = Unit
Distinct (k ∷ s) = (contains k s ≡ false) × Distinct s

module _ {ℓ} {K : Type ℓ} ⦃e : Eq K⦄ where
  Distinct-concat :
      (k : K) (s : List K) → contains k s ≡ false → Distinct s → Distinct (s ++ k ∷ [])
  unfolding contains
  Distinct-concat k [] h d = (refl, tt)
  Distinct-concat k (j ∷ s) h d = (
    ground (arith, contains-append j s (k ∷ []), e.eqb_iff j k, e.eqb_iff k j),
    Distinct-concat k s (ground arith) d.1,
  )

  pub Distinct-add : (k : K) (s : List K) → Distinct s → Distinct (add k s)
  unfolding add
  Distinct-add k s d = elim (Bool-cases (contains k s)) [
    | inl h ↦ rw h d
    | inr h ↦ rw h (Distinct-concat k s h d)
  ]

-- `===` from a decision.
abbrev pub is_yes {ℓ} : {A : Type ℓ} → Dec A → Bool
is_yes (yes p) = true
is_yes (no p) = false

pub is_yes_iff {ℓ} : {A : Type ℓ} (d : Dec A) → (is_yes d ≡ true) ↔ A
is_yes_iff (yes p) = (λ e. p, λ a. refl)
is_yes_iff (no p) = (λ e. cc, λ a. absurd (p a))

abbrev pub eq_of_discrete {ℓ} : {A : Type ℓ} → Discrete A → Eq A
eq_of_discrete d = record { eqb = λ a b. is_yes (d a b); eqb_iff = λ a b. is_yes_iff (d a b) }
