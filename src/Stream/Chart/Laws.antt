-- ===== src/Stream/Chart/Laws.antt =====
-- The pointer snaps to the nearest sample: OutbreakChart.tsx.
use htn.Prelude.{
  ℕ, suc, ◌+◌, ◌≤◌, ◌<◌, ◌≡◌, refl, ◌∙◌, ◌⊎◌, inl, inr, some, List, [], ◌∷◌, get_elem?, All, ltb,
  Bool-cases, arith,
}
use htn.Stream.Chart.{distance, closest, hovered_index}

-- No point is nearer than the one with this index.
abbrev pub IsNearest : ℕ → List ℕ → ℕ → Type 0
IsNearest x points i =
    (p : ℕ) × (get_elem? points i ≡ some p) × All (λ q. distance p x ≤ distance q x) points

-- A point that is nearer than `b`, and as near as any.
abbrev pub Nearer : ℕ → List ℕ → ℕ → ℕ → ℕ → Type 0
Nearer x points b i r =
    (m : ℕ) × (p : ℕ) × (r ≡ i + m)
    × (get_elem? points m ≡ some p)
    × (distance p x < b)
    × All (λ q. distance p x ≤ distance q x) points

closest-cases :
    (x i k b : ℕ) (ps : List ℕ)
    → ((closest x i k (some b) ps ≡ k) × All (λ q. b ≤ distance q x) ps)
      ⊎ Nearer x ps b i (closest x i k (some b) ps)
unfolding closest
closest-cases x i k b [] = inl (refl, tt)
closest-cases x i k b (q ∷ ps) = elim (Bool-cases (ltb (distance q x) b)) [
  | inl near ↦
      let nearer : distance q x < b = ground arith in
      rw near (elim (closest-cases x (i + 1) i (distance q x) ps) [
        | inl (here, all) ↦ inr (0, q, here ∙ omega arith, refl, omega arith, (omega arith, all))
        | inr (m, p, r, e, l, all) ↦
            inr (suc m, p, r ∙ omega arith, e, omega arith, (omega arith, all))
      ])
  | inr far ↦
      let further : b ≤ distance q x = ground arith in
      rw far (elim (closest-cases x (i + 1) k b ps) [
        | inl (here, all) ↦ inl (here, (omega arith, all))
        | inr (m, p, r, e, l, all) ↦ inr (suc m, p, r ∙ omega arith, e, l, (omega arith, all))
      ])
]

-- The index that moving the pointer sets is that of a sample, and no sample is nearer to the pointer.
hovered_index-IsNearest : (x p : ℕ) (ps : List ℕ) → IsNearest x (p ∷ ps) (hovered_index x (p ∷ ps))
unfolding hovered_index
hovered_index-IsNearest x p ps = elim (closest-cases x 1 0 (distance p x) ps) [
  | inl (here, all) ↦ rw here (p, refl, (omega arith, all))
  | inr (m, q, r, e, l, all) ↦
      let at : closest x 1 0 (some (distance p x)) ps ≡ suc m = r ∙ omega arith in
      rw at (q, e, (omega arith, all))
]
