-- ===== src/Runtime/Stage/Depths.antt =====
-- The passes reach the depths of the handoff chain: `depths` of stage.ts.
use mathlib.Core.Path.{subst}
use htn.Prelude.{
  ℕ, zero, suc, ◌+◌, ◌≤◌, ◌<◌, ◌≡◌, refl, sym, ap, ◌∙◌, String, true, false, some, List, [], ◌∷◌,
  foldl, All, Dict, lookup, lookup-insert, contains, same_option, same_option_eq, ==_refl,
  string_eq, ℕ_eq, ◌==◌, if◌then◌else◌, Bool-cases, inl, inr, arith,
}
use text.Mathlib.TextEquality.{eq_iff}
use htn.Graph.Swarm.{WorkerView}
use htn.Runtime.Stage.{ids_of, depth_at, parents, raise, next_depth, Pass, visit, one_pass, passes}

foldl-raise_cong :
    (ids : List String) (w : WorkerView) (f g : String → ℕ) (ps : List String) (n : ℕ)
    → All (λ p. contains p ids ≡ true → f p ≡ g p) ps
    → foldl (raise ids w f) n ps ≡ foldl (raise ids w g) n ps
unfolding raise
foldl-raise_cong ids w f g [] n a = refl
foldl-raise_cong ids w f g (p ∷ ps) n a = elim (Bool-cases (contains p ids)) [
  | inl known ↦ rw (known, a.0 known) (foldl-raise_cong ids w f g ps _ a.1)
  | inr unknown ↦ rw unknown (foldl-raise_cong ids w f g ps n a.1)
]

pub next_depth_cong :
    (ids : List String) (w : WorkerView) (f g : String → ℕ)
    → All (λ p. contains p ids ≡ true → f p ≡ g p) (parents w)
    → next_depth ids w f ≡ next_depth ids w g
unfolding next_depth
next_depth_cong ids w f g a = foldl-raise_cong ids w f g (parents w) 0 a

-- `level` grows along the handoffs and replacements, so there is no cycle.
abbrev pub Ranks : (String → ℕ) → List WorkerView → List WorkerView → Type 0
Ranks level ws = All (λ (w : WorkerView).
    All (λ p. contains p (ids_of ws) ≡ true → level p < level w.id) (parents w))

module _ (ws : List WorkerView) (d level : String → ℕ) where
  abbrev pub Knows : Dict String ℕ → String → Type 0
  Knows depth a = lookup a depth ≡ some (d a)

  -- The depths below a level are found.
  abbrev pub Right : ℕ → Dict String ℕ → Type 0
  Right k depth = (a : String) → contains a (ids_of ws) ≡ true → level a < k → Knows depth a

  known_parents :
      (k l : ℕ) (depth : Dict String ℕ) (ps : List String)
      → Right k depth
      → l ≤ k
      → All (λ p. contains p (ids_of ws) ≡ true → level p < l) ps
      → All (λ p. contains p (ids_of ws) ≡ true → depth_at depth p ≡ d p) ps
  known_parents k l depth [] r le a = tt
  known_parents k l depth (p ∷ ps) r le a = (
    λ known. let found = r p known (let lt = a.0 known in omega arith) in rw found refl,
    known_parents k l depth ps r le a.1,
  )

  next_depth-Right :
      (k : ℕ) (depth : Dict String ℕ) (w : WorkerView)
      → Right k depth
      → level w.id ≤ k
      → d w.id ≡ next_depth (ids_of ws) w d
      → All (λ p. contains p (ids_of ws) ≡ true → level p < level w.id) (parents w)
      → next_depth (ids_of ws) w (depth_at depth) ≡ d w.id
  next_depth-Right k depth w r le s a =
      next_depth_cong (ids_of ws) w (depth_at depth) d
        (known_parents k (level w.id) depth (parents w) r le a)
      ∙ sym s

  -- After its visit a worker has the depth that was computed for it, and the others what they had.
  lookup-visit :
      (s : Pass) (w : WorkerView) (a : String)
      → lookup a (visit (ids_of ws) s w).depth ≡ (
          if w.id == a
          then some (next_depth (ids_of ws) w (depth_at s.depth))
          else lookup a s.depth)
  unfolding visit
  lookup-visit s w a =
      let next = next_depth (ids_of ws) w (depth_at s.depth) in
      elim (Bool-cases (same_option (lookup w.id s.depth) (some next))) [
        | inl same ↦
            let found = same_option_eq (lookup w.id s.depth) (some next) same in
            elim (Bool-cases (w.id == a)) [
              | inl own ↦ rw (same, own) (rw (← (eq_iff w.id a).0 own) found)
              | inr other ↦ rw (same, other) refl
            ]
        | inr new ↦ rw new (lookup-insert w.id a next s.depth)
      ]

  -- What is assumed of a worker: `d` is one step further than its furthest known parent, or beside
  -- the one it replaces, and its parents are of lower levels.
  abbrev pub Fits : WorkerView → Type 0
  Fits w =
      (d w.id ≡ next_depth (ids_of ws) w d)
      × All (λ p. contains p (ids_of ws) ≡ true → level p < level w.id) (parents w)

  visit-Knows :
      (k : ℕ) (s : Pass) (w : WorkerView)
      → Right k s.depth
      → Fits w
      → level w.id ≤ k
      → Knows (visit (ids_of ws) s w).depth w.id
  visit-Knows k s w r f le =
      lookup-visit s w w.id
      ∙ rw (==_refl w.id) (ap some (next_depth-Right k s.depth w r le f.0 f.1))

  visit_keeps :
      (k : ℕ) (s : Pass) (w : WorkerView) (a : String)
      → Right k s.depth
      → Fits w
      → level a ≤ k
      → Knows s.depth a
      → Knows (visit (ids_of ws) s w).depth a
  visit_keeps k s w a r f le h = elim (Bool-cases (w.id == a)) [
    | inl own ↦
        let e = (eq_iff w.id a).0 own in
        subst (λ b. Knows (visit (ids_of ws) s w).depth b) e (visit-Knows k s w r f (rw e le))
    | inr other ↦ lookup-visit s w a ∙ rw other h
  ]

  visit-Right :
      (k : ℕ) (s : Pass) (w : WorkerView)
      → Right k s.depth
      → Fits w
      → Right k (visit (ids_of ws) s w).depth
  visit-Right k s w r f a known lt = visit_keeps k s w a r f (omega arith) (r a known lt)

  foldl_keeps :
      (k : ℕ) (s : Pass) (vs : List WorkerView) (a : String)
      → Right k s.depth
      → All Fits vs
      → level a ≤ k
      → Knows s.depth a
      → Knows (foldl (visit (ids_of ws)) s vs).depth a
  foldl_keeps k s [] a r f le h = h
  foldl_keeps k s (w ∷ vs) a r f le h =
      foldl_keeps k (visit (ids_of ws) s w) vs a (visit-Right k s w r f.0) f.1 le
        (visit_keeps k s w a r f.0 le h)

  foldl-Knows :
      (k : ℕ) (s : Pass) (vs : List WorkerView) (a : String)
      → Right k s.depth
      → All Fits vs
      → level a ≤ k
      → contains a (ids_of vs) ≡ true
      → Knows (foldl (visit (ids_of ws)) s vs).depth a
  unfolding contains
  foldl-Knows k s [] a r f le h = cc
  foldl-Knows k s (w ∷ vs) a r f le h = elim (Bool-cases (w.id == a)) [
    | inl own ↦
        let e = (eq_iff w.id a).0 own in
        foldl_keeps k (visit (ids_of ws) s w) vs a (visit-Right k s w r f.0) f.1 le
          (subst (λ b. Knows (visit (ids_of ws) s w).depth b) e (visit-Knows k s w r f.0 (rw e le)))
    | inr other ↦
        foldl-Knows k (visit (ids_of ws) s w) vs a (visit-Right k s w r f.0) f.1 le (rw other at h)
  ]

  one_pass-Right :
      (k : ℕ) (depth : Dict String ℕ)
      → All Fits ws
      → Right k depth
      → Right (suc k) (one_pass ws depth).depth
  unfolding one_pass
  one_pass-Right k depth f r a known lt =
      foldl-Knows k (record { depth = depth; changed = false }) ws a r f (omega arith) known

  visit_unchanged :
      (s : Pass) (w : WorkerView)
      → (visit (ids_of ws) s w).changed ≡ false
      → ((visit (ids_of ws) s w).depth ≡ s.depth) × (s.changed ≡ false)
  unfolding visit
  visit_unchanged s w h = ground arith

  foldl_unchanged :
      (s : Pass) (vs : List WorkerView)
      → (foldl (visit (ids_of ws)) s vs).changed ≡ false
      → ((foldl (visit (ids_of ws)) s vs).depth ≡ s.depth) × (s.changed ≡ false)
  foldl_unchanged s [] h = (refl, h)
  foldl_unchanged s (w ∷ vs) h =
      let (same, still) = foldl_unchanged (visit (ids_of ws) s w) vs h in
      let (before, first) = visit_unchanged s w still in (same ∙ before, first)

  -- Depths that a pass does not change are right at every level.
  fixed-Right :
      (j : ℕ) (depth : Dict String ℕ)
      → All Fits ws
      → (one_pass ws depth).changed ≡ false
      → Right j depth
  unfolding one_pass
  fixed-Right zero depth f h a known lt = absurd (omega arith)
  fixed-Right (suc j) depth f h a known lt =
      let same = (foldl_unchanged (record { depth = depth; changed = false }) ws h).0 in
      rw same at (one_pass-Right j depth f (fixed-Right j depth f h) a known lt)

  pub passes-Right :
      (n k : ℕ) (depth : Dict String ℕ)
      → All Fits ws
      → Right k depth
      → Right (k + n) (passes n ws depth)
  unfolding passes
  passes-Right zero k depth f r a known lt = r a known (omega arith)
  passes-Right (suc n) k depth f r a known lt = elim (Bool-cases (one_pass ws depth).changed) [
    | inl more ↦
        rw (more, passes)
          (passes-Right n (suc k) (one_pass ws depth).depth f (one_pass-Right k depth f r) a known
            (omega arith))
    | inr done ↦
        rw (done, passes)
          (one_pass-Right (k + n) depth f (fixed-Right (k + n) depth f done) a known (omega arith))
  ]
