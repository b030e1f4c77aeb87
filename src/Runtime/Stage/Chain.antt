-- ===== src/Runtime/Stage/Chain.antt =====
-- The depth of a worker as a recursion along the handoffs, which the passes of stage.ts compute.
use mathlib.Core.Path.{subst}
use htn.Prelude.{
  ℕ, zero, suc, ◌+◌, max, foldl, if◌then◌else◌, ℕ_eq, ◌≤◌, ◌<◌, ◌≡◌, refl, sym, ◌∙◌, String, true,
  false, Option, none, some, List, [], ◌∷◌, All, find, lookup, contains, Distinct, length, ==_refl,
  string_eq, ◌==◌, Bool-cases, Option-cases, inl, inr, arith,
}
use text.Mathlib.TextEquality.{eq_iff}
use htn.Graph.Swarm.{WorkerView}
use htn.Runtime.Stage.{ids_of, parents, raise, next_depth, depths}
use htn.Runtime.Stage.Depths.{next_depth_cong, Ranks, Fits, passes-Right}

-- The worker with the id, if there is one.
abbrev pub worker_of : List WorkerView → String → Option WorkerView
worker_of ws id = find (λ (v : WorkerView). v.id == id) ws

-- One more than the deepest of the known workers.
unfoldable pub behind : List String → (String → ℕ) → List String → ℕ
behind ids depth [] = 0
behind ids depth (p ∷ ps) = max (if contains p ids then depth p + 1 else 0) (behind ids depth ps)

-- A worker that replaces one stands beside it, and any other behind those it received output from.
unfoldable pub place : List String → WorkerView → (String → ℕ) → ℕ
place ids w depth = elim (w.replaces) [
  | none ↦ behind ids depth w.upstream
  | some id ↦ if contains id ids then depth id else 0
]

foldl-raise-behind :
    (ids : List String) (w : WorkerView) (depth : String → ℕ) (n : ℕ) (ps : List String)
    → w.replaces ≡ none
    → foldl (raise ids w depth) n ps ≡ max n (behind ids depth ps)
unfolding raise behind
foldl-raise-behind ids w depth n [] h = ground arith
foldl-raise-behind ids w depth n (p ∷ ps) h =
    foldl-raise-behind ids w depth (raise ids w depth n p) ps h
    ∙ elim (Bool-cases (contains p ids)) [
      | inl known ↦ rw (known, h) (ground arith)
      | inr unknown ↦ rw unknown (ground arith)
    ]

next_depth-place :
    (ids : List String) (w : WorkerView) (depth : String → ℕ)
    → next_depth ids w depth ≡ place ids w depth
unfolding next_depth place raise
next_depth-place ids w depth = elim (Option-cases w.replaces) [
  | inl none_replaced ↦
      rw none_replaced (
        foldl-raise-behind ids (record w { replaces = none }) depth 0 w.upstream refl ∙ omega arith)
  | inr (id, replaced) ↦ elim (Bool-cases (contains id ids)) [
    | inl known ↦ rw (replaced, known) (rw (==_refl id) (ground arith))
    | inr unknown ↦ rw (replaced, unknown) refl
  ]
]

-- How deep a worker stands, by recursion along its parents, so many steps deep at most.
unfoldable pub chain : ℕ → List WorkerView → String → ℕ
chain zero ws id = 0
chain (suc k) ws id = elim (worker_of ws id) [
  | none ↦ 0
  | some w ↦ place (ids_of ws) w (chain k ws)
]

chain-suc :
    (k : ℕ) (ws : List WorkerView) (a : String) (w : WorkerView)
    → worker_of ws a ≡ some w
    → chain (suc k) ws a ≡ next_depth (ids_of ws) w (chain k ws)
unfolding chain
chain-suc k ws a w found = rw (found, chain) (sym (next_depth-place (ids_of ws) w (chain k ws)))

chain_nobody :
    (k : ℕ) (ws : List WorkerView) (a : String) → worker_of ws a ≡ none → chain k ws a ≡ 0
unfolding chain
chain_nobody zero ws a nobody = refl
chain_nobody (suc k) ws a nobody = rw (nobody, chain) refl

found_is :
    (P : WorkerView → Type 0) (vs : List WorkerView) (id : String) (w : WorkerView)
    → All P vs
    → worker_of vs id ≡ some w
    → P w × (w.id ≡ id)
found_is P [] id w a h = cc
found_is P (v ∷ vs) id w a h = elim (Bool-cases (v.id == id)) [
  | inl own ↦
      let e : v ≡ w = cc (rw own at h) in
      subst (λ u. P u × (u.id ≡ id)) e (a.0, (eq_iff v.id id).0 own)
  | inr other ↦ found_is P vs id w a.1 (rw other at h)
]

worker_of-cons :
    (u : WorkerView) (us vs : List WorkerView)
    → contains u.id (ids_of vs) ≡ false
    → All (λ (w : WorkerView). worker_of us w.id ≡ some w) vs
    → All (λ (w : WorkerView). worker_of (u ∷ us) w.id ≡ some w) vs
unfolding contains
worker_of-cons u us [] c a = tt
worker_of-cons u us (v ∷ vs) c a =
    let other : (u.id == v.id) ≡ false = ground (arith, eq_iff u.id v.id, eq_iff v.id u.id) in
    (rw other a.0, worker_of-cons u us vs (ground arith) a.1)

All-found :
    (ws : List WorkerView)
    → Distinct (ids_of ws)
    → All (λ (w : WorkerView). worker_of ws w.id ≡ some w) ws
All-found [] d = tt
All-found (w ∷ ws) d = (rw (==_refl w.id) refl, worker_of-cons w ws ws d.0 (All-found ws d.1))

module _ (ws : List WorkerView) (level : String → ℕ) (ranked : Ranks level ws ws) where
  parents_agree :
      (k l : ℕ) (ps : List String)
      → ((a : String)
          → contains a (ids_of ws) ≡ true
          → level a < k
          → chain k ws a ≡ chain (suc k) ws a)
      → l ≤ k
      → All (λ p. contains p (ids_of ws) ≡ true → level p < l) ps
      → All (λ p. contains p (ids_of ws) ≡ true → chain k ws p ≡ chain (suc k) ws p) ps
  parents_agree k l [] same le a = tt
  parents_agree k l (p ∷ ps) same le a =
      (λ known. same p known (let lt = a.0 known in omega arith), parents_agree k l ps same le a.1)

  -- More steps than the level of a worker add nothing.
  chain_stable :
      (k : ℕ) (a : String)
      → contains a (ids_of ws) ≡ true
      → level a < k
      → chain k ws a ≡ chain (suc k) ws a
  chain_stable zero a known lt = absurd (omega arith)
  chain_stable (suc k) a known lt = elim (Option-cases (worker_of ws a)) [
    | inl nobody ↦ chain_nobody (suc k) ws a nobody ∙ sym (chain_nobody (suc (suc k)) ws a nobody)
    | inr (w, found) ↦
        let (below, e) = found_is _ ws a w ranked found in
        let le : level w.id ≤ k = rw e (omega arith) in
        chain-suc k ws a w found
        ∙ next_depth_cong (ids_of ws) w (chain k ws) (chain (suc k) ws)
            (parents_agree k (level w.id) (parents w) (chain_stable k) le below)
        ∙ sym (chain-suc (suc k) ws a w found)
  ]

  chain-Fits :
      (vs : List WorkerView)
      → All (λ (w : WorkerView). worker_of ws w.id ≡ some w) vs
      → All (λ (w : WorkerView). contains w.id (ids_of ws) ≡ true) vs
      → All (λ (w : WorkerView). level w.id ≤ length ws) vs
      → Ranks level ws vs
      → All (Fits ws (chain (length ws + 1) ws) level) vs
  chain-Fits [] found known le r = tt
  chain-Fits (w ∷ vs) found known le r = (
    (
      chain_stable (length ws + 1) w.id known.0 (let l = le.0 in omega arith)
          ∙ chain-suc (length ws + 1) ws w.id w found.0,
      r.0,
    ),
    chain-Fits vs found.1 known.1 le.1 r.1,
  )

of_known :
    (Q : String → Type 0) (vs : List WorkerView) (a : String)
    → All (λ (w : WorkerView). Q w.id) vs
    → contains a (ids_of vs) ≡ true
    → Q a
unfolding contains
of_known Q [] a q h = cc
of_known Q (w ∷ vs) a q h = elim (Bool-cases (w.id == a)) [
  | inl own ↦ subst Q ((eq_iff w.id a).0 own) q.0
  | inr other ↦ of_known Q vs a q.1 (rw other at h)
]

All-known :
    (ids : List String) (vs : List WorkerView)
    → ((a : String) → contains a (ids_of vs) ≡ true → contains a ids ≡ true)
    → All (λ (w : WorkerView). contains w.id ids ≡ true) vs
unfolding contains
All-known ids [] f = tt
All-known ids (w ∷ vs) f =
    (f w.id (rw (==_refl w.id) refl), All-known ids vs (λ a h. f a (ground arith)))

-- If no two workers share an id and the handoffs and replacements have no cycle (some level of at
-- most the number of workers grows along them), then the passes end with the depth of every worker
-- that a recursion along its parents gives: the depth of the worker it replaces, and otherwise one
-- more than the deepest known worker it received output from; it is 0 if no such worker is known.
pub depths-chain :
    (ws : List WorkerView) (level : String → ℕ)
    → Distinct (ids_of ws)
    → Ranks level ws ws
    → All (λ (w : WorkerView). level w.id ≤ length ws) ws
    → (a : String) → contains a (ids_of ws) ≡ true
    → lookup a (depths ws) ≡ some (chain (length ws + 1) ws a)
unfolding depths
depths-chain ws level distinct ranked small a known =
    let fits =
      chain-Fits ws level ranked ws (All-found ws distinct) (All-known (ids_of ws) ws (λ b h. h))
        small ranked in
    let le = of_known (λ b. level b ≤ length ws) ws a small known in
    passes-Right ws (chain (length ws + 1) ws) level (length ws + 1) 0 [] fits
      (λ b _ lt. absurd (omega arith)) a known (omega arith)
