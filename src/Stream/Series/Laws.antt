-- ===== src/Stream/Series/Laws.antt =====
-- The curve runs forward and is bounded, even while a replay is scrubbed: useOutbreakSeries.ts.
use htn.Prelude.{
  ℕ, zero, suc, ◌-◌, ◌≤◌, ◌<◌, ◌≡◌, refl, Bool, false, Option, none, some, List, [], ◌∷◌, ◌++◌,
  foldl, length, filter, drop, slice_last, slice_last-length, All, ltb, nat_eq, same_option,
  string_eq, ℕ_eq, Bool-cases, inl, inr, arith,
}
use htn.Stream.Reducer.{GraphState}
use htn.Stream.Series.{
  OutbreakSample, max_samples, Series, empty_series, sample_of, is_rewound, base, observe,
  observe_all,
}

abbrev Below : ℕ → OutbreakSample → Type 0
Below t x = x.tick < t

-- Each sample is of a later tick than the ones before it.
abbrev pub IsIncreasing : List OutbreakSample → Type 0
IsIncreasing [] = Unit
IsIncreasing (x ∷ xs) = All (λ (y : OutbreakSample). x.tick < y.tick) xs × IsIncreasing xs

-- No sample is later than the last tick that was seen.
abbrev UpTo : Option ℕ → List OutbreakSample → Type 0
UpTo none xs = xs ≡ []
UpTo (some t) xs = All (λ (x : OutbreakSample). x.tick ≤ t) xs

All-mono :
    {P Q : OutbreakSample → Type 0} (xs : List OutbreakSample)
    → ((x : OutbreakSample) → P x → Q x)
    → All P xs
    → All Q xs
All-mono [] f a = tt
All-mono (x ∷ xs) f a = (f x a.0, All-mono xs f a.1)

All-drop :
    (P : OutbreakSample → Type 0) (n : ℕ) (xs : List OutbreakSample) → All P xs → All P (drop n xs)
All-drop P zero xs a = a
All-drop P (suc n) [] a = tt
All-drop P (suc n) (x ∷ xs) a = All-drop _ n xs a.1

All-concat :
    (P : OutbreakSample → Type 0) (xs : List OutbreakSample) (x : OutbreakSample)
    → All P xs
    → P x
    → All P (xs ++ x ∷ [])
All-concat P [] x a p = (p, tt)
All-concat P (y ∷ xs) x a p = (a.0, All-concat _ xs x a.1 p)

All-filter :
    (P : OutbreakSample → Type 0) (p : OutbreakSample → Bool) (xs : List OutbreakSample)
    → All P xs
    → All P (filter p xs)
All-filter P p [] a = tt
All-filter P p (x ∷ xs) a = elim (Bool-cases (p x)) [
  | inl h ↦ rw h (a.0, All-filter _ p xs a.1)
  | inr h ↦ rw h (All-filter _ p xs a.1)
]

filter-Below :
    (t : ℕ) (xs : List OutbreakSample)
    → All (Below t) (filter (λ (x : OutbreakSample). ltb x.tick t) xs)
filter-Below t [] = tt
filter-Below t (x ∷ xs) = elim (Bool-cases (ltb x.tick t)) [
  | inl h ↦ rw h (ground arith, filter-Below t xs)
  | inr h ↦ rw h (filter-Below t xs)
]

IsIncreasing-filter :
    (p : OutbreakSample → Bool) (xs : List OutbreakSample)
    → IsIncreasing xs
    → IsIncreasing (filter p xs)
IsIncreasing-filter p [] h = tt
IsIncreasing-filter p (x ∷ xs) h = elim (Bool-cases (p x)) [
  | inl k ↦ rw k (All-filter _ p xs h.0, IsIncreasing-filter p xs h.1)
  | inr k ↦ rw k (IsIncreasing-filter p xs h.1)
]

IsIncreasing-drop : (n : ℕ) (xs : List OutbreakSample) → IsIncreasing xs → IsIncreasing (drop n xs)
IsIncreasing-drop zero xs h = h
IsIncreasing-drop (suc n) [] h = tt
IsIncreasing-drop (suc n) (x ∷ xs) h = IsIncreasing-drop n xs h.1

IsIncreasing-concat :
    (xs : List OutbreakSample) (x : OutbreakSample)
    → IsIncreasing xs
    → All (Below x.tick) xs
    → IsIncreasing (xs ++ x ∷ [])
IsIncreasing-concat [] x h a = (tt, tt)
IsIncreasing-concat (y ∷ xs) x h a = (All-concat _ xs x h.0 a.0, IsIncreasing-concat xs x h.1 a.1)

-- What holds between two renders.
pub record IsCurve (s : Series) : Type 0 where
  pub increasing : IsIncreasing s.samples
  pub bounded : length s.samples ≤ max_samples
  pub up_to : UpTo s.last_tick s.samples

base-IsIncreasing :
    (t : ℕ) (s : Series)
    → IsCurve s
    → same_option (some t) s.last_tick ≡ false
    → IsIncreasing (base t s) × All (Below t) (base t s)
unfolding base
base-IsIncreasing t s c fresh = elim (Bool-cases (is_rewound t s.last_tick)) [
  | inl back ↦
      rw back
        (IsIncreasing-filter (λ x. ltb x.tick t) s.samples c.increasing, filter-Below t s.samples)
  | inr ahead ↦ rw ahead (c.increasing, below s.last_tick fresh ahead c.up_to)
]
  where
    below :
        (l : Option ℕ)
        → same_option (some t) l ≡ false
        → is_rewound t l ≡ false
        → UpTo l s.samples
        → All (Below t) s.samples
    below none f a u = rw u tt
    below (some l) f a u =
        let later : l < t = ground arith in All-mono s.samples (λ x k. omega arith) u

observe-IsCurve : (s : Series) (g : GraphState) → IsCurve s → IsCurve (observe s g)
unfolding observe
observe-IsCurve s g c = elim (Bool-cases (same_option g.experiment_id s.experiment_id)) [
  | inr other ↦ rw other (record { increasing = tt; bounded = omega arith; up_to = refl })
  | inl same ↦ elim (Bool-cases (nat_eq (length g.nodes) 0)) [
    | inl empty ↦ rw (same, empty) c
    | inr some_nodes ↦ elim (Bool-cases (same_option (some g.tick) s.last_tick)) [
      | inl seen ↦ rw (same, some_nodes, seen) c
      | inr fresh ↦
          let (up, below) = base-IsIncreasing g.tick s c fresh in
          let xs = base g.tick s ++ sample_of g ∷ [] in
          rw (same, some_nodes, fresh)
            (record {
              increasing =
                  unfold slice_last sample_of in
                  IsIncreasing-drop (length xs - max_samples) xs
                    (IsIncreasing-concat (base g.tick s) (sample_of g) up below);
              bounded = omega (arith, slice_last-length max_samples xs);
              up_to =
                  unfold slice_last sample_of in
                  All-drop _ (length xs - max_samples) xs (
                    All-concat _ (base g.tick s) (sample_of g)
                      (All-mono (base g.tick s) (λ x k. omega arith) below) (omega arith));
            })
    ]
  ]
]

-- Whatever states are rendered, a rewound replay's included, the samples are of strictly increasing
-- ticks, none is later than the last tick seen, and there are at most 2000 of them.
pub observe_all-IsCurve : (gs : List GraphState) → IsCurve (observe_all empty_series gs)
unfolding observe_all
observe_all-IsCurve gs =
    go empty_series gs (record { increasing = tt; bounded = omega arith; up_to = refl })
  where
    go : (s : Series) (gs : List GraphState) → IsCurve s → IsCurve (foldl observe s gs)
    go s [] c = c
    go s (g ∷ gs) c = go (observe s g) gs (observe-IsCurve s g c)
