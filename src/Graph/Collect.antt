-- ===== src/Graph/Collect.antt =====
-- The loop of `renderableEdges`, `incidentEdges` and `buildSwarmModel`: of the entries that pass
-- a test, the first with each key.
use text.Mathlib.TextEquality.{eq_iff}
use htn.Prelude.{
  ◌≡◌, refl, sym, ap, ◌∙◌, String, Bool, true, ◌||◌, List, [], ◌∷◌, ◌++◌, map, foldl, filter, All,
  contains, contains-append, add, Distinct, Distinct-add, string_eq, if◌then◌else◌, Bool-cases, inl,
  inr, arith,
}

-- The set `seen` and the array `out`.
pub record Seen (E : Type 0) : Type 0 where
  pub seen : List String
  pub out : List E

abbrev pub none_seen : {E : Type 0} → Seen E
none_seen = record { seen = []; out = [] }

module _ {E : Type 0} (kept : E → Bool) (key : E → String) where
  unfoldable pub push_first : Seen E → E → Seen E
  push_first s e =
      if kept e
      then (if contains (key e) s.seen
          then s
          else record { seen = add (key e) s.seen; out = s.out ++ e ∷ [] })
      else s

  unfoldable pub first_of_each : Seen E → List E → Seen E
  unfolding push_first contains add
  first_of_each s es = foldl push_first s es

  -- Between two rounds: the keys that were seen are those of the entries, none of them twice, and
  -- every entry passes the test.
  pub record IsTidy (s : Seen E) : Type 0 where
    pub seen_keys : s.seen ≡ map key s.out
    pub distinct : Distinct s.seen
    pub all_kept : All (λ e. kept e ≡ true) s.out

  map-concat : (es : List E) (e : E) → map key (es ++ e ∷ []) ≡ map key es ++ key e ∷ []
  map-concat [] e = refl
  map-concat (d ∷ es) e = ap (λ ks. key d ∷ ks) (map-concat es e)

  All-concat :
      (es : List E) (e : E)
      → All (λ e. kept e ≡ true) es
      → kept e ≡ true
      → All (λ e. kept e ≡ true) (es ++ e ∷ [])
  All-concat [] e a h = (h, tt)
  All-concat (d ∷ es) e a h = (a.0, All-concat es e a.1 h)

  push_first-IsTidy : (s : Seen E) (e : E) → IsTidy s → IsTidy (push_first s e)
  unfolding push_first
  push_first-IsTidy s e t = elim (Bool-cases (kept e)) [
    | inr dropped ↦ rw dropped t
    | inl good ↦ elim (Bool-cases (contains (key e) s.seen)) [
      | inl old ↦ rw (good, old) t
      | inr new ↦
          rw (good, new)
            (record {
              seen_keys =
                  unfold add in
                  rw new (ap (λ ks. ks ++ key e ∷ []) t.seen_keys ∙ sym (map-concat s.out e));
              distinct = Distinct-add (key e) s.seen t.distinct;
              all_kept = All-concat s.out e t.all_kept good;
            })
    ]
  ]

  pub first_of_each-IsTidy : (s : Seen E) (es : List E) → IsTidy s → IsTidy (first_of_each s es)
  unfolding first_of_each
  first_of_each-IsTidy s [] t = t
  first_of_each-IsTidy s (e ∷ es) t =
      first_of_each-IsTidy (push_first s e) es (push_first-IsTidy s e t)

  contains-push_first :
      (k : String) (s : Seen E) (e : E)
      → contains k (push_first s e).seen
        ≡ (contains k s.seen || contains k (map key (filter kept (e ∷ []))))
  unfolding push_first add contains
  contains-push_first k s e = elim (Bool-cases (kept e)) [
    | inr dropped ↦ rw dropped (ground arith)
    | inl good ↦ elim (Bool-cases (contains (key e) s.seen)) [
      | inl old ↦ rw (good, old) (ground (arith, eq_iff (key e) k))
      | inr new ↦ rw (good, new) (ground (arith, contains-append k s.seen (key e ∷ [])))
    ]
  ]

  pub first_of_each-seen :
      (k : String) (s : Seen E) (es : List E)
      → contains k (first_of_each s es).seen
        ≡ (contains k s.seen || contains k (map key (filter kept es)))
  unfolding first_of_each contains
  first_of_each-seen k s [] = ground arith
  first_of_each-seen k s (e ∷ es) = elim (Bool-cases (kept e)) [
    | inl good ↦
        ground (arith, good, first_of_each-seen k (push_first s e) es, contains-push_first k s e)
    | inr dropped ↦
        ground (arith, dropped, first_of_each-seen k (push_first s e) es, contains-push_first k s e)
  ]
