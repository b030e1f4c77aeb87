-- ===== src/Comparison/Pair/Laws.antt =====
-- Two promises settle in either order, and clicks meanwhile come to nothing.
use htn.Prelude.{◌≡◌, refl, ap, ◌∙◌, true, false, List, [], ◌∷◌, ◌++◌, map, foldl, arith}
use htn.Comparison.Pair.{
  Pair, PairInput, requested, first_settled, second_settled, begin_job, settle_first, settle_second,
  pair_step,
}

module _ {Arm Job : Type 0} where
  abbrev pub settled_pair : Pair Arm Job → Job → Arm → Arm → Pair Arm Job
  settled_pair p job x y = record {
    first = x;
    second = y;
    running = false;
    first_open = false;
    second_open = false;
    started = p.started ++ job ∷ [];
  }

  -- A click that starts a job, and how its promises settle, with clicks between.
  abbrev pub played :
      Job → List Job → PairInput Arm Job → List Job → PairInput Arm Job → List (PairInput Arm Job)
  played job early i late j =
      requested job ∷ (map requested early ++ (i ∷ (map requested late ++ (j ∷ []))))

module _ {Arm Job : Type 0} (busy_arm : Arm) where
  begin_busy : (p : Pair Arm Job) (job : Job) → p.running ≡ true → begin_job busy_arm job p ≡ p
  unfolding pair_step
  begin_busy p job h = ground arith

  begin_free :
      (p : Pair Arm Job) (job : Job)
      → p.running ≡ false
      → begin_job busy_arm job p ≡ begin_job busy_arm job (record p { running = false })
  unfolding pair_step
  begin_free p job h = ground arith

  -- Clicks while a job is in flight, then what comes after them.
  clicks_ignored :
      (p : Pair Arm Job) (clicks : List Job) (is : List (PairInput Arm Job))
      → p.running ≡ true
      → foldl (pair_step busy_arm) p (map requested clicks ++ is) ≡ foldl (pair_step busy_arm) p is
  unfolding pair_step
  clicks_ignored p [] is h = refl
  clicks_ignored p (job ∷ clicks) is h =
      ap (λ q. foldl (pair_step busy_arm) q (map requested clicks ++ is)) (begin_busy p job h)
      ∙ clicks_ignored p clicks is h

  -- Both orders, from a pair that is free.
  pub foldl-pair_step :
      (p : Pair Arm Job) (job : Job) (early late : List Job) (x y : Arm)
      → p.running ≡ false
      → (foldl (pair_step busy_arm) p (played job early (first_settled x) late (second_settled y))
          ≡ settled_pair p job x y)
        × (foldl (pair_step busy_arm) p (played job early (second_settled y) late (first_settled x))
            ≡ settled_pair p job x y)
  unfolding pair_step
  foldl-pair_step p job early late x y h =
      let free : Pair Arm Job = record p { running = false } in
      let q = begin_job busy_arm job free in
      let from : (is : List (PairInput Arm Job))
          → foldl (pair_step busy_arm) (begin_job busy_arm job p) is
            ≡ foldl (pair_step busy_arm) q is =
        λ is. ap (λ q. foldl (pair_step busy_arm) q is) (begin_free p job h) in
      (
        from (
              map requested early
              ++ (first_settled x ∷ (map requested late ++ (second_settled y ∷ []))))
            ∙ clicks_ignored q early
                (first_settled x ∷ (map requested late ++ (second_settled y ∷ []))) refl
            ∙ clicks_ignored (settle_first x q) late (second_settled y ∷ []) refl,
        from (
              map requested early
              ++ (second_settled y ∷ (map requested late ++ (first_settled x ∷ []))))
            ∙ clicks_ignored q early
                (second_settled y ∷ (map requested late ++ (first_settled x ∷ []))) refl
            ∙ clicks_ignored (settle_second y q) late (first_settled x ∷ []) refl,
      )
