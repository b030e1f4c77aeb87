-- ===== src/Runtime/Narrative/Laws.antt =====
-- Nothing is dropped, and no two beats of activity read alike side by side: narrative.ts.
use htn.Prelude.{
  ℕ, ◌+◌, ◌≡◌, ◌≢◌, refl, sym, ◌∙◌, String, Bool, false, not, Option, none, some, List, [], ◌∷◌,
  ◌++◌, foldl, last, length, filter, string_eq, ◌==◌, Option-cases, Bool-cases, inl, inr, arith,
  last-concat,
}
use text.Mathlib.TextEquality.{eq_iff}
use htn.Stream.Types.{Event}
use htn.Runtime.Narrative.{
  Beat, milestone, activity, Milestone, Team, Open, Story, is_silent, milestone_for, close_beat,
  close_activity, label_of, milestone_beat, open_beat, fold_into, open_new, add_activity, add_event,
  derive_narrative, team_of,
}

-- How many events the beats stand for.
pub total : List Beat → ℕ
total [] = 0
total (b ∷ bs) = b.count + total bs

total-append : (bs cs : List Beat) → total (bs ++ cs) ≡ total bs + total cs
unfolding total
total-append [] cs = omega arith
total-append (b ∷ bs) cs = omega (arith, total-append bs cs)

-- The event becomes a beat, or part of one.
abbrev pub is_told : Event → Bool
is_told e = not (is_silent e.event_type)

-- What follows a beat of activity is no beat of activity with the same label.
abbrev pub Differs : Beat → Beat → Type 0
Differs b c = b.kind ≡ activity → c.kind ≡ activity → b.label ≢ c.label

abbrev pub IsTwinFree : List Beat → Type 0
IsTwinFree [] = Unit
IsTwinFree (b ∷ []) = Unit
IsTwinFree (b ∷ c ∷ bs) = Differs b c × IsTwinFree (c ∷ bs)

IsTwinFree-concat :
    (bs : List Beat) (c : Beat)
    → IsTwinFree bs
    → ((b : Beat) → last bs ≡ some b → Differs b c)
    → IsTwinFree (bs ++ c ∷ [])
IsTwinFree-concat [] c t h = tt
IsTwinFree-concat (b ∷ []) c t h = (h b refl, tt)
IsTwinFree-concat (b ∷ d ∷ bs) c t h = (t.0, IsTwinFree-concat (d ∷ bs) c t.1 h)

module _ (show : ℕ → String) where
  total-open_new :
      (t : Team) (e : Event) (s : Story)
      → total (close_activity show (open_new show t e s)) ≡ total (close_activity show s) + 1
  unfolding open_new close_activity
  total-open_new t e s = omega (
    arith,
    total-append (close_activity show s) (close_beat show (open_beat show t e) ∷ []),
    count_one,
  )
    where
      count_one : total (close_beat show (open_beat show t e) ∷ []) ≡ 1
      count_one = unfold total close_beat open_beat in refl

  count-fold_into :
      (e : Event) (o : Open)
      → (close_beat show (fold_into show e o)).count ≡ (close_beat show o).count + 1
  unfolding close_beat fold_into
  count-fold_into e o = refl

  total-concat : (bs : List Beat) (b : Beat) → total (bs ++ b ∷ []) ≡ total bs + b.count
  unfolding total
  total-concat bs b = omega (arith, total-append bs (b ∷ []))

  total-add_activity :
      (t : Team) (e : Event) (closed : List Beat) (current : Option Open)
      → let s : Story = record { closed = closed; current = current } in
        total (close_activity show (add_activity show t e s)) ≡ total (close_activity show s) + 1
  unfolding add_activity
  total-add_activity t e closed none = total-open_new t e _
  total-add_activity t e closed (some o) = elim (Bool-cases (o.beat.label == label_of show t e)) [
    | inr other ↦ rw other (total-open_new t e _)
    | inl same ↦ rw same (
        unfold close_activity in
        omega (
          arith,
          total-concat closed (close_beat show o),
          total-concat closed (close_beat show (fold_into show e o)),
          count-fold_into e o,
        ))
  ]

  total-add_event :
      (t : Team) (s : Story) (e : Event)
      → total (close_activity show (add_event show t s e))
        ≡ total (close_activity show s) + length (filter is_told (e ∷ []))
  total-add_event t s e = elim (Bool-cases (is_silent e.event_type)) [
    | inl silent ↦ unfold add_event in rw silent (omega arith)
    | inr heard ↦ elim (Option-cases (milestone_for e.event_type e t.replacements)) [
      | inl none_of ↦
          unfold add_event in
          rw (heard, none_of) (omega (arith, total-add_activity t e s.closed s.current))
      | inr (m, found) ↦
          unfold add_event close_activity milestone_beat in
          rw (heard, found) (total-concat (close_activity show s) (milestone_beat show t e m))
    ]
  ]

  foldl-total :
      (t : Team) (s : Story) (es : List Event)
      → total (close_activity show (foldl (add_event show t) s es))
        ≡ total (close_activity show s) + length (filter is_told es)
  foldl-total t s [] = omega arith
  foldl-total t s (e ∷ es) = elim (Bool-cases (is_told e)) [
    | inl h ↦
        rw h
          (omega (arith, foldl-total t (add_event show t s e) es, rw h at (total-add_event t s e)))
    | inr h ↦
        rw h
          (omega (arith, foldl-total t (add_event show t s e) es, rw h at (total-add_event t s e)))
  ]

  -- Nothing is dropped: the beats together stand for exactly the events that are not silent.
  pub derive_narrative-total :
      (es : List Event) → total (derive_narrative show es) ≡ length (filter is_told es)
  unfolding derive_narrative total
  derive_narrative-total es = omega (
    arith,
    foldl-total (team_of (record { roles = []; replacements = [] }) es)
        (record { closed = []; current = none }) es,
  )

  -- Where the closed beats may be followed by what comes next.
  abbrev Tail : List Beat → Option Open → Type 0
  Tail closed none = (b : Beat) → last closed ≡ some b → b.kind ≡ milestone
  Tail closed (some o) =
      (o.beat.kind ≡ activity) × ((b : Beat) → last closed ≡ some b → Differs b o.beat)

  abbrev IsStory : Story → Type 0
  IsStory s = IsTwinFree s.closed × Tail s.closed s.current

  close-IsTwinFree :
      (closed : List Beat) (current : Option Open)
      → IsTwinFree closed
      → Tail closed current
      → IsTwinFree (close_activity show (record { closed = closed; current = current }))
  unfolding close_activity close_beat
  close-IsTwinFree closed none f t = f
  close-IsTwinFree closed (some o) f t = IsTwinFree-concat closed _ f t.1

  open_new-IsStory :
      (t : Team) (e : Event) (s : Story)
      → IsTwinFree (close_activity show s)
      → ((b : Beat) → last (close_activity show s) ≡ some b → Differs b (open_beat show t e).beat)
      → IsStory (open_new show t e s)
  unfolding open_new
  open_new-IsStory t e s f d = (f, (unfold open_beat in refl, d))

  last-close :
      (closed : List Beat) (o : Open) (b : Beat)
      → last (close_activity show (record { closed = closed; current = some o })) ≡ some b
      → b.label ≡ o.beat.label
  unfolding close_activity close_beat
  last-close closed o b l =
      let e : some (close_beat show o) ≡ some b =
        sym (last-concat closed (close_beat show o)) ∙ l in
      ground arith

  add_activity-IsStory :
      (t : Team) (e : Event) (closed : List Beat) (current : Option Open)
      → IsTwinFree closed
      → Tail closed current
      → IsStory (add_activity show t e (record { closed = closed; current = current }))
  unfolding add_activity
  add_activity-IsStory t e closed none f d =
      open_new-IsStory t e _ (close-IsTwinFree closed none f d)
        (unfold close_activity in λ b l k. absurd (cc (d b l)))
  add_activity-IsStory t e closed (some o) f d =
      elim (Bool-cases (o.beat.label == label_of show t e)) [
        | inl same ↦ rw same (f, (unfold fold_into in d.0, unfold fold_into in d.1))
        | inr other ↦ rw other (
            open_new-IsStory t e _ (close-IsTwinFree closed (some o) f d)
              (λ b l _ _ same. relabel b l other (unfold open_beat in same)))
      ]
    where
      relabel :
          (b : Beat)
          → last (close_activity show (record { closed = closed; current = some o })) ≡ some b
          → (o.beat.label == label_of show t e) ≡ false
          → b.label ≡ label_of show t e
          → ⊥
      relabel b l other same =
          let q =
            (eq_iff o.beat.label (label_of show t e)).1 (sym (last-close closed o b l) ∙ same) in
          cc

  add_event-IsStory :
      (t : Team) (s : Story) (e : Event) → IsStory s → IsStory (add_event show t s e)
  add_event-IsStory t s e (f, d) = elim (Bool-cases (is_silent e.event_type)) [
    | inl silent ↦ unfold add_event in rw silent (f, d)
    | inr heard ↦ elim (Option-cases (milestone_for e.event_type e t.replacements)) [
      | inl none_of ↦
          unfold add_event in rw (heard, none_of) (add_activity-IsStory t e s.closed s.current f d)
      | inr (m, found) ↦
          unfold add_event in
          rw (heard, found)
            (
              IsTwinFree-concat (close_activity show s) (milestone_beat show t e m)
                  (close-IsTwinFree s.closed s.current f d) (λ b l k k'. not_activity m k'),
              λ b l. is_milestone m b (sym (last-concat (close_activity show s) _) ∙ l),
            )
    ]
  ]
    where
      not_activity : {A : Type 0} (m : Milestone) → (milestone_beat show t e m).kind ≡ activity → A
      not_activity m k = unfold milestone_beat in absurd (cc)

      is_milestone :
          (m : Milestone) (b : Beat)
          → some (milestone_beat show t e m) ≡ some b
          → b.kind ≡ milestone
      is_milestone m b h = unfold milestone_beat in ground arith

  foldl-IsStory :
      (t : Team) (s : Story) (es : List Event) → IsStory s → IsStory (foldl (add_event show t) s es)
  foldl-IsStory t s [] h = h
  foldl-IsStory t s (e ∷ es) h =
      foldl-IsStory t (add_event show t s e) es (add_event-IsStory t s e h)

  -- No two beats of activity side by side have the same label.
  pub derive_narrative-IsTwinFree : (es : List Event) → IsTwinFree (derive_narrative show es)
  unfolding derive_narrative
  derive_narrative-IsTwinFree es =
      let s : Story = record { closed = []; current = none } in
      let t = team_of (record { roles = []; replacements = [] }) es in
      let (f, d) = foldl-IsStory t s es (tt, λ b l. absurd (cc l)) in
      close-IsTwinFree (foldl (add_event show t) s es).closed
        (foldl (add_event show t) s es).current f d
