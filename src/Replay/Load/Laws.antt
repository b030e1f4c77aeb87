-- ===== src/Replay/Load/Laws.antt =====
-- The pages of a recorded run make up the whole of it: loadReplayData.ts over routes_history.py.
use mathlib.Core.Path.{subst}
use mathlib.Core.List.{append_assoc}
use htn.Prelude.{
  ℕ, zero, suc, ◌≤◌, ◌<◌, ◌≡◌, ◌≢◌, refl, sym, ap, ◌∙◌, Bool, true, false, Option, none, some, List,
  [], ◌∷◌, ◌++◌, length, length-drop, last, last-cons, take, drop, All, nat_eq, nat_eq_iff,
  Bool-cases, Option-cases, inl, inr, arith,
}
use htn.Prelude.Every.{All-filter, All-last, All-mono, filter-All}
use htn.Prelude.Int.{ℤ, ◌<ℤ◌, ltb_ℤ}
use htn.Stream.Types.{Event, SnapshotFrame}
use htn.Stream.Reducer.{initial_graph_state, reduce, reduce_snapshot}
use htn.Replay.Load.{
  EventPage, loaded, load_pages, after, event_page, is_incomplete, settle, resolved,
  load_replay_data,
}

-- The log is in the order of its numbers, none of them twice.
abbrev pub IsOrdered : List Event → Type 0
IsOrdered [] = Unit
IsOrdered (e ∷ es) = All (λ (f : Event). e.seq <ℤ f.seq) es × IsOrdered es

IsOrdered-after : (since : ℤ) (es : List Event) → IsOrdered es → IsOrdered (after since es)
IsOrdered-after since [] o = tt
IsOrdered-after since (e ∷ es) o = elim (Bool-cases (ltb_ℤ since e.seq)) [
  | inl h ↦ rw h (
    All-filter (λ (f : Event). e.seq <ℤ f.seq) (λ (f : Event). ltb_ℤ since f.seq) es o.0,
    IsOrdered-after since es o.1,
  )
  | inr h ↦ rw h (IsOrdered-after since es o.1)
]

ltb_ℤ_of_lt : (a b : ℤ) → a <ℤ b → (ltb_ℤ a b ≡ true) × (ltb_ℤ b a ≡ false)
ltb_ℤ_of_lt a b h = ground arith

ltb_ℤ_irrefl : (a : ℤ) → ltb_ℤ a a ≡ false
ltb_ℤ_irrefl a = ground arith

drop-none_taken : (n : ℕ) (es : List Event) → last (take n es) ≡ none → drop n es ≡ es
drop-none_taken zero es h = refl
drop-none_taken (suc n) [] h = refl
drop-none_taken (suc n) (e ∷ es) h = elim (Option-cases (last (take n es))) [
  | inl nothing ↦ ground (arith, last-cons e (take n es))
  | inr (m, found) ↦ ground (arith, last-cons e (take n es))
]

after_whole : (a : ℤ) (es : List Event) → All (λ (f : Event). a <ℤ f.seq) es → after a es ≡ es
after_whole a es h =
    filter-All (λ (f : Event). ltb_ℤ a f.seq) es (All-mono es (λ f k. (ltb_ℤ_of_lt a f.seq k).0) h)

-- The rows after the last one that was taken are those that were not taken.
after-last :
    (n : ℕ) (es : List Event) (l : Event)
    → IsOrdered es
    → last (take n es) ≡ some l
    → after l.seq es ≡ drop n es
after-last zero es l o h = cc
after-last (suc n) [] l o h = refl
after-last (suc n) (e ∷ es) l o h = elim (Option-cases (last (take n es))) [
  | inl nothing ↦
      let first : e ≡ l = cc (last-cons e (take n es)) in
      let own : after e.seq (e ∷ es) ≡ drop n es =
        rw (ltb_ℤ_irrefl e.seq) (after_whole e.seq es o.0 ∙ sym (drop-none_taken n es nothing)) in
      subst (λ (d : Event). after d.seq (e ∷ es) ≡ drop n es) first own
  | inr (m, found) ↦
      let found' : last (take n es) ≡ some l = cc (last-cons e (take n es)) in
      let below = All-last (λ (f : Event). e.seq <ℤ f.seq) n es l o.0 found' in
      rw (ltb_ℤ_of_lt e.seq l.seq below).1 (after-last n es l o.1 found')
]

-- What comes after a later number, of what comes after an earlier one.
after-after : (a b : ℤ) (es : List Event) → a <ℤ b → after b (after a es) ≡ after b es
after-after a b [] h = refl
after-after a b (e ∷ es) h = elim (Bool-cases (ltb_ℤ b e.seq)) [
  | inl later ↦
      let earlier : ltb_ℤ a e.seq ≡ true = ground arith in
      rw (earlier, later) (ap (λ fs. e ∷ fs) (after-after a b es h))
  | inr sooner ↦ elim (Bool-cases (ltb_ℤ a e.seq)) [
    | inl passed ↦ rw (passed, sooner) (after-after a b es h)
    | inr dropped ↦ rw (dropped, sooner) (after-after a b es h)
  ]
]

take_short : (n : ℕ) (es : List Event) → length (take n es) ≢ n → take n es ≡ es
take_short zero es h = absurd (h refl)
take_short (suc n) [] h = refl
take_short (suc n) (e ∷ es) h = ap (λ fs. e ∷ fs) (take_short n es (λ k. h (omega arith)))

take-drop : (n : ℕ) (es : List Event) → take n es ++ drop n es ≡ es
take-drop zero es = refl
take-drop (suc n) [] = refl
take-drop (suc n) (e ∷ es) = ap (λ fs. e ∷ fs) (take-drop n es)

length-take-le : (n : ℕ) (es : List Event) → length (take n es) ≤ length es
length-take-le zero es = omega arith
length-take-le (suc n) [] = omega arith
length-take-le (suc n) (e ∷ es) = omega (arith, length-take-le n es)

taken_last :
    (n : ℕ) (es : List Event)
    → length (take (suc n) es) ≡ suc n
    → (l : Event) × (last (take (suc n) es) ≡ some l)
taken_last n [] h = absurd (omega arith)
taken_last n (e ∷ es) h = elim (Option-cases (last (take n es))) [
  | inl nothing ↦ (e, cc (last-cons e (take n es)))
  | inr (m, found) ↦ (m, cc (last-cons e (take n es)))
]

after-All : (since : ℤ) (es : List Event) → All (λ (f : Event). since <ℤ f.seq) (after since es)
after-All since [] = tt
after-All since (e ∷ es) = elim (Bool-cases (ltb_ℤ since e.seq)) [
  | inl later ↦ rw later (ground arith, after-All since es)
  | inr sooner ↦ rw sooner (after-All since es)
]

module _ (limit : ℕ) (log : List Event) where
  abbrev fetch : ℤ → Option EventPage
  fetch since = some (event_page (suc limit) log since)

  abbrev page : ℤ → List Event
  page since = take (suc limit) (after since log)

  load_pages_short :
      (fuel : ℕ) (since : ℤ) (events : List Event) (progress : List ℕ)
      → nat_eq (length (page since)) (suc limit) ≡ false
      → load_pages (suc fuel) fetch since events progress
        ≡ loaded (events ++ page since) (progress ++ length (events ++ page since) ∷ [])
  unfolding load_pages event_page
  load_pages_short fuel since events progress short = rw (short, load_pages) refl

  load_pages_full :
      (fuel : ℕ) (since : ℤ) (events : List Event) (progress : List ℕ) (l : Event)
      → nat_eq (length (page since)) (suc limit) ≡ true
      → last (page since) ≡ some l
      → load_pages (suc fuel) fetch since events progress
        ≡ load_pages fuel fetch l.seq
            (events ++ page since)
            (progress ++ length (events ++ page since) ∷ [])
  unfolding load_pages event_page
  load_pages_full fuel since events progress l full found = rw (full, found, load_pages) refl

  -- The point where the next page begins, and what is left after it.
  rest-after :
      (since : ℤ) (l : Event)
      → IsOrdered log
      → last (page since) ≡ some l
      → after l.seq log ≡ drop (suc limit) (after since log)
  rest-after since l o found =
      sym (
        after-after since l.seq log (
          All-last (λ (f : Event). since <ℤ f.seq) (suc limit) (after since log) l
            (after-All since log) found))
      ∙ after-last (suc limit) (after since log) l (IsOrdered-after since log o) found

  -- From any point on, the loop appends to what it holds all that comes after the point.
  load_pages-after :
      (fuel : ℕ) (since : ℤ) (events : List Event) (progress : List ℕ)
      → IsOrdered log
      → length (after since log) < fuel
      → (counts : List ℕ) × (load_pages fuel fetch since events progress
          ≡ loaded (events ++ after since log) counts)
  load_pages-after zero since events progress o h = absurd (omega arith)
  load_pages-after (suc fuel) since events progress o h =
      elim (Bool-cases (nat_eq (length (page since)) (suc limit))) [
        | inr short ↦
            let whole =
              take_short (suc limit) (after since log)
                (λ k. cc ((nat_eq_iff (length (page since)) (suc limit)).1 k)) in
            (
              progress ++ length (events ++ page since) ∷ [],
              load_pages_short fuel since events progress short
                  ∙ ap
                      (λ es. loaded (events ++ es) (progress ++ length (events ++ page since) ∷ []))
                      whole,
            )
        | inl full ↦
            let size = (nat_eq_iff (length (page since)) (suc limit)).0 full in
            let (l, found) = taken_last limit (after since log) size in
            let rest = rest-after since l o found in
            let (counts, ends) =
              load_pages-after fuel l.seq (events ++ page since)
                (progress ++ length (events ++ page since) ∷ []) o
                (omega (
                  arith,
                  ap length rest,
                  size,
                  length-drop (suc limit) (after since log),
                  length-take-le (suc limit) (after since log),
                )) in
            (
              counts,
              load_pages_full fuel since events progress l full found
                  ∙ ends
                  ∙ ap (λ es. loaded es counts)
                      (ap (λ es. (events ++ page since) ++ es) rest
                        ∙ append_assoc events (page since) (drop (suc limit) (after since log))
                        ∙ ap (λ es. events ++ es) (take-drop (suc limit) (after since log))),
            )
      ]

  -- Loading a run ends, and yields the whole of it: if the log that the backend keeps is in the
  -- order of its numbers and a page holds at least one event, then for any fuel above the number of
  -- events after the snapshot the loop ends, and the data are the snapshot's state, whether the record
  -- is proved complete, and exactly the events after the snapshot, in order, however they are paged.
  pub load_replay_data_complete :
      (fuel : ℕ) (is_complete : Option Bool) (frame : SnapshotFrame)
      → IsOrdered log
      → length (after frame.last_seq log) < fuel
      → load_replay_data fuel (some is_complete) (some frame) fetch
        ≡ resolved (record {
          incomplete = is_incomplete is_complete;
          initial_state = reduce_snapshot initial_graph_state frame;
          events = after frame.last_seq log;
        })
  unfolding load_replay_data settle reduce
  load_replay_data_complete fuel is_complete frame o h =
      let (counts, ends) = load_pages-after fuel frame.last_seq [] [] o h in
      ap (settle is_complete (reduce_snapshot initial_graph_state frame)) ends
