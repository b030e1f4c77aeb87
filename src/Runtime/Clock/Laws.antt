-- ===== src/Runtime/Clock/Laws.antt =====
-- The clock does not depend on the order of the events: clock.ts.
use htn.Prelude.{
  ℕ, ◌+◌, ◌*◌, ◌/◌, ◌-◌, ◌<◌, ◌≡◌, refl, sym, ap, ◌∙◌, String, false, Option, none, some, List, [],
  ◌∷◌, foldl, min, max, filter_map, Option-cases, inl, inr, arith,
}
use htn.Stream.Types.{Event}
use htn.Runtime.Clock.{RunWindow, widen, window_step, run_window, elapsed_ms, clock_parts}

-- The smaller and the larger of what there is.
abbrev pub meet : Option ℕ → Option ℕ → Option ℕ
meet none o = o
meet (some a) none = some a
meet (some a) (some b) = some (min a b)

abbrev pub join : Option ℕ → Option ℕ → Option ℕ
join none o = o
join (some a) none = some a
join (some a) (some b) = some (max a b)

abbrev pub least : List ℕ → Option ℕ
least [] = none
least (m ∷ ms) = meet (some m) (least ms)

abbrev pub greatest : List ℕ → Option ℕ
greatest [] = none
greatest (m ∷ ms) = join (some m) (greatest ms)

meet_assoc : (a b c : Option ℕ) → meet (meet a b) c ≡ meet a (meet b c)
meet_assoc a b c = ground arith

join_assoc : (a b c : Option ℕ) → join (join a b) c ≡ join a (join b c)
join_assoc a b c = ground arith

meet-none : (a : Option ℕ) → meet a none ≡ a
meet-none none = refl
meet-none (some a) = refl

join-none : (a : Option ℕ) → join a none ≡ a
join-none none = refl
join-none (some a) = refl

widen_both :
    (w : RunWindow) (m : ℕ)
    → ((widen w m).started_at ≡ meet w.started_at (some m))
      × ((widen w m).last_event_at ≡ join w.last_event_at (some m))
unfolding widen
widen_both w m = ground arith

module _ (epoch : String → Option ℕ) where
  -- The instants of the events whose time can be read.
  abbrev pub times : List Event → List ℕ
  times = filter_map (λ (e : Event). epoch e.wall_time)

  window_step_both :
      (w : RunWindow) (e : Event)
      → ((window_step epoch w e).started_at ≡ meet w.started_at (least (times (e ∷ []))))
        × ((window_step epoch w e).last_event_at ≡ join w.last_event_at (greatest (times (e ∷ []))))
  unfolding window_step
  window_step_both w e = elim (Option-cases (epoch e.wall_time)) [
    | inl unread ↦
        rw (unread, window_step) (sym (meet-none w.started_at), sym (join-none w.last_event_at))
    | inr (m, read) ↦ rw (read, window_step) (widen_both w m)
  ]

  times-cons :
      (e : Event) (es : List Event)
      → (meet (least (times (e ∷ []))) (least (times es)) ≡ least (times (e ∷ es)))
        × (join (greatest (times (e ∷ []))) (greatest (times es)) ≡ greatest (times (e ∷ es)))
  times-cons e es = elim (Option-cases (epoch e.wall_time)) [
    | inl unread ↦ rw unread (refl, refl)
    | inr (m, read) ↦ rw read (refl, refl)
  ]

  foldl-window :
      (w : RunWindow) (es : List Event)
      → let v = foldl (window_step epoch) w es in
        (v.started_at ≡ meet w.started_at (least (times es)))
        × (v.last_event_at ≡ join w.last_event_at (greatest (times es)))
  foldl-window w [] = (sym (meet-none w.started_at), sym (join-none w.last_event_at))
  foldl-window w (e ∷ es) =
      let (a, b) = foldl-window (window_step epoch w e) es in
      let (c, d) = window_step_both w e in
      let (f, g) = times-cons e es in
      (
        a
            ∙ ap (λ o. meet o (least (times es))) c
            ∙ meet_assoc w.started_at (least (times (e ∷ []))) (least (times es))
            ∙ ap (meet w.started_at) f,
        b
            ∙ ap (λ o. join o (greatest (times es))) d
            ∙ join_assoc w.last_event_at (greatest (times (e ∷ []))) (greatest (times es))
            ∙ ap (join w.last_event_at) g,
      )

  -- The window reaches from the least to the greatest instant that can be read from the events,
  -- whatever their order, and once a run is over its elapsed time is the difference of the two,
  -- whatever the time is now.
  run_window-extent :
      (es : List Event) (now : ℕ)
      → let w = run_window epoch es in
        (w.started_at ≡ least (times es))
        × (w.last_event_at ≡ greatest (times es))
        × (elapsed_ms w false now ≡ elim (least (times es)) [
          | none ↦ none
          | some a ↦ elim (greatest (times es)) [ none ↦ some 0 | some b ↦ some (b - a) ]
        ])
  unfolding run_window elapsed_ms
  run_window-extent es now =
      let (a, b) = foldl-window (record { started_at = none; last_event_at = none }) es in
      (a, b, ground (arith, a, b))

-- The duration that is written is the time in whole seconds, rounded down.
clock_parts-total :
    (ms : ℕ)
    → let (hours, minutes, seconds) = clock_parts ms in
      (hours * 3600 + minutes * 60 + seconds ≡ ms / 1000) × (minutes < 60) × (seconds < 60)
unfolding clock_parts
clock_parts-total ms = (omega arith, omega arith, omega arith)
