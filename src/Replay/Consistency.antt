-- ===== src/Replay/Consistency.antt =====
-- Playing and seeking show the same states: useReplayStream.ts.
use htn.Prelude.{
  ℕ, zero, suc, ◌+◌, ◌≤◌, ◌≡◌, refl, ◌∙◌, some, List, [], ◌∷◌, length, get_elem?, leb, Bool-cases,
  Option-cases, inl, inr, arith,
}
use htn.Prelude.Int.{ℤ, pos, negsuc}
use htn.Stream.Types.{Event, event}
use htn.Stream.Reducer.{
  Thrown, ok, unrecognized_schema_version, type_error, ◌>>=◌, GraphState, reduce,
}
use htn.Replay.Player.{
  Player, Input, ticked, sought, fold_events, loaded, tick, clamp_index, seek, step, play,
}

-- The shown state is the fold of the played events onto the snapshot.
pub record IsConsistent (p : Player) : Type 0 where
  pub within : p.played_index ≤ length p.events
  pub folded : fold_events p.snapshot_state p.events p.played_index ≡ ok p.state

>>=-ok : (m : Thrown GraphState) → (m >>= ok) ≡ m
>>=-ok (ok a) = refl
>>=-ok (unrecognized_schema_version v) = refl
>>=-ok type_error = refl

>>=-eq-ok :
    {A B : Type 0} (m : Thrown A) (k : A → Thrown B) {b : B}
    → (m >>= k) ≡ ok b
    → (a : A) × (m ≡ ok a) × (k a ≡ ok b)
>>=-eq-ok (ok a) k h = (a, refl, h)
>>=-eq-ok (unrecognized_schema_version v) k h = cc
>>=-eq-ok type_error k h = cc

-- One more event than the fold so far.
fold_events-suc :
    (s t : GraphState) (es : List Event) (n : ℕ) (e : Event)
    → fold_events s es n ≡ ok t
    → get_elem? es n ≡ some e
    → fold_events s es (suc n) ≡ reduce t (event e)
unfolding fold_events
fold_events-suc s t [] n e f g = cc
fold_events-suc s t (d ∷ es) zero e f g = >>=-ok (reduce s (event d)) ∙ (cc)
fold_events-suc s t (d ∷ es) (suc n) e f g =
    let (u, first, rest) = >>=-eq-ok (reduce s (event d)) (λ u. fold_events u es n) f in
    rw first (fold_events-suc u t es n e rest g)

get_elem?-lt : (es : List Event) (n : ℕ) (e : Event) → get_elem? es n ≡ some e → suc n ≤ length es
get_elem?-lt [] n e h = cc
get_elem?-lt (d ∷ es) zero e h = omega arith
get_elem?-lt (d ∷ es) (suc n) e h = omega (arith, get_elem?-lt es n e h)

abbrev advanced : Player → GraphState → Player
advanced p u = record p { state = u; played_index = p.played_index + 1 }

advanced-IsConsistent :
    (p : Player) (u : GraphState) (e : Event)
    → IsConsistent p
    → get_elem? p.events p.played_index ≡ some e
    → reduce p.state (event e) ≡ ok u
    → IsConsistent (advanced p u)
advanced-IsConsistent p u e h found one =
    let next : p.played_index + 1 ≡ suc p.played_index = omega arith in
    record {
      within = omega (arith, get_elem?-lt p.events p.played_index e found);
      folded =
          rw next (
            fold_events-suc p.snapshot_state p.state p.events p.played_index e h.folded found
            ∙ one);
    }

ok-injective : {A : Type 0} {a b : A} → ok a ≡ ok b → a ≡ b
ok-injective h = cc

tick-IsConsistent : (p q : Player) → IsConsistent p → tick p ≡ ok q → IsConsistent q
unfolding tick
tick-IsConsistent p q h r = elim (Bool-cases (leb (length p.events) p.played_index)) [
  | inl over ↦ let e : p ≡ q = ground arith in rw (← e) h
  | inr more ↦ elim (Option-cases (get_elem? p.events p.played_index)) [
    | inl none_left ↦ absurd (ground arith)
    | inr (e, found) ↦
        let (u, one, rest) =
          >>=-eq-ok (reduce p.state (event e)) (λ u. ok (advanced p u))
            (rw (more, found, tick) at r) in
        rw (← ok-injective rest) (advanced-IsConsistent p u e h found one)
  ]
]

clamp_index-le : (i : ℤ) (n : ℕ) → clamp_index i n ≤ n
unfolding clamp_index
clamp_index-le (pos i) n = omega arith
clamp_index-le (negsuc i) n = omega arith

seek-IsConsistent : (index : ℤ) (p q : Player) → seek index p ≡ ok q → IsConsistent q
unfolding seek
seek-IsConsistent index p q r =
    let n = clamp_index index (length p.events) in
    let (u, folded, rest) =
      >>=-eq-ok (fold_events p.snapshot_state p.events n)
        (λ u. ok (record p { played_index = n; state = u })) r in
    rw (← ok-injective rest)
      (record { within = clamp_index-le index (length p.events); folded = folded })

step-IsConsistent : (p q : Player) (i : Input) → IsConsistent p → step p i ≡ ok q → IsConsistent q
unfolding step
step-IsConsistent p q ticked h r = tick-IsConsistent p q h r
step-IsConsistent p q (sought index) h r = seek-IsConsistent index p q r

play-IsConsistent :
    (p q : Player) (is : List Input) → IsConsistent p → play p is ≡ ok q → IsConsistent q
play-IsConsistent p q [] h r = let e : ok p ≡ ok q = unfold play in r in rw (← ok-injective e) h
play-IsConsistent p q (i ∷ is) h r =
    let e : (step p i >>= (λ u. play u is)) ≡ ok q = unfold play in r in
    let (u, first, rest) = >>=-eq-ok (step p i) (λ u. play u is) e in
    play-IsConsistent u q is (step-IsConsistent p u i h first) rest

-- Whatever a viewer plays and wherever they seek, the state that is shown is the fold of the first
-- `playedCount` events onto the snapshot, and no more events are played than there are.
pub play-loaded-IsConsistent :
    (s : GraphState) (es : List Event) (is : List Input) (q : Player)
    → play (loaded s es) is ≡ ok q
    → IsConsistent q
play-loaded-IsConsistent s es is q r =
    play-IsConsistent (loaded s es) q is
      (record { within = unfold loaded in omega arith; folded = unfold loaded fold_events in refl })
      r
