-- ===== src/Controls/Progress.antt =====
-- No control stays locked: ExperimentProvider.tsx with controls/reducer.ts.
use htn.Prelude.{
  ℕ, ◌+◌, ◌<◌, ◌≤◌, ◌≡◌, ◌⊎◌, refl, sym, ap, ◌∙◌, String, true, false, not, none, some, nat_eq,
  nat_eq_iff, List, [], ◌∷◌, ◌++◌, filter, if◌then◌else◌, Option-cases, Bool-cases, inl, inr, arith,
}
use htn.Controls.Reducer.{
  ControlStatus, PendingAction, start, ControlState, ControlAction, start_requested,
  start_succeeded, status_synced, transition,
}
use htn.Controls.Laws.{
  request, response, kind_of, Takes, Follows, transition_iff, transition-Follows,
}
use htn.Controls.Provider.{
  Summary, Operation, Reply, Provider, initial_provider, apply, request_of, is_allowed, begin,
  reply_action, find_operation, answer, adopt, Input, clicked, answered, adopted, polled, step,
  session,
}

-- Either nothing is pending and nothing is on its way, or one operation is on its way and it is the
-- pending one; its id has been given out.
pub data IsTracked (s : Provider) : Type 0 where
  at_rest :
      s.control.pending ≡ none → s.control.operation_id ≡ none → s.outstanding ≡ [] → IsTracked s
  in_flight :
      (o : Operation)
      → s.control.pending ≡ some o.action
      → s.control.operation_id ≡ some o.id
      → s.outstanding ≡ o ∷ []
      → o.id < s.next_operation_id
      → IsTracked s

kind-request_of : (p : PendingAction) (id : ℕ) → kind_of (request_of p id) ≡ request p id
kind-request_of start id = refl
kind-request_of _ id = refl

kind-reply_action :
    (o : Operation) (r : Reply) → kind_of (reply_action o r) ≡ response o.action o.id
unfolding reply_action
kind-reply_action o r = ground arith

apply-cases :
    (s : ControlState) (a : ControlAction)
    → (((apply s a).0 ≡ s) × ((apply s a).1 ≡ false) × ¬ Takes s (kind_of a))
      ⊎ (Takes s (kind_of a) × Follows s (apply s a).0 (kind_of a) × ((apply s a).1 ≡ true))
unfolding apply
apply-cases s a = elim (Option-cases (transition s a)) [
  | inl refused ↦
      rw refused (inl (refl, refl, λ h. let e = (transition_iff s a).1 h in cc (rw refused at e)))
  | inr (t, taken) ↦
      rw taken (inr ((transition_iff s a).0 (rw taken), transition-Follows s t a taken, refl))
]

-- What a change of the control alone has to keep.
keep :
    (s : Provider) (c : ControlState) (n : ℕ)
    → IsTracked s
    → c.pending ≡ s.control.pending
    → c.operation_id ≡ s.control.operation_id
    → s.next_operation_id ≤ n
    → IsTracked (record s { control = c; next_operation_id = n })
keep s c n (at_rest p i o) hp hi hn = at_rest (cc) (cc) o
keep s c n (in_flight q p i o l) hp hi hn = in_flight q (cc) (cc) o (omega arith)

begin-IsTracked : (p : PendingAction) (m : ℕ) (s : Provider) → IsTracked s → IsTracked (begin p m s)
begin-IsTracked p m s t = elim (Bool-cases (is_allowed p s.control)) [
  | inr barred ↦ unfold begin in rw barred t
  | inl allowed ↦ elim (apply-cases s.control (request_of p s.next_operation_id)) [
    | inl (same, applied, _) ↦
        unfold begin in
        rw (allowed, applied) (keep s s.control (s.next_operation_id + 1) t refl refl (omega arith))
    | inr (takes, follows, applied) ↦
        unfold begin in
        rw (allowed, applied)
          (sent t (rw (kind-request_of p s.next_operation_id) at takes)
            (rw (kind-request_of p s.next_operation_id) at follows))
  ]
]
  where
    id : ℕ
    id = s.next_operation_id

    sent :
        {c : ControlState}
        → IsTracked s
        → Takes s.control (request p id)
        → Follows s.control c (request p id)
        → IsTracked (record {
          control = c;
          next_operation_id = id + 1;
          outstanding = s.outstanding ++ record { action = p; id = id; multiplier = m } ∷ [];
        })
    sent (at_rest q i o) takes f =
        in_flight (record { action = p; id = id; multiplier = m }) f.0 f.1 (rw o) (omega arith)
    sent (in_flight r q i o l) takes f = cc

find-one :
    (id : ℕ) (o : Operation) {os : List Operation}
    → os ≡ o ∷ []
    → find_operation id os ≡ (if nat_eq o.id id then some o else none)
unfolding find_operation
find-one id o h = rw h

not_found :
    (id : ℕ) (r : Reply) (s : Provider) → find_operation id s.outstanding ≡ none → answer id r s ≡ s
unfolding answer
not_found id r s h = rw (h, answer)

-- The answer to the one operation that is on its way settles it.
settle :
    (s : Provider) (o : Operation) (r : Reply)
    → s.control.pending ≡ some o.action
    → s.control.operation_id ≡ some o.id
    → s.outstanding ≡ o ∷ []
    → ((answer o.id r s).control.pending ≡ none)
      × ((answer o.id r s).control.operation_id ≡ none)
      × ((answer o.id r s).outstanding ≡ [])
settle s o r hp hi ho = elim (apply-cases s.control (reply_action o r)) [
  | inl (_, _, refuses) ↦ absurd (refuses (rw (kind-reply_action o r) (hp, hi)))
  | inr (_, follows, _) ↦
      let f = rw (kind-reply_action o r) at follows in
      unfold answer in rw (find-one o.id o ho, answer) (rw (self, answer) (f.0, f.1, gone))
]
  where
    self : nat_eq o.id o.id ≡ true
    self = (nat_eq_iff o.id o.id).1 refl

    gone : filter (λ q. not (nat_eq q.id o.id)) s.outstanding ≡ []
    gone = ap (filter (λ q. not (nat_eq q.id o.id))) ho ∙ (rw self)

answer-IsTracked : (id : ℕ) (r : Reply) (s : Provider) → IsTracked s → IsTracked (answer id r s)
answer-IsTracked id r s (at_rest p i o) =
    rw (not_found id r s (ap (find_operation id) o ∙ none_left)) (at_rest p i o)
  where
    none_left : find_operation id [] ≡ none
    none_left = unfold find_operation in refl
answer-IsTracked id r s (in_flight q p i o l) = elim (Bool-cases (nat_eq q.id id)) [
  | inr other ↦ rw (not_found id r s (find-one id q o ∙ (rw other))) (in_flight q p i o l)
  | inl this ↦
      rw (← (nat_eq_iff q.id id).0 this) (let (p', i', o') = settle s q r p i o in at_rest p' i' o')
]

poll-IsTracked :
    (s : Provider) (exp : String) (n : ℕ) (st : ControlStatus)
    → IsTracked s
    → IsTracked (record s { control = (apply s.control (status_synced exp n st)).0 })
poll-IsTracked s exp n st t = elim (apply-cases s.control (status_synced exp n st)) [
  | inl (same, _, _) ↦ rw same t
  | inr (_, f, _) ↦ keep s _ s.next_operation_id t f.0 f.1 (omega arith)
]

-- The adoption of a stored run: at rest it goes through, and in flight both actions are refused.
adopt-IsTracked : (m : Summary) (s : Provider) → IsTracked s → IsTracked (adopt m s)
unfolding adopt
adopt-IsTracked m s t = elim (apply-cases s.control (start_requested n)) [
  | inl (same, _, _) ↦ rw same (elim (apply-cases s.control answer_action) [
    | inl (same', _, _) ↦ rw same' (keep s s.control (n + 1) t refl refl (omega arith))
    | inr (takes, _, _) ↦ foreign t takes
  ])
  | inr (takes, f, _) ↦ fresh t takes f (apply-cases asked answer_action)
]
  where
    n : ℕ
    n = s.next_operation_id

    answer_action : ControlAction
    answer_action = start_succeeded n m.experiment_id m.status m.config

    asked : ControlState
    asked = (apply s.control (start_requested n)).0

    foreign : {A : Type 0} → IsTracked s → Takes s.control (response start n) → A
    foreign (at_rest p i o) takes = absurd (cc)
    foreign (in_flight q p i o l) takes =
        let e : some q.id ≡ some n = sym i ∙ takes.1 in absurd (ground arith)

    fresh :
        IsTracked s
        → Takes s.control (request start n)
        → Follows s.control asked (request start n)
        → (((apply asked answer_action).0 ≡ asked)
            × ((apply asked answer_action).1 ≡ false)
            × ¬ Takes asked (response start n))
          ⊎ (Takes asked (response start n)
              × Follows asked (apply asked answer_action).0 (response start n)
              × ((apply asked answer_action).1 ≡ true))
        → IsTracked
            (record s { control = (apply asked answer_action).0; next_operation_id = n + 1 })
    fresh t takes f (inl (_, _, refuses)) = absurd (refuses (f.0, f.1))
    fresh (at_rest p i o) takes f (inr (_, g, _)) = at_rest g.0 g.1 o
    fresh (in_flight q p i o l) takes f (inr (_, g, _)) = absurd (cc)

step-IsTracked : (s : Provider) (i : Input) → IsTracked s → IsTracked (step s i)
unfolding step
step-IsTracked s (clicked p m) t = begin-IsTracked p m s t
step-IsTracked s (answered id r) t = answer-IsTracked id r s t
step-IsTracked s (adopted m) t = adopt-IsTracked m s t
step-IsTracked s (polled exp n st) t = poll-IsTracked s exp n st t

session-IsTracked : (s : Provider) (is : List Input) → IsTracked s → IsTracked (session s is)
unfolding session
session-IsTracked s [] t = t
session-IsTracked s (i ∷ is) t = session-IsTracked (step s i) is (step-IsTracked s i t)

-- In any session of the component, with answers and polls in any order, a pending action has an
-- operation on its way, the only one, and every way in which its promise can settle leaves nothing
-- pending.
pub session-unlocks :
    (is : List Input) (p : PendingAction)
    → (session initial_provider is).control.pending ≡ some p
    → (o : Operation) × ((session initial_provider is).outstanding ≡ o ∷ [])
      × (o.action ≡ p)
      × ((r : Reply) → (answer o.id r (session initial_provider is)).control.pending ≡ none)
session-unlocks is p h = found (session-IsTracked initial_provider is (at_rest refl refl refl))
  where
    s : Provider
    s = session initial_provider is

    found :
        IsTracked s
        → (o : Operation) × (s.outstanding ≡ o ∷ [])
          × (o.action ≡ p)
          × ((r : Reply) → (answer o.id r s).control.pending ≡ none)
    found (at_rest q i o) = absurd (cc)
    found (in_flight o q i out l) = (o, out, ground arith, λ r. (settle s o r q i out).0)
