-- ===== src/Demo/Page/Laws.antt =====
-- Whose explanation is asked for and shown: demo/page.tsx.
use text.Mathlib.TextEquality.{eq_iff}
use htn.Prelude.{
  ◌≡◌, refl, sym, ◌∙◌, ◌⊎◌, inl, inr, String, Bool, true, false, ◌||◌, ◌&&◌, if◌then◌else◌, Option,
  none, some, List, [], ◌∷◌, foldl, same_option, same_option_eq, string_eq, if_either, or_swap,
  or_false, any, arith,
}
use htn.Demo.Page.{
  DemoPage, DemoEvent, polled, streamed, explained, unexplained, reset_pressed, reset_done,
  reset_failed, opened_page, session_id, attack_detected, request, same_flag, explain, explain_at,
  react, page_step, found, no_live_session, failed,
}

same_flag_eq : (a b : Bool) → same_flag a b ≡ true → a ≡ b
same_flag_eq = ground arith

-- What has been explained is not asked for again.
request-explained :
    (session : Option String) (now : Bool) (x : Option String) (s : String)
    → request session now x ≡ some s
    → request session now (some s) ≡ none
unfolding request
request-explained session now x s h = ground (arith, eq_iff s s)

request-none : (now : Bool) (x : Option String) → request none now x ≡ none
unfolding request
request-none now x = refl

-- What neither branch changes.
if_kept : {A B : Type 0} (f : A → B) (b : Bool) (x y : A) → f y ≡ f x → f (if b then x else y) ≡ f x
if_kept f true x y e = refl
if_kept f false x y e = e

module _ {Explanation : Type 0} where
  -- The explanation was given in one of the events, to a request for that session.
  abbrev pub Answered : String → Explanation → List (DemoEvent Explanation) → Type 0
  Answered s x [] = ⊥
  Answered s x (e ∷ events) = (e ≡ explained s x) ⊎ Answered s x events

  -- Either nothing is kept, or an explanation together with the session that it is of.
  abbrev pub IsKept : (String → Explanation → Type 0) → DemoPage Explanation → Type 0
  IsKept Told p =
      ((p.explanation ≡ none) × (p.explained_for ≡ none))
      ⊎ ((s : String) × (x : Explanation) × (p.explained_for ≡ some s)
          × (p.explanation ≡ some x)
          × Told s x)

  abbrev pub is_failure : DemoEvent Explanation → Bool
  is_failure (unexplained s) = true
  is_failure _ = false

  -- `b` tells whether a request for an explanation has failed.
  abbrev pub IsAsking : Bool → DemoPage Explanation → Type 0
  IsAsking b p =
      (p.asking ≡ request p.attached_to p.detected p.explained_for)
      ⊎ ((p.asking ≡ none) × (b ≡ true))

  abbrev pub IsReady : Bool → DemoPage Explanation → Type 0
  IsReady b p = p.attached_to ≡ session_id p → IsAsking b p

  abbrev pub IsCurrent : DemoPage Explanation → Type 0
  IsCurrent p = (p.attached_to ≡ session_id p) × (p.detected ≡ attack_detected p)

  react-IsReady :
      (b : Bool) (p : DemoPage Explanation) (e : DemoEvent Explanation)
      → IsAsking b p
      → IsReady (is_failure e || b) (react p e)
  unfolding react
  react-IsReady b p (polled (found s)) a = ground arith
  react-IsReady b p (polled no_live_session) a = ground arith
  react-IsReady b p (polled (failed m)) a = ground arith
  react-IsReady b p (streamed g) a = ground arith
  react-IsReady b p (explained s next) a = ground (
    arith,
    same_option_eq p.asking (some s),
    request-explained p.attached_to p.detected p.explained_for s,
  )
  react-IsReady b p (unexplained s) a = ground arith
  react-IsReady b p reset_pressed a = ground arith
  react-IsReady b p reset_done a =
      ground (arith, request-none p.detected p.explained_for, request-none p.detected none)
  react-IsReady b p (reset_failed m) a = ground arith

  explain_at-IsAsking :
      (b : Bool) (session : Option String) (now : Bool) (p : DemoPage Explanation)
      → (p.attached_to ≡ session → IsAsking b p)
      → let q = explain_at session now p in
        IsAsking b q × (q.attached_to ≡ session) × (q.detected ≡ now)
  unfolding explain_at
  explain_at-IsAsking b session now p a =
      ground (arith, same_option_eq p.attached_to session, same_flag_eq p.detected now)

  explain_at-kept :
      (session : Option String) (now : Bool) (p : DemoPage Explanation)
      → (session_id (explain_at session now p) ≡ session_id p)
        × (attack_detected (explain_at session now p) ≡ attack_detected p)
  unfolding explain_at attack_detected
  explain_at-kept session now p =
      let same = same_option p.attached_to session && same_flag p.detected now in
      let next = record p {
        attached_to = session;
        detected = now;
        asking = request session now p.explained_for;
      } in
      (if_kept session_id same p next refl, if_kept attack_detected same p next refl)

  explain-IsAsking :
      (b : Bool) (p : DemoPage Explanation)
      → IsReady b p
      → IsAsking b (explain p) × IsCurrent (explain p)
  unfolding explain
  explain-IsAsking b p a =
      let (fine, same, now) = explain_at-IsAsking b (session_id p) (attack_detected p) p a in
      let (still, found_still) = explain_at-kept (session_id p) (attack_detected p) p in
      (fine, (same ∙ sym still, now ∙ sym found_still))

  -- The session that is attached, if an attack on it is recorded that is not explained yet.
  abbrev pub wanted : DemoPage Explanation → Option String
  wanted p = request (session_id p) (attack_detected p) p.explained_for

  page_run-IsAsking :
      (b : Bool) (p : DemoPage Explanation) (events : List (DemoEvent Explanation))
      → IsAsking b p × IsCurrent p
      → let q = foldl page_step p events in IsAsking (any is_failure events || b) q × IsCurrent q
  unfolding page_step
  page_run-IsAsking b p [] f = f
  page_run-IsAsking b p (e ∷ events) (f, c) =
      let now = explain-IsAsking (is_failure e || b) (react p e) (react-IsReady b p e f) in
      rw (or_swap (any is_failure events) (is_failure e) b)
        (page_run-IsAsking (is_failure e || b) (page_step p e) events now)

  current_request :
      (b : Bool) (p : DemoPage Explanation)
      → IsAsking b p
      → IsCurrent p
      → (p.asking ≡ wanted p) ⊎ ((p.asking ≡ none) × (b ≡ true))
  current_request b p (inl a) (s, d) = inl cc
  current_request b p (inr f) c = inr f

  IsKept-map :
      (Told More : String → Explanation → Type 0) (p q : DemoPage Explanation)
      → ((s : String) (x : Explanation) → Told s x → More s x)
      → q.explanation ≡ p.explanation
      → q.explained_for ≡ p.explained_for
      → IsKept Told p
      → IsKept More q
  IsKept-map Told More p q f same still (inl (x, s)) = inl (same ∙ x, still ∙ s)
  IsKept-map Told More p q f same still (inr (s, x, for_s, is_x, t)) =
      inr (s, x, still ∙ for_s, same ∙ is_x, f s x t)

  react-IsKept :
      (Told : String → Explanation → Type 0) (p : DemoPage Explanation) (e : DemoEvent Explanation)
      → IsKept Told p
      → IsKept (λ s x. Told s x ⊎ (e ≡ explained s x)) (react p e)
  unfolding react
  react-IsKept Told p (polled (found s)) h = ground arith
  react-IsKept Told p (polled no_live_session) h = ground arith
  react-IsKept Told p (polled (failed m)) h = ground arith
  react-IsKept Told p (streamed g) h = ground arith
  react-IsKept Told p (explained s next) h =
      if_either (IsKept (λ t x. Told t x ⊎ (explained s next ≡ explained t x)))
        (same_option p.asking (some s))
        (record p { explained_for = some s; explanation = some next; asking = none }) p
        (inr (s, next, refl, refl, inr refl))
        (IsKept-map Told _ p p (λ t x told. inl told) refl refl h)
  react-IsKept Told p (unexplained s) h = ground arith
  react-IsKept Told p reset_pressed h = ground arith
  react-IsKept Told p reset_done h = ground arith
  react-IsKept Told p (reset_failed m) h = ground arith

  explain-kept :
      (p : DemoPage Explanation)
      → ((explain p).explanation ≡ p.explanation) × ((explain p).explained_for ≡ p.explained_for)
  unfolding explain explain_at
  explain-kept p = ground arith

  page_run-IsKept :
      (Told : String → Explanation → Type 0) (p : DemoPage Explanation)
      (events : List (DemoEvent Explanation))
      → IsKept Told p
      → IsKept (λ s x. Told s x ⊎ Answered s x events) (foldl page_step p events)
  unfolding page_step
  page_run-IsKept Told p [] h = IsKept-map Told _ p p (λ s x t. inl t) refl refl h
  page_run-IsKept Told p (e ∷ events) h =
      let (same, still) = explain-kept (react p e) in
      let Next : String → Explanation → Type 0 = λ s x. Told s x ⊎ (e ≡ explained s x) in
      let now =
        IsKept-map Next Next (react p e) (page_step p e) (λ s x t. t) same still
          (react-IsKept Told p e h) in
      let q = foldl page_step (page_step p e) events in
      IsKept-map _ _ q q (λ s x t. ground arith) refl refl
        (page_run-IsKept Next (page_step p e) events now)

  -- After any polls, frames, answers and resets: an explanation is kept with the session that it is
  -- of, and was given in answer to a request for that session, or none is kept and no session counts
  -- as explained; and the request that is open is the one that is wanted: for the session that is
  -- attached, if its recorded events tell of an attack and it is not the session that is explained,
  -- and else none. Only after a request for an explanation has failed, there may be none instead.
  pub page_run-wanted :
      (events : List (DemoEvent Explanation))
      → let p = foldl page_step opened_page events in
        IsKept (λ s x. Answered s x events) p
        × ((p.asking ≡ wanted p) ⊎ ((p.asking ≡ none) × (any is_failure events ≡ true)))
  unfolding attack_detected opened_page request
  page_run-wanted events =
      let (a, c) = page_run-IsAsking false opened_page events (inl refl, (refl, refl)) in
      let p = foldl page_step opened_page events in
      let asked = current_request (any is_failure events || false) p a c in
      let kept = page_run-IsKept (λ s x. ⊥) opened_page events (inl (refl, refl)) in
      (
        IsKept-map _ _ p p (λ s x t. ground arith) refl refl kept,
        elim asked [
          | inl a ↦ inl a
          | inr n ↦ inr (n.0, sym (or_false (any is_failure events)) ∙ n.1)
        ],
      )
