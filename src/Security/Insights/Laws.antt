-- ===== src/Security/Insights/Laws.antt =====
-- What is shown between the answers: useSecurityInsights.ts.
use htn.Prelude.{
  ◌+◌, ◌≡◌, refl, ap, ◌∙◌, String, Bool, true, false, Option, none, some, List, [], ◌∷◌, foldl,
  length, or_else, arith,
}
use htn.Security.Insights.{
  InsightsMode, live, replay, Round, SecurityInsights, Answer, loaded, failed, answered,
  timer_fired, Hook, mounted, empty_insights, take_answer, hook_step,
}

module _ {Metrics Graph CriticalNode BlastRadius Remediation : Type 0} where
  -- The last round that loaded.
  abbrev pub last_loaded :
      List (Answer (Round Metrics Graph CriticalNode BlastRadius Remediation))
      → Option (Round Metrics Graph CriticalNode BlastRadius Remediation)
  last_loaded [] = none
  last_loaded (loaded r ∷ answers) = or_else (last_loaded answers) (some r)
  last_loaded (failed message ∷ answers) = last_loaded answers

  -- The message of the last answer, if it is a failure.
  abbrev pub last_failure :
      Option String
      → List (Answer (Round Metrics Graph CriticalNode BlastRadius Remediation))
      → Option String
  last_failure e [] = e
  last_failure e (loaded r ∷ answers) = last_failure none answers
  last_failure e (failed message ∷ answers) = last_failure (some message) answers

  -- The data of a round, or what was there before the first one.
  abbrev pub data_of :
      Option (Round Metrics Graph CriticalNode BlastRadius Remediation)
      → SecurityInsights Metrics Graph CriticalNode BlastRadius Remediation
      → SecurityInsights Metrics Graph CriticalNode BlastRadius Remediation
  data_of none s = s
  data_of (some r) s = record s {
    metrics = some r.metrics;
    graph = some r.graph;
    critical_nodes = r.critical_nodes;
    blast_radius = some r.blast_radius;
    remediation = some r.remediation;
  }

  abbrev pub is_waiting :
      Bool → List (Answer (Round Metrics Graph CriticalNode BlastRadius Remediation)) → Bool
  is_waiting b [] = b
  is_waiting b (a ∷ answers) = false

  -- Each round is answered, and then the timer fires.
  abbrev pub round :
      InsightsMode
      → Hook Metrics Graph CriticalNode BlastRadius Remediation
      → Answer (Round Metrics Graph CriticalNode BlastRadius Remediation)
      → Hook Metrics Graph CriticalNode BlastRadius Remediation
  round mode h a = hook_step mode (hook_step mode h (answered a)) timer_fired

  abbrev pub told :
      SecurityInsights Metrics Graph CriticalNode BlastRadius Remediation
      → List (Answer (Round Metrics Graph CriticalNode BlastRadius Remediation))
      → SecurityInsights Metrics Graph CriticalNode BlastRadius Remediation
  told s answers = record (data_of (last_loaded answers) s) {
    loading = is_waiting s.loading answers;
    error = last_failure s.error answers;
  }

  told-cons :
      (a : Answer (Round Metrics Graph CriticalNode BlastRadius Remediation))
      (answers : List (Answer (Round Metrics Graph CriticalNode BlastRadius Remediation)))
      (s : SecurityInsights Metrics Graph CriticalNode BlastRadius Remediation)
      → told (take_answer a s) answers ≡ told s (a ∷ answers)
  unfolding hook_step
  told-cons a answers s = ground arith

  live-round :
      (h : Hook Metrics Graph CriticalNode BlastRadius Remediation)
      (a : Answer (Round Metrics Graph CriticalNode BlastRadius Remediation))
      → h.in_flight ≡ true
      → h.cancelled ≡ false
      → ((round live h a).insights ≡ take_answer a h.insights)
        × ((round live h a).rounds ≡ h.rounds + 1)
        × ((round live h a).in_flight ≡ true)
        × ((round live h a).cancelled ≡ false)
  unfolding hook_step
  live-round h a f c = ground arith

  foldl-round :
      (h : Hook Metrics Graph CriticalNode BlastRadius Remediation)
      (answers : List (Answer (Round Metrics Graph CriticalNode BlastRadius Remediation)))
      → h.in_flight ≡ true
      → h.cancelled ≡ false
      → ((foldl (round live) h answers).insights ≡ told h.insights answers)
        × ((foldl (round live) h answers).rounds ≡ h.rounds + length answers)
  foldl-round h [] f c = (refl, omega arith)
  foldl-round h (a ∷ answers) f c =
      let (now, one, again, live_still) = live-round h a f c in
      let (later, more) = foldl-round (round live h a) answers again live_still in
      (
        later ∙ ap (λ s. told s answers) now ∙ told-cons a answers h.insights,
        more ∙ rw one (omega arith),
      )

  -- While nothing is asked for, a replayed run stays as it is.
  replay_rests :
      (h : Hook Metrics Graph CriticalNode BlastRadius Remediation)
      (answers : List (Answer (Round Metrics Graph CriticalNode BlastRadius Remediation)))
      → h.in_flight ≡ false
      → h.timer ≡ false
      → foldl (round replay) h answers ≡ h
  unfolding hook_step
  replay_rests h [] f t = refl
  replay_rests h (a ∷ answers) f t =
      let same : round replay h a ≡ h = ground arith in
      ap (λ g. foldl (round replay) g answers) same ∙ replay_rests h answers f t

  -- A live run asks again after every answer, good or bad, and shows the data of the last round that
  -- loaded, whatever failed since, with the message of the last answer if that one failed. A replayed
  -- run asks once, and shows what came of it. Neither is loading after its first answer, even if that
  -- failed and there is nothing to show.
  pub rounds-told :
      (a : Answer (Round Metrics Graph CriticalNode BlastRadius Remediation))
      (answers : List (Answer (Round Metrics Graph CriticalNode BlastRadius Remediation)))
      → let all = a ∷ answers in
        ((foldl (round live) mounted all).insights ≡ told empty_insights all)
        × ((foldl (round live) mounted all).rounds ≡ 2 + length answers)
        × ((foldl (round replay) mounted all).insights ≡ take_answer a empty_insights)
        × ((foldl (round replay) mounted all).rounds ≡ 1)
  unfolding hook_step
  rounds-told a answers =
      let (shows, asks) = foldl-round mounted (a ∷ answers) refl refl in
      let still = replay_rests (round replay mounted a) answers refl refl in
      (
        shows,
        asks ∙ omega arith,
        ap (λ (h : Hook Metrics Graph CriticalNode BlastRadius Remediation). h.insights) still,
        ap (λ (h : Hook Metrics Graph CriticalNode BlastRadius Remediation). h.rounds) still,
      )
