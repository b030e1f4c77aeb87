-- ===== src/Runtime/TestRuns.antt =====
-- The regression suite before and after the fix: frontend/src/lib/runtime/testRuns.ts.
-- The parser of pytest's summary line is an argument.
pub mod Counts
use htn.Prelude.{
  String, Bool, false, not, Option, none, some, List, [], ◌∷◌, ◌++◌, last, coalesce, string_eq,
  ◌==◌, if◌then◌else◌,
}
use htn.Prelude.Int.{ℤ}
use htn.Stream.Types.{Json, Event, EventType, meta, is_true}
use htn.Runtime.Fields.{str_or_null}

pub record TestCount : Type 0 where
  pub label : String
  pub value : ℤ

pub record TestRun : Type 0 where
  pub seq : ℤ
  pub worker_id : Option String
  pub passed : Bool
  pub summary : String
  pub command : Option String
  pub exit_code : Option ℤ
  pub counts : List TestCount

pub record TestEvidence : Type 0 where
  pub runs : List TestRun
  pub before : Option TestRun
  pub after : Option TestRun
  pub proved_red : Bool
  pub proved_green : Bool

abbrev pub empty_test_evidence : TestEvidence
empty_test_evidence = record {
  runs = [];
  before = none;
  after = none;
  proved_red = false;
  proved_green = false;
}

-- `typeof value === "number" ? value : null`
abbrev pub number_or_null : Option Json → Option ℤ
number_or_null (some (Json.num n)) = some n
number_or_null _ = none

-- `value === text`
abbrev pub is_text : Option Json → String → Bool
is_text (some (Json.str s)) t = s == t
is_text _ t = false

module _ (parse_counts : String → List TestCount) where
  unfoldable pub test_run : Event → TestRun
  test_run e =
      let summary = coalesce (str_or_null (meta e "detail")) "" in
      record {
        seq = e.seq;
        worker_id = e.agent_id;
        passed = is_true (meta e "passed");
        summary = summary;
        command = str_or_null (meta e "command");
        exit_code = number_or_null (meta e "exit_code");
        counts = parse_counts summary;
      }

  -- One round of the loop: the runs so far, and the event's own if it reports one.
  unfoldable pub push_run : EventType → List TestRun → Event → List TestRun
  push_run EventType.task_completed runs e =
      if is_text (meta e "step") "pytest" then runs ++ test_run e ∷ [] else runs
  push_run _ runs e = runs

  unfoldable pub collect_runs : List TestRun → List Event → List TestRun
  collect_runs runs [] = runs
  collect_runs runs (e ∷ es) = collect_runs (push_run e.event_type runs e) es

  -- What is returned for the runs collected.
  unfoldable pub evidence_of : List TestRun → TestEvidence
  evidence_of [] = empty_test_evidence
  evidence_of (r ∷ []) = record {
    runs = r ∷ [];
    before = some r;
    after = none;
    proved_red = not r.passed;
    proved_green = false;
  }
  evidence_of (r ∷ q ∷ rs) = record {
    runs = r ∷ q ∷ rs;
    before = some r;
    after = last (q ∷ rs);
    proved_red = not r.passed;
    proved_green = elim (last (q ∷ rs)) [ none ↦ false | some a ↦ a.passed ];
  }

  unfoldable pub derive_test_evidence : List Event → TestEvidence
  unfolding test_run push_run collect_runs evidence_of meta
  derive_test_evidence es = evidence_of (collect_runs [] es)
