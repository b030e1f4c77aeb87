-- ===== src/Security/Trace/Tests.antt =====
-- Two nodes are selected, one after the other.
use htn.Prelude.{◌≡◌, refl, some, List, [], ◌∷◌, foldl}
use htn.Security.Trace.{TraceInput, initial_trace, traced, selected, answered, trace_step}

abbrev clicks : List TraceInput
clicks =
    selected (some "x") (some "a")
    ∷ answered 1 (traced (some ("a" ∷ [])))
    ∷ selected (some "x") (some "b")
    ∷ []

-- Until the second request is answered, the first node's chain is shown, and not as loading.
stale_chain : (foldl trace_step initial_trace clicks).state.chain ≡ some ("a" ∷ [])
unfolding trace_step
stale_chain = refl

-- A late answer to the first request is dropped.
late_dropped : foldl trace_step initial_trace (answered 1 (traced (some [])) ∷ []) ≡ initial_trace
unfolding trace_step
late_dropped = refl
