-- ===== src/Runtime/Provenance.antt =====
-- Which models answered, and who served them: frontend/src/lib/runtime/provenance.ts.
pub mod Laws
mod Tests
use Prim.Native.String.{◌++◌ as append}
use htn.Prelude.{
  ℕ, ◌+◌, String, Bool, true, false, ◌||◌, Option, none, some, List, [], ◌∷◌, ◌++◌, map, foldl,
  filter, Dict, lookup, insert, drop, length, ltb, nat_eq, truthy, ◌&&◌, ◌==◌, string_eq,
  if◌then◌else◌, values,
}
use htn.Prelude.Int.{ℤ, pos, ◌+ℤ◌}
use htn.Prelude.Sort.{sort}
use htn.Stream.Types.{Json, EventType, Event, meta, is_true}
use htn.Runtime.TestRuns.Counts.{Codes, codes, starts_with}

pub record ModelProvenance : Type 0 where
  pub model : String
  pub provider : String
  pub endpoint_host : String
  pub route : String
  pub fallback_used : Bool
  pub calls : ℕ
  pub latency_ms : ℤ

abbrev reversed : Codes → Codes
reversed = foldl (λ s c. c ∷ s) []

-- `/(^|\.)domain$/i`, for a domain in small letters.
unfoldable pub is_under : String → String → Bool
unfolding codes starts_with
is_under domain host =
    let back = reversed (codes domain) in
    starts_with back (reversed (codes host))
    && elim (drop (length back) (reversed (codes host))) [ [] ↦ true | c ∷ _ ↦ nat_eq c 46 ]

abbrev pub host_labels : List (String × String)
host_labels =
    ("openrouter.ai", "OpenRouter")
    ∷ ("runpod.ai", "RunPod")
    ∷ ("runpod.io", "RunPod")
    ∷ ("api.openai.com", "OpenAI")
    ∷ ("anthropic.com", "Anthropic")
    ∷ []

unfoldable pub label_of : List (String × String) → String → String
label_of [] endpoint_host = endpoint_host
label_of ((domain, label) ∷ rest) endpoint_host =
    if is_under domain endpoint_host then label else label_of rest endpoint_host

unfoldable pub provider_label : String → String
unfolding label_of is_under
provider_label = label_of host_labels

abbrev pub str : Option Json → String
str (some (Json.str s)) = s
str _ = ""

abbrev pub num : Option Json → ℤ
num (some (Json.num n)) = n
num _ = pos 0

pub record FallbackRoute : Type 0 where
  pub worker_id : String
  pub route : String

pub record ProvenanceIndex : Type 0 where
  pub by_worker : Dict String ModelProvenance
  pub fallbacks : List FallbackRoute
  pub distinct : List ModelProvenance
  pub primary : Option ModelProvenance
  pub calls : ℕ

-- The variables of the loop.
pub record Tallies : Type 0 where
  pub by_worker : Dict String ModelProvenance
  pub distinct : Dict String ModelProvenance
  pub calls : ℕ

unfoldable pub entry_of : Event → ModelProvenance
entry_of e = record {
  model = str (meta e "model");
  provider = provider_label (str (meta e "endpoint_host"));
  endpoint_host = str (meta e "endpoint_host");
  route = str (meta e "provider_route");
  fallback_used = is_true (meta e "fallback_used");
  calls = 1;
  latency_ms = num (meta e "latency_ms");
}

-- `identity` with the counts of `prev` and of the new call.
unfoldable pub add_call : ModelProvenance → ModelProvenance → ModelProvenance → ModelProvenance
add_call identity prev entry = record identity {
  calls = prev.calls + 1;
  latency_ms = prev.latency_ms +ℤ entry.latency_ms;
  fallback_used = prev.fallback_used || entry.fallback_used;
}

-- The latest call of a worker wins on identity.
unfoldable pub count_worker :
    Option String → ModelProvenance → Dict String ModelProvenance → Dict String ModelProvenance
count_worker agent_id entry m = elim (truthy agent_id) [
  | none ↦ m
  | some id ↦ elim (lookup id m) [
    | none ↦ insert id entry m
    | some prev ↦ insert id (add_call entry prev entry) m
  ]
]

abbrev pub key_of : ModelProvenance → String
key_of p = append p.model (append "@" p.endpoint_host)

unfoldable pub count_distinct :
    ModelProvenance → Dict String ModelProvenance → Dict String ModelProvenance
count_distinct entry m = elim (lookup (key_of entry) m) [
  | none ↦ insert (key_of entry) entry m
  | some seen ↦ insert (key_of entry) (add_call seen seen entry) m
]

-- One round of the loop.
unfoldable pub count_call : EventType → Tallies → Event → Tallies
count_call EventType.model_requested t e =
    let entry = entry_of e in
    if entry.model == "" && entry.endpoint_host == "" then t else record {
      by_worker = count_worker e.agent_id entry t.by_worker;
      distinct = count_distinct entry t.distinct;
      calls = t.calls + 1;
    }
count_call _ t e = t

unfoldable pub tally_calls : List Event → Tallies
tally_calls =
    foldl (λ t (e : Event). count_call e.event_type t e)
      (record { by_worker = []; distinct = []; calls = 0 })

unfoldable pub index_of : Tallies → ProvenanceIndex
index_of t =
    let ranked = sort (λ (a b : ModelProvenance). ltb b.calls a.calls) (values t.distinct) in
    record {
      by_worker = t.by_worker;
      fallbacks =
          map (λ ((id, p) : String × ModelProvenance). record { worker_id = id; route = p.route })
            (filter (λ ((id, p) : String × ModelProvenance). p.fallback_used) t.by_worker);
      distinct = ranked;
      primary = elim ranked [ [] ↦ none | p ∷ _ ↦ some p ];
      calls = t.calls;
    }

-- The line opens all that a test runs.
unfoldable pub derive_provenance : List Event → ProvenanceIndex
unfolding tally_calls index_of count_call count_worker count_distinct add_call entry_of
    provider_label sort lookup insert
derive_provenance events = index_of (tally_calls events)
