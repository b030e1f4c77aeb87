-- ===== src/Runtime/Provenance/Tests.antt =====
-- Calls of two workers, one of whom fell back to another host.
use htn.Prelude.{◌≡◌, refl, String, Bool, some, true, false, List, [], ◌∷◌, map}
use htn.Prelude.Int.{pos}
use htn.Stream.Types.{Json, EventType, Event, meta}
use htn.Stream.Samples.{bare}
use htn.Runtime.Provenance.Laws.{total_calls, derive_provenance-calls}
use htn.Runtime.Provenance.{ModelProvenance, FallbackRoute, derive_provenance, provider_label}

labelled :
    map provider_label ("openrouter.ai" ∷ "api.RunPod.io" ∷ "myopenrouter.ai" ∷ [])
    ≡ "OpenRouter" ∷ "RunPod" ∷ "myopenrouter.ai" ∷ []
unfolding provider_label
labelled = refl

abbrev call : String → String → Bool → Event
call worker host fell_back = record (bare EventType.model_requested) {
  agent_id = some worker;
  metadata = some (
      ("model", Json.str "m")
      ∷ ("endpoint_host", Json.str host)
      ∷ ("latency_ms", Json.num (pos 5))
      ∷ ("provider_route", Json.str "r")
      ∷ ("fallback_used", Json.bool fell_back)
      ∷ []);
}

abbrev calls : List Event
calls = call "a" "x.org" false ∷ call "a" "y.org" true ∷ call "b" "y.org" false ∷ []

ranked :
    let p = derive_provenance calls in
    (map (λ (m : ModelProvenance). m.endpoint_host) p.distinct ≡ "y.org" ∷ "x.org" ∷ [])
    × (map (λ (m : ModelProvenance). m.calls) p.distinct ≡ 2 ∷ 1 ∷ [])
    × (map (λ (f : FallbackRoute). f.worker_id) p.fallbacks ≡ "a" ∷ [])
    × (p.calls ≡ 3)
unfolding derive_provenance meta
ranked = (refl, refl, refl, refl)

derive_provenance-calls_example :
    total_calls (derive_provenance calls).distinct ≡ (derive_provenance calls).calls
derive_provenance-calls_example = derive_provenance-calls calls
