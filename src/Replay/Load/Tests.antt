-- ===== src/Replay/Load/Tests.antt =====
-- A log of three events, loaded two at a time.
use htn.Prelude.{ℕ, ◌≡◌, refl, true, false, none, some, List, [], ◌∷◌, arith}
use htn.Prelude.Int.{pos}
use htn.Stream.Types.{EventType, Event}
use htn.Stream.Reducer.{initial_graph_state, reduce_snapshot}
use htn.Stream.Samples.{bare, first_frame}
use htn.Replay.Load.{loaded, failed, load_pages, after, event_page, resolved, load_replay_data}
use htn.Replay.Load.Laws.{load_replay_data_complete}

abbrev numbered : ℕ → Event
numbered n = record (bare EventType.message_sent) { seq = pos n }

abbrev log : List Event
log = numbered 0 ∷ numbered 1 ∷ numbered 2 ∷ numbered 4 ∷ []

paged :
    load_pages 3 (λ seq. some (event_page 2 log seq)) (pos 0) [] []
    ≡ loaded (numbered 1 ∷ numbered 2 ∷ numbered 4 ∷ []) (2 ∷ 3 ∷ [])
unfolding load_replay_data event_page
paged = refl

refused : load_pages 3 (λ seq. none) (pos 0) [] [] ≡ failed
unfolding load_replay_data
refused = refl

load_replay_data_complete_example :
    load_replay_data 4 (some (some true)) (some first_frame) (λ seq. some (event_page 2 log seq))
    ≡ resolved (record {
      incomplete = false;
      initial_state = reduce_snapshot initial_graph_state first_frame;
      events = after (pos 0) log;
    })
unfolding load_replay_data
load_replay_data_complete_example =
    load_replay_data_complete 1 log 4 (some true) first_frame (omega arith) (omega arith)
