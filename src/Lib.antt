-- ===== src/Lib.antt =====
-- Verification of the client of AgentShield (frontend/src): what the interface shows is
-- derived from the backend's snapshots and events, and the backend stays the authority.
--
-- The parts, and how they interact. The backend (Python, not modelled) streams a snapshot and then
-- numbered events over a WebSocket. The connection checks their order and hands them to the
-- reducer, which folds them into the state that every screen reads. The provider sends the user's
-- control requests to the backend, and the control reducer decides what may be requested and which
-- replies still count. A recorded run is replayed through the same reducer. The live demo derives a
-- verdict, the test evidence, an incident and a narrative from the list of recorded events, and its
-- screen fetches an explanation of the incident. The form configures a run, the archive lists the
-- runs that are recorded and compares two of them, and the graph shows the system with its analyses.
--
-- The files:
--   Prelude          shared helpers: tests and options, lists over the native numbers, dictionaries
--                    in insertion order (Prelude.Maps), integers (Prelude.Int), sums over entries
--                    (Prelude.Sums)
--   Stream.Types     the frames and events of frontend/src/lib/api/schema.d.ts
--   Stream.Reducer   frontend/src/lib/stream/reducer.ts; `reduce` is `reduce`, the snapshot's and the
--                    event's branch are `reduce_snapshot` and `reduce_event`, `recordIncident` is
--                    `record_incident`, `selectMetrics` is `select_metrics`. Stream.Window treats the
--                    two logs, Stream.Nodes the map of nodes, Stream.Counts the counters.
--   Stream.Connection  frontend/src/lib/stream/useExperimentStream.ts, with Stream.Connection.Laws
--   Stream.Series    frontend/src/lib/stream/useOutbreakSeries.ts, with Stream.Series.Laws
--   Stream.Chart     frontend/src/components/insights/OutbreakChart.tsx
--   Controls.Reducer frontend/src/lib/controls/reducer.ts; `transition` is `controlReducer`, with
--                    `none` where it returns the object it was given. Controls.Laws is about it.
--   Controls.Provider  frontend/src/lib/experiment/ExperimentProvider.tsx; Controls.Progress is about
--                    the two together. Controls.Storage is about its stored run, with
--                    frontend/src/components/shell/RequiresRun.tsx and RunContextBar.tsx.
--   Experiment.Config  the configuration of a run, frontend/src/lib/experiment/presets.ts
--   Experiment.Presets the bounds of the form and the presets of the same file
--   Experiment.Form  the form: frontend/src/components/run/RunConfigurator.tsx
--   Severity         frontend/src/lib/severity.ts
--   Vocabulary       frontend/src/lib/vocabulary.ts: Vocabulary.Events, Vocabulary.Nodes and
--                    Vocabulary.Scenarios
--   Security         frontend/src/lib/security: Security.Summary is summary.ts, Security.Insights
--                    useSecurityInsights.ts, Security.Trace useProvenance.ts
--   Format           frontend/src/lib/format.ts
--   Api              frontend/src/lib/api/client.ts (Api.Experiments, Api.Analysis) and
--                    frontend/src/lib/runtime/client.ts (Api.Sessions): the request that each function
--                    makes, and in Api.Request what it makes of the answer
--   Overview         frontend/src/app/page.tsx
--   Activity         frontend/src/app/activity/page.tsx, frontend/src/components/activity and
--                    frontend/src/lib/stream/sessionScope.ts
--   Metrics          SecurityMetrics.tsx and MetricsComparison.tsx of frontend/src/components/insights
--   History          the archive: History.Runs and History.Selection are `HistoryList` and
--                    `toggleSelect` of frontend/src/app/history/page.tsx, History.Compare is
--                    frontend/src/app/history/compare/page.tsx
--   Demo.Page        frontend/src/app/demo/page.tsx; its two effects and the reset are the steps of
--                    `page_step`.
--   Replay.Controls  frontend/src/lib/replay/controlReducer.ts and the interval of useReplayStream.ts
--   Replay.Player    frontend/src/lib/replay/loadReplayData.ts (`foldEvents`) and the scheduler and
--                    `seek` of useReplayStream.ts; Replay.Consistency is about them.
--   Replay.Screen    frontend/src/app/history/[id]/page.tsx and
--                    frontend/src/components/run/ReplayTransport.tsx
--   Replay.Load      `loadReplayData` and the page of events of backend/app/api/routes_history.py
--   Runtime.Attach   frontend/src/lib/runtime/useRuntimeStream.ts: `attach` before a connection
--   Runtime.Stage    frontend/src/lib/runtime/stage.ts; Runtime.Stage.Depths and Runtime.Stage.Chain
--                    are about its depths.
--   Runtime.Fields   the helpers that read an event's metadata
--   Runtime.TestRuns, Runtime.Verdict, Runtime.Incident, Runtime.Narrative, Runtime.Clock
--                    testRuns.ts, verdict.ts, incident.ts, narrative.ts and clock.ts of
--                    frontend/src/lib/runtime, with the theorems in their modules Laws
--   Runtime.Provenance  frontend/src/lib/runtime/provenance.ts
--   Comparison.Run   frontend/src/lib/comparison/runToCompletion.ts; Comparison.Run.Ends is about its
--                    catch-up loop.
--   Comparison.Pair  two promises that settle, which the two hooks below share
--   Comparison.Arms  frontend/src/lib/comparison/useComparison.ts and loadHistoricalArm.ts
--   Comparison.Trial frontend/src/lib/remediation/useFixTrial.ts
--   Runtime.TestRuns.Counts  `parseCounts` of testRuns.ts, over character codes
--   Graph.Topology, Graph.Swarm, Graph.Collect
--                    frontend/src/lib/graph/model.ts, frontend/src/lib/runtime/swarmModel.ts and the
--                    deduplicating loop that they share, with their theorems in Graph.Laws
--   Graph.Canvas, Graph.Labels
--                    frontend/src/components/graph/TopologyGraph.tsx: the graph that is built and how it
--                    looks, and where its labels go
--   Graph.Workspace  TopologyWorkspace.tsx and AttackPathFinder.tsx of frontend/src/components/graph
-- The modules named Tests run the definitions on concrete inputs; Stream.Samples holds their data.
--
-- What the model fixes. Ticks and schema versions are natural numbers, pixels whole numbers;
-- sequence numbers, seeds and numbers in metadata are integers; speeds and rates are in
-- hundredths. A field that is missing and one that is null are one value, as the backend writes
-- null. A JavaScript Map or Set is an association list in insertion order. An exception is a value
-- of `Thrown`. In the connection, sockets and timers are numbered by one counter, and what the
-- browser delivers is an explicit list of inputs; a frame that is applied is seen at once. A sort
-- is a stable insertion sort with the comparator of the source.
--
-- Fuel. The loops go over a list or over a count, but for the endless loop of `load_pages`, which
-- takes fuel: over a log in order, as many rounds as it has events, and one, are enough. The passes
-- of `depths` are counted by the source, one more than there are workers, which is enough for
-- handoffs without a cycle.
--
-- Parameters. Whether React's `setState` lets the error of an updater out (`rethrows`), as the
-- `try` around it presumes, or queues the updater, so that the error comes up in a later render,
-- is an argument of the two connections. Once an updater that throws is queued (`crashed`), the
-- state stays as it was; that the view then goes away is an input, `unmounted`. What the backend
-- knows of a stored run (`get_experiment`) is an argument of the promise's input. How a number or
-- an object is written (`show`, `stringify`), `Date.parse` (`epoch`) and the metrics that the
-- backend computes are arguments of the definitions that use them; no theorem restricts them. So
-- is the parser of pytest's summary line where the evidence is derived, though
-- Runtime.TestRuns.Counts models it: what is derived holds for any.
--
-- Not modelled: the backend, which is Python, `fetch` and the browser's sockets, the generated types
-- that nothing here reads, the markup of the screens and the components that only lay out what the
-- modelled parts derive, the texts of the verdict lights, class names, dates, and the layout of the
-- graph and the curves of the chart, which are floating point.
pub mod Prelude
pub mod Stream
pub mod Severity
pub mod Security
pub mod Vocabulary
pub mod Experiment
pub mod Graph
pub mod Controls
pub mod Replay
pub mod History
pub mod Demo
pub mod Overview
pub mod Activity
pub mod Metrics
pub mod Format
pub mod Api
pub mod Runtime
pub mod Comparison
