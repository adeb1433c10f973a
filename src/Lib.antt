-- ===== src/Lib.antt =====
-- The red-team agent orchestration's own logic: the graph runner with its authorization gate, the
-- graph validator, the evidence-gated learning around them, and the guards before each tool call.
--
-- The parts, and the files that model them (paths from the repository's root):
--
-- * tools/graph/run-graph.mjs, the runner. Graph/Schema has the parsed graph and the run state;
--   Graph/Reducers the channel reducers (`REDUCERS`, `findingKey`, and `mergeFinding` of
--   tools/orchestration/manifest.mjs); Graph/State `initialState`, `applyWrite` and `applyResults`;
--   Graph/Routing `defaultRouters`, `inScopeRoster`, `getPath` and `assertActiveRequirements`;
--   Graph/Memory `makeMemoryStore`; Graph/Handlers `defaultHandlers` and `buildSecurityContext`;
--   Graph/Runner `indexGraph` and `runGraph`. A round of the `while` loop is the function `round`,
--   from a configuration (the node, the state, the world that handlers change, the path, the step
--   count, the checkpoints) to an exception, a pause or the next configuration. `loop` repeats it.
--   Graph/Specialists has `runGraphAsync`, whose fan-out folds the answers of specialists that ran
--   together, and whose dispatch nodes have a deadline; whether one exceeds it is an argument.
-- * tools/graph/validate-graph.mjs, the validator: Graph/Validator, up to its reachability passes.
-- * tools/graph/self-improve.mjs, learning: Learning/Firewall (`assertMethodologyNamespace`),
--   Learning/Store (`makeProceduralStore`), Learning/Params (`PARAM_BOUNDS`, `clamp`,
--   `normalizeLearnedParams`, `hasValidLearnedParams`, `tuneParams`), Learning/Candidate (candidates,
--   fingerprints and their gates), Learning/Promotion (`promoteLearningCandidate`,
--   `applyLearnedParams`), Learning/Judge (`judgeFindings`) and Learning/Consolidate
--   (`consolidateMethodology`).
-- * guardrails/, the guards before every tool call. Guards/Commands has the texts and segments of a
--   command (`splitSegments`, `gatherCommandTexts`, `extractCommand`, `engagementMode`), Guards/Scan
--   the loop over them; Guards/Azure `violation` and `evaluate` of core/guardrails-core.mjs;
--   Guards/Engagement, Guards/Invocation, Guards/Cluster and Guards/Egress the scope locks of
--   core/cluster-core.mjs and core/egress-core.mjs, with what both have in the same words once;
--   Guards/Hosts tools/external/host-classify.mjs; Guards/Decide `decide` of guardrails/guard.mjs,
--   which puts the three together. Files, paths, dates, URLs and base64 are the fields of a `Host`.
-- * tools/orchestration/manifest.mjs, the durable queue of tasks: Orchestration/Tasks, with the replay
--   of its log (`currentState`), `addOne`, `cmdAddPlan`, `cmdSetStatus` and `cmdNext`, and
--   Orchestration/Reduce, with `asFindings` and `cmdReduce`.
--
-- The runner takes handlers and routers as arguments; the default handlers read and write the memory
-- store, and the learning gates read and write the procedural store. The validator says which graphs
-- the runner can follow.
--
-- Js has JavaScript values, property access, `JSON.stringify`, the string methods that these files
-- call, and their regular expressions with a backtracking matcher (Js/Regex). Numbers are held in
-- hundredths, since every score is rounded to two decimals; none is negative. An exception is a value
-- of `Result`. SHA-256, and whatever a host gives (handlers, routers, the world), are parameters.
--
-- The fuel of `loop` and `loop_async` is the step budget, `maxSteps`: at none, the source throws, and
-- so do they. A `*` of a pattern has a round for each character left, which are all that there can
-- be; the nested texts of a command are sought to the source's depth of 3, and 6 wrappers are passed,
-- as in the source. All other functions are by recursion on their data.
--
-- Not modelled: the command lines; files and persistence (`persist`, `assertWritablePath`), times of
-- runs, the audit log and the events, which no modelled decision reads; the validator's reachability
-- passes; scores and debriefs; the other commands of the task manifest, coverage and costs; the
-- collectors, the datastore, the reports and the dashboard.
--
-- The modules under Examples run the models on a small graph, a small store, an engagement with one
-- host and one cluster in scope, and a small plan of tasks.
pub mod Common
pub mod Js
pub mod Graph
pub mod Learning
pub mod Guards
pub mod Orchestration
pub mod Examples
