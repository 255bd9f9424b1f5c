-- ===== src/Lib.antt =====
-- Solutions Studio keeps requirements, the baselines and stories made of them, and the human approvals
-- without which a candidate is not promoted. This library is about packages/domain, the rules that all
-- other parts call, and about the approvals that the orchestrator keeps in files. The orchestrator's use
-- cases, repositories and HTTP routes (apps/orchestrator) load and store the domain's records, and the
-- web application (apps/web) shows them.
--
-- The parts and their files:
--   - Ids: requirements/ids.ts, governance/ids.ts and backlog/ids.ts, one function per `create...Id`, with
--     Ids.Laws; Ids.Instant: isValidInstant, whose pattern is matched from left to right;
--   - Requirements.Types: the records and enumerations of packages/domain/src/requirements;
--   - Requirements.Revision: RequirementRevision.ts (createRequirementRevision, reviseRequirement, and
--     what counts as a change of meaning); Revision.Laws, Revision.Meaning and Revision.Resets hold the
--     proofs;
--   - Requirements.Policy, Requirements.Source: PolicyConstraintRevision.ts and SourceRevision.ts;
--   - Requirements.Baseline: RequirementsBaseline.ts, the rules of membership and the creation;
--     Baseline.Membership and Baseline.Laws hold the proofs;
--   - Requirements.Authority: AuthorityBundle.ts;
--   - Requirements.Finding, Requirements.Decision: CandidateFinding.ts and EngineeringDecision.ts, with
--     their lives as step relations;
--   - Governance.Types, Governance.Factories: GovernanceTypes.ts and factories.ts, the validation runs
--     and the approvals that are created, revoked and superseded; Factories.Laws is about what is
--     created, Factories.Lifecycle about the life of an approval;
--   - Governance.Promotion: evaluatePromotionStatus.ts, which decides on a promotion, with
--     Promotion.Laws; Promotion.Approvals puts the records of the factories under that decision;
--   - Stories.Types: the data of Story.ts and of the dependency graph;
--   - Stories.Create: createStory of Story.ts, with Create.Laws; Stories.Created puts its stories under
--     the readiness rules and the execution order;
--   - Stories.Order: computeTopologicalExecutionOrder of StoryDependencyGraph.ts. Order.Edges counts the
--     dependencies, Order.Filling reads them off the maps that the code fills, Order.Relaxing and
--     Order.Loop follow the queue, Order.Ranks and Order.Laws conclude;
--   - Stories.Cycles, Stories.CycleSearch, Stories.Graph: findStronglyConnectedComponents,
--     findCyclicStoryIds, findCycleForStory, detectCycles and validateStoryDependencies; Cycles.Depth and
--     CycleSearch.Rounds prove that the searches end;
--   - Stories.Coverage: computeRequirementCoverage of StoryReadiness.ts; Coverage.Naming says which stories
--     cover a revision, Coverage.Counting and Coverage.Laws hold the proofs;
--   - Stories.Readiness: evaluateStoryReadiness of StoryReadiness.ts; Readiness.Rules and
--     Readiness.Evaluation hold its other rules and the report, Readiness.Named says what a story names
--     and what concerns it, Readiness.Laws, Readiness.Ready and Readiness.Ends hold the proofs;
--   - Backlog.Types, Backlog.Mapping: createBacklogExportMapping of BacklogExportMapping.ts;
--   - Backlog.Staleness: ExportStaleness.ts. Staleness.Direct, Staleness.Propagation and Staleness.Report
--     are its three passes. Staleness.Tainted describes without rounds which stories are affected; the
--     other children hold the proofs about the passes (Start, Rounds, Completeness) and about a report
--     (Laws, Explained, Counts);
--   - Identity: createAuthenticatedActor and hasCapability of identity/AuthenticatedActor.ts;
--   - Store: the approvals of apps/orchestrator/src/infrastructure/persistence/filesystem/
--     FilesystemRequirementsRepository.ts. Store.Schema is the schema of
--     packages/contracts/src/governance/schemas.ts and the record that is made again of what it gives,
--     Store.Approvals the methods, each as one step from the files to the files. Store.Listing and
--     Store.Active are about what is found, Store.Laws, Store.Replacing and Store.History about sequences
--     of calls, Store.Recreate and Store.RoundTrip about what is read back;
--   - Base: what the parts share: strings (Base.Text), results (Base.Result), maps in the order of
--     insertion (Base.Maps), sets (Base.Sets), counting and sorting (Base.Counts), numbers
--     (Base.Numbers);
--   - the modules named Samples: inputs, tests and the theorems at them.
--
-- Conventions. A string is the list of its UTF-16 code units. `toLowerCase` is exact on ASCII.
-- `localeCompare` is a parameter, of which nothing is assumed, since it depends on the locale. The clock
-- is the argument `now`. A string outside an enumeration is the constructor `unlisted`, since
-- the factories test for it. An exception is the `throw` of a result, with what its message is made of.
-- `Object.freeze` has no counterpart: values do not change.
--
-- Bounds. The loop of the execution order (`schedule`) has one round more than there are stories as its
-- fuel: a story is queued once, when its last dependency is scheduled. `strong_connect` may go one level
-- deeper than there are stories, since each level visits a story for the first time, and `search_back`
-- has one round more than there are edges and first entries of its queue, since a story is expanded once:
-- Cycles.Depth and CycleSearch.Rounds prove that neither runs out. `propagate_all` has one round more than
-- there are evaluations: a round that changes something leaves one current story less.
--
-- Not modelled: the rest of the file repository (it stores its other records in the same way), its lock
-- files, the PostgreSQL and object repositories, the HTTP routes, the pipelines around language models,
-- the web application, the other schemas of packages/contracts (input and output, or calls of
-- libraries), failures of the disk under the approvals' methods (a read or write that fails otherwise
-- than because a file exists, a file that is written in part), and buildStoryDependencyGraph of
-- packages/domain.
mod Base
pub mod Ids
pub mod Governance
pub mod Requirements
pub mod Stories
pub mod Backlog
pub mod Store
pub mod Identity
