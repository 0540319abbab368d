-- ===== src/Lib.antt =====
-- CodeMesh keeps the Git projects of one developer workspace in step across machines. A workspace
-- manifest lists the projects that should be there; a registry in SQLite lists those that this
-- machine has. A command reads both, plans what an import or a hydration would change, refuses what
-- would collide, and then acts on the plan.
--
-- This library models the parts of the program that decide. Base holds what they share: texts as
-- lists of byte values with Go's functions on them (strings, path/filepath for Unix), maps as
-- association lists, Go's pair of a value and an error as `Result`, stable sorting.
--
--   State          internal/state/store.go: the table of projects. `add_project`, `update_project`,
--                  `delete_project`, `upsert_project` and `list_projects` are the methods of the
--                  same names, and `with_transaction` is `WithTransaction`. The table is a list of
--                  rows, passed in and out, and the methods refuse an alias or a remote that
--                  another row has before they write.
--                  Bindings is the table `env_bindings` (`UpsertEnvBinding`, `ListEnvBindings`),
--                  and Runs the table `agent_runs` (`RecordAgentRun`, `ListAgentRuns`,
--                  `DeleteAgentRuns`, `UpdateAgentRunMetadata`), and Machines the table
--                  `machines` (`RegisterMachine`, `ListMachines`).
--   GitOps         internal/gitops/gitops.go: `NormalizeRemote`, `ValidateCloneSource`,
--                  `RemoteMatchesSource` and `RedactURLForMetadata`, with their helpers.
--   Manifest       internal/workspacemanifest/manifest.go. Entries: normal form and validity of an
--                  entry (`normalizeEntry`, `ValidateEntry`, the clone hints in Entries/Hints) and
--                  of a manifest (`ValidateWorkspace`, in Entries/Workspace). Locations: how paths
--                  are compared and what is in the way of one (`canonicalPathForComparison`,
--                  `PathWithinRoot`, `nestedDesiredPathConflict`, `pathConflictReason`); Nesting
--                  relates `pathIsAncestor` to the elements of the two paths. Plan:
--                  `PlanImport`, with its maps of the registry in Plan/Registry and the change of
--                  one entry in Plan/Change. Apply: `ApplyImport`, `ApplyImportPlan`,
--                  `applyImportChanges` and `applyImportUpdates` with their rollback, over a
--                  store that is any record of the four methods of `ImportStore`; `sqlite` is
--                  the table of State as such a store. Apply/Aliases: the temporary aliases.
--                  Export: `ExportProjects`, `ExportWorkspace`.
--   Reconciliation internal/reconciliation/reconciliation.go: `BuildDryRunPlan`. It uses the
--                  locations and the registry maps of Manifest, as the Go package does.
--   CloneStrategy  internal/clonestrategy/clonestrategy.go: which clone is made and which sparse
--                  paths it is given.
--   Policy         internal/policy/policy.go: reading `.codemesh.yml` (`Resolve`, `ParseBytes`).
--   Toolchain      internal/toolchain/toolchain.go: `Check`, `uniqueSorted`,
--                  `ValidRequirementName`.
--   HydrationPlanner internal/hydrationplanner/planner.go: `PlanAll`, `PlanProject`, `PlanEntries`,
--                  and `Is` and `OwnedByAllowing` of internal/placeholder/placeholder.go, by which
--                  the planner tells a placeholder from a directory that somebody filled.
--   HydrationExecutor internal/hydrationexecutor/executor.go: `Execute`. Places: its questions about
--                  paths (`ensureRealDestinationWithinRoot`, `samePath`, `pathsOverlap`). Checks: the
--                  first loop of `Execute`. Stages: `clone`, split at its switch; `prepare` is what
--                  comes before the clone, `run_clone` the clone, `put_in_place` what follows. Trace
--                  says what a run may do to a disk, and
--                  Calls, Preparing, Placing and Safety follow the code through it.
--                  CloneStrategy/Cloning is `FullClone.Clone`.
--   EnvBinding     internal/envbinding/envbinding.go: `Materialize`, `selectBindings`,
--                  `FakeProvider` and `WriteBundle`.
--
-- What is not code of the repository is a parameter. `Host` is the machine as one command finds
-- it: the calls of the package os, the working directory, the parser of net/url, the Unicode tables
-- and strconv.Quote. `Policy.Tools` is the YAML decoder and Git's test of a branch name. A detector
-- of tools is a function. The theorems hold for every such machine, so no fact about a file system
-- is assumed; where a plan looks at the disk twice, it finds the same both times. `Disk` is a file
-- system that changes, and git: its worlds are any type, each world answers as a `Host`, and a call
-- gives its result and the world after it. What others do to the disk in the meantime is not in
-- the model, but nothing is assumed of the world that a call leaves, so a call may change anything.
--
-- All loops of the modelled code but one go over lists or over the elements of a path, and are
-- structural recursion. The loop of `importTempAlias` and `importRollbackAlias`, which counts up
-- until an alias is free, gets as many rounds as there are aliases in use and one more. Numbers of
-- rows are natural numbers without a bound, as SQLite's row ids are assumed not to run out. An
-- error is a constructor with the values its message names; the wording of the message is modelled
-- only where the program searches it, in HydrationPlanner/Drifting.
--
-- Three limits of what is modelled. A letter outside ASCII is not lowered, so the identity of a
-- remote with such a host is not the program's. A URL has no RawPath, Opaque, ForceQuery or
-- RawFragment, so one with an escaped path such as "%2F" is not printed as Go prints it. And the
-- calls of the database succeed: the errors of BeginTx, Commit, Rollback, LastInsertId and
-- RowsAffected are left out, so a failed method is one that refuses.
--
-- Not modelled: the SQL text and the migrations, JSON encoding and decoding, the writing of
-- placeholders, the wording and redaction of errors, the command line and its output, and the
-- processes of agent runs.
pub mod Base
pub mod State
pub mod Disk
pub mod Host
pub mod GitOps
pub mod Manifest
pub mod CloneStrategy
pub mod Reconciliation
pub mod Toolchain
pub mod Policy
pub mod Placeholder
pub mod HydrationPlanner
pub mod HydrationExecutor
pub mod EnvBinding
mod Tests
