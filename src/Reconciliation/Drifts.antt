-- ===== src/Reconciliation/Drifts.antt =====
-- The drifts, the blockers and the plan of a dry run, and what the loops of `BuildDryRunPlan` add to
-- a plan.
use codemesh.Base.{
  ℕ, Text, ◌==◌, Bool, true, List, [], ◌∷◌, ◌++◌, is_empty, clean, if◌then◌else◌, Result, ok, err,
  sort, text_lt,
}
use codemesh.State.{Project}
use codemesh.Manifest.Entries.{Entry, ProjectEntry}
use codemesh.Manifest.Entries.Hints.{EntryError}
use codemesh.Manifest.Locations.{Reason}
use codemesh.Manifest.Plan.Registry.{Ledger, project_canonical_path, in_manifest}

pub data DriftKind : Type 0 where
  added missing moved conflicting unchanged : DriftKind

pub data BlockerKind : Type 0 where
  path_conflict alias_conflict manifest_conflict : BlockerKind

-- Why a drift is there: a conflict, or a project that the manifest does not have.
pub data DriftReason : Type 0 where
  no_reason : DriftReason
  conflict : Reason → DriftReason
  absent_from_manifest : DriftReason

pub record Drift : Type 0 where
  pub kind : DriftKind
  pub project_id : ℕ
  pub identity : Text
  pub alias : Text
  pub desired_path : Text
  pub desired_local_path : Text
  pub observed_local_path : Text
  pub clone_url : Text
  pub reason : DriftReason

pub record Blocker : Type 0 where
  pub kind : BlockerKind
  pub identity : Text
  pub alias : Text
  pub path : Text
  pub reason : Reason

pub record DriftPlan : Type 0 where
  pub workspace_root : Text
  pub blocked : Bool
  pub drifts : List Drift
  pub blockers : List Blocker

pub record Machine : Type 0 where
  pub workspace_root : Text

pub data DryRunError : Type 0 where
  root_required no_working_dir machine_required : DryRunError
  invalid_entry : EntryError → DryRunError

-- `addConflict`
unfoldable pub add_conflict : DriftPlan → Drift → BlockerKind → Text → Reason → DriftPlan
add_conflict plan drift kind path reason = record plan {
  blocked = true;
  drifts = plan.drifts ++ record drift { kind = conflicting; reason = conflict reason } ∷ [];
  blockers =
      plan.blockers
      ++ record {
        kind = kind;
        identity = drift.identity;
        alias = drift.alias;
        path = path;
        reason = reason;
      }
        ∷ [];
}

unfoldable pub add_drift : DriftPlan → Drift → DriftPlan
add_drift plan drift = record plan { drifts = plan.drifts ++ drift ∷ [] }

-- `localMachine`
unfoldable pub local_machine : List Machine → Result DryRunError Machine
local_machine [] = err machine_required
local_machine (m ∷ ms) = ok m

-- `sortedProjects`
unfoldable pub sorted_projects : List Project → List Project
sorted_projects = sort (λ p q.
    if p.local_path == q.local_path
    then text_lt p.normalized_remote q.normalized_remote
    else text_lt p.local_path q.local_path)

-- `cloneURLFor`
unfoldable pub clone_url_for : ProjectEntry → Text
clone_url_for p = if is_empty p.clone_hint then p.identity else p.clone_hint

-- The drift of a project that the manifest does not have.
unfoldable pub added_drift : Project → Drift
added_drift p = record {
  kind = added;
  project_id = p.id;
  identity = p.normalized_remote;
  alias = p.alias;
  desired_path = [];
  desired_local_path = clean (project_canonical_path p);
  observed_local_path = p.local_path;
  clone_url = [];
  reason = absent_from_manifest;
}

-- The loop over the registry that ends `BuildDryRunPlan`.
unfoldable pub add_absent : List Entry → List Project → DriftPlan → DriftPlan
add_absent es [] plan = plan
add_absent es (p ∷ ps) plan =
    add_absent es ps
      (if in_manifest es p.normalized_remote then plan else add_drift plan (added_drift p))

-- The loop's state: the maps of the registry, and the plan so far.
pub record Run : Type 0 where
  pub ledger : Ledger
  pub plan : DriftPlan

unfoldable pub conflict_run : Run → Drift → BlockerKind → Text → Reason → Run
conflict_run r drift kind path reason = record r {
  plan = add_conflict r.plan drift kind path reason;
}

unfoldable pub drift_run : Run → Drift → DriftKind → Run
drift_run r drift kind = record r { plan = add_drift r.plan (record drift { kind = kind }) }
