-- ===== src/HydrationPlanner/Drifting.antt =====
-- `PlanEntries`: the actions that follow from the drifts of a dry run.
use codemesh.Base.{
  Text, txt, Bool, true, false, none, some, List, [], ◌∷◌, ◌++◌, is_empty, trim_space, contains,
  if◌then◌else◌, Result, ok, ◌>>=◌, map_err, Dict, lookup, insert,
}
use codemesh.Host.{Host}
use codemesh.GitOps.{redact_url_for_metadata}
use codemesh.State.{Project}
use codemesh.Manifest.Entries.{Entry}
use codemesh.Manifest.Locations.{
  Reason, duplicate_identity, outside_root, alias_taken, path_requested, path_nests,
  path_registered, path_exists, root_exists, root_not_empty, path_unchecked, root_unchecked,
  parent_unchecked, parent_not_directory,
}
use codemesh.CloneStrategy.{Options, full_clone_selection, selection_for_options}
use codemesh.Policy.{Tools}
use codemesh.Placeholder.{Json}
use codemesh.Reconciliation.{build_dry_run_plan}
use codemesh.Reconciliation.Drifts.{
  DriftKind, added, missing, moved, conflicting, unchanged, DriftReason, no_reason, conflict,
  absent_from_manifest, Drift, Machine,
}
use codemesh.HydrationPlanner.{
  PlannerError, dry_run_failed, classify_project, required_workspace_root, empty_plan,
}
use codemesh.HydrationPlanner.Actions.{
  State, Action, Plan, state_present, state_missing, state_path_conflict, state_unsafe_path,
  action_none, action_clone, action_refuse, of_drift, add_action, sort_actions,
}

module _ (h : Host) where
  -- The message of a conflict, with `%q` for the values that it names.
  unfoldable pub message : Reason → Text
  message (duplicate_identity i) =
      txt "identity " ++ h.quote i ++ txt " appears more than once in the manifest"
  message outside_root = txt "desired path resolves outside workspace root"
  message (alias_taken a o) = txt "alias " ++ h.quote a ++ txt " already belongs to " ++ h.quote o
  message (path_requested o) = txt "desired path already requested by " ++ h.quote o
  message (path_nests p o) =
      txt "desired path nests with project path " ++ h.quote p ++ txt " owned by " ++ h.quote o
  message (path_registered o) = txt "desired path is already registered to " ++ h.quote o
  message path_exists = txt "desired path already exists outside the Project Registry"
  message root_exists =
      txt "workspace root exists outside the Project Registry and is not a directory"
  message root_not_empty = txt "workspace root already contains files outside the Project Registry"
  message (path_unchecked m) = txt "desired path could not be checked safely: " ++ m
  message (root_unchecked m) = txt "workspace root could not be checked safely: " ++ m
  message (parent_unchecked m) = txt "desired path parent could not be checked safely: " ++ m
  message (parent_not_directory p) =
      txt "desired path parent " ++ h.quote p ++ txt " exists and is not a directory"

  unfoldable pub drift_message : DriftReason → Text
  drift_message no_reason = []
  drift_message (conflict reason) = message reason
  drift_message absent_from_manifest =
      txt "project is present in the local Project Registry but absent from the Workspace Manifest"

  -- The state of a conflict goes by what its message contains.
  unfoldable pub conflict_state : DriftReason → State
  conflict_state reason =
      if contains (drift_message reason) (txt "outside workspace root")
      then state_unsafe_path
      else state_path_conflict

  -- `cloneURLForDrift`
  unfoldable pub clone_url_for_drift : Drift → Text
  clone_url_for_drift d = if is_empty (trim_space d.clone_url) then d.identity else d.clone_url

  unfoldable pub drift_action : Drift → Options → Action
  drift_action d options = record {
    project = d.alias;
    project_id = d.project_id;
    identity = d.identity;
    path = d.desired_local_path;
    observed_path = d.observed_local_path;
    canonical_path = d.desired_local_path;
    clone_url = redact_url_for_metadata h (clone_url_for_drift d);
    source = txt "canonical";
    local_only_paths = [];
    state = state_missing;
    action = action_none;
    reason = of_drift no_reason;
    path_present = false;
    clone_strategy = selection_for_options options;
    project_row = record {
      id = d.project_id;
      alias = d.alias;
      normalized_remote = d.identity;
      clone_url = clone_url_for_drift d;
      local_path = d.desired_local_path;
      canonical_path = d.desired_local_path;
      source = txt "canonical";
    };
  }

  abbrev pub present_action : Action → Action
  present_action a = record a {
    state = state_present;
    action = action_none;
    path_present = true;
    clone_strategy = full_clone_selection;
  }

  -- The switch on the kind of a drift.
  unfoldable pub by_kind : DriftKind → Drift → Action → Action
  by_kind unchanged d a = present_action a
  by_kind missing d a = record a { state = state_missing; action = action_clone }
  by_kind moved d a = record a { state = state_missing; action = action_clone }
  by_kind conflicting d a = record a {
    state = conflict_state d.reason;
    action = action_refuse;
    path_present = true;
    reason = of_drift d.reason;
  }
  by_kind added d a = record (present_action a) { path = d.observed_local_path }

  -- `actionFromDrift`
  unfoldable pub action_from_drift : Drift → Options → Action
  action_from_drift d options = by_kind d.kind d (drift_action d options)

  -- `byIdentity`
  unfoldable pub index_identities : Dict Project → List Project → Dict Project
  index_identities d [] = d
  index_identities d (p ∷ ps) = index_identities (insert p.normalized_remote p d) ps

  -- A drift whose project is classified by its path, with what the manifest desires.
  abbrev pub is_placed : DriftKind → Bool
  is_placed unchanged = true
  is_placed moved = true
  is_placed _ = false

  abbrev pub desired_row : Project → Drift → Project
  desired_row p d = record p {
    canonical_path = d.desired_local_path;
    clone_url = d.clone_url;
    source = txt "canonical";
  }

  module _ (t : Tools) (j : Json) where
    -- The body of the loop of `PlanEntries`.
    unfoldable pub plan_drift : Text → Options → Dict Project → Drift → Action
    plan_drift root options by_identity d =
        if is_placed d.kind
        then elim (lookup d.identity by_identity) [
          | some p ↦ classify_project h t j (desired_row p d) root options
          | none ↦ action_from_drift d options
        ]
        else action_from_drift d options

    unfoldable pub plan_drifts : Text → Options → Dict Project → List Drift → Plan → Plan
    plan_drifts root options by_identity [] plan = plan
    plan_drifts root options by_identity (d ∷ ds) plan =
        plan_drifts root options by_identity ds
          (add_action plan (plan_drift root options by_identity d))

    -- `PlanEntries`
    unfoldable pub plan_entries :
        List Entry → List Project → List Machine → Options → Result PlannerError Plan
    plan_entries entries projects machines options = do
      root ← required_workspace_root h t j machines
      drifts ←
          map_err dry_run_failed
            (build_dry_run_plan h entries projects (record { workspace_root = root }))
      ok (
          sort_actions (
            plan_drifts drifts.workspace_root options (index_identities [] projects) drifts.drifts
              (empty_plan h t j drifts.workspace_root)))
