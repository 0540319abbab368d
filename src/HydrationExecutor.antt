-- ===== src/HydrationExecutor.antt =====
-- internal/hydrationexecutor/executor.go: carrying out a hydration plan.
pub mod Places
pub mod Checks
pub mod Stages
pub mod Trace
pub mod Tracing
pub mod Calls
pub mod Preparing
pub mod Placing
pub mod Safety
pub mod Apart
pub mod Reports
use codemesh.Base.{
  ℕ, Text, txt, ◌==◌, Bool, true, false, not, ◌&&◌, Option, none, some, List, [], ◌∷◌, ◌++◌,
  is_empty, trim_space, clean, join, dir, base, if◌then◌else◌, Result, ok, err, map_err, Dict,
  insert,
}
use codemesh.Host.{Host, found, not_exist, failed, directory}
use codemesh.Disk.{Disk, Io, ◌>>=◌, done, fail, failing, accept, asking, look, or_discard}
use codemesh.State.{Project}
use codemesh.GitOps.{normalize_remote_from, remote_matches_source, redact_url_for_metadata}
use codemesh.CloneStrategy.{Selection, Options}
use codemesh.CloneStrategy.Cloning.{Request, full_clone}
use codemesh.Placeholder.{Json, owned_by, owned_by_allowing, sentinel_files}
use codemesh.HydrationPlanner.Actions.{
  Action, Plan, State, state_present, state_placeholder, action_none, action_clone, action_refuse,
}
use Places.{
  ExecuteError, SystemError, ConflictReason, no_match, is_no_directory, local_changes, is_not_empty,
  changed_while_cloning, placeholder_changed_while_cloning, planned_for, ownership_unknown,
  plan_blocked, refused, path_conflict, path_unchecked, unreadable, no_temp, no_parent, not_moved,
  temp_not_removed, sentinel_not_removed, placeholder_not_removed, clone_failed, required,
  overlapping, ensure_real_destination_within_root, same_path, dir_is_empty, dir_is_empty_except,
}
use Checks.{preflight}
use Stages.{prepare, check_again, run_clone, put_in_place}

pub record ClonedProject : Type 0 where
  pub project : Text
  pub project_id : ℕ
  pub remote : Text
  pub clone_url : Text
  pub path : Text
  pub clone_strategy : Selection

-- The project of an action, with the path and the URL that stand in for missing ones.
unfoldable pub project_to_clone : Action → Project
project_to_clone a =
    let p = a.project_row in
    record p {
      local_path = if is_empty p.local_path then a.path else p.local_path;
      clone_url = if is_empty p.clone_url then p.normalized_remote else p.clone_url;
    }

module _ {W : Type 0} (disk : Disk W) (j : Json) where
  unfoldable pub clone_report : Action → Project → Selection → Io W ExecuteError ClonedProject
  clone_report a p selection = look disk (λ h. ok (record {
    project = p.alias;
    project_id = a.project_id;
    remote = p.normalized_remote;
    clone_url = redact_url_for_metadata h p.clone_url;
    path = p.local_path;
    clone_strategy = selection;
  }))

  -- `clone`
  unfoldable pub clone : Text → Action → Options → Io W ExecuteError ClonedProject
  clone root a options =
      let p = project_to_clone a in
      do
        prepared ← prepare disk j root a.state p
        _ ← check_again disk j root prepared p
        selection ← run_clone disk j prepared p options
        _ ← put_in_place disk j prepared p
        clone_report a p selection

  -- The second loop of `Execute`.
  unfoldable pub clone_all :
      Text
      → Options
      → List ClonedProject
      → List Action
      → W
      → (List ClonedProject × Option ExecuteError) × W
  clone_all root options cloned [] w = ((cloned, none), w)
  clone_all root options cloned (a ∷ actions) w = elim a.action [
    | action_clone ↦
        let (r, w') = clone root a options w in
        elim r [
          | ok c ↦ clone_all root options (cloned ++ c ∷ []) actions w'
          | err e ↦ ((cloned, some e), w')
        ]
    | _ ↦ clone_all root options cloned actions w
  ]

  unfoldable pub first_refusal : List Action → ExecuteError
  first_refusal [] = plan_blocked
  first_refusal (a ∷ actions) = elim a.action [
    | action_refuse ↦ refused a
    | _ ↦ first_refusal actions
  ]

  -- `Execute`: what was cloned, the error if one ended the run, and the world after it.
  unfoldable pub execute : Plan → Options → W → (List ClonedProject × Option ExecuteError) × W
  execute plan options w =
      if plan.blocked
      then (([], some (first_refusal plan.actions)), w)
      else let (r, w') = preflight disk j [] plan.actions w in
        elim r [
          | err e ↦ (([], some e), w')
          | ok _ ↦ clone_all plan.workspace_root options [] plan.actions w'
        ]
