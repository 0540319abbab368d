-- ===== src/HydrationPlanner.antt =====
-- internal/hydrationplanner/planner.go: what a hydration would do with each project.
pub mod Actions
pub mod Drifting
pub mod CloneSafety
pub mod Blocked
use codemesh.Base.{
  Text, txt, ◌==◌, Bool, true, false, not, ◌&&◌, ◌||◌, Option, none, some, List, [], ◌∷◌, ◌++◌,
  is_empty, trim_space, clean, has_prefix, join, text_lt, sort, if◌then◌else◌, Result, ok, err,
  ◌>>=◌, ◌>>◌, map_err,
}
use codemesh.Host.{Host, FileKind, found, not_exist, failed, directory, regular}
use codemesh.GitOps.{abs, redact_url_for_metadata}
use codemesh.State.{Project}
use codemesh.Manifest.Entries.{Entry}
use codemesh.Manifest.Locations.{Reason, path_within_root, parent_path_conflict_reason}
use codemesh.CloneStrategy.{Options, full_clone_selection, selection_for_options}
use codemesh.Policy.{PathRule, Tools, resolve}
use codemesh.Placeholder.{Json, Metadata, is, owned_by}
use codemesh.Reconciliation.{build_dry_run_plan}
use codemesh.Reconciliation.Drifts.{Machine, DryRunError}
use Actions.{
  State, ActionKind, ActionReason, Action, Plan, state_present, state_placeholder, state_missing,
  state_path_conflict, state_unsafe_path, state_unknown_project, action_none, action_clone,
  action_refuse, no_reason, outside_root, policy_failed, source_unchecked, placeholder_failed,
  placeholder_mismatch, placeholder_changed, placeholder_only, unreadable_path, not_empty,
  not_directory, parent_conflict, path_unchecked, unknown_project, refuse, add_action,
  with_placement_defaults, hydration_path, clone_url_for_project, sort_actions,
}

pub data PlannerError : Type 0 where
  name_required no_working_dir : PlannerError
  dry_run_failed : DryRunError → PlannerError

module _ (h : Host) (t : Tools) (j : Json) where
  -- `localOnlyPathsForProject`
  unfoldable pub local_only_paths_for_project : Text → Result ActionReason (List PathRule)
  local_only_paths_for_project path =
      map_err policy_failed (resolve h t path) >>= λ policy. ok policy.local_only

  -- `localOnlyPathsForObservedSource`
  unfoldable pub local_only_paths_for_observed_source :
      Project → Text → Result ActionReason (List PathRule)
  local_only_paths_for_observed_source project target =
      let observed = clean (trim_space project.local_path) in
      if is_empty observed || observed == clean target then ok [] else elim (h.lstat observed) [
        | not_exist ↦ ok []
        | failed message ↦ err (source_unchecked message)
        | found directory ↦ local_only_paths_for_project observed
        | found _ ↦ ok []
      ]

  -- `isGitCheckoutPath`
  unfoldable pub is_git_checkout_path : Text → Bool
  is_git_checkout_path path =
      let git_path = join (path ∷ txt ".git" ∷ []) in
      elim (h.lstat git_path) [
        | found directory ↦ true
        | found regular ↦ elim (h.read_file git_path) [
          | found bytes ↦ has_prefix (trim_space bytes) (txt "gitdir:")
          | _ ↦ false
        ]
        | _ ↦ false
      ]

  -- The action of a project before its path is looked at. Go leaves the state and the kind of the
  -- action empty here; every branch that follows sets both.
  unfoldable pub new_action : Options → Project → Action
  new_action options p = record {
    project = p.alias;
    project_id = p.id;
    identity = p.normalized_remote;
    path = hydration_path p;
    observed_path = p.local_path;
    canonical_path = p.canonical_path;
    clone_url = redact_url_for_metadata h (clone_url_for_project p);
    source = p.source;
    local_only_paths = [];
    state = state_missing;
    action = action_none;
    reason = no_reason;
    path_present = false;
    clone_strategy = selection_for_options options;
    project_row = record p { local_path = hydration_path p; clone_url = clone_url_for_project p };
  }

  -- A directory with no checkout and no placeholder, or something that is no directory.
  unfoldable pub classify_plain : Action → FileKind → Text → Action
  classify_plain a directory path = elim (h.read_dir path) [
    | found [] ↦ record a { state = state_missing; action = action_clone }
    | found (_ ∷ _) ↦ refuse a state_path_conflict not_empty
    | not_exist ↦ refuse a state_path_conflict (unreadable_path path [])
    | failed message ↦ refuse a state_path_conflict (unreadable_path path message)
  ]
  classify_plain a _ path = refuse a state_path_conflict not_directory

  unfoldable pub classify_placeholder : Action → Project → Metadata → Text → Action
  classify_placeholder a p m path =
      if not (m.project == p.alias && m.identity == p.normalized_remote)
      then refuse a state_path_conflict placeholder_mismatch
      else elim (owned_by h j path p.alias p.normalized_remote) [
        | err e ↦ refuse a state_path_conflict (placeholder_failed e)
        | ok false ↦ refuse a state_path_conflict placeholder_changed
        | ok true ↦ record a {
          state = state_placeholder;
          action = action_clone;
          reason = placeholder_only;
        }
      ]

  unfoldable pub classify_checked : Action → Project → FileKind → Text → Action
  classify_checked a p k path =
      if is_git_checkout_path path
      then record a {
        state = state_present;
        action = action_none;
        clone_strategy = full_clone_selection;
      }
      else elim (is h j path) [
        | err e ↦ refuse a state_path_conflict (placeholder_failed e)
        | ok (some m) ↦ classify_placeholder a p m path
        | ok none ↦ classify_plain a k path
      ]

  -- Something is at the path.
  unfoldable pub classify_present : Action → Project → FileKind → Text → Action
  classify_present a p directory path = elim (local_only_paths_for_project path) [
    | err e ↦ refuse a state_path_conflict e
    | ok rules ↦ classify_checked (record a { local_only_paths = rules }) p directory path
  ]
  classify_present a p k path = classify_checked a p k path

  -- Nothing is at the path. `parentConflictReason` is `parentPathConflictReason` again.
  unfoldable pub parent_conflict_reason : Text → Option Reason
  parent_conflict_reason path = parent_path_conflict_reason h path

  unfoldable pub classify_absent : Action → Project → Text → Action
  classify_absent a p path = elim (parent_conflict_reason path) [
    | some reason ↦ refuse a state_path_conflict (parent_conflict reason)
    | none ↦ elim (local_only_paths_for_observed_source p path) [
      | err e ↦ refuse a state_path_conflict e
      | ok rules ↦ record a {
        local_only_paths = rules;
        state = state_missing;
        action = action_clone;
      }
    ]
  ]

  unfoldable pub classify_path : Action → Project → Text → Action
  classify_path a p path = elim (h.lstat path) [
    | found k ↦ classify_present (record a { path_present = true }) p k path
    | not_exist ↦ classify_absent a p path
    | failed message ↦
        refuse (record a { path_present = true }) state_path_conflict (path_unchecked message)
  ]

  -- `classifyProject`
  unfoldable pub classify_project : Project → Text → Options → Action
  classify_project project root options =
      let p = with_placement_defaults project in
      let a = new_action options p in
      let outside =
        not (is_empty root)
        && p.source == txt "canonical"
        && not (path_within_root h root (hydration_path p)) in
      if outside
      then refuse a state_unsafe_path outside_root
      else classify_path a p (hydration_path p)

  -- `requiredWorkspaceRoot`, and `workspaceRoot` on a store that may not list machines
  unfoldable pub required_workspace_root : List Machine → Result PlannerError Text
  required_workspace_root [] = ok []
  required_workspace_root (m ∷ ms) =
      let root = trim_space m.workspace_root in
      if is_empty root
      then ok []
      else elim (abs h root) [ none ↦ err no_working_dir | some a ↦ ok (clean a) ]

  unfoldable pub workspace_root : Option (List Machine) → Result PlannerError Text
  workspace_root none = ok []
  workspace_root (some machines) = required_workspace_root machines

  unfoldable pub classify_all : Text → Options → List Project → Plan → Plan
  classify_all root options [] plan = plan
  classify_all root options (p ∷ ps) plan =
      classify_all root options ps (add_action plan (classify_project p root options))

  abbrev pub empty_plan : Text → Plan
  empty_plan root = record { workspace_root = root; blocked = false; actions = [] }

  -- `PlanAll`
  unfoldable pub plan_all :
      List Project → Option (List Machine) → Options → Result PlannerError Plan
  plan_all projects machines options = do
    root ← workspace_root machines
    ok (sort_actions (classify_all root options projects (empty_plan root)))

  unfoldable pub unknown_action : Text → Action
  unknown_action alias = record {
    project = alias;
    project_id = 0;
    identity = [];
    path = [];
    observed_path = [];
    canonical_path = [];
    clone_url = [];
    source = [];
    local_only_paths = [];
    state = state_unknown_project;
    action = action_refuse;
    reason = unknown_project alias;
    path_present = false;
    clone_strategy = record {
      name = [];
      history = [];
      working_tree = [];
      filter = [];
      sparse_paths = [];
    };
    project_row = record {
      id = 0;
      alias = [];
      normalized_remote = [];
      clone_url = [];
      local_path = [];
      canonical_path = [];
      source = [];
    };
  }

  -- The loop of `PlanProject`: the first project of that alias.
  unfoldable pub action_for_alias : Text → Text → Options → List Project → Action
  action_for_alias alias root options [] = unknown_action alias
  action_for_alias alias root options (p ∷ ps) =
      let rest = action_for_alias alias root options ps in
      if p.alias == alias then classify_project p root options else rest

  -- `PlanProject`
  unfoldable pub plan_project :
      Text → List Project → Option (List Machine) → Options → Result PlannerError Plan
  plan_project raw projects machines options =
      let alias = trim_space raw in
      if is_empty alias then err name_required else do
        root ← workspace_root machines
        ok (add_action (empty_plan root) (action_for_alias alias root options projects))
