-- ===== src/HydrationPlanner/Actions.antt =====
-- The actions of a hydration plan, and the small functions on projects of the planner.
use codemesh.Base.{
  ℕ, Text, txt, ◌==◌, Bool, true, false, ◌||◌, List, [], ◌∷◌, ◌++◌, is_empty, trim_space, text_lt,
  sort, if◌then◌else◌, ◌≡◌, refl, ◌⊎◌, inl, inr,
}
use codemesh.State.{Project}
use codemesh.CloneStrategy.{Selection}
use codemesh.Manifest.Locations.{Reason}
use codemesh.Policy.{PathRule, PolicyError}
use codemesh.Placeholder.{PlaceholderError}
use codemesh.Reconciliation.Drifts.{DriftReason}

pub data State : Type 0 where
  state_present state_placeholder state_missing state_path_conflict : State
  state_unsafe_path state_unknown_project : State

pub data ActionKind : Type 0 where
  action_none action_clone action_refuse : ActionKind

-- What the reason of an action says, with what its message names.
pub data ActionReason : Type 0 where
  no_reason outside_root placeholder_mismatch placeholder_changed placeholder_only : ActionReason
  not_empty not_directory : ActionReason
  policy_failed : PolicyError → ActionReason
  placeholder_failed : PlaceholderError → ActionReason
  source_unchecked path_unchecked unknown_project : Text → ActionReason
  unreadable_path : Text → Text → ActionReason
  parent_conflict : Reason → ActionReason
  of_drift : DriftReason → ActionReason

pub record Action : Type 0 where
  pub project : Text
  pub project_id : ℕ
  pub identity : Text
  pub path : Text
  pub observed_path : Text
  pub canonical_path : Text
  pub clone_url : Text
  pub source : Text
  pub local_only_paths : List PathRule
  pub state : State
  pub action : ActionKind
  pub reason : ActionReason
  pub path_present : Bool
  pub clone_strategy : Selection
  pub project_row : Project

pub record Plan : Type 0 where
  pub workspace_root : Text
  pub blocked : Bool
  pub actions : List Action

unfoldable pub refuse : Action → State → ActionReason → Action
refuse a s r = record a { state = s; action = action_refuse; reason = r }

abbrev pub is_refusal : ActionKind → Bool
is_refusal action_refuse = true
is_refusal _ = false

pub ActionKind-cases :
    (k : ActionKind) → (k ≡ action_none) ⊎ ((k ≡ action_clone) ⊎ (k ≡ action_refuse))
ActionKind-cases action_none = inl refl
ActionKind-cases action_clone = inr (inl refl)
ActionKind-cases action_refuse = inr (inr refl)

-- `addAction`
unfoldable pub add_action : Plan → Action → Plan
add_action plan a = record plan {
  blocked = is_refusal a.action || plan.blocked;
  actions = plan.actions ++ a ∷ [];
}

-- `sortActions`
abbrev pub before : Action → Action → Bool
before a b =
    if a.project == b.project then text_lt a.identity b.identity else text_lt a.project b.project

unfoldable pub sort_actions : Plan → Plan
sort_actions plan = record plan { actions = sort before plan.actions }

-- `cloneURLForProject`
unfoldable pub clone_url_for_project : Project → Text
clone_url_for_project p =
    if is_empty (trim_space p.clone_url) then p.normalized_remote else p.clone_url

-- `withPlacementDefaults`
unfoldable pub with_placement_defaults : Project → Project
with_placement_defaults p = record p {
  canonical_path =
      if is_empty (trim_space p.canonical_path) then p.local_path else p.canonical_path;
  source = if trim_space p.source == txt "canonical" then txt "canonical" else txt "local-only";
  clone_url = if is_empty p.clone_url then p.normalized_remote else p.clone_url;
}

-- `hydrationPath`
unfoldable pub hydration_path : Project → Text
hydration_path p =
    if p.source == txt "canonical"
    then if is_empty (trim_space p.canonical_path) then p.local_path else p.canonical_path
    else p.local_path
