-- ===== src/Manifest/Plan/Change.antt =====
-- The change that `PlanImport` plans for one entry, and the reasons to refuse it.
use codemesh.Base.{
  ℕ, Text, txt, ◌==◌, ◌!=◌, Bool, not, ◌&&◌, Option, none, some, List, [], ◌∷◌, ◌++◌, is_empty,
  join, if◌then◌else◌,
}
use codemesh.Host.{Host}
use codemesh.State.{Project}
use codemesh.Manifest.Entries.{ProjectEntry}
use codemesh.Manifest.Entries.Hints.{clone_url_for_plan}
use codemesh.Manifest.Locations.{
  Reason, alias_taken, path_requested, path_nests, nested_desired_path_conflict,
  canonical_path_for_comparison, path_is_missing, path_conflict_reason,
}
use codemesh.Manifest.Plan.Registry.{
  Ledger, project_canonical_path, registered_elsewhere, other_owner, first_reason,
}

pub data ChangeAction : Type 0 where
  add update unchanged conflict : ChangeAction

pub data Field : Type 0 where
  alias canonical_path source local_path clone_url : Field

pub record FieldChange : Type 0 where
  pub field : Field
  pub current : Text
  pub desired : Text

pub record ImportChange : Type 0 where
  pub action : ChangeAction
  pub project_id : ℕ
  pub identity : Text
  pub alias : Text
  pub desired_path : Text
  pub local_path : Text
  pub canonical_path : Text
  pub clone_url : Text
  pub fields : List FieldChange
  pub conflict_reason : Option Reason

unfoldable pub refuse : ImportChange → Reason → ImportChange
refuse c r = record c { action = conflict; conflict_reason = some r }

-- A field of the registry that the manifest changes.
unfoldable pub field_change : Bool → Field → Text → Text → List FieldChange
field_change changes f current desired =
    if changes then record { field = f; current = current; desired = desired } ∷ [] else []

module _ (h : Host) where
  -- The path that an entry desires, as text and in the form that is compared.
  unfoldable pub desired_local_path : Text → Text → Text
  desired_local_path root path = join (root ∷ path ∷ [])

  unfoldable pub desired_compare_path : Text → Text → Text
  desired_compare_path root path =
      canonical_path_for_comparison h (join (canonical_path_for_comparison h root ∷ path ∷ []))

  unfoldable pub new_change : Text → ProjectEntry → ImportChange
  new_change root p = record {
    action = conflict;
    project_id = 0;
    identity = p.identity;
    alias = p.alias;
    desired_path = p.desired_path;
    local_path = desired_local_path root p.desired_path;
    canonical_path = desired_local_path root p.desired_path;
    clone_url = if is_empty p.clone_hint then p.identity else p.clone_hint;
    fields = [];
    conflict_reason = none;
  }

  -- The refusals that come before the registry is asked for the identity.
  unfoldable pub alias_refusal : Ledger → ProjectEntry → Option Reason
  alias_refusal l p = elim (other_owner l.alias_owner p.alias p.identity) [
    | none ↦ none
    | some owner ↦ some (alias_taken p.alias owner)
  ]

  unfoldable pub path_refusal : Text → Ledger → ProjectEntry → Option Reason
  path_refusal root l p =
      let path = desired_compare_path root p.desired_path in
      elim (other_owner l.seen_paths path p.identity) [
        | some owner ↦ some (path_requested owner)
        | none ↦ elim (nested_desired_path_conflict l.seen_paths path p.identity) [
          | some (owner, nested) ↦ some (path_nests nested owner)
          | none ↦ none
        ]
      ]

  -- An identity that the registry does not have.
  unfoldable pub new_refusal : Text → Ledger → ProjectEntry → Option Reason
  new_refusal root l p =
      first_reason
        (registered_elsewhere l.by_path (desired_compare_path root p.desired_path) p.identity)
        (path_conflict_reason h (desired_local_path root p.desired_path) root)

  -- An identity that the registry has: only a path that changes can be in the way.
  unfoldable pub moves : Text → ProjectEntry → Project → Bool
  moves root p project =
      canonical_path_for_comparison h (project_canonical_path project)
      != desired_compare_path root p.desired_path

  unfoldable pub known_refusal : Text → Ledger → ProjectEntry → Project → Option Reason
  known_refusal root l p project =
      let path = desired_compare_path root p.desired_path in
      let in_the_way =
        if canonical_path_for_comparison h project.local_path == path
        then none
        else path_conflict_reason h (desired_local_path root p.desired_path) root in
      if moves root p project
      then first_reason (registered_elsewhere l.by_path path p.identity) in_the_way
      else none

  -- What the import writes for a project that the registry has.
  unfoldable pub known_local_path : Text → ProjectEntry → Project → Text
  known_local_path root p project =
      if project.source == txt "canonical"
        && project.local_path == project_canonical_path project
        && path_is_missing h project.local_path
      then desired_local_path root p.desired_path
      else project.local_path

  unfoldable pub known_change : Text → ProjectEntry → Project → ImportChange
  known_change root p project =
      let desired = desired_local_path root p.desired_path in
      let local = known_local_path root p project in
      let moved = moves root p project in
      let current = project_canonical_path project in
      let hinted = not (is_empty p.clone_hint) in
      let fields =
        field_change (project.alias != p.alias) Field.alias project.alias p.alias
        ++ field_change moved Field.canonical_path current desired
        ++ field_change (project.source == txt "local-only") Field.source project.source
            (txt "canonical")
        ++ field_change (project.local_path != local) Field.local_path project.local_path local
        ++ field_change (hinted && project.clone_url != p.clone_hint) Field.clone_url
            (clone_url_for_plan h project.clone_url) p.clone_hint in
      record (new_change root p) {
        action = if is_empty fields then unchanged else update;
        project_id = project.id;
        local_path = local;
        canonical_path = if moved then desired else current;
        clone_url = if hinted then p.clone_hint else project.clone_url;
        fields = fields;
      }

  unfoldable pub known_conflict : Text → ProjectEntry → Project → ImportChange
  known_conflict root p project = record (known_change root p project) {
    fields = field_change (project.alias != p.alias) Field.alias project.alias p.alias;
  }
