-- ===== src/Manifest/Apply.antt =====
-- internal/workspacemanifest/manifest.go: how the changes of an import plan reach a store.
pub mod Aliases
pub mod Fresh
pub mod Store
pub mod Atomic
pub mod Rows
pub mod Effect
pub mod Targets
pub mod Outcome
use codemesh.Base.{
  ℕ, ◌==◌, sort, Text, txt, Bool, true, false, Option, none, some, List, [], ◌∷◌, ◌++◌, map, keep,
  reverse, mem_text, any, is_empty, if◌then◌else◌, ◌=ℕ◌, Result, ok, err, ltb,
}
use codemesh.Host.{Host}
use codemesh.State.{Project, Table, StoreError, list_projects, with_transaction}
use codemesh.Manifest.Entries.{WorkspaceManifest, entries_from_workspace}
use codemesh.Manifest.Entries.Workspace.{WorkspaceError, validate_workspace}
use codemesh.Manifest.Locations.{Reason}
use codemesh.Manifest.Plan.{PlanError, plan_import}
use codemesh.Manifest.Plan.Change.{ImportChange, ChangeAction, add, update, unchanged, conflict}
use Aliases.{import_temp_alias, import_rollback_alias}
use Store.{ImportStore, sqlite}

-- The calls of the store on the way, which an error names.
pub data Stage : Type 0 where
  freeing updating adding : Stage

-- A call of the store that failed while changes were taken back.
pub data RollbackError (E : Type 0) : Type 0 where
  free_failed restore_failed delete_failed : ℕ → E → RollbackError E

pub data ApplyError (E : Type 0) : Type 0 where
  invalid_manifest : WorkspaceError → ApplyError E
  list_failed : E → ApplyError E
  plan_failed : PlanError → ApplyError E
  import_conflict : Text → Option Reason → ApplyError E
  call_failed : Stage → Text → E → List (RollbackError E) → ApplyError E

-- `ApplyImportResult`, without the plan.
pub record Applied : Type 0 where
  pub added_projects : List Project
  pub updated_projects : List Project

-- `importUpdateRollback`: the rows before the updates, by id.
pub record UpdateRollback : Type 0 where
  pub originals : List Project
  pub temp_renamed : List ℕ
  pub final_updated : List Project

-- `projectFromImportChange`
unfoldable pub project_from_import_change : ImportChange → Project
project_from_import_change c = record {
  id = c.project_id;
  alias = c.alias;
  normalized_remote = c.identity;
  clone_url = c.clone_url;
  local_path = c.local_path;
  canonical_path = c.canonical_path;
  source = txt "canonical";
}

abbrev pub is_update : ChangeAction → Bool
is_update update = true
is_update _ = false

abbrev pub is_add : ChangeAction → Bool
is_add add = true
is_add _ = false

-- `byID`: of two projects with one id the later one counts.
unfoldable pub last_with_id : List Project → ℕ → Option Project
last_with_id [] id = none
last_with_id (p ∷ ps) id = elim (last_with_id ps id) [
  | some q ↦ some q
  | none ↦ if p.id =ℕ id then some p else none
]

-- The rows of the projects that are updated.
unfoldable pub original_rows : List Project → List ImportChange → List Project
original_rows projects [] = []
original_rows projects (c ∷ cs) = elim (last_with_id projects c.project_id) [
  | none ↦ original_rows projects cs
  | some p ↦ p ∷ original_rows projects cs
]

-- The second loop of `applyImportUpdates`: the row with its temporary alias, for each project whose
-- alias changes. The map `tempAliases` is the list, and its first entry for an id counts.
unfoldable pub temp_rows :
    List Project → List Text → List Project → List ImportChange → List Project
temp_rows projects used temps [] = temps
temp_rows projects used temps (c ∷ cs) =
    let next = temp_rows projects used temps cs in
    elim (last_with_id projects c.project_id) [
      | none ↦ next
      | some p ↦ if p.alias == c.alias then next else elim (import_temp_alias c.project_id used) [
        | none ↦ next
        | some alias ↦ temp_rows projects (alias ∷ used) (record p { alias = alias } ∷ temps) cs
      ]
    ]

unfoldable pub first_with_id : List Project → ℕ → Option Project
first_with_id [] id = none
first_with_id (p ∷ ps) id = if p.id =ℕ id then some p else first_with_id ps id

-- The keys of `restoreIDs`, in their order.
unfoldable pub without_repeats : List ℕ → List ℕ
without_repeats [] = []
without_repeats (id ∷ ids) =
    let rest = without_repeats ids in if any (λ j. j =ℕ id) ids then rest else id ∷ rest

unfoldable pub restore_ids : UpdateRollback → List ℕ
restore_ids r =
    sort ltb (without_repeats (r.temp_renamed ++ map (λ (p : Project). p.id) r.final_updated))

module _ {E S : Type 0} (store : ImportStore E S) where
  -- The loop that frees the aliases: what failed, the ids that were renamed, and the store.
  unfoldable pub free_aliases :
      List Project → List ImportChange → List ℕ → S → Option (Text × E) × List ℕ × S
  free_aliases temps [] renamed s = (none, renamed, s)
  free_aliases temps (c ∷ cs) renamed s = elim (first_with_id temps c.project_id) [
    | none ↦ free_aliases temps cs renamed s
    | some row ↦
        let (r, s') = store.update_project c.project_id row s in
        elim r [
          | err e ↦ (some (c.alias, e), renamed, s')
          | ok _ ↦ free_aliases temps cs (renamed ++ c.project_id ∷ []) s'
        ]
  ]

  -- The loop that writes the rows.
  unfoldable pub write_updates :
      List ImportChange → List Project → S → Option (Text × E) × List Project × S
  write_updates [] updated s = (none, updated, s)
  write_updates (c ∷ cs) updated s =
      let (r, s') = store.update_project c.project_id (project_from_import_change c) s in
      elim r [
        | err e ↦ (some (c.alias, e), updated, s')
        | ok row ↦ write_updates cs (updated ++ row ∷ []) s'
      ]

  -- The first loop of `rollbackImportUpdates`.
  unfoldable pub free_for_rollback : List Text → List Project → S → List (RollbackError E) × S
  free_for_rollback used [] s = ([], s)
  free_for_rollback used (p ∷ ps) s = elim (import_rollback_alias p.id used) [
    | none ↦ free_for_rollback used ps s
    | some alias ↦
        let (r, s') = store.update_project p.id (record p { alias = alias }) s in
        let (errors, s'') = free_for_rollback (alias ∷ used) ps s' in
        elim r [ ok _ ↦ (errors, s'') | err e ↦ (free_failed p.id e ∷ errors, s'') ]
  ]

  -- Its second loop.
  unfoldable pub restore_rows : List Project → List ℕ → S → List (RollbackError E) × S
  restore_rows originals [] s = ([], s)
  restore_rows originals (id ∷ ids) s = elim (last_with_id originals id) [
    | none ↦ restore_rows originals ids s
    | some row ↦
        let (r, s') = store.update_project id row s in
        let (errors, s'') = restore_rows originals ids s' in
        elim r [ ok _ ↦ (errors, s'') | err e ↦ (restore_failed id e ∷ errors, s'') ]
  ]

  -- `rollbackImportUpdates`
  unfoldable pub rollback_import_updates : UpdateRollback → S → List (RollbackError E) × S
  rollback_import_updates r s =
      let used = map (λ (p : Project). p.alias) r.originals in
      let (freed, s') = free_for_rollback used r.final_updated s in
      let (restoring, s'') = restore_rows r.originals (restore_ids r) s' in
      (freed ++ restoring, s'')

  -- `importUpdateRollback.rollback`
  unfoldable pub roll_back : UpdateRollback → S → List (RollbackError E) × S
  roll_back r s = if is_empty r.originals then ([], s) else rollback_import_updates r s

  -- `rollbackImportAdds`, on the added projects from the last to the first
  unfoldable pub delete_added : List Project → S → List (RollbackError E) × S
  delete_added [] s = ([], s)
  delete_added (p ∷ ps) s =
      let (r, s') = store.delete_project p.id s in
      let (errors, s'') = delete_added ps s' in
      elim r [ ok _ ↦ (errors, s'') | err e ↦ (delete_failed p.id e ∷ errors, s'') ]

  -- A failed call, after the changes so far were taken back if that is asked for.
  unfoldable pub fail_updates :
      Bool
      → Stage
      → Text × E
      → UpdateRollback
      → S
      → Result (ApplyError E) (List Project × UpdateRollback) × S
  fail_updates false stage (alias, e) r s = (err (call_failed stage alias e []), s)
  fail_updates true stage (alias, e) r s =
      let (errors, s') = rollback_import_updates r s in (err (call_failed stage alias e errors), s')

  abbrev pub no_rollback : UpdateRollback
  no_rollback = record { originals = []; temp_renamed = []; final_updated = [] }

  -- `applyImportUpdates`
  unfoldable pub apply_updates_of :
      Bool
      → List ImportChange
      → List Project
      → S
      → Result (ApplyError E) (List Project × UpdateRollback) × S
  apply_updates_of rollback updates projects s =
      let used =
        map (λ (c : ImportChange). c.alias) updates ++ map (λ (p : Project). p.alias) projects in
      let originals = original_rows projects updates in
      let (stopped, renamed, s') = free_aliases (temp_rows projects used [] updates) updates [] s in
      let taken : UpdateRollback = record {
        originals = originals;
        temp_renamed = renamed;
        final_updated = [];
      } in
      elim stopped [
        | some failure ↦ fail_updates rollback freeing failure taken s'
        | none ↦
            let (stopped', updated, s'') = write_updates updates [] s' in
            let written = record taken { final_updated = updated } in
            elim stopped' [
              | some failure ↦ fail_updates rollback updating failure written s''
              | none ↦ (ok (updated, written), s'')
            ]
      ]

  unfoldable pub apply_import_updates :
      Bool
      → List ImportChange
      → List Project
      → S
      → Result (ApplyError E) (List Project × UpdateRollback) × S
  apply_import_updates rollback changes projects s =
      let updates = keep (λ (c : ImportChange). is_update c.action) changes in
      if is_empty updates
      then (ok ([], no_rollback), s)
      else apply_updates_of rollback updates projects s

  -- The loop of `applyImportChanges` over the changes that add a project.
  unfoldable pub add_changes :
      List ImportChange → List Project → S → Option (Text × E) × List Project × S
  add_changes [] added s = (none, added, s)
  add_changes (c ∷ cs) added s = elim (is_add c.action) [
    | false ↦ add_changes cs added s
    | true ↦
        let (r, s') = store.add_project (project_from_import_change c) s in
        elim r [
          | err e ↦ (some (c.alias, e), added, s')
          | ok row ↦ add_changes cs (added ++ row ∷ []) s'
        ]
  ]

  unfoldable pub fail_adds :
      Bool → Text × E → List Project → UpdateRollback → S → Result (ApplyError E) Applied × S
  fail_adds false (alias, e) added r s = (err (call_failed adding alias e []), s)
  fail_adds true (alias, e) added r s =
      let (deleting, s') = delete_added (reverse added) s in
      let (restoring, s'') = roll_back r s' in
      (err (call_failed adding alias e (deleting ++ restoring)), s'')

  -- `applyImportChanges`
  unfoldable pub apply_import_changes :
      Bool → List ImportChange → List Project → S → Result (ApplyError E) Applied × S
  apply_import_changes rollback changes projects s =
      let (r, s') = apply_import_updates rollback changes projects s in
      elim r [
        | err e ↦ (err e, s')
        | ok (updated, undo) ↦
            let (stopped, added, s'') = add_changes changes [] s' in
            elim stopped [
              | some failure ↦ fail_adds rollback failure added undo s''
              | none ↦ (ok (record { added_projects = added; updated_projects = updated }), s'')
            ]
      ]

-- The first conflict among the changes.
unfoldable pub first_conflict : List ImportChange → Option ImportChange
first_conflict [] = none
first_conflict (c ∷ cs) = elim c.action [ conflict ↦ some c | _ ↦ first_conflict cs ]

-- `ApplyImportPlan` on the local database, which has transactions
unfoldable pub apply_import_plan :
    List ImportChange → List Project → Table → Result (ApplyError StoreError) Applied × Table
apply_import_plan changes projects t = elim (first_conflict changes) [
  | some c ↦ (err (import_conflict c.alias c.conflict_reason), t)
  | none ↦ with_transaction (apply_import_changes sqlite false changes projects) t
]

-- `ApplyImportPlan` on a store without transactions
unfoldable pub apply_import_plan_plainly :
    {E S : Type 0}
    → ImportStore E S
    → List ImportChange
    → List Project
    → S
    → Result (ApplyError E) Applied × S
apply_import_plan_plainly store changes projects s = elim (first_conflict changes) [
  | some c ↦ (err (import_conflict c.alias c.conflict_reason), s)
  | none ↦ apply_import_changes store true changes projects s
]

-- `ApplyImport` on the local database
unfoldable pub apply_import :
    Host → WorkspaceManifest → Text → Table → Result (ApplyError StoreError) Applied × Table
apply_import h manifest workspace_root t =
    let projects = list_projects t in
    elim (validate_workspace h manifest) [
      | err e ↦ (err (invalid_manifest e), t)
      | ok _ ↦ elim (plan_import h (entries_from_workspace h manifest) projects workspace_root) [
        | err e ↦ (err (plan_failed e), t)
        | ok changes ↦ apply_import_plan changes projects t
      ]
    ]
