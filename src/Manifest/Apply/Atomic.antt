-- ===== src/Manifest/Apply/Atomic.antt =====
-- An import into the local database is made whole or not at all.
use codemesh.Base.{◌≡◌, refl, Text, false, List, err, Option-cases, Result-cases, inl, inr, arith}
use codemesh.Host.{Host}
use codemesh.State.{Project, Table, StoreError, list_projects}
use codemesh.State.Rows.{}
use codemesh.State.Writes.{}
use codemesh.State.Upsert.{with_transaction_failed}
use codemesh.Manifest.Entries.{WorkspaceManifest, entries_from_workspace}
use codemesh.Manifest.Entries.Workspace.{validate_workspace}
use codemesh.Manifest.Plan.{plan_import}
use codemesh.Manifest.Plan.Change.{ImportChange}
use codemesh.Manifest.Apply.Store.{sqlite}
use codemesh.Manifest.Apply.{
  ApplyError, first_conflict, apply_import_changes, apply_import_plan, apply_import,
}

apply_import_plan_failed :
    (changes : List ImportChange) (projects : List Project) (t : Table) {e : ApplyError StoreError}
    → (apply_import_plan changes projects t).0 ≡ err e
    → (apply_import_plan changes projects t).1 ≡ t
unfolding apply_import_plan
apply_import_plan_failed changes projects t {e} h = elim (Option-cases (first_conflict changes)) [
  | inr (c, blocked) ↦ rw (blocked, apply_import_plan) refl
  | inl free ↦
      rw (free, apply_import_plan)
        (with_transaction_failed (apply_import_changes sqlite false changes projects) t {e = e}
          (ground arith))
]

-- An import into the local database that returns an error, for whatever reason, leaves the table
-- as it was.
pub apply_import_failed :
    (h : Host) (manifest : WorkspaceManifest) (workspace_root : Text) (t : Table)
    {e : ApplyError StoreError}
    → (apply_import h manifest workspace_root t).0 ≡ err e
    → (apply_import h manifest workspace_root t).1 ≡ t
unfolding apply_import
apply_import_failed h manifest workspace_root t {e} failed =
    let projects = list_projects t in
    let planned = plan_import h (entries_from_workspace h manifest) projects workspace_root in
    elim (Result-cases (validate_workspace h manifest)) [
      | inr (e, invalid) ↦ rw (invalid, apply_import) refl
      | inl (u, valid) ↦ elim (Result-cases planned) [
        | inr (e, unplanned) ↦ rw (valid, apply_import, unplanned) refl
        | inl (changes, made) ↦
            rw (valid, apply_import, made)
              (apply_import_plan_failed changes projects t {e = e} (ground arith))
      ]
    ]
