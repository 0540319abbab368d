-- ===== src/Manifest/Apply/Outcome.antt =====
-- A successful import, from the manifest to the table.
use mathlib.Core.Path.{subst}
use codemesh.Base.{
  ◌≡◌, refl, Text, none, List, Result, false, ok, arith, Option-cases, Result-cases, inl, inr,
}
use codemesh.Host.{Host}
use codemesh.State.{Table, list_projects, with_transaction, commit_or_rollback}
use codemesh.State.Rows.{IsConsistent}
use codemesh.Manifest.Entries.{WorkspaceManifest, entries_from_workspace}
use codemesh.Manifest.Entries.Workspace.{validate_workspace}
use codemesh.Manifest.Plan.{plan_import}
use codemesh.Manifest.Plan.Change.{ImportChange}
use codemesh.Manifest.Apply.Store.{sqlite}
use codemesh.Manifest.Apply.Effect.{Reflects, apply_import_changes-Reflects}
use codemesh.Manifest.Apply.Targets.{list_projects-Differ, plan_import-TargetsDiffer}
use codemesh.Manifest.Apply.{
  Applied, first_conflict, apply_import_changes, apply_import_plan, apply_import,
}

with_transaction-ok :
    {E A : Type 0} (body : Table → Result E A × Table) (t : Table) {a : A}
    → (with_transaction body t).0 ≡ ok a
    → ((body t).0 ≡ ok a) × ((with_transaction body t).1 ≡ (body t).1)
unfolding with_transaction commit_or_rollback
with_transaction-ok body t done = elim (Result-cases (body t).0) [
  | inl (b, fine) ↦ (ground arith, rw (commit_or_rollback, fine) refl)
  | inr (e, failed) ↦ ground arith
]

-- An import into a consistent local database that succeeds made a plan of the manifest without a
-- conflict, and leaves for every change of the plan that updates a project the row of that project
-- as the change describes it, and for every change that adds one such a row under some id.
pub apply_import-Reflects :
    (h : Host) (manifest : WorkspaceManifest) (workspace_root : Text) (t : Table) {a : Applied}
    → IsConsistent t
    → (apply_import h manifest workspace_root t).0 ≡ ok a
    → (changes : List ImportChange) × (plan_import h
          (entries_from_workspace h manifest)
          (list_projects t)
          workspace_root
        ≡ ok changes)
      × (first_conflict changes ≡ none)
      × Reflects changes (apply_import h manifest workspace_root t).1
unfolding apply_import apply_import_plan
apply_import-Reflects h manifest workspace_root t {a} c done =
    let projects = list_projects t in
    let entries = entries_from_workspace h manifest in
    elim (Result-cases (validate_workspace h manifest)) [
      | inr (e, invalid) ↦ ground arith
      | inl (u, valid) ↦ elim (Result-cases (plan_import h entries projects workspace_root)) [
        | inr (e, unplanned) ↦ ground arith
        | inl (changes, made) ↦ elim (Option-cases (first_conflict changes)) [
          | inr (change, blocked) ↦ ground arith
          | inl free ↦
              let body = apply_import_changes sqlite false changes projects in
              let (fine, after) = with_transaction-ok body t {a = a} (ground arith) in
              let end : (body t).1 ≡ (apply_import h manifest workspace_root t).1 =
                ground (arith, after) in
              (
                changes,
                made,
                free,
                subst (Reflects changes) end (
                    apply_import_changes-Reflects changes projects t fine (
                      plan_import-TargetsDiffer h entries projects workspace_root
                        (list_projects-Differ t c) made)),
              )
        ]
      ]
    ]
