-- ===== src/State/Upsert.antt =====
-- What a method that fails leaves behind.
use codemesh.Base.{ℕ, zero, suc, ◌≡◌, refl, arith, ok, err, Result, Option-cases, inl, inr, ◌∙◌}
use codemesh.State.{
  Project, Table, StoreError, UpsertAction, added, with_action, find_row, missing_field,
  with_clone_url, with_placement_defaults, add_project, update_project, delete_project, insert_row,
  upsert_project, with_transaction, commit_or_rollback, has_remote,
}

-- An insertion that returns an error has changed no row.
pub add_project_failed :
    (p : Project) (t : Table) {e : StoreError}
    → (add_project p t).0 ≡ err e
    → (add_project p t).1 ≡ t
unfolding add_project insert_row
add_project_failed p t h = ground arith

-- An update that returns an error has changed no row.
pub update_project_failed :
    (id : ℕ) (p : Project) (t : Table) {e : StoreError}
    → (update_project id p t).0 ≡ err e
    → (update_project id p t).1 ≡ t
unfolding update_project
update_project_failed zero p t h = refl
update_project_failed (suc n) p t h = ground arith

-- A deletion that returns an error has changed no row.
pub delete_project_failed :
    (id : ℕ) (t : Table) {e : StoreError}
    → (delete_project id t).0 ≡ err e
    → (delete_project id t).1 ≡ t
unfolding delete_project
delete_project_failed zero t h = refl
delete_project_failed (suc n) t h = ground arith

with_action-failed :
    (a : UpsertAction) (r : Result StoreError Project × Table) {e : StoreError}
    → (with_action a r).0 ≡ err e
    → (r.0 ≡ err e) × ((with_action a r).1 ≡ r.1)
with_action-failed a (ok p, t) h = cc
with_action-failed a (err f, t) h = (cc, refl)

-- A registration that returns an error has changed no row.
pub upsert_project_failed :
    (p : Project) (t : Table) {e : StoreError}
    → (upsert_project p t).0 ≡ err e
    → (upsert_project p t).1 ≡ t
unfolding upsert_project
upsert_project_failed p t {e} h =
    let row = with_placement_defaults (with_clone_url p) in
    elim (Option-cases (missing_field p)) [
      | inr (why, missing) ↦ rw (missing, upsert_project) refl
      | inl good ↦ elim (Option-cases (find_row (has_remote row.normalized_remote) t)) [
        | inr (old, found) ↦ ground arith
        | inl new ↦
            let (failed, kept) =
              with_action-failed added (add_project row t) {e = e} (ground arith) in
            rw (good, upsert_project, new) (kept ∙ add_project_failed row t failed)
      ]
    ]

-- A transaction that returns an error leaves the table of before, whatever its body did.
pub with_transaction_failed {ℓ} :
    {E A : Type ℓ} (body : Table → Result E A × Table) (t : Table) {e : E}
    → (with_transaction body t).0 ≡ err e
    → (with_transaction body t).1 ≡ t
unfolding with_transaction commit_or_rollback
with_transaction_failed body t h = ground arith
