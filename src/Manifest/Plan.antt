-- ===== src/Manifest/Plan.antt =====
-- `PlanImport`: what an import of the manifest would change in the registry. `Plan/Registry` has the
-- maps of the registry, `Plan/Change` the change of one entry; the proofs are in the other children.
pub mod Registry
pub mod Change
pub mod Outcome
pub mod Compatible
pub mod Placement
use codemesh.Base.{
  Text, ◌==◌, Bool, true, false, not, Option, none, some, List, [], ◌∷◌, is_empty, trim_space,
  clean, mem_text, if◌then◌else◌, Result, ok, err, ◌>>=◌, ◌>>◌, map_err, insert, lookup,
}
use codemesh.Host.{Host}
use codemesh.GitOps.{abs}
use codemesh.State.{Project}
use codemesh.Manifest.Entries.{Entry, ProjectEntry, normalize_entry, validate_entry}
use codemesh.Manifest.Entries.Hints.{EntryError}
use codemesh.Manifest.Locations.{
  Reason, duplicate_identity, outside_root, path_within_root, canonical_path_for_comparison,
}
use Registry.{Ledger, index_registry}
use Change.{
  ImportChange, add, refuse, desired_compare_path, new_change, alias_refusal, path_refusal,
  new_refusal, known_refusal, known_change, known_conflict,
}

pub data PlanError : Type 0 where
  root_required no_working_dir : PlanError
  invalid_entry : EntryError → PlanError

module _ (h : Host) where
  -- `cleanWorkspaceRoot`
  unfoldable pub clean_workspace_root : Text → Result PlanError Text
  clean_workspace_root raw =
      let root = trim_space raw in
      if is_empty root
      then err root_required
      else elim (abs h root) [ none ↦ err no_working_dir | some a ↦ ok (clean a) ]

  unfoldable pub normalize_entries : List Entry → Result PlanError (List Entry)
  normalize_entries [] = ok []
  normalize_entries (raw ∷ rest) =
      let others = normalize_entries rest in
      map_err invalid_entry (validate_entry h (normalize_entry h raw)) >>= λ _.
      others >>= λ es. ok (normalize_entry h raw ∷ es)

  -- The rest of the loop's body, once the identity, the root, the alias and the path are free.
  unfoldable pub take_alias : Ledger → ProjectEntry → Ledger
  take_alias l p = record l { alias_owner = insert p.alias p.identity l.alias_owner }

  unfoldable pub plan_placed : Text → Ledger → ProjectEntry → ImportChange × Ledger
  plan_placed root l p = elim (lookup p.identity l.by_identity) [
    | none ↦ elim (new_refusal h root l p) [
      | some reason ↦ (refuse (new_change h root p) reason, l)
      | none ↦ (record (new_change h root p) { action = add }, take_alias l p)
    ]
    | some project ↦ elim (known_refusal h root l p project) [
      | some reason ↦ (refuse (known_conflict h root p project) reason, l)
      | none ↦ (known_change h root p project, take_alias l p)
    ]
  ]

  unfoldable pub see_path : Text → Ledger → ProjectEntry → Ledger
  see_path root l p = record l {
    seen_paths = insert (desired_compare_path h root p.desired_path) p.identity l.seen_paths;
  }

  unfoldable pub see_identity : Ledger → ProjectEntry → Ledger
  see_identity l p = record l { seen_identities = p.identity ∷ l.seen_identities }

  unfoldable pub plan_fresh : Text → Ledger → ProjectEntry → ImportChange × Ledger
  plan_fresh root l p =
      if not (
        path_within_root h (canonical_path_for_comparison h root)
          (desired_compare_path h root p.desired_path))
      then (refuse (new_change h root p) outside_root, l)
      else elim (alias_refusal h l p) [
        | some reason ↦ (refuse (new_change h root p) reason, l)
        | none ↦ elim (path_refusal h root l p) [
          | some reason ↦ (refuse (new_change h root p) reason, l)
          | none ↦ plan_placed root (see_path root l p) p
        ]
      ]

  -- The body of the loop over the entries.
  unfoldable pub plan_entry : Text → Ledger → ProjectEntry → ImportChange × Ledger
  plan_entry root l p =
      if mem_text p.identity l.seen_identities
      then (refuse (new_change h root p) (duplicate_identity p.identity), l)
      else plan_fresh root (see_identity l p) p

  unfoldable pub plan_entries : Text → Ledger → List Entry → List ImportChange
  plan_entries root l [] = []
  plan_entries root l (e ∷ es) =
      let (c, l') = plan_entry root l e.project in c ∷ plan_entries root l' es

  -- `PlanImport`
  unfoldable pub plan_import :
      List Entry → List Project → Text → Result PlanError (List ImportChange)
  plan_import entries projects workspace_root = do
    root ← clean_workspace_root workspace_root
    es ← normalize_entries entries
    ok (plan_entries root (index_registry h (canonical_path_for_comparison h) es projects) es)
