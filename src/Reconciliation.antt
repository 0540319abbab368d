-- ===== src/Reconciliation.antt =====
-- internal/reconciliation/reconciliation.go: the dry run that compares the manifest with the
-- registry. It builds the maps of the registry as `PlanImport` does (`Manifest/Plan/Registry`).
pub mod Drifts
pub mod Steps
pub mod Blockers
pub mod Coverage
use codemesh.Base.{
  ℕ, Text, txt, ◌==◌, ◌!=◌, Bool, true, false, not, ◌&&◌, ◌||◌, Option, none, some, List, [], ◌∷◌,
  ◌++◌, map, keep, is_empty, is_some, trim_space, clean, join, mem_text, if◌then◌else◌, ◌=ℕ◌,
  Result, ok, err, ◌>>=◌, ◌>>◌, map_err, Dict, lookup, insert, sort, text_lt,
}
use codemesh.Host.{Host, Answer, not_exist}
use codemesh.GitOps.{abs}
use codemesh.State.{Project}
use codemesh.Manifest.Entries.{
  manifest_version, Entry, ProjectEntry, normalize_entry, validate_entry,
}
use codemesh.Manifest.Entries.Hints.{EntryError}
use codemesh.Manifest.Locations.{
  Reason, duplicate_identity, outside_root, alias_taken, path_requested, path_nests,
  nested_desired_path_conflict, path_within_root, canonical_path_for_comparison,
  path_conflict_reason,
}
use codemesh.Manifest.Plan.Registry.{
  Ledger, project_canonical_path, in_manifest, registered_elsewhere, other_owner, first_reason,
  index_registry,
}
use Drifts.{
  added, missing, moved, conflicting, unchanged, path_conflict, alias_conflict, manifest_conflict,
  no_reason, conflict, absent_from_manifest, Drift, Blocker, DriftPlan, Machine, DryRunError,
  root_required, no_working_dir, machine_required, invalid_entry, add_conflict, add_drift,
  local_machine, sorted_projects, clone_url_for, added_drift, add_absent, Run, conflict_run,
  drift_run,
}

module _ (h : Host) where
  -- `cleanWorkspaceRoot`
  unfoldable pub clean_workspace_root : Text → Result DryRunError Text
  clean_workspace_root raw =
      let root = trim_space raw in
      if is_empty root
      then err root_required
      else elim (abs h root) [ none ↦ err no_working_dir | some a ↦ ok (clean a) ]

  -- `cleanPath`
  unfoldable pub clean_path : Text → Text
  clean_path path =
      if is_empty path
      then []
      else canonical_path_for_comparison h (elim (abs h path) [ none ↦ path | some a ↦ a ])

  -- `normalizeEntries`: `NewEntry` sets the version, and the entry's own version is put back.
  unfoldable pub normalize_one : Entry → Entry
  normalize_one e =
      let new =
        normalize_entry h (record { manifest_version = manifest_version; project = e.project }) in
      if e.manifest_version =ℕ 0 then new else record new { manifest_version = e.manifest_version }

  unfoldable pub normalize_entries : List Entry → Result DryRunError (List Entry)
  normalize_entries [] = ok []
  normalize_entries (e ∷ es) =
      let others = normalize_entries es in
      map_err invalid_entry (validate_entry h (normalize_one e)) >>= λ _.
      others >>= λ ns. ok (normalize_one e ∷ ns)

  -- The path that an entry desires, as text and in the form that is compared.
  unfoldable pub desired_local_path : Text → ProjectEntry → Text
  desired_local_path root p = clean (join (root ∷ p.desired_path ∷ []))

  unfoldable pub compare_path : Text → ProjectEntry → Text
  compare_path root p = canonical_path_for_comparison h (desired_local_path root p)

  unfoldable pub new_drift : Text → ProjectEntry → Drift
  new_drift root p = record {
    kind = conflicting;
    project_id = 0;
    identity = p.identity;
    alias = p.alias;
    desired_path = p.desired_path;
    desired_local_path = desired_local_path root p;
    observed_local_path = [];
    clone_url = clone_url_for p;
    reason = no_reason;
  }

  -- The registry does not have the identity.
  unfoldable pub missing_run : Text → Run → ProjectEntry → Run
  missing_run root r p =
      let drift = new_drift root p in
      let local = desired_local_path root p in
      elim (first_reason (registered_elsewhere r.ledger.by_path (compare_path root p) p.identity)
        (path_conflict_reason h local [])) [
          | some reason ↦ conflict_run r drift path_conflict local reason
          | none ↦ drift_run r drift missing
        ]

  unfoldable pub observed_drift : Text → ProjectEntry → Project → Drift
  observed_drift root p project = record (new_drift root p) {
    project_id = project.id;
    observed_local_path = project.local_path;
  }

  -- The registry has the identity.
  unfoldable pub observed_run : Text → Run → ProjectEntry → Project → Run
  observed_run root r p project =
      let drift = observed_drift root p project in
      let local = desired_local_path root p in
      let path = compare_path root p in
      let in_the_way =
        if clean_path project.local_path == path then none else path_conflict_reason h local [] in
      if clean_path (project_canonical_path project) == path
      then drift_run r drift unchanged
      else elim (first_reason (registered_elsewhere r.ledger.by_path path p.identity) in_the_way) [
        | some reason ↦ conflict_run r drift path_conflict local reason
        | none ↦ drift_run r drift moved
      ]

  unfoldable pub placed_run : Text → Run → ProjectEntry → Run
  placed_run root r p = elim (lookup p.identity r.ledger.by_identity) [
    | none ↦ missing_run root r p
    | some project ↦ observed_run root r p project
  ]

  unfoldable pub path_owner : Text → Ledger → ProjectEntry → Option Reason
  path_owner root l p = elim (other_owner l.seen_paths (compare_path root p) p.identity) [
    | none ↦ none
    | some owner ↦ some (path_requested owner)
  ]

  unfoldable pub nesting : Text → Ledger → ProjectEntry → Option Reason
  nesting root l p =
      elim (nested_desired_path_conflict l.seen_paths (compare_path root p) p.identity) [
        | none ↦ none
        | some (owner, nested) ↦ some (path_nests nested owner)
      ]

  -- The alias and the path go to the entry if they are free, also if the other one is not.
  unfoldable pub claim : Text → Ledger → ProjectEntry → Ledger
  claim root l p = record l {
    alias_owner =
        if is_some (other_owner l.alias_owner p.alias p.identity)
        then l.alias_owner
        else insert p.alias p.identity l.alias_owner;
    seen_paths =
        if is_some (path_owner root l p) || is_some (nesting root l p)
        then l.seen_paths
        else insert (compare_path root p) p.identity l.seen_paths;
  }

  unfoldable pub fresh_run : Text → Run → ProjectEntry → Run
  fresh_run root r p =
      let drift = new_drift root p in
      let local = desired_local_path root p in
      let within =
        path_within_root h (canonical_path_for_comparison h root) (compare_path root p) in
      let claimed = record r { ledger = claim root r.ledger p } in
      if not within
      then conflict_run r drift path_conflict local outside_root
      else elim (other_owner r.ledger.alias_owner p.alias p.identity) [
        | some owner ↦ conflict_run claimed drift alias_conflict [] (alias_taken p.alias owner)
        | none ↦ elim (first_reason (path_owner root r.ledger p) (nesting root r.ledger p)) [
          | some reason ↦ conflict_run claimed drift path_conflict local reason
          | none ↦ placed_run root claimed p
        ]
      ]

  -- The body of the loop over the entries.
  unfoldable pub entry_run : Text → Run → ProjectEntry → Run
  entry_run root r p =
      if mem_text p.identity r.ledger.seen_identities
      then conflict_run r (new_drift root p) manifest_conflict (desired_local_path root p)
          (duplicate_identity p.identity)
      else fresh_run root
          (record r {
            ledger = record r.ledger { seen_identities = p.identity ∷ r.ledger.seen_identities };
          })
          p

  unfoldable pub entries_run : Text → Run → List Entry → Run
  entries_run root r [] = r
  entries_run root r (e ∷ es) = entries_run root (entry_run root r e.project) es

  abbrev pub empty_plan : Text → DriftPlan
  empty_plan root = record { workspace_root = root; blocked = false; drifts = []; blockers = [] }

  unfoldable pub dry_run_from : Text → List Entry → List Project → DriftPlan
  dry_run_from root es projects =
      let start : Run = record {
        ledger = index_registry h clean_path es projects;
        plan = empty_plan root;
      } in
      add_absent es (sorted_projects projects) (entries_run root start es).plan

  -- `BuildDryRunPlan`
  unfoldable pub build_dry_run_plan :
      List Entry → List Project → Machine → Result DryRunError DriftPlan
  build_dry_run_plan entries projects machine = do
    root ← clean_workspace_root machine.workspace_root
    es ← normalize_entries entries
    ok (dry_run_from root es projects)
