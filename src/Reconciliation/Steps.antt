-- ===== src/Reconciliation/Steps.antt =====
-- What one entry adds to the plan of a dry run: a conflict with its blocker, or a drift of another
-- kind.
use codemesh.Base.{
  ◌≡◌, refl, ◌≢◌, inl, inr, Text, ◌==◌, none, [], lookup, mem_text, if◌then◌else◌, Bool-cases,
  Option-cases,
}
use codemesh.Host.{Host}
use codemesh.State.{Project}
use codemesh.Manifest.Entries.{ProjectEntry}
use codemesh.Manifest.Locations.{
  Reason, duplicate_identity, outside_root, alias_taken, path_within_root,
  canonical_path_for_comparison, path_conflict_reason,
}
use codemesh.Manifest.Plan.Registry.{
  project_canonical_path, registered_elsewhere, other_owner, first_reason,
}
use codemesh.Reconciliation.{
  clean_path, desired_local_path, compare_path, new_drift, missing_run, observed_drift,
  observed_run, placed_run, path_owner, nesting, claim, fresh_run, entry_run,
}
use codemesh.Reconciliation.Drifts.{
  DriftKind, missing, moved, conflicting, unchanged, BlockerKind, path_conflict, alias_conflict,
  manifest_conflict, Drift, DriftPlan, add_conflict, add_drift, Run, conflict_run, drift_run,
}

pub data Extends (p : ProjectEntry) (plan : DriftPlan) : DriftPlan → Type 0 where
  refused :
      (d : Drift) (kind : BlockerKind) (path : Text) (reason : Reason)
      → d.identity ≡ p.identity
      → Extends p plan (add_conflict plan d kind path reason)
  planned :
      (d : Drift)
      → d.kind ≢ conflicting
      → d.identity ≡ p.identity
      → Extends p plan (add_drift plan d)

module _ (h : Host) (root : Text) where
  new_drift-identity : (p : ProjectEntry) → (new_drift h root p).identity ≡ p.identity
  unfolding new_drift
  new_drift-identity p = refl

  observed_drift-identity :
      (p : ProjectEntry) (project : Project)
      → (observed_drift h root p project).identity ≡ p.identity
  unfolding observed_drift new_drift
  observed_drift-identity p project = refl

  refused_run :
      (r : Run) (p : ProjectEntry) (d : Drift) (kind : BlockerKind) (path : Text) (reason : Reason)
      → d.identity ≡ p.identity
      → Extends p r.plan (conflict_run r d kind path reason).plan
  unfolding conflict_run
  refused_run r p d kind path reason e = refused d kind path reason e

  planned_run :
      (r : Run) (p : ProjectEntry) (d : Drift) (kind : DriftKind)
      → kind ≢ conflicting
      → d.identity ≡ p.identity
      → Extends p r.plan (drift_run r d kind).plan
  unfolding drift_run
  planned_run r p d kind k e = planned (record d { kind = kind }) k e

  missing_run-Extends :
      (r : Run) (p : ProjectEntry) → Extends p r.plan (missing_run h root r p).plan
  unfolding missing_run
  missing_run-Extends r p =
      let local = desired_local_path h root p in
      let reason =
        first_reason (registered_elsewhere r.ledger.by_path (compare_path h root p) p.identity)
          (path_conflict_reason h local []) in
      elim (Option-cases reason) [
        | inl free ↦
            rw (free, missing_run) (planned_run r p _ missing (λ e. cc) (new_drift-identity p))
        | inr (why, blocked) ↦
            rw (blocked, missing_run)
              (refused_run r p _ path_conflict local why (new_drift-identity p))
      ]

  observed_run-Extends :
      (r : Run) (p : ProjectEntry) (project : Project)
      → Extends p r.plan (observed_run h root r p project).plan
  unfolding observed_run
  observed_run-Extends r p project =
      let same = clean_path h (project_canonical_path project) == compare_path h root p in
      let local = desired_local_path h root p in
      let in_the_way =
        if clean_path h project.local_path == compare_path h root p
        then none
        else path_conflict_reason h local [] in
      let reason =
        first_reason (registered_elsewhere r.ledger.by_path (compare_path h root p) p.identity)
          in_the_way in
      let named = observed_drift-identity p project in
      elim (Bool-cases same) [
        | inl there ↦ rw (there, observed_run) (planned_run r p _ unchanged (λ e. cc) named)
        | inr elsewhere ↦ elim (Option-cases reason) [
          | inl free ↦ rw (elsewhere, free, observed_run) (planned_run r p _ moved (λ e. cc) named)
          | inr (why, blocked) ↦
              rw (elsewhere, blocked, observed_run)
                (refused_run r p _ path_conflict local why named)
        ]
      ]

  placed_run-Extends : (r : Run) (p : ProjectEntry) → Extends p r.plan (placed_run h root r p).plan
  unfolding placed_run
  placed_run-Extends r p = elim (Option-cases (lookup p.identity r.ledger.by_identity)) [
    | inl new ↦ rw (new, placed_run) (missing_run-Extends r p)
    | inr (project, known) ↦ rw (known, placed_run) (observed_run-Extends r p project)
  ]

  fresh_run-Extends : (r : Run) (p : ProjectEntry) → Extends p r.plan (fresh_run h root r p).plan
  unfolding fresh_run
  fresh_run-Extends r p =
      let local = desired_local_path h root p in
      let within =
        path_within_root h (canonical_path_for_comparison h root) (compare_path h root p) in
      let claimed : Run = record r { ledger = claim h root r.ledger p } in
      let reason = first_reason (path_owner h root r.ledger p) (nesting h root r.ledger p) in
      let named = new_drift-identity p in
      elim (Bool-cases within) [
        | inr outside ↦
            rw (outside, fresh_run) (refused_run r p _ path_conflict local outside_root named)
        | inl inside ↦ elim (Option-cases (other_owner r.ledger.alias_owner p.alias p.identity)) [
          | inr (owner, taken) ↦
              rw (inside, taken, fresh_run)
                (refused_run claimed p _ alias_conflict [] (alias_taken p.alias owner) named)
          | inl free ↦ elim (Option-cases reason) [
            | inr (why, blocked) ↦
                rw (inside, free, blocked, fresh_run)
                  (refused_run claimed p _ path_conflict local why named)
            | inl clear ↦ rw (inside, free, clear, fresh_run) (placed_run-Extends claimed p)
          ]
        ]
      ]

  pub entry_run-Extends :
      (r : Run) (p : ProjectEntry) → Extends p r.plan (entry_run h root r p).plan
  unfolding entry_run
  entry_run-Extends r p = elim (Bool-cases (mem_text p.identity r.ledger.seen_identities)) [
    | inl twice ↦
        rw (twice, entry_run)
          (refused_run r p _ manifest_conflict _ (duplicate_identity p.identity)
            (new_drift-identity p))
    | inr fresh ↦ rw (fresh, entry_run) (fresh_run-Extends _ p)
  ]
