-- ===== src/Reconciliation/Blockers.antt =====
-- The blockers of a dry run are its conflicting drifts, one for one.
use mathlib.Core.Path.{subst}
use mathlib.Core.List.{map-append, append_assoc, append-nil}
use codemesh.Base.{
  ◌≡◌, refl, ◌≢◌, ◌∙◌, sym, Text, true, not, List, [], ◌∷◌, ◌++◌, map, is_empty, arith, ok, >>=-ok,
  Bool-cases, inl, inr,
}
use codemesh.Host.{Host}
use codemesh.State.{Project}
use codemesh.Manifest.Entries.{Entry, ProjectEntry}
use codemesh.Manifest.Plan.Registry.{in_manifest}
use codemesh.Reconciliation.{
  clean_workspace_root, normalize_entries, entry_run, entries_run, dry_run_from, build_dry_run_plan,
}
use codemesh.Reconciliation.Steps.{Extends, refused, planned, entry_run-Extends}
use codemesh.Reconciliation.Drifts.{
  DriftKind, conflicting, conflict, DriftReason, Drift, Blocker, DriftPlan, Machine, add_conflict,
  add_drift, add_absent, added_drift, sorted_projects, Run,
}

-- What a conflicting drift and its blocker have in common.
abbrev pub Conflict : Type 0
Conflict = Text × Text × DriftReason

abbrev pub of_blocker : Blocker → Conflict
of_blocker b = (b.identity, b.alias, conflict b.reason)

abbrev pub conflict_of : DriftKind → Drift → List Conflict
conflict_of conflicting d = (d.identity, d.alias, d.reason) ∷ []
conflict_of _ d = []

-- The conflicting drifts, in their order.
abbrev pub conflicts : List Drift → List Conflict
conflicts [] = []
conflicts (d ∷ ds) = conflict_of d.kind d ++ conflicts ds

conflicts-append : (ds es : List Drift) → conflicts (ds ++ es) ≡ conflicts ds ++ conflicts es
conflicts-append [] es = refl
conflicts-append (d ∷ ds) es =
    rw (conflicts-append ds es)
      (sym (append_assoc (conflict_of d.kind d) (conflicts ds) (conflicts es)))

conflict_of-planned : (k : DriftKind) (d : Drift) → k ≢ conflicting → conflict_of k d ≡ []
conflict_of-planned conflicting d h = absurd (h refl)
conflict_of-planned _ d h = refl

pub record IsFaithful (plan : DriftPlan) : Type 0 where
  pub blockers : map of_blocker plan.blockers ≡ conflicts plan.drifts
  pub blocked : plan.blocked ≡ not (is_empty plan.blockers)

snoc_nonempty : (bs : List Blocker) (b : Blocker) → not (is_empty (bs ++ b ∷ [])) ≡ true
snoc_nonempty [] b = refl
snoc_nonempty (c ∷ bs) b = refl

Extends-IsFaithful :
    (p : ProjectEntry) (plan after : DriftPlan)
    → Extends p plan after
    → IsFaithful plan
    → IsFaithful after
unfolding add_conflict add_drift
Extends-IsFaithful p plan after (refused d kind path reason e) f = record {
  blockers =
      map-append of_blocker plan.blockers _ ∙ rw f.blockers (sym (conflicts-append plan.drifts _));
  blocked = sym (snoc_nonempty plan.blockers _);
}
Extends-IsFaithful p plan after (planned d k e) f = record {
  blockers =
      rw (conflicts-append plan.drifts (d ∷ []), conflict_of-planned d.kind d k)
        (f.blockers ∙ sym (append-nil (conflicts plan.drifts)));
  blocked = f.blocked;
}

entries_run-IsFaithful :
    (h : Host) (root : Text) (r : Run) (es : List Entry)
    → IsFaithful r.plan
    → IsFaithful (entries_run h root r es).plan
unfolding entries_run
entries_run-IsFaithful h root r [] f = f
entries_run-IsFaithful h root r (e ∷ es) f =
    entries_run-IsFaithful h root (entry_run h root r e.project) es
      (Extends-IsFaithful e.project _ _ (entry_run-Extends h root r e.project) f)

add_drift-IsFaithful :
    (plan : DriftPlan) (d : Drift)
    → d.kind ≢ conflicting
    → IsFaithful plan
    → IsFaithful (add_drift plan d)
unfolding add_drift
add_drift-IsFaithful plan d k f = record {
  blockers =
      rw (conflicts-append plan.drifts (d ∷ []), conflict_of-planned d.kind d k)
        (f.blockers ∙ sym (append-nil (conflicts plan.drifts)));
  blocked = f.blocked;
}

added_drift-kind : (p : Project) → (added_drift p).kind ≢ conflicting
unfolding added_drift
added_drift-kind p e = cc

add_absent-IsFaithful :
    (es : List Entry) (ps : List Project) (plan : DriftPlan)
    → IsFaithful plan
    → IsFaithful (add_absent es ps plan)
unfolding add_absent
add_absent-IsFaithful es [] plan f = f
add_absent-IsFaithful es (p ∷ ps) plan f = elim (Bool-cases (in_manifest es p.normalized_remote)) [
  | inl listed ↦ rw listed (add_absent-IsFaithful es ps plan f)
  | inr absent ↦ rw absent (
      add_absent-IsFaithful es ps _
        (add_drift-IsFaithful plan (added_drift p) (added_drift-kind p) f))
]

-- What a dry run that is made consists of.
pub build_dry_run_plan-parts :
    (h : Host) (entries : List Entry) (projects : List Project) (machine : Machine)
    {plan : DriftPlan}
    → build_dry_run_plan h entries projects machine ≡ ok plan
    → (root : Text) × (es : List Entry) × (clean_workspace_root h machine.workspace_root ≡ ok root)
      × (normalize_entries h entries ≡ ok es)
      × (dry_run_from h root es projects ≡ plan)
unfolding build_dry_run_plan
build_dry_run_plan-parts h entries projects machine made =
    let (root, at_root, rest) = >>=-ok (clean_workspace_root h machine.workspace_root) _ made in
    let (es, listed, done) = >>=-ok (normalize_entries h entries) _ rest in
    (root, es, at_root, listed, ground arith)

-- A dry run is blocked exactly if it has a blocker, and its blockers are its conflicting drifts in
-- their order, with the same identities, aliases and reasons.
pub build_dry_run_plan-IsFaithful :
    (h : Host) (entries : List Entry) (projects : List Project) (machine : Machine)
    {plan : DriftPlan}
    → build_dry_run_plan h entries projects machine ≡ ok plan
    → IsFaithful plan
unfolding dry_run_from
build_dry_run_plan-IsFaithful h entries projects machine made =
    let (root, es, at_root, listed, done) =
      build_dry_run_plan-parts h entries projects machine made in
    subst IsFaithful done (
      add_absent-IsFaithful es (sorted_projects projects) _
        (entries_run-IsFaithful h root _ es (record { blockers = refl; blocked = refl })))
