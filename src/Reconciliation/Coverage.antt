-- ===== src/Reconciliation/Coverage.antt =====
-- A dry run speaks once of every entry and of every project.
use mathlib.Core.Path.{subst}
use mathlib.Core.List.{Perm, map-append, append_assoc, append-nil}
use codemesh.Base.{
  ◌≡◌, ◌∙◌, sym, refl, Text, ◌==◌, eq_iff, text_lt, text_lt_asym, Bool, true, false, sort,
  sort-Perm, sort-Linked, Linked-Consecutive, Consecutive, if◌then◌else◌, not, List, [], ◌∷◌, ◌++◌,
  map, keep, ok, Bool-cases, inl, inr, arith,
}
use codemesh.Host.{Host}
use codemesh.State.{Project}
use codemesh.Manifest.Entries.{Entry, ProjectEntry}
use codemesh.Manifest.Plan.Registry.{in_manifest}
use codemesh.Reconciliation.{
  normalize_entries, entry_run, entries_run, dry_run_from, build_dry_run_plan,
}
use codemesh.Reconciliation.Steps.{Extends, refused, planned, entry_run-Extends}
use codemesh.Reconciliation.Blockers.{build_dry_run_plan-parts}
use codemesh.Reconciliation.Drifts.{
  Drift, DriftPlan, Machine, add_conflict, add_drift, add_absent, added_drift, sorted_projects, Run,
}

abbrev pub identities : List Drift → List Text
identities = map (λ (d : Drift). d.identity)

-- The registered projects that the manifest does not have, in the order of the report.
abbrev pub absent : List Entry → List Project → List Text
absent es ps =
    map (λ (p : Project). p.normalized_remote)
      (keep (λ p. not (in_manifest es p.normalized_remote)) ps)

Extends-identities :
    (p : ProjectEntry) (plan after : DriftPlan)
    → Extends p plan after
    → identities after.drifts ≡ identities plan.drifts ++ p.identity ∷ []
unfolding add_conflict add_drift
Extends-identities p plan after (refused d kind path reason e) = map-append _ plan.drifts _ ∙ rw e
Extends-identities p plan after (planned d k e) = map-append _ plan.drifts _ ∙ rw e

entries_run-identities :
    (h : Host) (root : Text) (r : Run) (es : List Entry)
    → identities (entries_run h root r es).plan.drifts
      ≡ identities r.plan.drifts ++ map (λ (e : Entry). e.project.identity) es
unfolding entries_run
entries_run-identities h root r [] = sym (append-nil _)
entries_run-identities h root r (e ∷ es) =
    entries_run-identities h root (entry_run h root r e.project) es
    ∙ rw (Extends-identities e.project _ _ (entry_run-Extends h root r e.project))
        (append_assoc (identities r.plan.drifts) (e.project.identity ∷ []) _)

add_absent-identities :
    (es : List Entry) (ps : List Project) (plan : DriftPlan)
    → identities (add_absent es ps plan).drifts ≡ identities plan.drifts ++ absent es ps
unfolding add_absent keep
add_absent-identities es [] plan = sym (append-nil _)
add_absent-identities es (p ∷ ps) plan = elim (Bool-cases (in_manifest es p.normalized_remote)) [
  | inl listed ↦ rw (listed, add_absent) (add_absent-identities es ps plan)
  | inr gone ↦
      rw (gone, add_absent)
        (add_absent-identities es ps (add_drift plan (added_drift p))
          ∙ unfold add_drift added_drift in
            (rw (map-append (λ (d : Drift). d.identity) plan.drifts (added_drift p ∷ []))
              (append_assoc (identities plan.drifts) (p.normalized_remote ∷ []) (absent es ps))))
]

-- The first project does not come after the second: by their local paths, then by their remotes.
abbrev pub NotAfter : Project → Project → Type 0
NotAfter p q =
    (text_lt q.local_path p.local_path ≡ false)
    × (q.local_path ≡ p.local_path → text_lt q.normalized_remote p.normalized_remote ≡ false)

-- The same projects, in the order of their local paths and then of their remotes.
pub record IsOrdered (projects ps : List Project) : Type 0 where
  pub moved : Perm ps projects
  pub ordered : Consecutive NotAfter ps

abbrev project_lt : Project → Project → Bool
project_lt p q =
    if p.local_path == q.local_path
    then text_lt p.normalized_remote q.normalized_remote
    else text_lt p.local_path q.local_path

text_lt_irrefl : (s : Text) → text_lt s s ≡ false
unfolding text_lt
text_lt_irrefl [] = refl
text_lt_irrefl (c ∷ s) = ground (arith, text_lt_irrefl s)

project_lt_asym : (p q : Project) → project_lt p q ≡ true → project_lt q p ≡ false
project_lt_asym p q h = ground (
  arith,
  eq_iff p.local_path q.local_path,
  eq_iff q.local_path p.local_path,
  text_lt_asym p.local_path q.local_path,
  text_lt_asym p.normalized_remote q.normalized_remote,
)

true-ne-false : {b : Bool} → b ≡ true → b ≡ false → ⊥
true-ne-false h k = cc

project_lt-NotAfter : (p q : Project) → project_lt q p ≡ false → NotAfter p q
project_lt-NotAfter p q h = elim (Bool-cases (q.local_path == p.local_path)) [
  | inl equal ↦
      let e = (eq_iff q.local_path p.local_path).0 equal in
      (rw e (text_lt_irrefl p.local_path), λ _. rw equal at h)
  | inr differ ↦
      (rw differ at h, λ e. absurd (true-ne-false ((eq_iff q.local_path p.local_path).1 e) differ))
]

sorted_projects-IsOrdered : (ps : List Project) → IsOrdered ps (sorted_projects ps)
unfolding sorted_projects
sorted_projects-IsOrdered ps = record {
  moved = sort-Perm project_lt ps;
  ordered =
      Linked-Consecutive project_lt NotAfter project_lt-NotAfter (sort project_lt ps)
        (sort-Linked project_lt project_lt_asym ps);
}

-- A dry run has one drift for each entry of the manifest, in the order of the entries, and then
-- one for each registered project whose remote no entry has, and no other: the projects come in the
-- order of their local paths, and those with one local path in the order of their remotes.
pub build_dry_run_plan-identities :
    (h : Host) (entries : List Entry) (projects : List Project) (machine : Machine)
    (es : List Entry) {plan : DriftPlan}
    → normalize_entries h entries ≡ ok es
    → build_dry_run_plan h entries projects machine ≡ ok plan
    → (identities plan.drifts
        ≡ map (λ (e : Entry). e.project.identity) es ++ absent es (sorted_projects projects))
      × IsOrdered projects (sorted_projects projects)
unfolding dry_run_from
build_dry_run_plan-identities h entries projects machine es {plan} listed made =
    let (root, ns, at_root, listed', done) =
      build_dry_run_plan-parts h entries projects machine made in
    let same : ns ≡ es = ground (arith, listed') in
    (
      subst
          (λ (x : List Entry).
            identities plan.drifts
            ≡ map (λ (e : Entry). e.project.identity) x ++ absent x (sorted_projects projects))
          same
          (subst
            (λ (d : DriftPlan).
              identities d.drifts
              ≡ map (λ (e : Entry). e.project.identity) ns ++ absent ns (sorted_projects projects))
            done
            (add_absent-identities ns (sorted_projects projects) _
              ∙ rw (entries_run-identities h root _ ns))),
      sorted_projects-IsOrdered projects,
    )
