-- ===== src/Manifest/Apply/Targets.antt =====
-- The updates of one plan are for different rows.
use mathlib.Core.Path.{subst}
use codemesh.Base.{
  ◌≡◌, ◌≢◌, refl, sym, ◌∙◌, ap, Text, ◌==◌, eq_iff, true, false, some, List, [], ◌∷◌, map, keep,
  text_lt, lookup, lookup-insert, arith, All, Pairs, sort-Pairs, Bool-cases, Option-cases, inl, inr,
  ok,
}
use codemesh.Host.{Host}
use codemesh.State.{Project, Table, list_projects, with_placement_defaults}
use codemesh.State.Rows.{Differ, IsConsistent}
use codemesh.Manifest.Entries.{Entry, ProjectEntry}
use codemesh.Manifest.Locations.{canonical_path_for_comparison}
use codemesh.Manifest.Plan.{
  plan_import, plan_entries, plan_entry, plan_fresh, plan_placed, take_alias, see_path,
  see_identity,
}
use codemesh.Manifest.Plan.Registry.{
  Ledger, index_project, see_project, index_projects, see_projects, index_registry, no_entries,
}
use codemesh.Manifest.Plan.Change.{
  ImportChange, refuse, new_change, known_change, add, update, unchanged, conflict, ChangeAction,
}
use codemesh.Manifest.Plan.Compatible.{plan_import-parts, plan_import-Compatible, Compatible}
use codemesh.Manifest.Plan.Outcome.{is_conflict}
use codemesh.Manifest.Apply.Rows.{InTable}
use codemesh.Manifest.Apply.Effect.{Elsewhere, TargetsDiffer, updating_changes}
use codemesh.Manifest.Apply.{is_update}

differs_in : (r : Project) (t : Table) (q : Project) → All (Differ r) t → InTable q t → r.id ≢ q.id
differs_in r [] q a m = elim m [ ]
differs_in r (o ∷ t) q a (inl z) = λ e. a.0.ids (e ∙ sym (ap (λ (x : Project). x.id) z))
differs_in r (o ∷ t) q a (inr m) = differs_in r t q a.1 m

-- Rows of one id have one remote.
id_names_remote :
    (t : Table) (p q : Project)
    → Pairs Differ t
    → InTable p t
    → InTable q t
    → p.id ≡ q.id
    → p.normalized_remote ≡ q.normalized_remote
id_names_remote [] p q d here there e = elim here [ ]
id_names_remote (r ∷ t) p q d (inl x) (inl y) e = cc
id_names_remote (r ∷ t) p q d (inl x) (inr y) e =
    absurd (differs_in r t q d.0 y (ap (λ (z : Project). z.id) x ∙ e))
id_names_remote (r ∷ t) p q d (inr x) (inl y) e =
    absurd (differs_in r t p d.0 x (ap (λ (z : Project). z.id) y ∙ sym e))
id_names_remote (r ∷ t) p q d (inr x) (inr y) e = id_names_remote t p q d.1 x y e

Differ-sym : (p q : Project) → Differ p q → Differ q p
Differ-sym p q d = record {
  ids = λ e. d.ids (sym e);
  aliases = λ e. d.aliases (sym e);
  remotes = λ e. d.remotes (sym e);
}

defaults-Differ :
    (p q : Project) → Differ p q → Differ (with_placement_defaults p) (with_placement_defaults q)
unfolding with_placement_defaults
defaults-Differ p q d = record { ids = d.ids; aliases = d.aliases; remotes = d.remotes }

map_defaults-Differ_one :
    (p : Project) (t : Table)
    → All (Differ p) t
    → All (Differ (with_placement_defaults p)) (map with_placement_defaults t)
map_defaults-Differ_one p [] a = tt
map_defaults-Differ_one p (q ∷ t) a = (defaults-Differ p q a.0, map_defaults-Differ_one p t a.1)

map_defaults-Differ : (t : Table) → Pairs Differ t → Pairs Differ (map with_placement_defaults t)
map_defaults-Differ [] d = tt
map_defaults-Differ (p ∷ t) d = (map_defaults-Differ_one p t d.0, map_defaults-Differ t d.1)

pub list_projects-Differ : (t : Table) → IsConsistent t → Pairs Differ (list_projects t)
unfolding list_projects
list_projects-Differ t c =
    map_defaults-Differ _ (sort-Pairs (λ p q. text_lt p.alias q.alias) Differ Differ-sym t c.differ)

-- The map by identity holds rows of the registry under their remotes.
abbrev Registered : List Project → Ledger → Type 0
Registered projects l =
    (k : Text) (p : Project)
    → lookup k l.by_identity ≡ some p
    → InTable p projects × (p.normalized_remote ≡ k)

module _ (h : Host) (compare : Text → Text) (projects : List Project) where
  index_project-Registered :
      (es : List Entry) (l : Ledger) (p : Project)
      → InTable p projects
      → Registered projects l
      → Registered projects (index_project h compare es l p)
  unfolding index_project
  index_project-Registered es l p here r k q found =
      let e = lookup-insert p.normalized_remote k p l.by_identity in
      elim (Bool-cases (p.normalized_remote == k)) [
        | inl same ↦
            let s : p ≡ q = ground arith in
            (
              subst (λ x. InTable x projects) s here,
              ap (λ (x : Project). x.normalized_remote) (sym s)
                  ∙ (eq_iff p.normalized_remote k).0 same,
            )
        | inr other ↦ r k q (ground arith)
      ]

  index_projects-Registered :
      (es : List Entry) (l : Ledger) (ps : List Project)
      → All (λ p. InTable p projects) ps
      → Registered projects l
      → Registered projects (index_projects h compare es l ps)
  unfolding index_projects
  index_projects-Registered es l [] here r = r
  index_projects-Registered es l (p ∷ ps) here r =
      index_projects-Registered es (index_project h compare es l p) ps here.1
        (index_project-Registered es l p here.0 r)

  see_project-by_identity :
      (es : List Entry) (l : Ledger) (p : Project)
      → (see_project h compare es l p).by_identity ≡ l.by_identity
  unfolding see_project
  see_project-by_identity es l p = refl

  see_projects-by_identity :
      (es : List Entry) (l : Ledger) (ps : List Project)
      → (see_projects h compare es l ps).by_identity ≡ l.by_identity
  unfolding see_projects
  see_projects-by_identity es l [] = refl
  see_projects-by_identity es l (p ∷ ps) =
      see_projects-by_identity es (see_project h compare es l p) ps ∙ see_project-by_identity es l p

  no_entries-Registered : Registered projects (no_entries h compare)
  unfolding lookup
  no_entries-Registered k p found = let no : ⊥ = cc in absurd no

  index_registry-Registered :
      (es : List Entry)
      → All (λ p. InTable p projects) projects
      → Registered projects (index_registry h compare es projects)
  unfolding index_registry
  index_registry-Registered es here k p found =
      let indexed = index_projects h compare es (no_entries h compare) projects in
      index_projects-Registered es (no_entries h compare) projects here no_entries-Registered k p
        (rw (see_projects-by_identity es indexed projects) at found)

-- A change of a row of the registry, by its id and its remote.
abbrev FromRow : List Project → ImportChange → Type 0
FromRow projects c =
    (q : Project) × InTable q projects × (c.project_id ≡ q.id) × (c.identity ≡ q.normalized_remote)

module _ (h : Host) (root : Text) (projects : List Project) where
  plan_entry-by_identity :
      (l : Ledger) (p : ProjectEntry) → (plan_entry h root l p).1.by_identity ≡ l.by_identity
  unfolding plan_entry plan_fresh plan_placed take_alias see_path see_identity
  plan_entry-by_identity l p = ground arith

  plan_entry-FromRow :
      (l : Ledger) (p : ProjectEntry)
      → Registered projects l
      → is_update (plan_entry h root l p).0.action ≡ true
      → FromRow projects (plan_entry h root l p).0
  unfolding plan_entry plan_fresh plan_placed refuse see_path see_identity new_change known_change
  plan_entry-FromRow l p r updates = elim (Option-cases (lookup p.identity l.by_identity)) [
    | inl new ↦ let no : ⊥ = ground arith in absurd no
    | inr (q, known) ↦
        let (here, remote) = r p.identity q known in (q, here, ground arith, ground (arith, remote))
  ]

  plan_entries-FromRow :
      (l : Ledger) (es : List Entry)
      → Registered projects l
      → All (FromRow projects) (updating_changes (plan_entries h root l es))
  unfolding plan_entries keep
  plan_entries-FromRow l [] r = tt
  plan_entries-FromRow l (e ∷ es) r =
      let next = (plan_entry h root l e.project).1 in
      let rest =
        plan_entries-FromRow next es
          (λ k q found. r k q (rw (plan_entry-by_identity l e.project) at found)) in
      elim (Bool-cases (is_update (plan_entry h root l e.project).0.action)) [
        | inl updates ↦ rw updates (plan_entry-FromRow l e.project r updates, rest)
        | inr other ↦ rw other rest
      ]

-- Accepted changes of different identities for rows of one registry have different rows.
not_conflict : (a : ChangeAction) → is_update a ≡ true → is_conflict a ≡ false
not_conflict update e = refl
not_conflict add e = refl
not_conflict unchanged e = refl
not_conflict conflict e = cc

module _ (h : Host) (root : Text) (projects : List Project) (d : Pairs Differ projects) where
  update-Elsewhere :
      (c : ImportChange) (cs : List ImportChange)
      → is_update c.action ≡ true
      → FromRow projects c
      → All (Compatible h root c) cs
      → All (FromRow projects) (updating_changes cs)
      → All (Elsewhere c.project_id) (updating_changes cs)
  unfolding keep
  update-Elsewhere c [] u from a rows = tt
  update-Elsewhere c (o ∷ cs) u (p, here, id, identity) a rows =
      elim (Bool-cases (is_update o.action)) [
        | inr other ↦
            rw other (update-Elsewhere c cs u (p, here, id, identity) a.1 (rw other at rows))
        | inl updates ↦
            let rows' : FromRow projects o × All (FromRow projects) (updating_changes cs) =
              rw updates at rows in
            let (q, there, id', identity') = rows'.0 in
            let apart = a.0 (not_conflict c.action u) (not_conflict o.action updates) in
            rw updates (
              (λ e. apart.identities (
                  identity
                  ∙ id_names_remote projects p q d here there (sym id ∙ e ∙ id')
                  ∙ sym identity')),
              update-Elsewhere c cs u (p, here, id, identity) a.1 rows'.1,
            )
      ]

  updates-TargetsDiffer :
      (cs : List ImportChange)
      → Pairs (Compatible h root) cs
      → All (FromRow projects) (updating_changes cs)
      → TargetsDiffer cs
  unfolding keep
  updates-TargetsDiffer [] a rows = tt
  updates-TargetsDiffer (c ∷ cs) a rows = elim (Bool-cases (is_update c.action)) [
    | inr other ↦ rw other (updates-TargetsDiffer cs a.1 (rw other at rows))
    | inl updates ↦
        let rows' : FromRow projects c × All (FromRow projects) (updating_changes cs) =
          rw updates at rows in
        rw updates
          (update-Elsewhere c cs updates rows'.0 a.0 rows'.1, updates-TargetsDiffer cs a.1 rows'.1)
  ]

All-self : (t : Table) → All (λ p. InTable p t) t
All-self t = below t t (λ p m. m)
  where
    below : (u v : Table) → ((p : Project) → InTable p u → InTable p v) → All (λ p. InTable p v) u
    below [] v f = tt
    below (p ∷ u) v f = (f p (inl refl), below u v (λ q m. f q (inr m)))

-- No two changes of one plan update the same row, if no two projects share an id or a remote.
pub plan_import-TargetsDiffer :
    (h : Host) (entries : List Entry) (projects : List Project) (workspace_root : Text)
    {changes : List ImportChange}
    → Pairs Differ projects
    → plan_import h entries projects workspace_root ≡ ok changes
    → TargetsDiffer changes
plan_import-TargetsDiffer h entries projects workspace_root {changes} d planned =
    let (root, es, at_root, listed, made) =
      plan_import-parts h entries projects workspace_root planned in
    let registry = index_registry h (canonical_path_for_comparison h) es projects in
    let rows = plan_entries-FromRow h root projects registry es (
      index_registry-Registered h (canonical_path_for_comparison h) projects es
        (All-self projects)) in
    updates-TargetsDiffer h root projects d changes
      (plan_import-Compatible h entries projects workspace_root root at_root planned)
      (subst (λ cs. All (FromRow projects) (updating_changes cs)) made rows)
