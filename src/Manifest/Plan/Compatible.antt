-- ===== src/Manifest/Plan/Compatible.antt =====
-- The changes of one plan that are not refused can all be made: no two of them ask for the same
-- identity, alias or path, or for paths of which one lies in the other.
use mathlib.Core.Path.{subst}
use codemesh.Base.{
  ◌≡◌, refl, ◌≢◌, inl, inr, Text, true, false, List, [], ◌∷◌, arith, All, Pairs, Bool-cases, map,
  ok, >>=-ok,
}
use codemesh.Host.{Host}
use codemesh.State.{Project}
use codemesh.Manifest.Entries.{Entry, ProjectEntry}
use codemesh.Base.Within.{Within}
use codemesh.Manifest.Locations.{path_is_ancestor, canonical_path_for_comparison}
use codemesh.Manifest.Nesting.{path_within_root-Within}
use codemesh.Manifest.Plan.{
  plan_entry, plan_entries, plan_import, clean_workspace_root, normalize_entries,
}
use codemesh.Manifest.Plan.Outcome.{
  is_conflict, Holds, For, Taken, owned-ne, not_nested, mem_text-ne, Holds-plan_entry,
  plan_entry-Taken, plan_entry-For, Holds-Taken,
}
use codemesh.Manifest.Plan.Registry.{Ledger, index_registry}
use codemesh.Manifest.Plan.Change.{ImportChange, desired_compare_path}

-- Two changes that can both be made.
pub record Separate (h : Host) (root : Text) (c d : ImportChange) : Type 0 where
  pub identities : c.identity ≢ d.identity
  pub aliases : c.alias ≢ d.alias
  pub paths :
      desired_compare_path h root c.desired_path ≢ desired_compare_path h root d.desired_path
  pub not_above :
      path_is_ancestor
        (desired_compare_path h root c.desired_path)
        (desired_compare_path h root d.desired_path)
      ≡ false
  pub not_below :
      path_is_ancestor
        (desired_compare_path h root d.desired_path)
        (desired_compare_path h root c.desired_path)
      ≡ false

module _ (h : Host) (root : Text) where
  Separate-Taken :
      (c d : ImportChange) (l after : Ledger) (p : ProjectEntry)
      → Holds h root c l
      → For h root p d
      → Taken h root l p after
      → Separate h root c d
  Separate-Taken c d l after p k f t =
      let path = desired_compare_path h root p.desired_path in
      let other : c.identity ≢ p.identity =
        mem_text-ne l.seen_identities c.identity p.identity k.identity t.fresh in
      let apart = not_nested l.seen_paths path _ p.identity c.identity t.not_nested k.path other in
      record {
        identities = rw f.identity other;
        aliases = rw f.alias (
            owned-ne l.alias_owner p.alias c.alias p.identity c.identity t.alias_free k.alias
              other);
        paths =
            rw f.desired_path
              (owned-ne l.seen_paths path _ p.identity c.identity t.path_free k.path other);
        not_above = rw f.desired_path apart.0;
        not_below = rw f.desired_path apart.1;
      }

  -- If neither of two changes is a conflict, both can be made.
  abbrev pub Compatible : ImportChange → ImportChange → Type 0
  Compatible c d = is_conflict c.action ≡ false → is_conflict d.action ≡ false → Separate h root c d

  later-Compatible :
      (c : ImportChange) (l : Ledger) (es : List Entry)
      → Holds h root c l
      → All (Compatible c) (plan_entries h root l es)
  unfolding plan_entries
  later-Compatible c l [] k = tt
  later-Compatible c l (e ∷ es) k = (
    (λ _ accepted.
        Separate-Taken c _ l _ e.project k (plan_entry-For h root l e.project)
          (plan_entry-Taken h root l e.project accepted)),
    later-Compatible c (plan_entry h root l e.project).1 es
        (Holds-plan_entry h root c l e.project k),
  )

  conflict-Compatible :
      (c : ImportChange) (ds : List ImportChange)
      → is_conflict c.action ≡ true
      → All (Compatible c) ds
  conflict-Compatible c [] h = tt
  conflict-Compatible c (d ∷ ds) h = ((λ a _. cc), conflict-Compatible c ds h)

  plan_entries-Compatible :
      (l : Ledger) (es : List Entry) → Pairs Compatible (plan_entries h root l es)
  unfolding plan_entries
  plan_entries-Compatible l [] = tt
  plan_entries-Compatible l (e ∷ es) =
      let (c, after) = plan_entry h root l e.project in
      (
        elim (Bool-cases (is_conflict c.action)) [
          | inl refused ↦ conflict-Compatible c _ refused
          | inr accepted ↦ later-Compatible c after es (
              Holds-Taken h root l after e.project c (plan_entry-For h root l e.project)
                (plan_entry-Taken h root l e.project accepted))
        ],
        plan_entries-Compatible after es,
      )

  -- Every change that is not a conflict lies inside the workspace root.
  abbrev pub Inside : ImportChange → Type 0
  Inside c =
      is_conflict c.action ≡ false
      → Within (canonical_path_for_comparison h (canonical_path_for_comparison h root))
          (canonical_path_for_comparison h (desired_compare_path h root c.desired_path))

  plan_entries-Inside : (l : Ledger) (es : List Entry) → All Inside (plan_entries h root l es)
  unfolding plan_entries
  plan_entries-Inside l [] = tt
  plan_entries-Inside l (e ∷ es) = (
    (λ accepted. path_within_root-Within h _ _ (
        rw (plan_entry-For h root l e.project).desired_path
          (plan_entry-Taken h root l e.project accepted).inside)),
    plan_entries-Inside (plan_entry h root l e.project).1 es,
  )

  plan_entries-identities :
      (l : Ledger) (es : List Entry)
      → map (λ (c : ImportChange). c.identity) (plan_entries h root l es)
        ≡ map (λ (e : Entry). e.project.identity) es
  unfolding plan_entries
  plan_entries-identities l [] = refl
  plan_entries-identities l (e ∷ es) = rw (
    (plan_entry-For h root l e.project).identity,
    plan_entries-identities (plan_entry h root l e.project).1 es,
  )

-- What a plan that is made consists of.
pub plan_import-parts :
    (h : Host) (entries : List Entry) (projects : List Project) (workspace_root : Text)
    {changes : List ImportChange}
    → plan_import h entries projects workspace_root ≡ ok changes
    → (root : Text) × (es : List Entry) × (clean_workspace_root h workspace_root ≡ ok root)
      × (normalize_entries h entries ≡ ok es)
      × (plan_entries h root (index_registry h (canonical_path_for_comparison h) es projects) es
          ≡ changes)
unfolding plan_import
plan_import-parts h entries projects workspace_root planned =
    let (root, at_root, rest) = >>=-ok (clean_workspace_root h workspace_root) _ planned in
    let (es, listed, done) = >>=-ok (normalize_entries h entries) _ rest in
    (root, es, at_root, listed, ground arith)

-- In a plan that is made, for each two changes that are not conflicts: their identities, their
-- aliases and their compared paths differ, and neither path is an ancestor of the other.
pub plan_import-Compatible :
    (h : Host) (entries : List Entry) (projects : List Project) (workspace_root root : Text)
    {changes : List ImportChange}
    → clean_workspace_root h workspace_root ≡ ok root
    → plan_import h entries projects workspace_root ≡ ok changes
    → Pairs (Compatible h root) changes
plan_import-Compatible h entries projects workspace_root root {changes} at_root planned =
    let (r, es, at_r, listed, made) = plan_import-parts h entries projects workspace_root planned in
    let same : r ≡ root = ground (arith, at_r) in
    subst (λ x. Pairs (Compatible h x) changes) same
      (subst (Pairs (Compatible h r)) made (plan_entries-Compatible h r _ es))

-- In a plan that is made, the compared path of each change that is not a conflict lies in the
-- workspace root: as they are compared, both are absolute or both relative, and the elements of the
-- path are those of the root followed by some of which the first is not "..".
pub plan_import-Inside :
    (h : Host) (entries : List Entry) (projects : List Project) (workspace_root root : Text)
    {changes : List ImportChange}
    → clean_workspace_root h workspace_root ≡ ok root
    → plan_import h entries projects workspace_root ≡ ok changes
    → All (Inside h root) changes
plan_import-Inside h entries projects workspace_root root {changes} at_root planned =
    let (r, es, at_r, listed, made) = plan_import-parts h entries projects workspace_root planned in
    let same : r ≡ root = ground (arith, at_r) in
    subst (λ x. All (Inside h x) changes) same
      (subst (All (Inside h r)) made (plan_entries-Inside h r _ es))
