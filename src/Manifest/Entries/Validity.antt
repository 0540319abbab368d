-- ===== src/Manifest/Entries/Validity.antt =====
-- `ValidateWorkspace` decides an independent description of the manifests that can be realised.
use codemesh.Base.{
  ◌≡◌, refl, ◌≢◌, ◌↔◌, inl, inr, Text, eq_iff, false, ◌||◌, none, List, [], ◌∷◌, Result, ok, err,
  map_err, Dict, lookup, insert, is_some, has_key, lookup-insert, arith, All, Pairs, Bool-cases,
  =ℕ_iff, ◌=ℕ◌, >>=-ok,
}
use codemesh.Host.{Host}
use codemesh.Manifest.Locations.{desired_path_nests}
use codemesh.Manifest.Entries.{manifest_version, ProjectEntry, WorkspaceManifest, validate_entry}
use codemesh.Manifest.Entries.Hints.{EntryError}
use codemesh.Manifest.Entries.Workspace.{
  WorkspaceError, Seen, find_nesting, check_nesting, check_new, remember, normal, validate_projects,
  validate_workspace, invalid_entry,
}

-- Two entries that can stand in one manifest.
pub record Apart (p q : ProjectEntry) : Type 0 where
  pub aliases : p.alias ≢ q.alias
  pub identities : p.identity ≢ q.identity
  pub paths : p.desired_path ≢ q.desired_path
  pub not_above : desired_path_nests p.desired_path q.desired_path ≡ false
  pub not_below : desired_path_nests q.desired_path p.desired_path ≡ false

-- The entry clashes with none of those that were seen.
record Fresh (seen : Seen) (p : ProjectEntry) : Type 0 where
  alias : has_key p.alias seen.aliases ≡ false
  identity : has_key p.identity seen.identities ≡ false
  path : has_key p.desired_path seen.paths ≡ false
  nesting : find_nesting seen.paths p.desired_path ≡ none

check_new-Fresh : (seen : Seen) (p : ProjectEntry) → check_new seen p ≡ ok tt → Fresh seen p
unfolding check_new check_nesting
check_new-Fresh seen p e = ground arith

Fresh-check_new : (seen : Seen) (p : ProjectEntry) → Fresh seen p → check_new seen p ≡ ok tt
unfolding check_new check_nesting
Fresh-check_new seen p f = ground arith

find_nesting-insert :
    (k path v : Text) (d : Dict Text)
    → is_some (find_nesting (insert k v d) path)
      ≡ ((desired_path_nests k path || desired_path_nests path k) || is_some (find_nesting d path))
unfolding find_nesting insert
find_nesting-insert k path v [] = ground arith
find_nesting-insert k path v ((j, w) ∷ d) =
    ground (arith, eq_iff j k, find_nesting-insert k path v d)

Fresh-remember :
    (seen : Seen) (p q : ProjectEntry) → Fresh (remember seen p) q → Fresh seen q × Apart p q
unfolding remember
Fresh-remember seen p q f = (
  ground (
    arith,
    f,
    lookup-insert p.alias q.alias p.identity seen.aliases,
    lookup-insert p.identity q.identity p.alias seen.identities,
    lookup-insert p.desired_path q.desired_path p.identity seen.paths,
    find_nesting-insert p.desired_path q.desired_path p.identity seen.paths,
  ),
  ground (
    arith,
    f,
    lookup-insert p.alias q.alias p.identity seen.aliases,
    lookup-insert p.identity q.identity p.alias seen.identities,
    lookup-insert p.desired_path q.desired_path p.identity seen.paths,
    find_nesting-insert p.desired_path q.desired_path p.identity seen.paths,
    eq_iff p.alias q.alias,
    eq_iff p.identity q.identity,
    eq_iff p.desired_path q.desired_path,
  ),
)

remember-Fresh :
    (seen : Seen) (p q : ProjectEntry) → Fresh seen q → Apart p q → Fresh (remember seen p) q
unfolding remember
remember-Fresh seen p q f a = ground (
  arith,
  f,
  a,
  lookup-insert p.alias q.alias p.identity seen.aliases,
  lookup-insert p.identity q.identity p.alias seen.identities,
  lookup-insert p.desired_path q.desired_path p.identity seen.paths,
  find_nesting-insert p.desired_path q.desired_path p.identity seen.paths,
  eq_iff p.alias q.alias,
  eq_iff p.identity q.identity,
  eq_iff p.desired_path q.desired_path,
)

module _ (h : Host) where
  IsValidEntry : ProjectEntry → Type 0
  IsValidEntry p = validate_entry h (normal h p) ≡ ok tt

  FreshEntry : Seen → ProjectEntry → Type 0
  FreshEntry seen p = Fresh seen (normal h p).project

  ApartEntries : ProjectEntry → ProjectEntry → Type 0
  ApartEntries p q = Apart (normal h p).project (normal h q).project

  split_fresh :
      (seen : Seen) (p : ProjectEntry) (ps : List ProjectEntry)
      → All (FreshEntry (remember seen (normal h p).project)) ps
      → All (FreshEntry seen) ps × All (ApartEntries p) ps
  unfolding FreshEntry ApartEntries
  split_fresh seen p [] f = (tt, tt)
  split_fresh seen p (q ∷ qs) f =
      let (now, apart) = Fresh-remember seen (normal h p).project (normal h q).project f.0 in
      let (later, aparts) = split_fresh seen p qs f.1 in ((now, later), (apart, aparts))

  join_fresh :
      (seen : Seen) (p : ProjectEntry) (ps : List ProjectEntry)
      → All (FreshEntry seen) ps
      → All (ApartEntries p) ps
      → All (FreshEntry (remember seen (normal h p).project)) ps
  unfolding FreshEntry ApartEntries
  join_fresh seen p [] f a = tt
  join_fresh seen p (q ∷ qs) f a = (
    remember-Fresh seen (normal h p).project (normal h q).project f.0 a.0,
    join_fresh seen p qs f.1 a.1,
  )

  map_err-ok :
      (r : Result EntryError (Unit {0})) (u : Unit {0})
      → map_err WorkspaceError.invalid_entry r ≡ ok u
      → r ≡ ok tt
  map_err-ok (ok tt) u e = refl
  map_err-ok (err x) u e = cc

  validate_projects_sound :
      (seen : Seen) (ps : List ProjectEntry)
      → validate_projects h seen ps ≡ ok tt
      → All IsValidEntry ps × All (FreshEntry seen) ps × Pairs ApartEntries ps
  unfolding validate_projects IsValidEntry FreshEntry
  validate_projects_sound seen [] e = (tt, tt, tt)
  validate_projects_sound seen (p ∷ ps) e =
      let (u, valid, e') = >>=-ok (map_err invalid_entry (validate_entry h (normal h p))) _ e in
      let (v, fresh, rest) = >>=-ok (check_new seen (normal h p).project) _ e' in
      let (valids, freshes, aparts) =
        validate_projects_sound (remember seen (normal h p).project) ps rest in
      let (later, apart) = split_fresh seen p ps freshes in
      (
        (map_err-ok _ u valid, valids),
        (check_new-Fresh seen (normal h p).project fresh, later),
        (apart, aparts),
      )

  validate_projects_complete :
      (seen : Seen) (ps : List ProjectEntry)
      → All IsValidEntry ps
      → All (FreshEntry seen) ps
      → Pairs ApartEntries ps
      → validate_projects h seen ps ≡ ok tt
  unfolding validate_projects IsValidEntry FreshEntry
  validate_projects_complete seen [] v f a = refl
  validate_projects_complete seen (p ∷ ps) v f a =
      rw (v.0, Fresh-check_new seen (normal h p).project f.0)
        (validate_projects_complete (remember seen (normal h p).project) ps v.1
          (join_fresh seen p ps f.1 a.0) a.1)

  nothing_seen :
      (ps : List ProjectEntry)
      → All (FreshEntry (record { aliases = []; identities = []; paths = [] })) ps
  unfolding FreshEntry lookup find_nesting
  nothing_seen [] = tt
  nothing_seen (p ∷ ps) =
      (record { alias = refl; identity = refl; path = refl; nesting = refl }, nothing_seen ps)

  -- A manifest of the right version, in which every normalized entry is valid and no two share an
  -- alias, an identity or a desired path, or have desired paths of which one lies in the other.
  pub record IsValidWorkspace (m : WorkspaceManifest) : Type 0 where
    pub version : m.manifest_version ≡ manifest_version
    pub entries : All (λ p. validate_entry h (normal h p) ≡ ok tt) m.projects
    pub apart : Pairs (λ p q. Apart (normal h p).project (normal h q).project) m.projects

  -- `ValidateWorkspace` returns no error exactly for the manifests of version 1 in which every
  -- normalized entry is valid, and no two normalized entries share an alias, an identity or a
  -- desired path or have desired paths of which one lies in the other.
  pub validate_workspace_iff :
      (m : WorkspaceManifest) → (validate_workspace h m ≡ ok tt) ↔ IsValidWorkspace m
  unfolding validate_workspace IsValidEntry FreshEntry ApartEntries
  validate_workspace_iff m = (
    (λ e. elim (Bool-cases (m.manifest_version =ℕ manifest_version)) [
      | inl current ↦
          let (valid, fresh, apart) = validate_projects_sound _ m.projects (rw current at e) in
          record { version = (=ℕ_iff _ _).0 current; entries = valid; apart = apart }
      | inr other ↦ cc (rw other at e)
    ]),
    (λ v.
        rw ((=ℕ_iff _ _).1 v.version)
          (validate_projects_complete _ m.projects v.entries (nothing_seen m.projects) v.apart)),
  )
