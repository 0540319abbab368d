-- ===== src/Manifest/Plan/Registry.antt =====
-- The maps of the registry that `PlanImport` and the dry run of `internal/reconciliation` build in
-- the same two loops; they differ in how they bring a path into the form that is compared.
use codemesh.Base.{
  Text, ◌==◌, Bool, not, ◌&&◌, ◌||◌, Option, none, some, List, [], ◌∷◌, is_empty, is_some,
  trim_space, if◌then◌else◌, Dict, lookup, insert,
}
use codemesh.Host.{Host}
use codemesh.State.{Project}
use codemesh.Manifest.Entries.{Entry}
use codemesh.Manifest.Locations.{Reason, path_registered, path_exists_or_unknown}

-- The maps that the planner builds from the registry and then extends entry by entry:
-- `byIdentity`, `byPath`, `aliasOwner`, `seenDesiredPaths`, `seenManifestIdentities`.
pub record Ledger : Type 0 where
  pub by_identity : Dict Project
  pub by_path : Dict Project
  pub alias_owner : Dict Text
  pub seen_paths : Dict Text
  pub seen_identities : List Text

-- `projectCanonicalPath`
unfoldable pub project_canonical_path : Project → Text
project_canonical_path p =
    if is_empty (trim_space p.canonical_path) then p.local_path else p.canonical_path

-- The alias that the manifest desires for an identity: that of its first entry.
unfoldable pub desired_alias : List Entry → Text → Option Text
desired_alias [] identity = none
desired_alias (e ∷ es) identity =
    if e.project.identity == identity then some e.project.alias else desired_alias es identity

unfoldable pub in_manifest : List Entry → Text → Bool
in_manifest es identity = is_some (desired_alias es identity)

-- A path that another project of the registry holds.
unfoldable pub registered_elsewhere : Dict Project → Text → Text → Option Reason
registered_elsewhere by_path path identity = elim (lookup path by_path) [
  | none ↦ none
  | some owner ↦
      if owner.normalized_remote == identity
      then none
      else some (path_registered owner.normalized_remote)
]

-- An alias or a path whose owner is another identity.
unfoldable pub other_owner : Dict Text → Text → Text → Option Text
other_owner owners key identity = elim (lookup key owners) [
  | none ↦ none
  | some owner ↦ if owner == identity then none else some owner
]

unfoldable pub first_reason : Option Reason → Option Reason → Option Reason
first_reason none r = r
first_reason (some r) _ = some r

module _ (h : Host) (compare : Text → Text) where
  -- The first loop over the registry.
  unfoldable pub index_project : List Entry → Ledger → Project → Ledger
  index_project es l p =
      let listed = in_manifest es p.normalized_remote in
      let path = project_canonical_path p in
      let by_canonical =
        if not listed && not (is_empty (trim_space path))
        then insert (compare path) p l.by_path
        else l.by_path in
      let by_path =
        if not (is_empty (trim_space p.local_path))
          && (not listed || path_exists_or_unknown h p.local_path)
        then insert (compare p.local_path) p by_canonical
        else by_canonical in
      let owners : Dict Text = elim (desired_alias es p.normalized_remote) [
        | none ↦ insert p.alias p.normalized_remote l.alias_owner
        | some wanted ↦
            if wanted == p.alias
            then insert p.alias p.normalized_remote l.alias_owner
            else l.alias_owner
      ] in
      record l {
        by_identity = insert p.normalized_remote p l.by_identity;
        by_path = by_path;
        alias_owner = owners;
      }

  -- The second loop over the registry.
  unfoldable pub see_project : List Entry → Ledger → Project → Ledger
  see_project es l p =
      let listed = in_manifest es p.normalized_remote in
      let path = project_canonical_path p in
      let local =
        if not (is_empty (trim_space p.local_path))
          && (not listed || path_exists_or_unknown h p.local_path)
        then insert (compare p.local_path) p.normalized_remote l.seen_paths
        else l.seen_paths in
      record l {
        seen_paths =
            if listed || is_empty (trim_space path)
            then local
            else insert (compare path) p.normalized_remote local;
      }

  unfoldable pub index_projects : List Entry → Ledger → List Project → Ledger
  index_projects es l [] = l
  index_projects es l (p ∷ ps) = index_projects es (index_project es l p) ps

  unfoldable pub see_projects : List Entry → Ledger → List Project → Ledger
  see_projects es l [] = l
  see_projects es l (p ∷ ps) = see_projects es (see_project es l p) ps

  abbrev pub no_entries : Ledger
  no_entries = record {
    by_identity = [];
    by_path = [];
    alias_owner = [];
    seen_paths = [];
    seen_identities = [];
  }

  unfoldable pub index_registry : List Entry → List Project → Ledger
  index_registry es ps = see_projects es (index_projects es no_entries ps) ps
