-- ===== src/Manifest/Entries/Workspace.antt =====
-- `ValidateWorkspace`: a whole manifest is valid.
use codemesh.Base.{
  Text, ◌||◌, Option, none, some, List, [], ◌∷◌, if◌then◌else◌, ◌=ℕ◌, Result, ok, err, ◌>>◌,
  refuse_if, map_err, Dict, insert, has_key,
}
use codemesh.Host.{Host}
use codemesh.Manifest.Locations.{desired_path_nests}
use codemesh.Manifest.Entries.{
  manifest_version, ProjectEntry, Entry, WorkspaceManifest, normalize_entry, validate_entry,
}
use codemesh.Manifest.Entries.Hints.{EntryError}

pub data WorkspaceError : Type 0 where
  workspace_version : WorkspaceError
  invalid_entry : EntryError → WorkspaceError
  alias_twice identity_twice path_twice : Text → WorkspaceError
  path_nests : Text → Text → Text → WorkspaceError

-- `seenAliases`, `seenIdentities` and `seenPaths`
pub record Seen : Type 0 where
  pub aliases : Dict Text
  pub identities : Dict Text
  pub paths : Dict Text

-- The inner loop: a path that nests with the new one, and its owner. Go walks the map in no fixed
-- order, so which of several such paths the message names is not settled; here it is the first.
unfoldable pub find_nesting : Dict Text → Text → Option (Text × Text)
find_nesting [] path = none
find_nesting ((seen, owner) ∷ rest) path =
    if desired_path_nests seen path || desired_path_nests path seen
    then some (seen, owner)
    else find_nesting rest path

unfoldable pub check_nesting : Dict Text → Text → Result WorkspaceError (Unit {0})
check_nesting seen path = elim (find_nesting seen path) [
  | none ↦ ok tt
  | some (other, owner) ↦ err (path_nests path other owner)
]

unfoldable pub check_new : Seen → ProjectEntry → Result WorkspaceError (Unit {0})
check_new seen p = do
  refuse_if (has_key p.alias seen.aliases) (alias_twice p.alias)
  refuse_if (has_key p.identity seen.identities) (identity_twice p.identity)
  refuse_if (has_key p.desired_path seen.paths) (path_twice p.desired_path)
  check_nesting seen.paths p.desired_path

unfoldable pub remember : Seen → ProjectEntry → Seen
remember seen p = record {
  aliases = insert p.alias p.identity seen.aliases;
  identities = insert p.identity p.alias seen.identities;
  paths = insert p.desired_path p.identity seen.paths;
}

module _ (h : Host) where
  -- An entry of a manifest, as the loop normalizes it.
  abbrev pub normal : ProjectEntry → Entry
  normal p = normalize_entry h (record { manifest_version = manifest_version; project = p })

  unfoldable pub validate_projects : Seen → List ProjectEntry → Result WorkspaceError (Unit {0})
  validate_projects seen [] = ok tt
  validate_projects seen (p ∷ ps) =
      let rest = validate_projects (remember seen (normal p).project) ps in
      do
        map_err invalid_entry (validate_entry h (normal p))
        check_new seen (normal p).project
        rest

  -- `ValidateWorkspace`
  unfoldable pub validate_workspace : WorkspaceManifest → Result WorkspaceError (Unit {0})
  validate_workspace m =
      if m.manifest_version =ℕ manifest_version
      then validate_projects (record { aliases = []; identities = []; paths = [] }) m.projects
      else err workspace_version
