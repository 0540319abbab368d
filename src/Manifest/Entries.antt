-- ===== src/Manifest/Entries.antt =====
-- Entries of a manifest: `normalizeEntry`, `ValidateEntry`, `ValidateWorkspace`.
pub mod Hints
pub mod Workspace
pub mod Validity
use codemesh.Base.{
  ℕ, zero, suc, Text, txt, ◌==◌, ◌!=◌, Bool, true, false, not, ◌&&◌, ◌||◌, Option, none, some, List,
  [], ◌∷◌, is_empty, trim_space, clean, is_abs, has_prefix, climbs, mem_text, if◌then◌else◌, ◌=ℕ◌,
  Result, ok, err, ◌>>=◌, ◌>>◌, refuse_if, text_lt, sort, map,
}
use codemesh.Host.{Host}
use codemesh.GitOps.{normalize_remote}
use Hints.{
  EntryError, version, identity_required, identity_credentials, identity_query, identity_local,
  alias_required, desired_path_required, desired_path_absolute, desired_path_outside,
  validate_clone_hint, has_unsafe_url_userinfo, has_url_query_or_fragment, is_local_reference,
}

abbrev pub manifest_version : ℕ
manifest_version = 1

pub record ProjectEntry : Type 0 where
  pub identity : Text
  pub alias : Text
  pub desired_path : Text
  pub clone_hint : Text
  pub groups : List Text

pub record Entry : Type 0 where
  pub manifest_version : ℕ
  pub project : ProjectEntry

pub record WorkspaceManifest : Type 0 where
  pub manifest_version : ℕ
  pub projects : List ProjectEntry

-- `normalizeDesiredPath`
unfoldable pub normalize_desired_path : Text → Text
normalize_desired_path path = let p = trim_space path in if is_empty p then [] else clean p

-- `validateDesiredPath`
unfoldable pub validate_desired_path : Text → Result EntryError (Unit {0})
validate_desired_path path =
    if is_empty path
    then err desired_path_required
    else if is_abs path || has_prefix path (txt "/")
    then err desired_path_absolute
    else if climbs (clean path)
    then err desired_path_outside
    else ok tt

-- `normalizedGroups`: `seen` holds the groups that were kept.
unfoldable pub normalized_groups : List Text → List Text → List Text
normalized_groups seen [] = []
normalized_groups seen (group ∷ groups) =
    let g = trim_space group in
    let skipped = normalized_groups seen groups in
    let kept = g ∷ normalized_groups (g ∷ seen) groups in
    if is_empty g || mem_text g seen then skipped else kept

module _ (h : Host) where
  unfoldable pub normalize_identity : Text → Text
  normalize_identity raw =
      let identity = trim_space raw in
      if is_empty identity
      then identity
      else elim (normalize_remote h identity) [ ok normalized ↦ normalized | err _ ↦ identity ]

  unfoldable pub normalize_project : ProjectEntry → ProjectEntry
  normalize_project p = record {
    identity = normalize_identity p.identity;
    alias = trim_space p.alias;
    desired_path = normalize_desired_path p.desired_path;
    clone_hint = trim_space p.clone_hint;
    groups = normalized_groups [] p.groups;
  }

  -- `normalizeEntry`
  unfoldable pub normalize_entry : Entry → Entry
  normalize_entry e = record {
    manifest_version = if e.manifest_version =ℕ 0 then manifest_version else e.manifest_version;
    project = normalize_project e.project;
  }

  -- `ValidateEntry`
  unfoldable pub validate_entry : Entry → Result EntryError (Unit {0})
  validate_entry e = do
    refuse_if (not (e.manifest_version =ℕ manifest_version)) version
    refuse_if (is_empty (trim_space e.project.identity)) identity_required
    refuse_if (has_unsafe_url_userinfo h e.project.identity) identity_credentials
    refuse_if (has_url_query_or_fragment h e.project.identity) identity_query
    refuse_if (is_local_reference h e.project.identity) identity_local
    refuse_if (is_empty (trim_space e.project.alias)) alias_required
    validate_desired_path e.project.desired_path
    validate_clone_hint h e.project.clone_hint

  -- `normalizeWorkspaceManifest`
  unfoldable pub normalize_workspace : WorkspaceManifest → WorkspaceManifest
  normalize_workspace m = record m {
    projects =
        sort
          (λ p q.
            if p.desired_path == q.desired_path
            then text_lt p.identity q.identity
            else text_lt p.desired_path q.desired_path)
          (map normalize_project m.projects);
  }

  -- `EntriesFromWorkspace`
  unfoldable pub entries_from_workspace : WorkspaceManifest → List Entry
  entries_from_workspace m =
      map (λ p. record { manifest_version = manifest_version; project = p })
        (normalize_workspace m).projects
