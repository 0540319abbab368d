-- ===== src/Manifest/Export.antt =====
-- internal/workspacemanifest/manifest.go: the manifest that a registry gives, `ExportProjects` and
-- `ExportWorkspace`.
use codemesh.Base.{
  ◌≡◌, Text, ◌==◌, none, some, List, [], ◌∷◌, map, is_empty, trim_space, clean, rel, climbs, sort,
  sort-All, text_lt, All, if◌then◌else◌, Result, ok, err, ◌>>=◌, >>=-ok, ok_injective, map_err,
}
use mathlib.Core.Path.{subst}
use codemesh.Host.{Host}
use codemesh.GitOps.{abs}
use codemesh.State.{Project}
use codemesh.Manifest.Entries.{
  Entry, WorkspaceManifest, manifest_version, normalize_entry, validate_entry, normalize_workspace,
}
use codemesh.Manifest.Entries.Hints.{EntryError, manifest_clone_hint}
use codemesh.Manifest.Locations.{canonical_path_for_comparison}
use codemesh.Manifest.Plan.{PlanError, clean_workspace_root}
use codemesh.Manifest.Plan.Registry.{project_canonical_path}

pub data PathError : Type 0 where
  local_path_required no_working_directory not_relative outside_workspace : PathError

pub data ExportError : Type 0 where
  bad_root : PlanError → ExportError
  bad_path : Text → PathError → ExportError
  bad_entry : Text → EntryError → ExportError

map_err-ok : {E F A : Type 0} (f : E → F) {r : Result E A} {a : A} → map_err f r ≡ ok a → r ≡ ok a
map_err-ok f {r = ok b} e = cc
map_err-ok f {r = err x} e = cc

module _ (h : Host) where
  -- `canonicalWorkspaceRoot`
  unfoldable pub canonical_workspace_root : Text → Result PlanError Text
  canonical_workspace_root root =
      clean_workspace_root h root >>= λ r. ok (canonical_path_for_comparison h r)

  -- `relativeDesiredPath`
  unfoldable pub relative_desired_path : Text → Text → Result PathError Text
  relative_desired_path root local_path =
      if is_empty (trim_space local_path)
      then err local_path_required
      else elim (abs h local_path) [
        | none ↦ err no_working_directory
        | some path ↦ elim (rel root (clean (canonical_path_for_comparison h path))) [
          | none ↦ err not_relative
          | some r ↦ if climbs (clean r) then err outside_workspace else ok (clean r)
        ]
      ]

  -- The entry of a project at a path.
  unfoldable pub exported_entry : Project → Text → Entry
  exported_entry p desired_path = normalize_entry h (record {
    manifest_version = manifest_version;
    project = record {
      identity = p.normalized_remote;
      alias = p.alias;
      desired_path = desired_path;
      clone_hint = manifest_clone_hint h p.clone_url;
      groups = [];
    };
  })

  -- The body of the loop of `ExportProjects`
  unfoldable pub export_project : Text → Project → Result ExportError Entry
  export_project root p = do
    path ← map_err (bad_path p.alias) (relative_desired_path root (project_canonical_path p))
    _ ← map_err (bad_entry p.alias) (validate_entry h (exported_entry p path))
    ok (exported_entry p path)

  unfoldable pub export_all : Text → List Project → Result ExportError (List Entry)
  export_all root [] = ok []
  export_all root (p ∷ projects) =
      let rest = export_all root projects in
      export_project root p >>= λ e. rest >>= λ es. ok (e ∷ es)

  -- `ExportProjects`
  unfoldable pub export_projects : List Project → Text → Result ExportError (List Entry)
  export_projects projects workspace_root = do
    root ← map_err bad_root (canonical_workspace_root workspace_root)
    entries ← export_all root projects
    ok (
        sort
          (λ (d e : Entry).
            if d.project.desired_path == e.project.desired_path
            then text_lt d.project.identity e.project.identity
            else text_lt d.project.desired_path e.project.desired_path)
          entries)

  -- `ExportWorkspace`
  unfoldable pub export_workspace : List Project → Text → Result ExportError WorkspaceManifest
  export_workspace projects workspace_root = do
    entries ← export_projects projects workspace_root
    ok (
        normalize_workspace h (record {
          manifest_version = manifest_version;
          projects = map (λ (e : Entry). e.project) entries;
        }))

  abbrev pub IsValid : Entry → Type 0
  IsValid e = validate_entry h e ≡ ok tt

  export_project-IsValid :
      (root : Text) (p : Project) {e : Entry} → export_project root p ≡ ok e → IsValid e
  unfolding export_project
  export_project-IsValid root p done =
      let (path, at, more) =
        >>=-ok (map_err (bad_path p.alias) (relative_desired_path root (project_canonical_path p)))
          _ done in
      let (u, valid, last) =
        >>=-ok (map_err (bad_entry p.alias) (validate_entry h (exported_entry p path))) _ more in
      subst IsValid (ok_injective last) (map_err-ok (bad_entry p.alias) valid)

  export_all-IsValid :
      (root : Text) (projects : List Project) {es : List Entry}
      → export_all root projects ≡ ok es
      → All IsValid es
  unfolding export_all
  export_all-IsValid root [] {es = es} done = subst (All IsValid) (ok_injective done) tt
  export_all-IsValid root (p ∷ projects) {es = es} done =
      let (e, one, more) = >>=-ok (export_project root p) _ done in
      let (rest, others, last) = >>=-ok (export_all root projects) _ more in
      subst (All IsValid) (ok_injective last)
        (export_project-IsValid root p one, export_all-IsValid root projects others)

-- Every entry that `ExportProjects` gives passes `ValidateEntry`.
pub export_projects-IsValid :
    (h : Host) (projects : List Project) (workspace_root : Text) {entries : List Entry}
    → export_projects h projects workspace_root ≡ ok entries
    → All (IsValid h) entries
unfolding export_projects
export_projects-IsValid h projects workspace_root done =
    let (root, at, more) =
      >>=-ok (map_err bad_root (canonical_workspace_root h workspace_root)) _ done in
    let (es, all, last) = >>=-ok (export_all h root projects) _ more in
    subst (All (IsValid h)) (ok_injective last)
      (sort-All _ (IsValid h) es (export_all-IsValid h root projects all))
