-- ===== src/Tests/Imports.antt =====
-- Manifests: which are valid, and what their import would change.
use codemesh.Base.{
  arith, ◌≡◌, refl, ◌↔◌, Text, txt, none, some, true, is_abs, List, [], ◌∷◌, ok, err, All, Pairs,
}
use codemesh.Manifest.Entries.{ProjectEntry, Entry, WorkspaceManifest}
use codemesh.Manifest.Entries.Workspace.{validate_workspace, alias_twice}
use codemesh.Manifest.Entries.Validity.{IsValidWorkspace, validate_workspace_iff}
use codemesh.Manifest.Plan.{plan_import, clean_workspace_root}
use codemesh.Manifest.Plan.Change.{ImportChange, add}
use codemesh.Manifest.Plan.Compatible.{
  Compatible, Inside, plan_import-Compatible, plan_import-Inside,
}
use codemesh.Manifest.Plan.Placement.{Placed, plan_import-Placed}
use codemesh.Tests.Fixtures.{machine}
use codemesh.Tests.Opened.{text_code, git_code, manifest_code, plan_code}

abbrev pub entry_a : ProjectEntry
entry_a = record {
  identity = txt "https://h/a";
  alias = txt "a";
  desired_path = txt "a";
  clone_hint = [];
  groups = [];
}

abbrev pub entry_b : ProjectEntry
entry_b = record {
  identity = txt "https://h/b";
  alias = txt "b";
  desired_path = txt "sub/b";
  clone_hint = [];
  groups = [];
}

abbrev small : WorkspaceManifest
small = record { manifest_version = 1; projects = entry_a ∷ entry_b ∷ [] }

valid_small : validate_workspace machine small ≡ ok tt
unfolding text_code git_code manifest_code
valid_small = refl

validate_workspace_iff_example :
    (validate_workspace machine small ≡ ok tt) ↔ IsValidWorkspace machine small
validate_workspace_iff_example = validate_workspace_iff machine small

-- An alias that two entries share.
shared_alias :
    validate_workspace machine
      (record small { projects = entry_a ∷ record entry_b { alias = txt "a " } ∷ [] })
    ≡ err (alias_twice (txt "a"))
unfolding text_code git_code manifest_code
shared_alias = refl

abbrev planned : ProjectEntry → Text → ImportChange
planned p path = record {
  action = add;
  project_id = 0;
  identity = p.identity;
  alias = p.alias;
  desired_path = p.desired_path;
  local_path = path;
  canonical_path = path;
  clone_url = p.identity;
  fields = [];
  conflict_reason = none;
}

abbrev small_plan : List ImportChange
small_plan = planned entry_a (txt "/w/a") ∷ planned entry_b (txt "/w/sub/b") ∷ []

abbrev pub small_entries : List Entry
small_entries =
    record { manifest_version = 1; project = entry_a }
    ∷ record { manifest_version = 1; project = entry_b }
    ∷ []

small_root : clean_workspace_root machine (txt "/w/") ≡ ok (txt "/w")
unfolding text_code git_code plan_code
small_root = refl

plan_small : plan_import machine small_entries [] (txt "/w/") ≡ ok small_plan
unfolding text_code git_code manifest_code plan_code
plan_small = refl

plan_import-Compatible_example : Pairs (Compatible machine (txt "/w")) small_plan
plan_import-Compatible_example =
    plan_import-Compatible machine small_entries [] (txt "/w/") (txt "/w") small_root plan_small

plan_import-Inside_example : All (Inside machine (txt "/w")) small_plan
plan_import-Inside_example =
    plan_import-Inside machine small_entries [] (txt "/w/") (txt "/w") small_root plan_small

absolute_directory : (wd : Text) → machine.working_dir ≡ some wd → is_abs wd ≡ true
unfolding text_code
absolute_directory wd e = ground arith

plan_import-Placed_example : All (Placed machine (txt "/w")) small_plan
plan_import-Placed_example =
    plan_import-Placed machine small_entries [] (txt "/w/") (txt "/w") absolute_directory small_root
      plan_small
