-- ===== src/Tests/Applying.antt =====
-- An import that swaps the aliases of two projects, and one that fails half way.
use codemesh.Base.{◌≡◌, refl, Text, txt, false, some, none, List, [], ◌∷◌, ok, err, mem_text}
use codemesh.State.{Table, list_projects}
use codemesh.State.Rows.{}
use codemesh.Manifest.Entries.{WorkspaceManifest, entries_from_workspace}
use codemesh.Manifest.Plan.{plan_import}
use codemesh.Manifest.Plan.Change.{ImportChange}
use codemesh.Manifest.Locations.{alias_taken}
use codemesh.Manifest.Apply.{Applied, import_conflict, first_conflict, apply_import}
use codemesh.Manifest.Apply.Aliases.{fresh_alias}
use codemesh.Manifest.Apply.Fresh.{fresh_alias-unused}
use codemesh.Manifest.Apply.Effect.{Reflects}
use codemesh.Manifest.Apply.Atomic.{apply_import_failed}
use codemesh.Manifest.Apply.Outcome.{apply_import-Reflects}
use codemesh.Tests.Fixtures.{machine, a_project, b_project, two_projects}
use codemesh.Tests.Imports.{entry_a, entry_b}
use codemesh.Tests.Registry.{two-IsConsistent}
use codemesh.Tests.Opened.{text_code, git_code, manifest_code, plan_code, state_code, apply_code}

-- The aliases of the two projects change places; the first stays where it is.
abbrev swapped : WorkspaceManifest
swapped = record {
  manifest_version = 1;
  projects = record entry_a { alias = txt "b" } ∷ record entry_b { alias = txt "a" } ∷ [];
}

abbrev swapped_table : Table
swapped_table =
    record a_project { alias = txt "b" }
    ∷ record b_project {
      alias = txt "a";
      local_path = txt "/w/sub/b";
      canonical_path = txt "/w/sub/b";
    }
    ∷ []

swaps : (apply_import machine swapped (txt "/w") two_projects).1 ≡ swapped_table
unfolding text_code git_code manifest_code plan_code state_code apply_code
swaps = refl

abbrev swapped_result : Applied
swapped_result = record { added_projects = []; updated_projects = swapped_table }

succeeds : (apply_import machine swapped (txt "/w") two_projects).0 ≡ ok swapped_result
unfolding text_code git_code manifest_code plan_code state_code apply_code
succeeds = refl

apply_import-Reflects_example :
    (changes : List ImportChange) × (plan_import machine
        (entries_from_workspace machine swapped)
        (list_projects two_projects)
        (txt "/w")
      ≡ ok changes)
    × (first_conflict changes ≡ none)
    × Reflects changes (apply_import machine swapped (txt "/w") two_projects).1
apply_import-Reflects_example =
    apply_import-Reflects machine swapped (txt "/w") two_projects two-IsConsistent succeeds

-- The alias belongs to a project that the manifest does not have.
abbrev taken : WorkspaceManifest
taken = record { manifest_version = 1; projects = record entry_a { alias = txt "b" } ∷ [] }

refuses :
    (apply_import machine taken (txt "/w") two_projects).0
    ≡ err (import_conflict (txt "b") (some (alias_taken (txt "b") (txt "https://h/b"))))
unfolding text_code git_code manifest_code plan_code state_code apply_code
refuses = refl

apply_import_failed_example : (apply_import machine taken (txt "/w") two_projects).1 ≡ two_projects
apply_import_failed_example = apply_import_failed machine taken (txt "/w") two_projects refuses

fresh_alias-unused_example :
    (a : Text) × (fresh_alias (txt "x") (txt "x" ∷ txt "x_1" ∷ []) ≡ some a)
    × (mem_text a (txt "x" ∷ txt "x_1" ∷ []) ≡ false)
fresh_alias-unused_example = fresh_alias-unused (txt "x") (txt "x" ∷ txt "x_1" ∷ [])
