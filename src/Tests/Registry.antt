-- ===== src/Tests/Registry.antt =====
-- The table of projects.
use codemesh.Base.{◌≡◌, ◌≢◌, refl, txt, ◌==◌, [], trim_space, ok, err}
use codemesh.State.{
  Project, updated, alias_conflict, find_row, missing_field, with_clone_url,
  with_placement_defaults, add_project, upsert_project, delete_project,
}
use codemesh.State.Rows.{IsConsistent}
use codemesh.State.Invariant.{here, next, add, delete, Reach-IsConsistent}
use codemesh.State.Canonical.{IsComplete, MovesOnly, upsert_project_canonical}
use mathlib.Core.Path.{subst}
use codemesh.Tests.Opened.{text_code, state_code}
use codemesh.Tests.Fixtures.{project, a_project, b_project, two_projects}

taken_alias :
    (add_project (project 0 (txt "a") (txt "https://h/c") (txt "/w/c")) two_projects).0
    ≡ err (alias_conflict (txt "a"))
unfolding add_project missing_field with_clone_url with_placement_defaults find_row ◌==◌ trim_space
taken_alias = refl

abbrev moved_scan : Project
moved_scan = record a_project { local_path = txt "/x/a"; source = txt "local-only" }

empty-IsConsistent : IsConsistent []
empty-IsConsistent = record { differ = tt; filled = tt }

Reach-IsConsistent_example :
    IsConsistent (delete_project 1 (add_project b_project (add_project a_project []).1).1).1
Reach-IsConsistent_example =
    Reach-IsConsistent empty-IsConsistent
      (next (next (next here (add a_project _)) (add b_project _)) (delete 1 _))

built : (add_project b_project (add_project a_project []).1).1 ≡ two_projects
unfolding text_code state_code
built = refl

pub two-IsConsistent : IsConsistent two_projects
two-IsConsistent =
    subst IsConsistent built
      (Reach-IsConsistent empty-IsConsistent (next (next here (add a_project _)) (add b_project _)))

moved_scan-IsComplete : IsComplete moved_scan
moved_scan-IsComplete = record { alias = λ e. cc; remote = λ e. cc; local_path = λ e. cc }

a_path_filled : trim_space a_project.canonical_path ≢ []
unfolding trim_space
a_path_filled e = cc

upsert_project_canonical_example :
    ((upsert_project moved_scan two_projects).0
      ≡ ok (record a_project { local_path = txt "/x/a" }, updated))
    × MovesOnly a_project (txt "/x/a") two_projects (upsert_project moved_scan two_projects).1
unfolding ◌==◌
upsert_project_canonical_example =
    upsert_project_canonical moved_scan a_project two_projects two-IsConsistent
      moved_scan-IsComplete (unfold find_row in refl)
      (record { source = refl; canonical_path = a_path_filled })
