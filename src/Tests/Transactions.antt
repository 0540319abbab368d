-- ===== src/Tests/Transactions.antt =====
-- Failures that leave the table as it was.
use codemesh.Base.{◌≡◌, refl, txt, err}
use codemesh.State.{Project, alias_conflict, update_project, upsert_project}
use codemesh.State.Upsert.{update_project_failed, upsert_project_failed}
use codemesh.Tests.Fixtures.{project, b_project, two_projects}
use codemesh.Tests.Opened.{text_code, state_code}

-- The alias belongs to another project.
abbrev renamed : Project
renamed = record b_project { alias = txt "a" }

refused_update : (update_project 2 renamed two_projects).0 ≡ err (alias_conflict (txt "a"))
unfolding text_code state_code
refused_update = refl

update_project_failed_example : (update_project 2 renamed two_projects).1 ≡ two_projects
update_project_failed_example = update_project_failed 2 renamed two_projects refused_update

abbrev newcomer : Project
newcomer = project 0 (txt "a") (txt "https://h/c") (txt "/w/c")

refused_upsert : (upsert_project newcomer two_projects).0 ≡ err (alias_conflict (txt "a"))
unfolding text_code state_code
refused_upsert = refl

upsert_project_failed_example : (upsert_project newcomer two_projects).1 ≡ two_projects
upsert_project_failed_example = upsert_project_failed newcomer two_projects refused_upsert
