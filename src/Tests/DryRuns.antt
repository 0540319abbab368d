-- ===== src/Tests/DryRuns.antt =====
-- A dry run with a conflict, a missing project and one that the manifest does not have.
use codemesh.Base.{◌≡◌, refl, txt, true, List, [], ◌∷◌, ◌++◌, map, ok}
use codemesh.Manifest.Entries.{Entry}
use codemesh.Manifest.Locations.{duplicate_identity}
use codemesh.Reconciliation.{normalize_entries, build_dry_run_plan}
use codemesh.Reconciliation.Drifts.{
  missing, conflicting, added, manifest_conflict, no_reason, conflict, absent_from_manifest, Drift,
  DriftPlan, Machine, sorted_projects,
}
use codemesh.Reconciliation.Blockers.{IsFaithful, build_dry_run_plan-IsFaithful}
use codemesh.Reconciliation.Coverage.{IsOrdered, identities, absent, build_dry_run_plan-identities}
use codemesh.Tests.Fixtures.{machine, b_project}
use codemesh.Tests.Imports.{entry_a}
use codemesh.Tests.Opened.{text_code, git_code, manifest_code, plan_code, drift_code}

abbrev twice : List Entry
twice =
    record { manifest_version = 1; project = entry_a }
    ∷ record { manifest_version = 1; project = entry_a }
    ∷ []

abbrev here : Machine
here = record { workspace_root = txt "/w" }

abbrev pub drift_a : Drift
drift_a = record {
  kind = missing;
  project_id = 0;
  identity = txt "https://h/a";
  alias = txt "a";
  desired_path = txt "a";
  desired_local_path = txt "/w/a";
  observed_local_path = [];
  clone_url = txt "https://h/a";
  reason = no_reason;
}

abbrev drift_b : Drift
drift_b = record {
  kind = added;
  project_id = 2;
  identity = txt "https://h/b";
  alias = txt "b";
  desired_path = [];
  desired_local_path = txt "/w/b";
  observed_local_path = txt "/w/b";
  clone_url = [];
  reason = absent_from_manifest;
}

abbrev the_plan : DriftPlan
the_plan = record {
  workspace_root = txt "/w";
  blocked = true;
  drifts =
      drift_a
      ∷ record drift_a {
        kind = conflicting;
        reason = conflict (duplicate_identity (txt "https://h/a"));
      }
      ∷ drift_b
      ∷ [];
  blockers =
      record {
        kind = manifest_conflict;
        identity = txt "https://h/a";
        alias = txt "a";
        path = txt "/w/a";
        reason = duplicate_identity (txt "https://h/a");
      }
      ∷ [];
}

made : build_dry_run_plan machine twice (b_project ∷ []) here ≡ ok the_plan
unfolding text_code git_code manifest_code plan_code drift_code
made = refl

listed : normalize_entries machine twice ≡ ok twice
unfolding text_code git_code manifest_code plan_code drift_code
listed = refl

build_dry_run_plan-IsFaithful_example : IsFaithful the_plan
build_dry_run_plan-IsFaithful_example =
    build_dry_run_plan-IsFaithful machine twice (b_project ∷ []) here made

build_dry_run_plan-identities_example :
    (identities the_plan.drifts
      ≡ map (λ (e : Entry). e.project.identity) twice
        ++ absent twice (sorted_projects (b_project ∷ [])))
    × IsOrdered (b_project ∷ []) (sorted_projects (b_project ∷ []))
build_dry_run_plan-identities_example =
    build_dry_run_plan-identities machine twice (b_project ∷ []) here twice listed made
