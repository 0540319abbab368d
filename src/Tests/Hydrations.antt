-- ===== src/Tests/Hydrations.antt =====
-- A hydration with a project to clone and a refused one, and a placeholder that nobody changed.
use codemesh.Base.{
  ◌≡◌, ◌≢◌, ◌==◌, refl, txt, true, false, some, [], ◌∷◌, ok, Text, List, if◌then◌else◌,
}
use codemesh.Base.Within.{Within}
use codemesh.Host.{Host, Answer, found, not_exist, directory}
use codemesh.State.{Project}
use codemesh.Manifest.Entries.{Entry}
use codemesh.Manifest.Locations.{canonical_path_for_comparison}
use codemesh.CloneStrategy.{Options}
use codemesh.Reconciliation.Drifts.{Machine}
use codemesh.Placeholder.{
  Json, expected_metadata, metadata_file, note_file, git_barrier, note_text, git_barrier_text,
  owned_by,
}
use codemesh.Placeholder.Untouched.{IsUntouched, owned_by-IsUntouched}
use codemesh.HydrationPlanner.{classify_project, plan_all, plan_project}
use codemesh.HydrationPlanner.Actions.{Plan, action_clone, action_refuse, with_placement_defaults}
use codemesh.HydrationPlanner.Drifting.{plan_entries, plan_drift}
use codemesh.HydrationPlanner.CloneSafety.{MayClone, target, classify_project-MayClone}
use codemesh.HydrationPlanner.Blocked.{
  IsBlockedByRefusal, plan_all-IsBlockedByRefusal, plan_project-IsBlockedByRefusal,
  plan_entries-IsBlockedByRefusal,
}
use codemesh.Tests.Fixtures.{machine, project, a_project}
use codemesh.Tests.Checkouts.{lenient}
use codemesh.Tests.Imports.{entry_a}
use codemesh.Tests.DryRuns.{drift_a}
use codemesh.Tests.Opened.{
  text_code, git_code, manifest_code, plan_code, clone_code, drift_code, policy_code,
  hydration_code,
}

abbrev pub json : Json
json = record {
  unmarshal = λ bytes. some (expected_metadata (txt "/w/p") (txt "p") (txt "https://h/p"));
  marshal_indent = λ m. txt "{}";
}

abbrev pub whole : Options
whole = record { partial = false; sparse_paths = [] }

abbrev here : List Machine
here = record { workspace_root = txt "/w" } ∷ []

-- Placed by the manifest, outside of the workspace.
abbrev stray : Project
stray = project 2 (txt "s") (txt "https://h/s") (txt "/x/s")

clones : (classify_project machine lenient json a_project (txt "/w") whole).action ≡ action_clone
unfolding text_code git_code manifest_code plan_code clone_code drift_code policy_code
    hydration_code
clones = refl

refused : (classify_project machine lenient json stray (txt "/w") whole).action ≡ action_refuse
unfolding text_code git_code manifest_code plan_code clone_code drift_code policy_code
    hydration_code
refused = refl

classify_project-MayClone_example :
    MayClone machine lenient json (with_placement_defaults a_project) (target a_project)
    × (txt "/w" ≢ []
        → (with_placement_defaults a_project).source ≡ txt "canonical"
        → Within
            (canonical_path_for_comparison machine (txt "/w"))
            (canonical_path_for_comparison machine (target a_project)))
classify_project-MayClone_example =
    classify_project-MayClone machine lenient json a_project (txt "/w") whole clones

abbrev the_plan : Plan
the_plan = record {
  workspace_root = txt "/w";
  blocked = true;
  actions =
      classify_project machine lenient json a_project (txt "/w") whole
      ∷ classify_project machine lenient json stray (txt "/w") whole
      ∷ [];
}

made : plan_all machine lenient json (stray ∷ a_project ∷ []) (some here) whole ≡ ok the_plan
unfolding text_code git_code manifest_code plan_code clone_code drift_code policy_code
    hydration_code
made = refl

plan_all-IsBlockedByRefusal_example : IsBlockedByRefusal the_plan
plan_all-IsBlockedByRefusal_example =
    plan_all-IsBlockedByRefusal machine lenient json whole (stray ∷ a_project ∷ []) (some here) made

abbrev entries : List Entry
entries = record { manifest_version = 1; project = entry_a } ∷ []

abbrev entries_plan : Plan
entries_plan = record {
  workspace_root = txt "/w";
  blocked = false;
  actions = plan_drift machine lenient json (txt "/w") whole [] drift_a ∷ [];
}

made_from_entries : plan_entries machine lenient json entries [] here whole ≡ ok entries_plan
unfolding text_code git_code manifest_code plan_code clone_code drift_code policy_code
    hydration_code
made_from_entries = refl

plan_entries-IsBlockedByRefusal_example : IsBlockedByRefusal entries_plan
plan_entries-IsBlockedByRefusal_example =
    plan_entries-IsBlockedByRefusal machine lenient json whole entries [] here made_from_entries

-- The machine with a placeholder at "/w/p".
abbrev kept_files : Text → Answer Text
kept_files path =
    if path == txt "/w/p/.codemesh-placeholder.json"
    then found (txt "{}\n")
    else if path == txt "/w/p/CODEMESH_PLACEHOLDER.txt"
    then found (note_text (txt "p"))
    else if path == txt "/w/p/.git"
    then found (git_barrier_text (txt "p"))
    else not_exist

abbrev holder : Host
holder = record machine {
  stat = λ path. if path == txt "/w/p" then found directory else not_exist;
  read_dir = λ path. found (note_file ∷ git_barrier ∷ metadata_file ∷ []);
  read_file = kept_files;
}

owned : owned_by holder json (txt "/w/p") (txt "p") (txt "https://h/p") ≡ ok true
unfolding text_code hydration_code
owned = refl

owned_by-IsUntouched_example : IsUntouched holder json (txt "/w/p") (txt "p") (txt "https://h/p")
owned_by-IsUntouched_example =
    owned_by-IsUntouched holder json (txt "/w/p") (txt "p") (txt "https://h/p") owned

abbrev stray_plan : Plan
stray_plan = record {
  workspace_root = txt "/w";
  blocked = true;
  actions = classify_project machine lenient json stray (txt "/w") whole ∷ [];
}

made_for_one :
    plan_project machine lenient json (txt " s ") (a_project ∷ stray ∷ []) (some here) whole
    ≡ ok stray_plan
unfolding text_code git_code manifest_code plan_code clone_code drift_code policy_code
    hydration_code
made_for_one = refl

plan_project-IsBlockedByRefusal_example : IsBlockedByRefusal stray_plan
plan_project-IsBlockedByRefusal_example =
    plan_project-IsBlockedByRefusal machine lenient json whole (txt " s ") (a_project ∷ stray ∷ [])
      (some here) made_for_one
