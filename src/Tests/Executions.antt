-- ===== src/Tests/Executions.antt =====
-- A plan with two projects to clone on an empty workspace, and a clone that fails.
use codemesh.Base.{
  ◌≡◌, ◌==◌, refl, Text, txt, Bool, true, false, not, some, none, List, [], ◌∷◌, ◌++◌, map, keep,
  inr, ok, err, mem_text, if◌then◌else◌, Pairs,
}
use codemesh.Host.{Host, found, not_exist, directory}
use codemesh.Disk.{Disk}
use codemesh.HydrationPlanner.{classify_project}
use codemesh.HydrationPlanner.Actions.{Plan}
use codemesh.HydrationExecutor.{execute}
use codemesh.HydrationExecutor.Places.{clone_failed}
use codemesh.CloneStrategy.Cloning.{git_failed}
use codemesh.HydrationExecutor.Trace.{Claim, Trace}
use codemesh.HydrationExecutor.Safety.{execute-Trace}
use codemesh.HydrationExecutor.Apart.{Apart, is_placed, execute-Apart}
use codemesh.HydrationExecutor.Reports.{summary, asked_for, is_clone, execute-summaries}
use codemesh.Tests.Fixtures.{machine, a_project, b_project}
use codemesh.Tests.Checkouts.{lenient}
use codemesh.Tests.Hydrations.{json, whole}
use codemesh.Tests.Opened.{
  text_code, git_code, manifest_code, plan_code, clone_code, drift_code, policy_code,
  hydration_code, execution_code,
}

-- The directories that are there.
abbrev directories : List Text → Host
directories w = record machine {
  stat = λ path. if mem_text path w then found directory else not_exist;
  eval_symlinks = λ path. if mem_text path w then found path else not_exist;
}

-- git clones whatever is asked for, or nothing.
abbrev disk : Bool → Disk (List Text)
disk online = record {
  host = directories;
  mkdir_temp =
      λ parent pattern w. (ok (parent ++ txt "/" ++ pattern), (parent ++ txt "/" ++ pattern) ∷ w);
  mkdir_all = λ path w. (ok tt, path ∷ w);
  remove = λ path w. (ok tt, keep (λ p. not (p == path)) w);
  remove_all = λ path w. (ok tt, keep (λ p. not (p == path)) w);
  rename = λ from to w. (ok tt, to ∷ keep (λ p. not (p == from)) w);
  git = λ path args w. (ok [], w);
  git_detail = λ path args w. (if online then ok [] else err (txt "offline"), w);
}

abbrev two_clones : Plan
two_clones = record {
  workspace_root = txt "/w";
  blocked = false;
  actions =
      classify_project machine lenient json a_project (txt "/w") whole
      ∷ classify_project machine lenient json b_project (txt "/w") whole
      ∷ [];
}

clones_both : (execute (disk true) json two_clones whole (txt "/w" ∷ [])).0.1 ≡ none
unfolding text_code git_code manifest_code plan_code clone_code drift_code policy_code
    hydration_code execution_code
clones_both = refl

stops :
    (execute (disk false) json two_clones whole (txt "/w" ∷ [])).0
    ≡ ([], some (clone_failed (git_failed (txt "offline"))))
unfolding text_code git_code manifest_code plan_code clone_code drift_code policy_code
    hydration_code execution_code
stops = refl

execute-Trace_example :
    (cs : List Claim) × Trace
      (disk true)
      json
      (txt "/w")
      (txt "/w" ∷ [])
      cs
      (execute (disk true) json two_clones whole (txt "/w" ∷ [])).1
execute-Trace_example = execute-Trace (disk true) json two_clones whole (txt "/w" ∷ [])

execute-Apart_example : Pairs Apart (keep is_placed two_clones.actions)
execute-Apart_example =
    execute-Apart (disk true) json two_clones whole (txt "/w" ∷ []) (inr clones_both)

execute-summaries_example :
    map summary (execute (disk true) json two_clones whole (txt "/w" ∷ [])).0.0
    ≡ map asked_for (keep is_clone two_clones.actions)
execute-summaries_example =
    execute-summaries (disk true) json two_clones whole (txt "/w" ∷ []) clones_both
