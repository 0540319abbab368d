-- ===== src/HydrationExecutor/Safety.antt =====
-- What `Execute` does to the disk.
use codemesh.Base.{
  refl, Text, txt, ◌==◌, false, not, Dict, List, [], ◌∷◌, ◌++◌, inl, inr, is_empty, trim_space,
  if◌then◌else◌, Bool-cases, Result-cases,
}
use codemesh.Disk.{Disk, Io}
use codemesh.CloneStrategy.{Options}
use codemesh.Placeholder.{Json}
use codemesh.HydrationPlanner.Actions.{
  Action, Plan, ActionKind, ActionKind-cases, action_none, action_clone, action_refuse,
}
use codemesh.HydrationExecutor.{
  ClonedProject, project_to_clone, clone_report, clone, clone_all, execute,
}
use codemesh.HydrationExecutor.Checks.{
  is_present, add_planned_path, git_checkout_matches, preflight,
}
use codemesh.HydrationExecutor.Trace.{
  Claim, here, later, Trace, Lawful, IsQuestion, is_inside, top_level, origin, asked, begins,
}
use codemesh.HydrationExecutor.Tracing.{
  nothing, knows_none, knows-refl, done-Lawful, fail-Lawful, look-Lawful, accept-Lawful,
  asking-Lawful, option-Lawful, >>=-Lawful, if-Lawful,
}
use codemesh.HydrationExecutor.Preparing.{ready, prepare-Lawful}
use codemesh.HydrationExecutor.Placing.{run_clone-Lawful, check_again-Lawful, put_in_place-Lawful}

module _ {W : Type 0} {disk : Disk W} {j : Json} {root : Text} {start : W} where
  question-Lawful :
      {needs : List Claim} (path : Text) {args : List Text}
      → IsQuestion args
      → Lawful disk j root start needs (disk.git path args) nothing
  question-Lawful path question = record {
    runs = λ cs w k t. record {
      claims = cs;
      extends = knows-refl;
      trace = asked t question;
      post = λ a e. knows_none;
    };
  }

  git_checkout_matches-Lawful :
      {needs : List Claim} (a : Action)
      → Lawful disk j root start needs (git_checkout_matches disk j a) nothing
  unfolding git_checkout_matches
  git_checkout_matches-Lawful a =
      let p = a.project_row in
      let path = if is_empty p.local_path then a.path else p.local_path in
      >>=-Lawful nothing (asking-Lawful (question-Lawful path is_inside)) (λ o.
        option-Lawful o (done-Lawful false knows_none) (λ answer.
          if-Lawful (not (trim_space answer == txt "true")) (done-Lawful false knows_none) (
            >>=-Lawful nothing (asking-Lawful (question-Lawful path top_level)) (λ o'.
              option-Lawful o' (done-Lawful false knows_none) (λ top.
                >>=-Lawful nothing (look-Lawful _) (λ same.
                  if-Lawful (not same) (done-Lawful false knows_none) (
                    >>=-Lawful nothing (asking-Lawful (question-Lawful path origin)) (λ o''.
                      option-Lawful o'' (done-Lawful false knows_none)
                        (λ url. look-Lawful _)))))))))

  by_kind-Lawful :
      {E A : Type 0} {needs : List Claim} {gains : A → List Claim} (k : ActionKind)
      {at_none at_clone at_refuse : Io W E A}
      → Lawful disk j root start needs at_none gains
      → Lawful disk j root start needs at_clone gains
      → Lawful disk j root start needs at_refuse gains
      → Lawful disk j root start needs
          (elim k [ action_none ↦ at_none | action_clone ↦ at_clone | action_refuse ↦ at_refuse ])
          gains
  by_kind-Lawful action_none l m n = l
  by_kind-Lawful action_clone l m n = m
  by_kind-Lawful action_refuse l m n = n

  preflight-Lawful :
      {needs : List Claim} (planned : Dict Text) (actions : List Action)
      → Lawful disk j root start needs (preflight disk j planned actions) nothing
  unfolding preflight
  preflight-Lawful planned [] = done-Lawful planned knows_none
  preflight-Lawful planned (a ∷ actions) =
      let added =
        >>=-Lawful nothing (accept-Lawful (add_planned_path planned a.path a.project))
          (λ next. preflight-Lawful next actions) in
      by_kind-Lawful a.action
        (if-Lawful (is_present a.state)
          (>>=-Lawful nothing (git_checkout_matches-Lawful a)
            (λ matches. if-Lawful (not matches) (fail-Lawful _) added))
          (preflight-Lawful planned actions))
        added (fail-Lawful _)

  clone-Lawful :
      {needs : List Claim} (a : Action) (options : Options)
      → Lawful disk j root start needs (clone disk j root a options) nothing
  unfolding clone clone_report
  clone-Lawful a options =
      let p = project_to_clone a in
      >>=-Lawful (ready p) (prepare-Lawful a.state p) (λ prepared.
        >>=-Lawful nothing (check_again-Lawful prepared p (here refl)) (λ _.
          >>=-Lawful nothing (run_clone-Lawful prepared p options (here refl) (later (here refl)))
            (λ selection.
              >>=-Lawful nothing
                (put_in_place-Lawful prepared p (here refl) (later (later (here refl))))
                (λ _. look-Lawful _))))

  clone_all-Lawful :
      (options : Options) (cloned : List ClonedProject) (actions : List Action) {cs : List Claim}
      {w : W}
      → Trace disk j root start cs w
      → (ds : List Claim) × Trace disk j root start ds
          (clone_all disk j root options cloned actions w).1
  unfolding clone_all
  clone_all-Lawful options cloned [] {cs = cs} t = (cs, t)
  clone_all-Lawful options cloned (a ∷ actions) {cs = cs} {w = w} t =
      let now = (clone-Lawful {needs = []} a options).runs cs w knows_none t in
      elim (ActionKind-cases a.action) [
        | inl e ↦ rw (e, clone_all) (clone_all-Lawful options cloned actions t)
        | inr (inr e) ↦ rw (e, clone_all) (clone_all-Lawful options cloned actions t)
        | inr (inl e) ↦ elim (Result-cases (clone disk j root a options w).0) [
          | inl (c, f) ↦
              rw (e, clone_all, f) (clone_all-Lawful options (cloned ++ c ∷ []) actions now.trace)
          | inr (x, f) ↦ rw (e, clone_all, f) (now.claims, now.trace)
        ]
      ]

-- A run of `Execute` is a trace: whatever the plan, the options and the disk, it makes directories
-- only at or beside paths that it found inside the workspace root, clones only into them, and it
-- removes and moves away only directories of its own, which it made, found absent or found to be
-- untouched placeholders.
pub execute-Trace :
    {W : Type 0} (disk : Disk W) (j : Json) (plan : Plan) (options : Options) (w : W)
    → (cs : List Claim) × Trace disk j plan.workspace_root w cs (execute disk j plan options w).1
unfolding execute
execute-Trace disk j plan options w = elim (Bool-cases plan.blocked) [
  | inl e ↦ rw (e, execute) ([], begins)
  | inr e ↦
      let looked = (preflight-Lawful {needs = []} [] plan.actions).runs [] w knows_none begins in
      elim (Result-cases (preflight disk j [] plan.actions w).0) [
        | inr (x, f) ↦ rw (e, execute, f) (looked.claims, looked.trace)
        | inl (planned, f) ↦
            rw (e, execute, f) (clone_all-Lawful options [] plan.actions looked.trace)
      ]
]
