-- ===== src/HydrationExecutor/Reports.antt =====
-- What `Execute` reports of the projects that it cloned.
use codemesh.Base.{
  ◌≡◌, sym, ap, ◌∙◌, ℕ, Text, Bool, true, false, none, List, [], ◌∷◌, ◌++◌, inl, inr, keep, map,
  Bool-cases, Result-cases, ok, ok_injective,
}
use mathlib.Core.List.{append_assoc, map-append, append-nil}
use codemesh.Disk.{Disk, >>=-Io_ok, look}
use codemesh.Placeholder.{Json}
use codemesh.CloneStrategy.{Options}
use codemesh.HydrationPlanner.Actions.{Action, Plan, ActionKind-cases, action_clone}
use codemesh.HydrationExecutor.{
  ClonedProject, project_to_clone, clone_report, clone, clone_all, execute,
}
use codemesh.HydrationExecutor.Checks.{preflight}
use codemesh.HydrationExecutor.Stages.{prepare, check_again, run_clone, put_in_place}

-- The number, the remote and the path that name a project in the report.
abbrev pub Summary : Type 0
Summary = ℕ × Text × Text

abbrev pub summary : ClonedProject → Summary
summary c = (c.project_id, c.remote, c.path)

abbrev pub asked_for : Action → Summary
asked_for a = let p = project_to_clone a in (a.project_id, p.normalized_remote, p.local_path)

unfoldable pub is_clone : Action → Bool
is_clone a = elim a.action [ action_clone ↦ true | _ ↦ false ]

module _ {W : Type 0} (disk : Disk W) (j : Json) (root : Text) (options : Options) where
  clone-summary :
      (a : Action) (w : W) {c : ClonedProject}
      → (clone disk j root a options w).0 ≡ ok c
      → summary c ≡ asked_for a
  unfolding clone clone_report look
  clone-summary a w h =
      let p = project_to_clone a in
      let (prepared, e, h2) = >>=-Io_ok (prepare disk j root a.state p) _ w h in
      let (u, e2, h3) = >>=-Io_ok (check_again disk j root prepared p) _ _ h2 in
      let (s, e3, h4) = >>=-Io_ok (run_clone disk j prepared p options) _ _ h3 in
      let (v, e4, h5) = >>=-Io_ok (put_in_place disk j prepared p) _ _ h4 in
      ap summary (sym (ok_injective h5))

  clone_all-summaries :
      (cloned : List ClonedProject) (actions : List Action) (w : W)
      → (clone_all disk j root options cloned actions w).0.1 ≡ none
      → map summary (clone_all disk j root options cloned actions w).0.0
        ≡ map summary cloned ++ map asked_for (keep is_clone actions)
  unfolding clone_all keep is_clone project_to_clone
  clone_all-summaries cloned [] w h = sym (append-nil (map summary cloned))
  clone_all-summaries cloned (a ∷ actions) w h = elim (ActionKind-cases a.action) [
    | inl e ↦
        rw (e, clone_all, is_clone) (clone_all-summaries cloned actions w (rw (e, clone_all) at h))
    | inr (inr e) ↦
        rw (e, clone_all, is_clone) (clone_all-summaries cloned actions w (rw (e, clone_all) at h))
    | inr (inl e) ↦ elim (Result-cases (clone disk j root a options w).0) [
      | inl (c, f) ↦
          let v = (clone disk j root a options w).1 in
          let rest = clone_all-summaries (cloned ++ c ∷ []) actions v (rw (e, clone_all, f) at h) in
          let one = map-append summary cloned (c ∷ []) in
          rw (e, clone_all, is_clone, f)
            (rest
              ∙ ap (λ x. x ++ map asked_for (keep is_clone actions)) one
              ∙ append_assoc (map summary cloned) (summary c ∷ [])
                  (map asked_for (keep is_clone actions))
              ∙ ap (λ x. map summary cloned ++ x ∷ map asked_for (keep is_clone actions))
                  (clone-summary a w f))
      | inr (x, f) ↦ cc (rw (e, clone_all, f) at h)
    ]
  ]

-- A run that ends without an error reports one project for each action of the plan that clones, in
-- the order of the plan: the report has the number of the action's project, its remote, and the
-- path that the action asked for.
pub execute-summaries :
    {W : Type 0} (disk : Disk W) (j : Json) (plan : Plan) (options : Options) (w : W)
    → (execute disk j plan options w).0.1 ≡ none
    → map summary (execute disk j plan options w).0.0 ≡ map asked_for (keep is_clone plan.actions)
unfolding execute
execute-summaries disk j plan options w h = elim (Bool-cases plan.blocked) [
  | inl e ↦ cc (rw (e, execute) at h)
  | inr e ↦ elim (Result-cases (preflight disk j [] plan.actions w).0) [
    | inr (x, f) ↦ cc (rw (e, execute, f) at h)
    | inl (planned, f) ↦
        rw (e, execute, f)
          (clone_all-summaries disk j plan.workspace_root options [] plan.actions
            (preflight disk j [] plan.actions w).1 (rw (e, execute, f) at h))
  ]
]
