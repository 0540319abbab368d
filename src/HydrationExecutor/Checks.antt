-- ===== src/HydrationExecutor/Checks.antt =====
-- internal/hydrationexecutor/executor.go: the first loop of `Execute`, which only looks.
use codemesh.Base.{
  Text, txt, ◌==◌, Bool, true, false, not, none, some, List, [], ◌∷◌, is_empty, trim_space, clean,
  if◌then◌else◌, Result, ok, err, Dict, insert,
}
use codemesh.Host.{Host}
use codemesh.Disk.{Disk, Io, ◌>>=◌, done, fail, accept, asking, look}
use codemesh.State.{Project}
use codemesh.GitOps.{normalize_remote_from, remote_matches_source}
use codemesh.Placeholder.{Json}
use codemesh.HydrationPlanner.Actions.{
  Action, State, state_present, action_none, action_clone, action_refuse,
}
use codemesh.HydrationExecutor.Places.{
  ExecuteError, no_match, planned_for, refused, path_conflict, overlapping, same_path,
}

abbrev pub is_present : State → Bool
is_present state_present = true
is_present _ = false

-- `addPlannedPath`
unfoldable pub add_planned_path : Dict Text → Text → Text → Result ExecuteError (Dict Text)
add_planned_path planned path project = elim (overlapping planned (clean path)) [
  | some owner ↦ err (path_conflict path (planned_for owner))
  | none ↦ ok (insert (clean path) project planned)
]

module _ {W : Type 0} (disk : Disk W) (j : Json) where
  unfoldable pub remote_matches : Project → Text → Text → Host → Bool
  remote_matches p local_path remote h =
      elim (normalize_remote_from h (trim_space remote) local_path) [
        | err e ↦ false
        | ok normalized ↦
            remote_matches_source h normalized p.normalized_remote p.clone_url local_path
      ]

  -- `gitCheckoutMatches`; an error of git is the answer no.
  unfoldable pub git_checkout_matches : Action → Io W ExecuteError Bool
  git_checkout_matches a =
      let p = a.project_row in
      let path = if is_empty p.local_path then a.path else p.local_path in
      do
        inside ← asking (disk.git path (txt "rev-parse" ∷ txt "--is-inside-work-tree" ∷ []))
        elim inside [
          | none ↦ done false
          | some answer ↦ if not (trim_space answer == txt "true") then done false else do
            top ← asking (disk.git path (txt "rev-parse" ∷ txt "--show-toplevel" ∷ []))
            elim top [
              | none ↦ done false
              | some root ↦ do
                same ← look disk (λ h. ok (same_path h (trim_space root) path))
                (if not same then done false else do
                  remote ← asking (disk.git path (txt "remote" ∷ txt "get-url" ∷ txt "origin" ∷ []))
                  elim remote [
                    | none ↦ done false
                    | some url ↦ look disk (λ h. ok (remote_matches p path url h))
                  ])
            ]
        ]

  -- The first loop of `Execute`, which only looks.
  unfoldable pub preflight : Dict Text → List Action → Io W ExecuteError (Dict Text)
  preflight planned [] = done planned
  preflight planned (a ∷ actions) = elim a.action [
    | action_clone ↦
        accept (add_planned_path planned a.path a.project) >>= λ next. preflight next actions
    | action_refuse ↦ fail (refused a)
    | action_none ↦
        if is_present a.state
        then (git_checkout_matches a >>= λ matches.
            if not matches
            then fail (path_conflict a.path no_match)
            else (accept (add_planned_path planned a.path a.project) >>= λ next.
                preflight next actions))
        else preflight planned actions
  ]
