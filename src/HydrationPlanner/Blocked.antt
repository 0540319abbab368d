-- ===== src/HydrationPlanner/Blocked.antt =====
-- When a hydration plan is blocked.
use codemesh.Base.{
  ◌≡◌, refl, ◌∙◌, Text, Bool, ◌||◌, Option, List, [], ◌∷◌, ◌++◌, any, place, sort, arith, ok,
  >>=-ok, ok_injective, map_err, is_empty, trim_space, Dict, Bool-cases, inl, inr,
}
use mathlib.Core.Path.{subst}
use codemesh.Host.{Host}
use codemesh.State.{Project}
use codemesh.Manifest.Entries.{Entry}
use codemesh.CloneStrategy.{Options}
use codemesh.Policy.{Tools}
use codemesh.Placeholder.{Json}
use codemesh.Reconciliation.{build_dry_run_plan}
use codemesh.Reconciliation.Drifts.{Drift, Machine}
use codemesh.HydrationPlanner.{
  workspace_root, required_workspace_root, classify_project, classify_all, empty_plan, plan_all,
  plan_project, dry_run_failed,
}
use codemesh.HydrationPlanner.Actions.{Action, Plan, is_refusal, add_action, before, sort_actions}
use codemesh.HydrationPlanner.Drifting.{plan_drift, plan_drifts, plan_entries}

abbrev pub refuses : Action → Bool
refuses a = is_refusal a.action

-- The plan is blocked exactly if one of its actions is a refusal.
abbrev pub IsBlockedByRefusal : Plan → Type 0
IsBlockedByRefusal plan = plan.blocked ≡ any refuses plan.actions

any-snoc :
    (xs : List Action) (a : Action) → any refuses (xs ++ a ∷ []) ≡ (refuses a || any refuses xs)
unfolding any
any-snoc [] a = ground arith
any-snoc (b ∷ xs) a = ground (arith, any-snoc xs a)

any-place :
    (a : Action) (xs : List Action)
    → any refuses (place before a xs) ≡ (refuses a || any refuses xs)
unfolding any place
any-place a [] = refl
any-place a (b ∷ xs) = elim (Bool-cases (before b a)) [
  | inl lower ↦ rw lower (ground (arith, any-place a xs))
  | inr other ↦ rw other refl
]

any-sort : (xs : List Action) → any refuses (sort before xs) ≡ any refuses xs
unfolding any sort
any-sort [] = refl
any-sort (a ∷ xs) = any-place a (sort before xs) ∙ rw (any-sort xs) refl

add_action-IsBlockedByRefusal :
    (plan : Plan) (a : Action) → IsBlockedByRefusal plan → IsBlockedByRefusal (add_action plan a)
unfolding add_action
add_action-IsBlockedByRefusal plan a b = rw (any-snoc plan.actions a, b) refl

sort_actions-IsBlockedByRefusal :
    (plan : Plan) → IsBlockedByRefusal plan → IsBlockedByRefusal (sort_actions plan)
unfolding sort_actions
sort_actions-IsBlockedByRefusal plan b = rw (any-sort plan.actions) b

module _ (h : Host) (t : Tools) (j : Json) (options : Options) where
  empty_plan-IsBlockedByRefusal : (root : Text) → IsBlockedByRefusal (empty_plan h t j root)
  unfolding any
  empty_plan-IsBlockedByRefusal root = refl

  classify_all-IsBlockedByRefusal :
      (root : Text) (ps : List Project) (plan : Plan)
      → IsBlockedByRefusal plan
      → IsBlockedByRefusal (classify_all h t j root options ps plan)
  unfolding classify_all
  classify_all-IsBlockedByRefusal root [] plan b = b
  classify_all-IsBlockedByRefusal root (p ∷ ps) plan b =
      classify_all-IsBlockedByRefusal root ps _
        (add_action-IsBlockedByRefusal plan (classify_project h t j p root options) b)

  plan_drifts-IsBlockedByRefusal :
      (root : Text) (by_identity : Dict Project) (ds : List Drift) (plan : Plan)
      → IsBlockedByRefusal plan
      → IsBlockedByRefusal (plan_drifts h t j root options by_identity ds plan)
  unfolding plan_drifts
  plan_drifts-IsBlockedByRefusal root by_identity [] plan b = b
  plan_drifts-IsBlockedByRefusal root by_identity (d ∷ ds) plan b =
      plan_drifts-IsBlockedByRefusal root by_identity ds _
        (add_action-IsBlockedByRefusal plan (plan_drift h t j root options by_identity d) b)

  -- A hydration plan of all projects is blocked exactly if one of its actions is a refusal.
  pub plan_all-IsBlockedByRefusal :
      (projects : List Project) (machines : Option (List Machine)) {plan : Plan}
      → plan_all h t j projects machines options ≡ ok plan
      → IsBlockedByRefusal plan
  unfolding plan_all
  plan_all-IsBlockedByRefusal projects machines made =
      let (root, _, done) = >>=-ok (workspace_root h t j machines) _ made in
      subst IsBlockedByRefusal (ok_injective done) (
        sort_actions-IsBlockedByRefusal _ (
          classify_all-IsBlockedByRefusal root projects (empty_plan h t j root)
            (empty_plan-IsBlockedByRefusal root)))

  -- A hydration plan of the entries of a manifest is blocked exactly if one of its actions is a
  -- refusal.
  pub plan_entries-IsBlockedByRefusal :
      (entries : List Entry) (projects : List Project) (machines : List Machine) {plan : Plan}
      → plan_entries h t j entries projects machines options ≡ ok plan
      → IsBlockedByRefusal plan
  unfolding plan_entries
  plan_entries-IsBlockedByRefusal entries projects machines made =
      let (root, _, rest) = >>=-ok (required_workspace_root h t j machines) _ made in
      let (drifts, _, done) =
        >>=-ok
          (map_err dry_run_failed
            (build_dry_run_plan h entries projects (record { workspace_root = root })))
          _ rest in
      subst IsBlockedByRefusal (ok_injective done) (
        sort_actions-IsBlockedByRefusal _ (
          plan_drifts-IsBlockedByRefusal _ _ drifts.drifts _
            (empty_plan-IsBlockedByRefusal drifts.workspace_root)))

  -- A hydration plan of one project is blocked exactly if its action is a refusal.
  pub plan_project-IsBlockedByRefusal :
      (name : Text) (projects : List Project) (machines : Option (List Machine)) {plan : Plan}
      → plan_project h t j name projects machines options ≡ ok plan
      → IsBlockedByRefusal plan
  unfolding plan_project
  plan_project-IsBlockedByRefusal name projects machines made =
      elim (Bool-cases (is_empty (trim_space name))) [
        | inl blank ↦ ground arith
        | inr named ↦
            let (root, _, done) = >>=-ok (workspace_root h t j machines) _ (rw named at made) in
            subst IsBlockedByRefusal (ok_injective done)
              (add_action-IsBlockedByRefusal _ _ (empty_plan-IsBlockedByRefusal root))
      ]
