-- ===== src/HydrationExecutor/Apart.antt =====
-- The first loop of `Execute` lets no two planned paths overlap.
use codemesh.Base.{
  ◌≡◌, ◌≢◌, ◌⊎◌, Option, refl, Text, eq_iff, Bool, true, false, none, some, Dict, insert, List, [],
  ◌∷◌, ◌++◌, ◌==◌, sym, ap, ◌∙◌, inl, inr, arith, clean, keep, All, Pairs, Bool-cases, Option-cases,
  Result-cases, ok,
}
use mathlib.Core.Path.{subst}
use codemesh.Base.Cleaned.{elements-clean, is_abs-clean, clean_idempotent}
use codemesh.Base.Within.{Within}
use codemesh.Manifest.Locations.{path_is_ancestor}
use codemesh.Manifest.Nesting.{Within-path_is_ancestor}
use codemesh.Disk.{Disk, ◌>>=◌, >>=-Io_ok, accept, fail}
use codemesh.Placeholder.{Json}
use codemesh.CloneStrategy.{Options}
use codemesh.HydrationPlanner.Actions.{
  Action, Plan, ActionKind-cases, action_none, action_clone, action_refuse,
}
use codemesh.HydrationExecutor.{ClonedProject, execute}
use codemesh.HydrationExecutor.Checks.{
  is_present, add_planned_path, git_checkout_matches, preflight,
}
use codemesh.HydrationExecutor.Places.{ExecuteError, path_within, paths_overlap, overlapping}

-- The actions whose paths are planned: the clones and the checkouts that are there.
unfoldable pub is_placed : Action → Bool
is_placed a = elim a.action [
  | action_clone ↦ true
  | action_none ↦ is_present a.state
  | action_refuse ↦ false
]

-- Neither path is the other or lies in it.
abbrev pub Apart : Action → Action → Type 0
Apart a b = (¬ Within a.path b.path) × (¬ Within b.path a.path)

Within-clean : (p c : Text) → Within p c → Within (clean (clean p)) (clean (clean c))
Within-clean p c w =
    let names = λ (x : Text). elements-clean (clean x) ∙ elements-clean x in
    let rooted = λ (x : Text). is_abs-clean (clean x) ∙ is_abs-clean x in
    record {
      rooted = rooted c ∙ w.rooted ∙ sym (rooted p);
      rest = w.rest;
      below = names c ∙ w.below ∙ ap (λ es. es ++ w.rest) (sym (names p));
      stays = w.stays;
    }

-- Cleaned again and again, a path is compared as it is.
apart-Within :
    (p c : Text)
    → (clean (clean p) == clean (clean c)) ≡ false
    → path_is_ancestor (clean (clean p)) (clean (clean c)) ≡ false
    → ¬ Within p c
apart-Within p c differ not_above w =
    let found = Within-path_is_ancestor (clean (clean p)) (clean (clean c)) (Within-clean p c w) in
    cc (rw (clean_idempotent (clean p), clean_idempotent (clean c), differ, not_above) at found)

paths_overlap-Apart :
    (a b : Action) → paths_overlap (clean b.path) (clean a.path) ≡ false → Apart a b
unfolding paths_overlap path_within
paths_overlap-Apart a b h =
    let p = clean (clean a.path) in
    let c = clean (clean b.path) in
    let differ : (c == p) ≡ false = ground arith in
    let differ_back : (p == c) ≡ false = ground (arith, differ, eq_iff c p, eq_iff p c) in
    (
      apart-Within a.path b.path differ_back (ground arith),
      apart-Within b.path a.path differ (ground arith),
    )

abbrev Free : Dict Text → Action → Type 0
Free planned a = overlapping planned (clean a.path) ≡ none

overlapping-insert :
    (k v path : Text) (planned : Dict Text)
    → overlapping (insert k v planned) path ≡ none
    → (paths_overlap path k ≡ false) × (overlapping planned path ≡ none)
unfolding overlapping insert
overlapping-insert k v path [] h = ground arith
overlapping-insert k v path ((j, w) ∷ planned) h =
    ground (arith, eq_iff j k, overlapping-insert k v path planned)

Free-insert :
    (a : Action) (planned : Dict Text) (bs : List Action)
    → All (Free (insert (clean a.path) a.project planned)) bs
    → All (Apart a) bs × All (Free planned) bs
Free-insert a planned [] free = (tt, tt)
Free-insert a planned (b ∷ bs) free =
    let (apart, free_b) =
      overlapping-insert (clean a.path) a.project (clean b.path) planned free.0 in
    let (rest, free_bs) = Free-insert a planned bs free.1 in
    ((paths_overlap-Apart a b apart, rest), (free_b, free_bs))

add_planned_path-ok :
    (planned next : Dict Text) (a : Action)
    → add_planned_path planned a.path a.project ≡ ok next
    → Free planned a × (next ≡ insert (clean a.path) a.project planned)
unfolding add_planned_path
add_planned_path-ok planned next a h = elim (Option-cases (overlapping planned (clean a.path))) [
  | inl free ↦ (free, ground arith)
  | inr (owner, taken) ↦ ground arith
]

module _ {W : Type 0} (disk : Disk W) (j : Json) where
  -- The paths of a checked plan are apart from each other, and from those that were planned before.
  Checked : Dict Text → List Action → Type 0
  Checked planned actions =
      Pairs Apart (keep is_placed actions) × All (Free planned) (keep is_placed actions)

  add-Checked :
      (planned final : Dict Text) (a : Action) (actions : List Action) (w : W)
      → is_placed a ≡ true
      → ((accept (add_planned_path planned a.path a.project) >>= λ next.
            preflight disk j next actions)
          w).0
        ≡ ok final
      → ((next : Dict Text) → (preflight disk j next actions w).0 ≡ ok final → Checked next actions)
      → Checked planned (a ∷ actions)
  unfolding accept Checked keep
  add-Checked planned final a actions w placed done_ok rest =
      let (next, added, more) =
        >>=-Io_ok (accept (add_planned_path planned a.path a.project))
          (λ n. preflight disk j n actions) w done_ok in
      let (free, e) = add_planned_path-ok planned next a added in
      let (apart, all_free) = rest next more in
      let (from_a, from_planned) =
        Free-insert a planned (keep is_placed actions)
          (subst (λ d. All (Free d) (keep is_placed actions)) e all_free) in
      rw placed ((from_a, apart), (free, from_planned))

  skip-Checked :
      (planned : Dict Text) (a : Action) (actions : List Action)
      → is_placed a ≡ false
      → Checked planned actions
      → Checked planned (a ∷ actions)
  unfolding Checked keep
  skip-Checked planned a actions skipped c = rw skipped c

  preflight-Checked :
      (planned final : Dict Text) (actions : List Action) (w : W)
      → (preflight disk j planned actions w).0 ≡ ok final
      → Checked planned actions
  unfolding preflight Checked keep fail is_placed
  preflight-Checked planned final [] w done_ok = (tt, tt)
  preflight-Checked planned final (a ∷ actions) w done_ok = elim (ActionKind-cases a.action) [
    | inr (inr e) ↦ cc (rw (e, preflight) at done_ok)
    | inr (inl e) ↦
        add-Checked planned final a actions w (rw (e, is_placed) refl)
          (rw (e, preflight) at done_ok) (λ next. preflight-Checked next final actions w)
    | inl e ↦ elim (Bool-cases (is_present a.state)) [
      | inr absent ↦
          skip-Checked planned a actions (rw (e, is_placed) absent)
            (preflight-Checked planned final actions w (rw (e, preflight, absent) at done_ok))
      | inl present ↦
          let (matches, asked, more) =
            >>=-Io_ok (git_checkout_matches disk j a) _ w (rw (e, preflight, present) at done_ok) in
          let v = (git_checkout_matches disk j a w).1 in
          elim (Bool-cases matches) [
            | inr differs ↦ cc
            | inl same ↦
                add-Checked planned final a actions v (rw (e, is_placed) present) (rw same at more)
                  (λ next. preflight-Checked next final actions v)
          ]
    ]
  ]

-- If a run cloned anything, or ended without an error, then of any two planned paths, which are
-- those of the projects to clone and of the checkouts that are there, neither is the other or lies
-- in it: they are not both absolute or both relative with the elements of one being those of the
-- other followed by some of which the first is not "..".
pub execute-Apart :
    {W : Type 0} (disk : Disk W) (j : Json) (plan : Plan) (options : Options) (w : W)
    → ((execute disk j plan options w).0.0 ≢ []) ⊎ ((execute disk j plan options w).0.1 ≡ none)
    → Pairs Apart (keep is_placed plan.actions)
unfolding execute Checked
execute-Apart disk j plan options w ran = elim (Bool-cases plan.blocked) [
  | inl e ↦ absurd (nothing_ran (rw (e, execute) at ran))
  | inr e ↦ elim (Result-cases (preflight disk j [] plan.actions w).0) [
    | inr (x, f) ↦ absurd (nothing_ran (rw (e, execute, f) at ran))
    | inl (planned, f) ↦ (preflight-Checked disk j [] planned plan.actions w f).0
  ]
]
  where
    nothing_ran :
        {x : ExecuteError}
        → (◌≡◌ {A = List ClonedProject} [] [] → ⊥) ⊎ (◌≡◌ {A = Option ExecuteError} (some x) none)
        → ⊥
    nothing_ran (inl h) = h refl
    nothing_ran (inr h) = cc
