-- ===== src/HydrationPlanner/CloneSafety.antt =====
-- Where a hydration clones: never over something that CodeMesh did not put there.
use codemesh.Base.{
  ◌≡◌, ◌≢◌, refl, eq_iff, Text, txt, ◌==◌, true, false, not, ◌&&◌, none, some, [], ◌∷◌, is_empty,
  arith, ok, Bool-cases, Option-cases, Result-cases, inl, inr,
}
use codemesh.Host.{
  Host, FileKind, Answer-cases, found, not_exist, directory, regular, symlink, irregular,
}
use codemesh.State.{Project}
use codemesh.Base.Within.{Within}
use codemesh.Manifest.Locations.{path_within_root, canonical_path_for_comparison}
use codemesh.Manifest.Nesting.{path_within_root-Within}
use codemesh.CloneStrategy.{Options}
use codemesh.Policy.{Tools}
use codemesh.Placeholder.{Json, Metadata, is, owned_by}
use codemesh.HydrationPlanner.{
  local_only_paths_for_project, is_git_checkout_path, new_action, classify_plain,
  classify_placeholder, classify_checked, classify_present, parent_conflict_reason, classify_absent,
  classify_path, classify_project,
}
use codemesh.HydrationPlanner.Actions.{
  Action, action_clone, refuse, with_placement_defaults, hydration_path,
}

-- What must be at a path before a project is cloned there.
pub data MayClone (h : Host) (t : Tools) (j : Json) (p : Project) (path : Text) : Type 0 where
  absent :
      h.lstat path ≡ not_exist → parent_conflict_reason h t j path ≡ none → MayClone h t j p path
  empty : h.lstat path ≡ found directory → h.read_dir path ≡ found [] → MayClone h t j p path
  placeholder : owned_by h j path p.alias p.normalized_remote ≡ ok true → MayClone h t j p path

module _ (h : Host) (t : Tools) (j : Json) (p : Project) (path : Text) where
  classify_plain-MayClone :
      (a : Action) (k : FileKind)
      → h.lstat path ≡ found k
      → (classify_plain h t j a k path).action ≡ action_clone
      → MayClone h t j p path
  unfolding classify_plain refuse
  classify_plain-MayClone a directory at c = elim (Answer-cases (h.read_dir path)) [
    | inl ([], e) ↦ empty at e
    | inl (n ∷ ns, e) ↦ ground arith
    | inr (inl e) ↦ ground arith
    | inr (inr (m, e)) ↦ ground arith
  ]
  classify_plain-MayClone a regular at c = cc
  classify_plain-MayClone a symlink at c = cc
  classify_plain-MayClone a irregular at c = cc

  classify_placeholder-MayClone :
      (a : Action) (m : Metadata)
      → (classify_placeholder h t j a p m path).action ≡ action_clone
      → MayClone h t j p path
  unfolding classify_placeholder refuse
  classify_placeholder-MayClone a m c =
      elim (Result-cases (owned_by h j path p.alias p.normalized_remote)) [
        | inl (true, e) ↦ placeholder e
        | inl (false, e) ↦ ground arith
        | inr (f, e) ↦ ground arith
      ]

  classify_checked-MayClone :
      (a : Action) (k : FileKind)
      → h.lstat path ≡ found k
      → (classify_checked h t j a p k path).action ≡ action_clone
      → MayClone h t j p path
  unfolding classify_checked refuse
  classify_checked-MayClone a k at c = elim (Bool-cases (is_git_checkout_path h t j path)) [
    | inl checkout ↦ ground arith
    | inr plain ↦ elim (Result-cases (is h j path)) [
      | inl (some m, e) ↦ classify_placeholder-MayClone a m (ground arith)
      | inl (none, e) ↦ classify_plain-MayClone a k at (ground arith)
      | inr (f, e) ↦ ground arith
    ]
  ]

  classify_present-MayClone :
      (a : Action) (k : FileKind)
      → h.lstat path ≡ found k
      → (classify_present h t j a p k path).action ≡ action_clone
      → MayClone h t j p path
  unfolding classify_present refuse
  classify_present-MayClone a directory at c =
      elim (Result-cases (local_only_paths_for_project h t j path)) [
        | inl (rules, e) ↦
            classify_checked-MayClone (record a { local_only_paths = rules }) directory at
              (ground arith)
        | inr (f, e) ↦ ground arith
      ]
  classify_present-MayClone a regular at c = classify_checked-MayClone a regular at c
  classify_present-MayClone a symlink at c = classify_checked-MayClone a symlink at c
  classify_present-MayClone a irregular at c = classify_checked-MayClone a irregular at c

  classify_absent-MayClone :
      (a : Action)
      → h.lstat path ≡ not_exist
      → (classify_absent h t j a p path).action ≡ action_clone
      → MayClone h t j p path
  unfolding classify_absent refuse
  classify_absent-MayClone a at c = elim (Option-cases (parent_conflict_reason h t j path)) [
    | inl free ↦ absent at free
    | inr (reason, e) ↦ ground arith
  ]

  classify_path-MayClone :
      (a : Action) → (classify_path h t j a p path).action ≡ action_clone → MayClone h t j p path
  unfolding classify_path refuse
  classify_path-MayClone a c = elim (Answer-cases (h.lstat path)) [
    | inl (k, at) ↦ classify_present-MayClone (record a { path_present = true }) k at (ground arith)
    | inr (inl at) ↦ classify_absent-MayClone a at (ground arith)
    | inr (inr (m, at)) ↦ ground arith
  ]

not_empty : (root : Text) → root ≢ [] → is_empty root ≡ false
not_empty [] h = absurd (h refl)
not_empty (c ∷ root) h = refl

-- The path at which a project is hydrated.
abbrev pub target : Project → Text
target project = hydration_path (with_placement_defaults project)

-- A project is cloned only where nothing is and no file stands above, into an empty directory, or
-- over a placeholder of that very project that nobody changed; and, where there is a workspace
-- root, a project that the manifest placed is cloned only inside of it: as they are compared, the
-- elements of its path are those of the root followed by some of which the first is not "..".
pub classify_project-MayClone :
    (h : Host) (t : Tools) (j : Json) (project : Project) (root : Text) (options : Options)
    → (classify_project h t j project root options).action ≡ action_clone
    → MayClone h t j (with_placement_defaults project) (target project)
      × (root ≢ []
          → (with_placement_defaults project).source ≡ txt "canonical"
          → Within
              (canonical_path_for_comparison h root)
              (canonical_path_for_comparison h (target project)))
unfolding classify_project refuse
classify_project-MayClone h t j project root options c =
    let p = with_placement_defaults project in
    let outside =
      not (is_empty root)
      && p.source == txt "canonical"
      && not (path_within_root h root (hydration_path p)) in
    elim (Bool-cases outside) [
      | inl out ↦ ground arith
      | inr inside ↦ (
        classify_path-MayClone h t j p (hydration_path p) (new_action h t j options p)
            (ground arith),
        (λ rooted placed. path_within_root-Within h root (target project) (
            ground (
              arith,
              inside,
              not_empty root rooted,
              (eq_iff p.source (txt "canonical")).1 placed,
            ))),
      )
    ]
