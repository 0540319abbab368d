-- ===== src/HydrationExecutor/Places.antt =====
-- internal/hydrationexecutor/executor.go: the questions about paths that the executor asks.
use codemesh.Base.{
  Text, ◌==◌, Bool, true, ◌||◌, Option, none, some, List, [], ◌∷◌, reverse, is_empty, every,
  trim_space, clean, join, dir, base, rel, climbs, is_abs, elements, from_elements, if◌then◌else◌,
  Result, ok, err, ◌>>=◌, map_err, Dict,
}
use codemesh.Host.{Host, Answer, found, not_exist, failed}
use codemesh.Manifest.Locations.{path_is_ancestor}
use codemesh.Placeholder.{PlaceholderError}
use codemesh.HydrationPlanner.Actions.{Action}
use codemesh.CloneStrategy.Cloning.{CloneError}

-- The reasons of `PathConflictError`.
pub data ConflictReason : Type 0 where
  no_match is_no_directory local_changes is_not_empty : ConflictReason
  changed_while_cloning placeholder_changed_while_cloning : ConflictReason
  planned_for : Text → ConflictReason
  ownership_unknown : PlaceholderError → ConflictReason

-- An error of the system; `none` is `os.ErrNotExist`.
abbrev pub SystemError : Type 0
SystemError = Option Text

pub data ExecuteError : Type 0 where
  plan_blocked : ExecuteError
  refused : Action → ExecuteError
  unsafe_path : Text → ExecuteError
  path_conflict : Text → ConflictReason → ExecuteError
  root_unresolved path_unresolved path_unchecked unreadable : Text → SystemError → ExecuteError
  no_temp no_parent not_moved temp_not_removed sentinel_not_removed : Text → ExecuteError
  placeholder_not_removed : Text → ExecuteError
  clone_failed : CloneError → ExecuteError

-- The answer of a call, where finding nothing is an error too.
unfoldable pub required : {A : Type 0} → Answer A → Result SystemError A
required (found a) = ok a
required not_exist = err none
required (failed message) = err (some message)

-- `pathWithin`, `pathsOverlap`
unfoldable pub path_within : Text → Text → Bool
path_within child parent = path_is_ancestor parent child

unfoldable pub paths_overlap : Text → Text → Bool
paths_overlap a b =
    let a' = clean a in let b' = clean b in a' == b' || path_within a' b' || path_within b' a'

-- The loop of `addPlannedPath`: the project of a planned path that overlaps with the path.
unfoldable pub overlapping : Dict Text → Text → Option Text
overlapping [] path = none
overlapping ((existing, project) ∷ planned) path =
    let rest = overlapping planned path in
    if paths_overlap path existing then some project else rest

-- The names of a directory but for the path that is excepted.
unfoldable pub holds_only : Text → Text → List Text → Bool
holds_only path except names =
    if is_empty except
    then is_empty names
    else every (λ n. clean (join (path ∷ n ∷ [])) == clean except) names

module _ (h : Host) where
  unfoldable pub resolved_parent : Bool → List Text → Result SystemError Text
  resolved_parent rooted es = required (h.eval_symlinks (from_elements rooted (reverse es)))

  -- The loop of `realPathForPossiblyMissing` over the parents of a path, whose elements are given
  -- from the last to the first: parents that are missing are passed by, up to the root.
  unfoldable pub real_parents : Bool → List Text → List Text → Result SystemError Text
  real_parents rooted [] suffix = elim (resolved_parent rooted []) [
    | ok resolved ↦ ok (join (resolved ∷ suffix))
    | err e ↦ err e
  ]
  real_parents rooted (e ∷ es) suffix =
      let above = real_parents rooted es (e ∷ suffix) in
      elim (resolved_parent rooted (e ∷ es)) [
        | ok resolved ↦ ok (join (resolved ∷ suffix))
        | err (some message) ↦ err (some message)
        | err none ↦ above
      ]

  -- `realPathForPossiblyMissing`
  unfoldable pub real_path_for_possibly_missing : Text → Result SystemError Text
  real_path_for_possibly_missing path =
      let p = clean path in
      let parent = dir p in
      let above = real_parents (is_abs parent) (reverse (elements parent)) (base p ∷ []) in
      elim (required (h.eval_symlinks p)) [
        | ok resolved ↦ ok resolved
        | err (some message) ↦ err (some message)
        | err none ↦ above
      ]

  unfoldable pub leaves_root : Text → Text → Bool
  leaves_root root destination = elim (rel root destination) [ none ↦ true | some r ↦ climbs r ]

  -- `ensureRealDestinationWithinRoot`
  unfoldable pub ensure_real_destination_within_root : Text → Text → Result ExecuteError (Unit {0})
  ensure_real_destination_within_root workspace_root destination =
      if is_empty (trim_space workspace_root) then ok tt else do
        real_root ←
            map_err (root_unresolved workspace_root) (real_path_for_possibly_missing workspace_root)
        real_destination ←
            map_err (path_unresolved destination) (real_path_for_possibly_missing destination)
        (if leaves_root real_root real_destination then err (unsafe_path destination) else ok tt)

  unfoldable pub resolved_or_same : Text → Text
  resolved_or_same path = elim (h.eval_symlinks path) [
    | found resolved ↦ resolved
    | not_exist ↦ path
    | failed _ ↦ path
  ]

  -- `samePath`
  unfoldable pub same_path : Text → Text → Bool
  same_path a b = clean (resolved_or_same (clean a)) == clean (resolved_or_same (clean b))

  -- `dirIsEmptyExcept`, `dirIsEmpty`
  unfoldable pub dir_is_empty_except : Text → Text → Result ExecuteError Bool
  dir_is_empty_except path except = do
    names ← map_err (unreadable path) (required (h.read_dir path))
    ok (holds_only path except names)

  unfoldable pub dir_is_empty : Text → Result ExecuteError Bool
  dir_is_empty path = dir_is_empty_except path []
