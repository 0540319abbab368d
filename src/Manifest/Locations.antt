-- ===== src/Manifest/Locations.antt =====
-- How paths are compared, nested and found to be in the way.
use codemesh.Base.{
  Text, txt, ◌==◌, ◌!=◌, Bool, true, false, not, ◌&&◌, ◌||◌, Option, none, some, List, [], ◌∷◌,
  reverse, is_empty, trim_space, clean, join, dir, rel, is_abs, elements, from_elements, climbs,
  if◌then◌else◌, Dict,
}
use codemesh.Host.{Host, found, not_exist, failed, directory}

-- Why a change or a drift is a conflict, with what its message names.
pub data Reason : Type 0 where
  duplicate_identity : Text → Reason
  outside_root : Reason
  alias_taken : Text → Text → Reason
  path_requested : Text → Reason
  path_nests : Text → Text → Reason
  path_registered : Text → Reason
  path_exists root_exists root_not_empty : Reason
  path_unchecked root_unchecked parent_unchecked : Text → Reason
  parent_not_directory : Text → Reason

-- `pathIsAncestor`
unfoldable pub path_is_ancestor : Text → Text → Bool
path_is_ancestor parent child = elim (rel parent child) [
  | none ↦ false
  | some r ↦ r != txt "." && not (climbs r)
]

-- `desiredPathNests`
unfoldable pub desired_path_nests : Text → Text → Bool
desired_path_nests parent child = path_is_ancestor (clean parent) (clean child)

-- `nestedDesiredPathConflict`: the owner and the path of an entry that nests with the path.
unfoldable pub nested_desired_path_conflict : Dict Text → Text → Text → Option (Text × Text)
nested_desired_path_conflict [] path identity = none
nested_desired_path_conflict ((existing, owner) ∷ seen) path identity =
    let rest = nested_desired_path_conflict seen path identity in
    if owner == identity
    then rest
    else if path_is_ancestor existing path || path_is_ancestor path existing
    then some (owner, existing)
    else rest

unfoldable pub join_names : Text → List Text → Text
join_names resolved [] = resolved
join_names resolved (name ∷ names) = join_names (join (resolved ∷ name ∷ [])) names

module _ (h : Host) where
  unfoldable pub resolved_at : Bool → List Text → List Text → Option Text
  resolved_at rooted es missing = elim (h.eval_symlinks (from_elements rooted (reverse es))) [
    | found resolved ↦ some (clean (join_names resolved missing))
    | not_exist ↦ none
    | failed _ ↦ none
  ]

  -- The loop of `canonicalPathForComparison` over the parents of a cleaned path, whose elements
  -- are given from the last to the first: the first prefix that resolves counts, and the names
  -- below it are joined to it.
  unfoldable pub resolve_parents : Bool → List Text → List Text → Option Text
  resolve_parents rooted [] missing = resolved_at rooted [] missing
  resolve_parents rooted (e ∷ es) missing =
      let above = resolve_parents rooted es (e ∷ missing) in
      elim (resolved_at rooted (e ∷ es) missing) [ some path ↦ some path | none ↦ above ]

  -- `canonicalPathForComparison`
  unfoldable pub canonical_path_for_comparison : Text → Text
  canonical_path_for_comparison path =
      elim (resolve_parents (is_abs path) (reverse (elements path)) []) [
        | some resolved ↦ resolved
        | none ↦ clean path
      ]

  -- `PathWithinRoot`
  unfoldable pub path_within_root : Text → Text → Bool
  path_within_root root path =
      let r = canonical_path_for_comparison root in
      let p = canonical_path_for_comparison path in p == r || path_is_ancestor r p

  -- `pathIsMissing`, `pathExistsOrUnknown`
  unfoldable pub path_is_missing : Text → Bool
  path_is_missing path = elim (h.lstat path) [ not_exist ↦ true | _ ↦ false ]

  unfoldable pub path_exists_or_unknown : Text → Bool
  path_exists_or_unknown path = not (path_is_missing path)

  -- The loop of `parentPathConflictReason`: `es` are the elements of a parent from the last to
  -- the first; it ends at the root, or at "." for a relative path.
  unfoldable pub parents_conflict : Bool → List Text → Option Reason
  parents_conflict rooted [] = none
  parents_conflict rooted (e ∷ es) =
      let parent = from_elements rooted (reverse (e ∷ es)) in
      let above = parents_conflict rooted es in
      elim (h.stat parent) [
        | found directory ↦ none
        | found _ ↦ some (parent_not_directory parent)
        | not_exist ↦ above
        | failed message ↦ some (parent_unchecked message)
      ]

  unfoldable pub parent_path_conflict_reason : Text → Option Reason
  parent_path_conflict_reason path =
      let parent = dir path in parents_conflict (is_abs parent) (reverse (elements parent))

  -- `workspaceRootConflictReason`
  unfoldable pub workspace_root_conflict_reason : Text → Option Reason
  workspace_root_conflict_reason path = elim (h.stat path) [
    | found directory ↦ elim (h.read_dir path) [
      | found names ↦ if is_empty names then none else some root_not_empty
      | not_exist ↦ some (root_unchecked [])
      | failed message ↦ some (root_unchecked message)
    ]
    | found _ ↦ some root_exists
    | not_exist ↦ parent_path_conflict_reason path
    | failed message ↦ some (root_unchecked message)
  ]

  -- `pathConflictReason`
  unfoldable pub path_conflict_reason : Text → Text → Option Reason
  path_conflict_reason path workspace_root =
      if not (is_empty (trim_space workspace_root))
        && canonical_path_for_comparison path == canonical_path_for_comparison workspace_root
      then workspace_root_conflict_reason path
      else elim (h.lstat path) [
        | found _ ↦ some path_exists
        | not_exist ↦ parent_path_conflict_reason path
        | failed message ↦ some (path_unchecked message)
      ]
