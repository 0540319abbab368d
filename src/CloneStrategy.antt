-- ===== src/CloneStrategy.antt =====
-- internal/clonestrategy/clonestrategy.go: which clone is made, and which paths it checks out.
pub mod SparsePaths
pub mod Cloning
use codemesh.Base.{
  Text, txt, ◌==◌, Bool, true, false, not, ◌&&◌, ◌||◌, List, [], ◌∷◌, map, any, is_empty,
  trim_space, trim_byte, replace_byte, has_prefix, contains, contains_any, split, to_lower,
  mem_text, if◌then◌else◌,
}

pub record Selection : Type 0 where
  pub name : Text
  pub history : Text
  pub working_tree : Text
  pub filter : Text
  pub sparse_paths : List Text

pub record Options : Type 0 where
  pub partial : Bool
  pub sparse_paths : List Text

-- `FullCloneSelection`
abbrev pub full_clone_selection : Selection
full_clone_selection = record {
  name = txt "full-clone";
  history = txt "full";
  working_tree = txt "complete";
  filter = [];
  sparse_paths = [];
}

-- A part of a path that would leave the checkout, or that Git keeps for itself.
unfoldable pub is_unsafe_part : Text → Bool
is_unsafe_part part = is_empty part || part == txt "." || part == txt ".." || part == txt ".git"

-- The tests that skip a path, without the one on `seen`.
unfoldable pub is_skipped : Text → Bool
is_skipped path =
    (is_empty path || path == txt "." || has_prefix path (txt "../") || path == txt "..")
    || contains_any path (txt "*?[")
    || any is_unsafe_part (split b'/' path)

unfoldable pub normalize_sparse_path : Text → Text
normalize_sparse_path item = trim_byte b'/' (trim_space (replace_byte b'\\' b'/' item))

-- The loop of `NormalizeSparsePaths`: `seen` holds the paths that were kept.
unfoldable pub sparse_paths_from : List Text → List Text → List Text
sparse_paths_from seen [] = []
sparse_paths_from seen (item ∷ items) =
    let path = normalize_sparse_path item in
    let skipped = sparse_paths_from seen items in
    let kept = path ∷ sparse_paths_from (path ∷ seen) items in
    if is_skipped path || mem_text path seen then skipped else kept

-- `NormalizeSparsePaths`
unfoldable pub normalize_sparse_paths : List Text → List Text
normalize_sparse_paths paths = sparse_paths_from [] paths

-- `NormalizeSelection`
unfoldable pub normalize_selection : Selection → Selection
normalize_selection s = if is_empty (trim_space s.name) then full_clone_selection else record {
  name = trim_space s.name;
  history = trim_space s.history;
  working_tree = trim_space s.working_tree;
  filter = trim_space s.filter;
  sparse_paths = normalize_sparse_paths s.sparse_paths;
}

-- `SelectionForOptions`
unfoldable pub selection_for_options : Options → Selection
selection_for_options options =
    let paths = normalize_sparse_paths options.sparse_paths in
    if options.partial && not (is_empty paths)
    then record {
      name = txt "partial-sparse-clone";
      history = txt "partial";
      working_tree = txt "sparse";
      filter = txt "blob:none";
      sparse_paths = paths;
    }
    else if options.partial
    then record {
      name = txt "partial-clone";
      history = txt "partial";
      working_tree = txt "complete";
      filter = txt "blob:none";
      sparse_paths = [];
    }
    else if not (is_empty paths)
    then record {
      name = txt "sparse-checkout";
      history = txt "full";
      working_tree = txt "sparse";
      filter = [];
      sparse_paths = paths;
    }
    else full_clone_selection

-- `sparseCheckoutPatterns`
unfoldable pub sparse_checkout_patterns : List Text → List Text
sparse_checkout_patterns = map (λ path. b'/' ∷ path)

-- `filterWarningIgnored`
unfoldable pub filter_warning_ignored : Text → Bool
filter_warning_ignored stderr =
    let detail = to_lower stderr in
    contains detail (txt "filter")
    && (contains detail (txt "ignored")
        || contains detail (txt "not recognized")
        || contains detail (txt "not supported"))
