-- ===== src/CloneStrategy/Cloning.antt =====
-- internal/clonestrategy/clonestrategy.go: `FullClone.Clone`, over git as a parameter.
use codemesh.Base.{Text, txt, ◌!=◌, List, [], ◌∷◌, ◌++◌, is_empty, trim_space, if◌then◌else◌}
use codemesh.CloneStrategy.{
  Selection, Options, selection_for_options, sparse_checkout_patterns, filter_warning_ignored,
}
use codemesh.Disk.{Disk, Io, ◌>>=◌, done, fail, failing}

pub record Request : Type 0 where
  pub clone_url : Text
  pub destination : Text
  pub branch : Text
  pub options : Options

-- `CloneError` and the plain errors, with what git said before URLs are redacted in it.
pub data CloneError : Type 0 where
  url_missing destination_missing filter_ignored filter_not_recorded : CloneError
  other_filter : Text → Text → CloneError
  git_failed : Text → CloneError

unfoldable pub branch_args : Text → List Text
branch_args branch =
    if is_empty (trim_space branch)
    then []
    else txt "--branch" ∷ trim_space branch ∷ txt "--single-branch" ∷ []

-- The arguments of `git clone`
unfoldable pub clone_args : Request → Selection → List Text
clone_args request s =
    txt "clone" ∷ []
    ++ (if is_empty s.filter then [] else (txt "--filter=" ++ s.filter) ∷ [])
    ++ (if is_empty s.sparse_paths then [] else txt "--no-checkout" ∷ [])
    ++ branch_args request.branch
    ++ txt "--" ∷ request.clone_url ∷ request.destination ∷ []

unfoldable pub sparse_args : Selection → List Text
sparse_args s =
    txt "sparse-checkout" ∷ txt "set" ∷ txt "--no-cone" ∷ txt "--" ∷ []
    ++ sparse_checkout_patterns s.sparse_paths

unfoldable pub checkout_args : Request → List Text
checkout_args request =
    txt "checkout" ∷ []
    ++ (if is_empty (trim_space request.branch) then [] else trim_space request.branch ∷ [])

module _ {W : Type 0} (disk : Disk W) where
  -- `verifyPartialFilter`
  unfoldable pub verify_partial_filter : Text → Text → Io W CloneError (Unit {0})
  verify_partial_filter destination filter = do
    promisor ←
        failing (λ _. filter_not_recorded)
          (disk.git destination (txt "config" ∷ txt "--get" ∷ txt "remote.origin.promisor" ∷ []))
    (if trim_space promisor != txt "true" then fail filter_not_recorded else do
      recorded ←
          failing (λ _. other_filter [] filter)
            (disk.git destination
              (txt "config" ∷ txt "--get" ∷ txt "remote.origin.partialclonefilter" ∷ []))
      (if trim_space recorded != filter
          then fail (other_filter (trim_space recorded) filter)
          else done tt))

  unfoldable pub check_filter : Request → Selection → Text → Io W CloneError (Unit {0})
  check_filter request s stderr =
      if is_empty s.filter
      then done tt
      else if filter_warning_ignored stderr
      then fail filter_ignored
      else verify_partial_filter request.destination s.filter

  unfoldable pub check_out : Request → Selection → Io W CloneError (Unit {0})
  check_out request s = if is_empty s.sparse_paths then done tt else do
    _ ← failing git_failed (disk.git request.destination (sparse_args s))
    _ ← failing git_failed (disk.git request.destination (checkout_args request))
    done tt

  -- `FullClone.Clone`; its answer holds the strategy also where it fails, which no caller reads.
  unfoldable pub full_clone : Request → Io W CloneError Selection
  full_clone request =
      let s = selection_for_options request.options in
      if is_empty (trim_space request.clone_url)
      then fail url_missing
      else if is_empty (trim_space request.destination)
      then fail destination_missing
      else do
        stderr ← failing git_failed (disk.git_detail [] (clone_args request s))
        _ ← check_filter request s stderr
        _ ← check_out request s
        done s
