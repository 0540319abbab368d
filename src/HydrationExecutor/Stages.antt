-- ===== src/HydrationExecutor/Stages.antt =====
-- internal/hydrationexecutor/executor.go: the stages of `clone`.
use codemesh.Base.{
  Text, txt, Bool, true, false, not, ◌&&◌, some, List, [], ◌∷◌, ◌++◌, is_empty, join, dir, base,
  if◌then◌else◌, ok, map_err,
}
use codemesh.Host.{found, not_exist, failed, directory}
use codemesh.Disk.{Disk, Io, ◌>>=◌, done, fail, failing, look, or_discard}
use codemesh.State.{Project}
use codemesh.CloneStrategy.{Selection, Options}
use codemesh.CloneStrategy.Cloning.{full_clone}
use codemesh.Placeholder.{Json, owned_by, owned_by_allowing, sentinel_files}
use codemesh.HydrationPlanner.Actions.{State, state_placeholder}
use codemesh.HydrationExecutor.Places.{
  ExecuteError, is_no_directory, local_changes, is_not_empty, changed_while_cloning,
  placeholder_changed_while_cloning, ownership_unknown, path_conflict, path_unchecked, unreadable,
  no_temp, no_parent, not_moved, temp_not_removed, sentinel_not_removed, placeholder_not_removed,
  clone_failed, required, ensure_real_destination_within_root, same_path, dir_is_empty,
  dir_is_empty_except,
}

-- Where git clones to, and the flags that say what follows.
pub record Prepared : Type 0 where
  pub clone_path : Text
  pub cleanup_on_clone_failure : Bool
  pub move_into_existing_destination : Bool
  pub replace_placeholder_destination : Bool
  pub clone_inside_placeholder_destination : Bool

abbrev pub is_placeholder : State → Bool
is_placeholder state_placeholder = true
is_placeholder _ = false

module _ {W : Type 0} (disk : Disk W) (j : Json) where
  unfoldable pub within_root : Text → Text → Io W ExecuteError (Unit {0})
  within_root root path = look disk (λ h. ensure_real_destination_within_root h root path)

  -- A temporary directory for a clone, which must not lie outside the root.
  unfoldable pub make_temp : Text → Text → Text → Io W ExecuteError Text
  make_temp root parent local_path = do
    temp ←
        failing no_temp
          (disk.mkdir_temp parent (txt ".codemesh-clone-" ++ (base local_path ++ txt "-")))
    _ ← or_discard disk temp (within_root root temp)
    done temp

  unfoldable pub at_root : Text → Text → Io W ExecuteError Bool
  at_root root path = look disk (λ h. ok (not (is_empty root) && same_path h path root))

  -- The case of a placeholder.
  unfoldable pub prepare_placeholder : Text → Project → Io W ExecuteError Prepared
  prepare_placeholder root p = do
    owned ← look disk (λ h.
        map_err (λ e. path_conflict p.local_path (ownership_unknown e))
          (owned_by h j p.local_path p.alias p.normalized_remote))
    (if not owned then fail (path_conflict p.local_path local_changes) else do
      _ ← within_root root p.local_path
      inside ← at_root root p.local_path
      temp ← make_temp root (if inside then p.local_path else dir p.local_path) p.local_path
      done (record {
        clone_path = temp;
        cleanup_on_clone_failure = true;
        move_into_existing_destination = false;
        replace_placeholder_destination = true;
        clone_inside_placeholder_destination = inside;
      }))

  -- The case of another directory, which has to be empty.
  unfoldable pub prepare_empty : Text → Project → Io W ExecuteError Prepared
  prepare_empty root p = do
    empty ← look disk (λ h. dir_is_empty h p.local_path)
    (if not empty then fail (path_conflict p.local_path is_not_empty) else do
      _ ← within_root root p.local_path
      inside ← at_root root p.local_path
      temp ← make_temp root (if inside then p.local_path else dir p.local_path) p.local_path
      done (record {
        clone_path = temp;
        cleanup_on_clone_failure = true;
        move_into_existing_destination = true;
        replace_placeholder_destination = false;
        clone_inside_placeholder_destination = false;
      }))

  -- The case of a path where nothing is.
  unfoldable pub prepare_absent : Text → Project → Io W ExecuteError Prepared
  prepare_absent root p = do
    _ ← within_root root p.local_path
    _ ← failing no_parent (disk.mkdir_all (dir p.local_path))
    done (record {
      clone_path = p.local_path;
      cleanup_on_clone_failure = true;
      move_into_existing_destination = false;
      replace_placeholder_destination = false;
      clone_inside_placeholder_destination = false;
    })

  -- The switch on what is at the path.
  unfoldable pub prepare : Text → State → Project → Io W ExecuteError Prepared
  prepare root state p w = elim ((disk.host w).stat p.local_path) [
    | found directory ↦
        (if is_placeholder state then prepare_placeholder root p else prepare_empty root p) w
    | found _ ↦ fail (path_conflict p.local_path is_no_directory) w
    | not_exist ↦ prepare_absent root p w
    | failed message ↦ fail (path_unchecked p.local_path (some message)) w
  ]

  -- `moveDirectoryContents`
  unfoldable pub move_names : Text → Text → List Text → Io W Text (Unit {0})
  move_names from to [] = done tt
  move_names from to (name ∷ names) = do
    _ ← disk.rename (join (from ∷ name ∷ [])) (join (to ∷ name ∷ []))
    move_names from to names

  unfoldable pub move_directory_contents : Text → Text → Io W ExecuteError (Unit {0})
  move_directory_contents from to = do
    names ← look disk (λ h. map_err (unreadable from) (required (h.read_dir from)))
    failing not_moved (move_names from to names)

  unfoldable pub remove_temp : Text → Io W ExecuteError (Unit {0})
  remove_temp path = failing temp_not_removed (disk.remove path)

  unfoldable pub remove_sentinels : Text → List Text → Io W ExecuteError (Unit {0})
  remove_sentinels path [] = done tt
  remove_sentinels path (name ∷ names) = do
    _ ← failing sentinel_not_removed (disk.remove (join (path ∷ name ∷ [])))
    remove_sentinels path names

  -- The clone goes into the directory, if that is still empty.
  unfoldable pub move_into : Text → Text → Io W ExecuteError (Unit {0})
  move_into clone_path local_path = do
    _ ← or_discard disk clone_path (do
      empty ← look disk (λ h. dir_is_empty_except h local_path clone_path)
      _ ← (if empty then done tt else fail (path_conflict local_path changed_while_cloning))
      move_directory_contents clone_path local_path)
    remove_temp clone_path

  unfoldable pub still_owned : Text → Project → Io W ExecuteError (Unit {0})
  still_owned clone_path p = do
    owned ← look disk (λ h.
        map_err (λ e. path_conflict p.local_path (ownership_unknown e))
          (owned_by_allowing h j p.local_path p.alias p.normalized_remote clone_path))
    (if owned then done tt else fail (path_conflict p.local_path placeholder_changed_while_cloning))

  -- The clone takes the place of the placeholder, if that is still as it was written.
  unfoldable pub replace_placeholder : Bool → Text → Project → Io W ExecuteError (Unit {0})
  replace_placeholder true clone_path p = do
    _ ← or_discard disk clone_path (do
      _ ← still_owned clone_path p
      _ ← remove_sentinels p.local_path sentinel_files
      move_directory_contents clone_path p.local_path)
    remove_temp clone_path
  replace_placeholder false clone_path p = or_discard disk clone_path (do
    _ ← still_owned clone_path p
    _ ← failing placeholder_not_removed (disk.remove_all p.local_path)
    failing not_moved (disk.rename clone_path p.local_path))

  unfoldable pub run_clone : Prepared → Project → Options → Io W ExecuteError Selection
  run_clone prepared p options =
      let cloning = failing clone_failed (
        full_clone disk (record {
          clone_url = p.clone_url;
          destination = prepared.clone_path;
          branch = [];
          options = options;
        })) in
      if prepared.cleanup_on_clone_failure
      then or_discard disk prepared.clone_path cloning
      else cloning

  -- The second check of the path, after the directories were made.
  unfoldable pub check_again : Text → Prepared → Project → Io W ExecuteError (Unit {0})
  check_again root prepared p =
      if prepared.move_into_existing_destination
      then or_discard disk prepared.clone_path (within_root root p.local_path)
      else within_root root p.local_path

  -- What follows the clone.
  unfoldable pub put_in_place : Prepared → Project → Io W ExecuteError (Unit {0})
  put_in_place prepared p = do
    _ ←
        (if prepared.move_into_existing_destination
          then move_into prepared.clone_path p.local_path
          else done tt)
    (if prepared.replace_placeholder_destination
        then replace_placeholder prepared.clone_inside_placeholder_destination prepared.clone_path p
        else done tt)
