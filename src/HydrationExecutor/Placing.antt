-- ===== src/HydrationExecutor/Placing.antt =====
-- The clone and what follows it are lawful.
use codemesh.Base.{
  ◌≡◌, refl, Text, Bool, true, false, List, [], ◌∷◌, ◌==◌, is_empty, trim_space, mem_text, any,
  arith, every, if◌then◌else◌,
}
use codemesh.Disk.{Disk}
use codemesh.State.{Project}
use codemesh.CloneStrategy.{Selection, Options, selection_for_options}
use codemesh.CloneStrategy.Cloning.{
  Request, url_missing, destination_missing, git_failed, verify_partial_filter, check_filter,
  check_out, full_clone,
}
use codemesh.Placeholder.{Json, sentinel_files}
use codemesh.HydrationExecutor.Stages.{
  Prepared, move_names, move_directory_contents, remove_temp, remove_sentinels, move_into,
  still_owned, replace_placeholder, run_clone, check_again, put_in_place,
}
use codemesh.HydrationExecutor.Places.{clone_failed}
use codemesh.HydrationExecutor.Trace.{Claim, mine, inside, Has, here, later, Lawful}
use codemesh.HydrationExecutor.Tracing.{
  nothing, knows, knows_none, done-Lawful, fail-Lawful, look-Lawful, >>=-Lawful, failing-Lawful,
  or_discard-Lawful, if-Lawful, when-Lawful, forget-Lawful,
}
use codemesh.HydrationExecutor.Calls.{
  within_root-Lawful, owned_by_allowing-Lawful, git-Lawful, git_clone-Lawful, remove-Lawful,
  remove_all-Lawful, remove_sentinel-Lawful, rename-Lawful, rename_entry-Lawful,
}

sentinels_listed : every (λ n. mem_text n sentinel_files) sentinel_files ≡ true
unfolding every mem_text any ◌==◌
sentinels_listed = refl

module _ {W : Type 0} {disk : Disk W} {j : Json} {root : Text} {start : W} where
  verify_partial_filter-Lawful :
      {needs : List Claim} (path filter : Text)
      → Has (mine path) needs
      → Lawful disk j root start needs (verify_partial_filter disk path filter) nothing
  unfolding verify_partial_filter
  verify_partial_filter-Lawful path filter own =
      >>=-Lawful nothing (failing-Lawful _ (git-Lawful path _ own)) (λ promisor.
        if-Lawful _ (fail-Lawful _) (
          >>=-Lawful nothing (failing-Lawful _ (git-Lawful path _ own))
            (λ recorded. if-Lawful _ (fail-Lawful _) (done-Lawful tt knows_none))))

  check_filter-Lawful :
      {needs : List Claim} (request : Request) (s : Selection) (stderr : Text)
      → Has (mine request.destination) needs
      → Lawful disk j root start needs (check_filter disk request s stderr) nothing
  unfolding check_filter
  check_filter-Lawful request s stderr own =
      if-Lawful _ (done-Lawful tt knows_none)
        (if-Lawful _ (fail-Lawful _) (verify_partial_filter-Lawful _ _ own))

  check_out-Lawful :
      {needs : List Claim} (request : Request) (s : Selection)
      → Has (mine request.destination) needs
      → Lawful disk j root start needs (check_out disk request s) nothing
  unfolding check_out
  check_out-Lawful request s own = if-Lawful _ (done-Lawful tt knows_none) (
      >>=-Lawful nothing (failing-Lawful _ (git-Lawful _ _ own)) (λ _.
        >>=-Lawful nothing (failing-Lawful _ (git-Lawful _ _ own))
          (λ _. done-Lawful tt knows_none)))

  full_clone-Lawful :
      {needs : List Claim} (request : Request)
      → Has (mine request.destination) needs
      → Has (inside request.destination) needs
      → Lawful disk j root start needs (full_clone disk request) nothing
  unfolding full_clone
  full_clone-Lawful request own checked =
      let s = selection_for_options request.options in
      if-Lawful (is_empty (trim_space request.clone_url)) (fail-Lawful url_missing) (
        if-Lawful (is_empty (trim_space request.destination)) (fail-Lawful destination_missing) (
          >>=-Lawful nothing (failing-Lawful git_failed (git_clone-Lawful request s own checked))
            (λ stderr. >>=-Lawful nothing (check_filter-Lawful request s stderr own) (λ _.
              >>=-Lawful nothing (check_out-Lawful request s own)
                (λ _. done-Lawful s knows_none)))))

  move_names-Lawful :
      {needs : List Claim} (from to : Text) (names : List Text)
      → Has (mine from) needs
      → Has (inside to) needs
      → Lawful disk j root start needs (move_names disk j from to names) nothing
  unfolding move_names
  move_names-Lawful from to [] own checked = done-Lawful tt knows_none
  move_names-Lawful from to (name ∷ names) own checked =
      >>=-Lawful nothing (rename_entry-Lawful from to name own checked)
        (λ _. move_names-Lawful from to names own checked)

  move_directory_contents-Lawful :
      {needs : List Claim} (from to : Text)
      → Has (mine from) needs
      → Has (inside to) needs
      → Lawful disk j root start needs (move_directory_contents disk j from to) nothing
  unfolding move_directory_contents
  move_directory_contents-Lawful from to own checked =
      >>=-Lawful nothing (look-Lawful _)
        (λ names. failing-Lawful _ (move_names-Lawful from to names own checked))

  remove_temp-Lawful :
      {needs : List Claim} (path : Text)
      → Has (mine path) needs
      → Lawful disk j root start needs (remove_temp disk j path) nothing
  unfolding remove_temp
  remove_temp-Lawful path own = failing-Lawful _ (remove-Lawful path own)

  remove_sentinels-Lawful :
      {needs : List Claim} (path : Text) (names : List Text)
      → Has (mine path) needs
      → every (λ n. mem_text n sentinel_files) names ≡ true
      → Lawful disk j root start needs (remove_sentinels disk j path names) nothing
  unfolding remove_sentinels every
  remove_sentinels-Lawful path [] own listed = done-Lawful tt knows_none
  remove_sentinels-Lawful path (name ∷ names) own listed =
      >>=-Lawful nothing (failing-Lawful _ (remove_sentinel-Lawful path name own (ground arith)))
        (λ _. remove_sentinels-Lawful path names own (ground arith))

  move_into-Lawful :
      {needs : List Claim} (from to : Text)
      → Has (mine from) needs
      → Has (inside to) needs
      → Lawful disk j root start needs (move_into disk j from to) nothing
  unfolding move_into
  move_into-Lawful from to own checked =
      >>=-Lawful nothing
        (or_discard-Lawful from own (
          >>=-Lawful nothing (look-Lawful _) (λ empty.
            >>=-Lawful nothing (if-Lawful empty (done-Lawful tt knows_none) (fail-Lawful _))
              (λ _. move_directory_contents-Lawful from to own checked))))
        (λ _. remove_temp-Lawful from own)

  still_owned-Lawful :
      {needs : List Claim} (from : Text) (p : Project)
      → Lawful disk j root start needs (still_owned disk j from p) (λ _. mine p.local_path ∷ [])
  unfolding still_owned
  still_owned-Lawful from p =
      >>=-Lawful (λ untouched. if untouched then mine p.local_path ∷ [] else [])
        (owned_by_allowing-Lawful _ p.local_path p.alias p.normalized_remote from)
        (λ untouched.
          when-Lawful untouched (mine p.local_path ∷ [])
            (done-Lawful tt (knows (here refl) knows_none)) (fail-Lawful _))

  replace_placeholder-Lawful :
      {needs : List Claim} (at_root : Bool) (from : Text) (p : Project)
      → Has (mine from) needs
      → Has (inside p.local_path) needs
      → Lawful disk j root start needs (replace_placeholder disk j at_root from p) nothing
  unfolding replace_placeholder
  replace_placeholder-Lawful true from p own checked =
      >>=-Lawful nothing
        (or_discard-Lawful from own (
          >>=-Lawful (λ _. mine p.local_path ∷ []) (still_owned-Lawful from p)
            (λ _.
              >>=-Lawful nothing
                (remove_sentinels-Lawful p.local_path sentinel_files (here refl) sentinels_listed)
                (λ _.
                  move_directory_contents-Lawful from p.local_path (later own) (later checked)))))
        (λ _. remove_temp-Lawful from own)
  replace_placeholder-Lawful false from p own checked = or_discard-Lawful from own (
      >>=-Lawful (λ _. mine p.local_path ∷ []) (still_owned-Lawful from p)
        (λ _.
          >>=-Lawful nothing (failing-Lawful _ (remove_all-Lawful p.local_path (here refl)))
            (λ _. failing-Lawful _ (rename-Lawful from p.local_path (later own) (later checked)))))

  pub run_clone-Lawful :
      {needs : List Claim} (prepared : Prepared) (p : Project) (options : Options)
      → Has (mine prepared.clone_path) needs
      → Has (inside prepared.clone_path) needs
      → Lawful disk j root start needs (run_clone disk j prepared p options) nothing
  unfolding run_clone
  run_clone-Lawful prepared p options own checked =
      let cloning = failing-Lawful clone_failed (
        full_clone-Lawful
          (record {
            clone_url = p.clone_url;
            destination = prepared.clone_path;
            branch = [];
            options = options;
          })
          own checked) in
      if-Lawful prepared.cleanup_on_clone_failure
        (or_discard-Lawful prepared.clone_path own cloning) cloning

  pub check_again-Lawful :
      {needs : List Claim} (prepared : Prepared) (p : Project)
      → Has (mine prepared.clone_path) needs
      → Lawful disk j root start needs (check_again disk j root prepared p) nothing
  unfolding check_again
  check_again-Lawful prepared p own =
      let check = forget-Lawful (within_root-Lawful p.local_path) in
      if-Lawful prepared.move_into_existing_destination
        (or_discard-Lawful prepared.clone_path own check) check

  pub put_in_place-Lawful :
      {needs : List Claim} (prepared : Prepared) (p : Project)
      → Has (mine prepared.clone_path) needs
      → Has (inside p.local_path) needs
      → Lawful disk j root start needs (put_in_place disk j prepared p) nothing
  unfolding put_in_place
  put_in_place-Lawful prepared p own checked =
      >>=-Lawful nothing
        (if-Lawful prepared.move_into_existing_destination
          (move_into-Lawful prepared.clone_path p.local_path own checked)
          (done-Lawful tt knows_none))
        (λ _.
          if-Lawful prepared.replace_placeholder_destination
            (replace_placeholder-Lawful prepared.clone_inside_placeholder_destination
              prepared.clone_path p own checked)
            (done-Lawful tt knows_none))
