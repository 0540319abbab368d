-- ===== src/Tests/Opened.antt =====
-- What the runs compute with: to unfold one of these names is to unfold all that its line lists.
use codemesh.Base.{any, every, keep}
use codemesh.Base.{
  ◌==◌, is_space, trim_left_by, trim_right_by, trim_space, trim_byte, has_prefix, after_prefix,
  trim_prefix, has_suffix, trim_suffix, contains, contains_byte, contains_any, replace_byte,
  split_onto, split, join_by, lower_letter, to_lower, equal_fold, cut, text_lt, mem_text,
}
use codemesh.Base.{lookup, insert}
use codemesh.Base.{
  is_abs, push_element, push_elements, elements, from_elements, clean, join, cut_last, dir, base,
  rel_elements, rel_from, rel, climbs,
}
use codemesh.Base.{place, sort}
use codemesh.Base.{decimal_within, decimal}
use codemesh.Base.{unique_from, unique_sorted}
use codemesh.State.{
  with_placement_defaults, with_clone_url, missing_field, find_row, last_id, insert_row,
  add_project, set_row, update_project, delete_project, list_projects, merge_row, same_placement,
  upsert_project, commit_or_rollback, with_transaction,
}
use codemesh.GitOps.{
  split_scp_like_remote, normalize_github_path, is_windows_drive_path, is_absolute_file_url_path,
  safe_clone_url_component, safe_clone_url_path, validate_file_url, validate_user,
  validate_remote_url, validate_scp_or_path, abs, parse_absolute_url, normalize_local,
  normalize_url, normalize_remote_from, normalize_remote, remote_matches_source,
  validate_clone_source, redact_url_for_metadata,
}
use codemesh.Manifest.Entries.{
  normalize_desired_path, validate_desired_path, normalized_groups, normalize_identity,
  normalize_project, normalize_entry, validate_entry, normalize_workspace, entries_from_workspace,
}
use codemesh.Manifest.Entries.Hints.{
  is_windows_drive_path as hints_is_windows_drive_path, split_scp_like,
  is_absolute_file_url_path as hints_is_absolute_file_url_path, sanitized_user, check_file_hint,
  check_path_hint, parse_file_url, is_local_reference, has_unsafe_url_userinfo,
  has_url_query_or_fragment, sanitized_clone_hint, validate_clone_hint, manifest_clone_hint,
  clone_url_for_plan,
}
use codemesh.Manifest.Entries.Workspace.{
  find_nesting, check_nesting, check_new, remember, validate_projects, validate_workspace,
}
use codemesh.Manifest.Locations.{
  path_is_ancestor, desired_path_nests, nested_desired_path_conflict, join_names, resolved_at,
  resolve_parents, canonical_path_for_comparison, path_within_root, path_is_missing,
  path_exists_or_unknown, parents_conflict, parent_path_conflict_reason,
  workspace_root_conflict_reason, path_conflict_reason,
}
use codemesh.Manifest.Plan.{
  clean_workspace_root, normalize_entries, take_alias, plan_placed, see_path, see_identity,
  plan_fresh, plan_entry, plan_entries, plan_import,
}
use codemesh.Manifest.Plan.Registry.{
  project_canonical_path, desired_alias, in_manifest, registered_elsewhere, other_owner,
  first_reason, index_project, see_project, index_projects, see_projects, index_registry,
}
use codemesh.Manifest.Plan.Change.{
  refuse, field_change, desired_local_path, desired_compare_path, new_change, alias_refusal,
  path_refusal, new_refusal, moves, known_refusal, known_local_path, known_change, known_conflict,
}
use codemesh.CloneStrategy.{
  is_unsafe_part, is_skipped, normalize_sparse_path, sparse_paths_from, normalize_sparse_paths,
  normalize_selection, selection_for_options, sparse_checkout_patterns, filter_warning_ignored,
}
use codemesh.Reconciliation.{
  clean_workspace_root as reconciliation_clean_workspace_root, clean_path, normalize_one,
  normalize_entries as reconciliation_normalize_entries,
  desired_local_path as reconciliation_desired_local_path, compare_path, new_drift, missing_run,
  observed_drift, observed_run, placed_run, path_owner, nesting, claim, fresh_run, entry_run,
  entries_run, dry_run_from, build_dry_run_plan,
}
use codemesh.Reconciliation.Drifts.{
  add_conflict, add_drift, local_machine, sorted_projects, clone_url_for, added_drift, add_absent,
  conflict_run, drift_run,
}
use codemesh.Policy.{
  parse_mode, refuse_values, leaves_checkout, file_leaves_checkout, check_values, is_assignment,
  parse_category, check_category, parse_local_only_path, parse_local_only_paths, parse_base,
  parse_file, parse_bytes, resolve,
}
use codemesh.Toolchain.{
  valid_status, first_nonblank, first_line, check_name, check_names, check, valid_character,
  valid_characters, valid_requirement_name,
}
use codemesh.HydrationPlanner.{
  local_only_paths_for_project, local_only_paths_for_observed_source, is_git_checkout_path,
  new_action, classify_plain, classify_placeholder, classify_checked, classify_present,
  parent_conflict_reason, classify_absent, classify_path, classify_project, required_workspace_root,
  workspace_root, classify_all, plan_all, unknown_action, action_for_alias, plan_project,
}
use codemesh.HydrationPlanner.Actions.{
  refuse as actions_refuse, add_action, sort_actions, clone_url_for_project,
  with_placement_defaults as actions_with_placement_defaults, hydration_path,
}
use codemesh.HydrationPlanner.Drifting.{
  message, drift_message, conflict_state, clone_url_for_drift, drift_action, by_kind,
  action_from_drift, index_identities, plan_drift, plan_drifts,
  plan_entries as drifting_plan_entries,
}
use codemesh.Placeholder.{
  note_text, git_barrier_text, validate, same_metadata, metadata_bytes, read_or, decode_metadata,
  read_metadata, is, counted_names, only_sentinels, has_expected_barrier, has_expected_note,
  has_expected_files, is_untouched, owned_by_allowing, owned_by,
}
use codemesh.Manifest.Apply.{
  project_from_import_change, last_with_id, original_rows, temp_rows, first_with_id,
  without_repeats, restore_ids, free_aliases, write_updates, free_for_rollback, restore_rows,
  rollback_import_updates, roll_back, delete_added, fail_updates, apply_updates_of,
  apply_import_updates, add_changes, fail_adds, apply_import_changes, first_conflict,
  apply_import_plan, apply_import_plan_plainly, apply_import,
}
use codemesh.Manifest.Apply.Aliases.{
  candidate, search_alias, fresh_alias, import_temp_alias, import_rollback_alias,
}
use codemesh.Manifest.Apply.Rows.{stored}
use codemesh.Disk.{◌>>=◌, done, fail, failing, accept, asking, look, or_discard}
use codemesh.CloneStrategy.Cloning.{
  branch_args, clone_args, sparse_args, checkout_args, verify_partial_filter, check_filter,
  check_out, full_clone,
}
use codemesh.HydrationExecutor.Places.{
  required, path_within, paths_overlap, overlapping, holds_only, resolved_parent, real_parents,
  real_path_for_possibly_missing, leaves_root, ensure_real_destination_within_root,
  resolved_or_same, same_path, dir_is_empty_except, dir_is_empty,
}
use codemesh.HydrationExecutor.Checks.{
  add_planned_path, remote_matches, git_checkout_matches, preflight,
}
use codemesh.HydrationExecutor.Stages.{
  within_root, make_temp, at_root, prepare_placeholder, prepare_empty, prepare_absent, prepare,
  move_names, move_directory_contents, remove_temp, remove_sentinels, move_into, still_owned,
  replace_placeholder, run_clone, check_again, put_in_place,
}
use codemesh.HydrationExecutor.{
  project_to_clone, clone_report, clone, clone_all, first_refusal, execute,
}
use codemesh.State.Bindings.{
  normalized_scopes, normalized_binding, find_binding, last_binding_id, set_binding, binding_row,
  upsert_env_binding, binding_of, bindings_of, list_env_bindings,
}
use codemesh.State.Runs.{
  find_run, record_agent_run, run_of, runs_of, later_first, list_agent_runs, delete_runs,
  delete_agent_runs, set_metadata, update_agent_run_metadata,
}
use codemesh.State.Machines.{
  check_facts, identified_row, first_row, chosen_row, registered_text, registered_machine_name,
  new_machine_id, set_machine, last_machine_id, machine_of, update_machine, insert_machine,
  register_machine, machines_of, list_machines,
}
use codemesh.EnvBinding.{
  summary_for_requirements, scopes_intersect, binding_for, select_from, select_bindings,
  status_from_diagnostics, is_fake_reference, is_word, squash, fake_provider_value, resolve_fake,
  bundle_lines, bundle_text, failed_with, refused_with, write_new, write_bundle, make_bundle,
  materialize,
}
use codemesh.Manifest.Export.{
  canonical_workspace_root, relative_desired_path, exported_entry, export_project, export_all,
  export_projects, export_workspace,
}

unfoldable pub text_code : Unit {0}
unfolding any every keep ◌==◌ is_space trim_left_by trim_right_by trim_space trim_byte has_prefix
    after_prefix trim_prefix has_suffix trim_suffix contains contains_byte contains_any replace_byte
    split_onto split join_by lower_letter to_lower equal_fold cut text_lt mem_text lookup insert
    is_abs push_element push_elements elements from_elements clean join cut_last dir base
    rel_elements rel_from rel climbs place sort decimal_within decimal unique_from unique_sorted
text_code = tt

unfoldable pub state_code : Unit {0}
unfolding with_placement_defaults with_clone_url missing_field find_row last_id insert_row
    add_project set_row update_project delete_project list_projects merge_row same_placement
    upsert_project commit_or_rollback with_transaction
state_code = tt

unfoldable pub git_code : Unit {0}
unfolding split_scp_like_remote normalize_github_path is_windows_drive_path
    is_absolute_file_url_path safe_clone_url_component safe_clone_url_path validate_file_url
    validate_user validate_remote_url validate_scp_or_path abs parse_absolute_url normalize_local
    normalize_url normalize_remote_from normalize_remote remote_matches_source validate_clone_source
    redact_url_for_metadata
git_code = tt

unfoldable pub manifest_code : Unit {0}
unfolding normalize_desired_path validate_desired_path normalized_groups normalize_identity
    normalize_project normalize_entry validate_entry normalize_workspace entries_from_workspace
    hints_is_windows_drive_path split_scp_like hints_is_absolute_file_url_path sanitized_user
    check_file_hint check_path_hint parse_file_url is_local_reference has_unsafe_url_userinfo
    has_url_query_or_fragment sanitized_clone_hint validate_clone_hint manifest_clone_hint
    clone_url_for_plan find_nesting check_nesting check_new remember validate_projects
    validate_workspace path_is_ancestor desired_path_nests nested_desired_path_conflict join_names
    resolved_at resolve_parents canonical_path_for_comparison path_within_root path_is_missing
    path_exists_or_unknown parents_conflict parent_path_conflict_reason
    workspace_root_conflict_reason path_conflict_reason
manifest_code = tt

unfoldable pub plan_code : Unit {0}
unfolding clean_workspace_root normalize_entries take_alias plan_placed see_path see_identity
    plan_fresh plan_entry plan_entries plan_import project_canonical_path desired_alias in_manifest
    registered_elsewhere other_owner first_reason index_project see_project index_projects
    see_projects index_registry refuse field_change desired_local_path desired_compare_path
    new_change alias_refusal path_refusal new_refusal moves known_refusal known_local_path
    known_change known_conflict
plan_code = tt

unfoldable pub clone_code : Unit {0}
unfolding is_unsafe_part is_skipped normalize_sparse_path sparse_paths_from normalize_sparse_paths
    normalize_selection selection_for_options sparse_checkout_patterns filter_warning_ignored
clone_code = tt

unfoldable pub drift_code : Unit {0}
unfolding reconciliation_clean_workspace_root clean_path normalize_one
    reconciliation_normalize_entries reconciliation_desired_local_path compare_path new_drift
    missing_run observed_drift observed_run placed_run path_owner nesting claim fresh_run entry_run
    entries_run dry_run_from build_dry_run_plan add_conflict add_drift local_machine sorted_projects
    clone_url_for added_drift add_absent conflict_run drift_run
drift_code = tt

unfoldable pub policy_code : Unit {0}
unfolding parse_mode refuse_values leaves_checkout file_leaves_checkout check_values is_assignment
    parse_category check_category parse_local_only_path parse_local_only_paths parse_base parse_file
    parse_bytes resolve valid_status first_nonblank first_line check_name check_names check
    valid_character valid_characters valid_requirement_name
policy_code = tt

unfoldable pub hydration_code : Unit {0}
unfolding local_only_paths_for_project local_only_paths_for_observed_source is_git_checkout_path
    new_action classify_plain classify_placeholder classify_checked classify_present
    parent_conflict_reason classify_absent classify_path classify_project required_workspace_root
    workspace_root classify_all plan_all unknown_action action_for_alias plan_project actions_refuse
    add_action sort_actions clone_url_for_project actions_with_placement_defaults hydration_path
    message drift_message conflict_state clone_url_for_drift drift_action by_kind action_from_drift
    index_identities plan_drift plan_drifts drifting_plan_entries note_text git_barrier_text
    validate same_metadata metadata_bytes read_or decode_metadata read_metadata is counted_names
    only_sentinels has_expected_barrier has_expected_note has_expected_files is_untouched
    owned_by_allowing owned_by
hydration_code = tt

unfoldable pub apply_code : Unit {0}
unfolding project_from_import_change last_with_id original_rows temp_rows first_with_id
    without_repeats restore_ids free_aliases write_updates free_for_rollback restore_rows
    rollback_import_updates roll_back delete_added fail_updates apply_updates_of
    apply_import_updates add_changes fail_adds apply_import_changes first_conflict apply_import_plan
    apply_import_plan_plainly apply_import candidate search_alias fresh_alias import_temp_alias
    import_rollback_alias stored
apply_code = tt

unfoldable pub execution_code : Unit {0}
unfolding ◌>>=◌ done fail failing accept asking look or_discard branch_args clone_args sparse_args
    checkout_args verify_partial_filter check_filter check_out full_clone required path_within
    paths_overlap overlapping holds_only resolved_parent real_parents real_path_for_possibly_missing
    leaves_root ensure_real_destination_within_root resolved_or_same same_path dir_is_empty_except
    dir_is_empty add_planned_path remote_matches git_checkout_matches preflight within_root
    make_temp at_root prepare_placeholder prepare_empty prepare_absent prepare move_names
    move_directory_contents remove_temp remove_sentinels move_into still_owned replace_placeholder
    run_clone check_again put_in_place project_to_clone clone_report clone clone_all first_refusal
    execute
execution_code = tt

unfoldable pub record_code : Unit {0}
unfolding normalized_scopes normalized_binding find_binding last_binding_id set_binding binding_row
    upsert_env_binding binding_of bindings_of list_env_bindings find_run record_agent_run run_of
    runs_of later_first list_agent_runs delete_runs delete_agent_runs set_metadata
    update_agent_run_metadata check_facts identified_row first_row chosen_row registered_text
    registered_machine_name new_machine_id set_machine last_machine_id machine_of update_machine
    insert_machine register_machine machines_of list_machines summary_for_requirements
    scopes_intersect binding_for select_from select_bindings status_from_diagnostics
    is_fake_reference is_word squash fake_provider_value resolve_fake bundle_lines bundle_text
    failed_with refused_with write_new write_bundle make_bundle materialize
record_code = tt

unfoldable pub export_code : Unit {0}
unfolding canonical_workspace_root relative_desired_path exported_entry export_project export_all
    export_projects export_workspace
export_code = tt
