-- ===== src/Tests/Records.antt =====
-- A binding that is written twice, three agent runs, and a bundle for two keys.
use codemesh.Base.{
  ◌≡◌, ◌==◌, ◌&&◌, ◌⊎◌, refl, Text, txt, true, false, some, none, List, [], ◌∷◌, ok, join_by, split,
  mem_text, if◌then◌else◌, is_some,
}
use codemesh.State.Bindings.{
  EnvBinding, BindingRow, ScopesJson, normalized_scopes, upsert_env_binding,
}
use codemesh.State.Bindings.Tidied.{Tidies}
use codemesh.State.Bindings.Kept.{IsKept, upsert_env_binding-IsKept}
use codemesh.State.Runs.{
  Times, AgentRun, RunRow, find_run, run_of, record_agent_run, delete_agent_runs,
  update_agent_run_metadata,
}
use codemesh.State.Runs.Kept.{
  all_named, with_metadata, record_agent_run-found, delete_agent_runs-found,
  update_agent_run_metadata-found,
}
use codemesh.State.Machines.{MachineFacts, Machine, register_machine}
use codemesh.State.Machines.Identity.{Knows, register_machine-keeps}
use codemesh.EnvBinding.{Files, Request, denied, fake_provider, materialize}
use codemesh.EnvBinding.Granted.{IsEntitled, materialize-IsEntitled}
use codemesh.Tests.Opened.{text_code, record_code}

abbrev scopes_json : ScopesJson
scopes_json = record { marshal = join_by 0; unmarshal = λ s. some (split 0 s) }

abbrev old_row : BindingRow
old_row = record {
  id = 4;
  project_id = 1;
  requirement = txt "API_KEY";
  provider = txt "fake";
  secret_ref = txt "fake://old";
  scopes_json = txt "read";
}

-- The scopes have a blank, a repeat and outer space.
abbrev new_binding : EnvBinding
new_binding = record {
  id = 0;
  project_id = 1;
  requirement = txt " API_KEY";
  provider = txt "fake";
  secret_ref = txt "fake://new";
  scopes = txt "write" ∷ txt " read" ∷ txt " " ∷ txt "write" ∷ [];
}

abbrev written_binding : EnvBinding
written_binding = record new_binding {
  id = 4;
  requirement = txt "API_KEY";
  scopes = txt "read" ∷ txt "write" ∷ [];
}

upserts : (upsert_env_binding scopes_json new_binding (old_row ∷ [])).0 ≡ ok written_binding
unfolding text_code record_code
upserts = refl

decodes :
    scopes_json.unmarshal (scopes_json.marshal (normalized_scopes new_binding.scopes))
    ≡ some (normalized_scopes new_binding.scopes)
unfolding text_code record_code
decodes = refl

upsert_env_binding-IsKept_example :
    Tidies new_binding written_binding
    × IsKept scopes_json
        (old_row ∷ [])
        (upsert_env_binding scopes_json new_binding (old_row ∷ [])).1
        written_binding
upsert_env_binding-IsKept_example =
    upsert_env_binding-IsKept scopes_json new_binding (old_row ∷ []) decodes upserts

-- Instants as they are, in decimal for the test.
abbrev times : Times
times = record { format = λ n. txt "t"; parse = λ s. some 7 }

abbrev run_row : Text → RunRow
run_row id = record {
  id = id;
  project_id = 1;
  workspace_path = txt "/w/a";
  metadata_json = txt "{}";
  created_at = txt "t";
}

abbrev three_runs : List RunRow
three_runs = run_row (txt "r1") ∷ run_row (txt "r2") ∷ run_row (txt "r3") ∷ []

abbrev new_run : AgentRun
new_run = record {
  id = txt "r4";
  project_id = 1;
  workspace_path = txt "/w/a";
  metadata_json = txt "{}";
  created_at = 0;
}

records : (record_agent_run times 7 new_run three_runs).0 ≡ ok tt
unfolding text_code record_code
records = refl

record_agent_run-found_example :
    (r : RunRow) × (find_run (txt "r4") (record_agent_run times 7 new_run three_runs).1 ≡ some r)
    × (find_run (txt "r4") three_runs ≡ none)
    × (run_of times r ≡ ok (record new_run { created_at = 7 }))
record_agent_run-found_example = record_agent_run-found times 7 new_run three_runs refl records

delete_agent_runs-found_example :
    find_run (txt "r2") (delete_agent_runs (txt "r1" ∷ txt "r3" ∷ []) three_runs).1 ≡ (
      if all_named (txt "r1" ∷ txt "r3" ∷ []) && mem_text (txt "r2") (txt "r1" ∷ txt "r3" ∷ [])
      then none
      else find_run (txt "r2") three_runs)
delete_agent_runs-found_example =
    delete_agent_runs-found (txt "r1" ∷ txt "r3" ∷ []) three_runs (txt "r2")

updates : (update_agent_run_metadata (txt "r2") (txt "{1}") three_runs).0 ≡ ok tt
unfolding text_code record_code
updates = refl

update_agent_run_metadata-found_example :
    (is_some (find_run (txt "r2") three_runs) ≡ true)
    × (find_run (txt "r2") (update_agent_run_metadata (txt "r2") (txt "{1}") three_runs).1 ≡ (
        if txt "r2" == txt "r2"
        then with_metadata (txt "{1}") (find_run (txt "r2") three_runs)
        else find_run (txt "r2") three_runs))
update_agent_run_metadata-found_example =
    update_agent_run_metadata-found (txt "r2") (txt "{1}") three_runs (txt "r2") updates

-- A disk that remembers what is written.
abbrev files : Files (List Text)
files = record {
  mkdir_all = λ path w. (ok tt, w);
  create_new = λ path w. (ok tt, path ∷ w);
  write = λ path text w. (ok tt, text ∷ w);
  close = λ path w. (ok tt, w);
}

abbrev key_request : Text → Request
key_request scope = record {
  project_id = 1;
  required_files = [];
  required_keys = txt "API_KEY" ∷ [];
  provider = txt "fake";
  allowed_scopes = scope ∷ [];
  bundle_path = txt "/w/.env";
}

makes_bundle :
    (materialize files scopes_json fake_provider (key_request (txt "read")) (old_row ∷ []) []).1
    ≡ txt "API_KEY=codemesh_fake_secret_old\n" ∷ txt "/w/.env" ∷ []
unfolding text_code record_code
makes_bundle = refl

denies :
    (materialize files scopes_json fake_provider
      (key_request (txt "write"))
      (old_row ∷ [])
      []).0.summary.materialization_status
    ≡ denied
unfolding text_code record_code
denies = refl

materialize-IsEntitled_example :
    IsEntitled scopes_json fake_provider (key_request (txt "read")) (old_row ∷ [])
    ⊎ (((materialize files scopes_json fake_provider (key_request (txt "read")) (old_row ∷ []) []).1
          ≡ [])
        × ((materialize files scopes_json fake_provider
              (key_request (txt "read"))
              (old_row ∷ [])
              []).0.summary.bundle.present
            ≡ false))
materialize-IsEntitled_example =
    materialize-IsEntitled files scopes_json fake_provider (key_request (txt "read")) (old_row ∷ [])
      []

abbrev mac : MachineFacts
mac = record {
  name = [];
  hostname = txt "mac";
  os = txt "darwin";
  architecture = txt "arm64";
  codemesh_home = txt "/h";
  workspace_root = txt "/w";
}

abbrev first_time : Machine
first_time = record {
  id = txt "machine_ab";
  facts = record mac { name = txt "mac" };
  created_at = 7;
  updated_at = 7;
}

registers : (register_machine times 7 (some (txt "ab")) mac []).0 ≡ ok first_time
unfolding text_code record_code
registers = refl

registers_again :
    (register_machine times 9
      (some (txt "cd"))
      mac
      (register_machine times 7 (some (txt "ab")) mac []).1).0
    ≡ ok (record first_time { updated_at = 9 })
unfolding text_code record_code
registers_again = refl

register_machine-keeps_example :
    Knows (register_machine times 7 (some (txt "ab")) mac []).1 (txt "machine_ab")
    × (txt "machine_ab" ≡ txt "machine_ab")
register_machine-keeps_example =
    register_machine-keeps times 7 9 (some (txt "ab")) (some (txt "cd")) mac mac [] registers
      registers_again
