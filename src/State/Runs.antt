-- ===== src/State/Runs.antt =====
-- internal/state/store.go: the table `agent_runs`.
pub mod Kept
use codemesh.Base.{
  ℕ, Text, ◌==◌, Bool, true, false, not, Option, none, some, List, [], ◌∷◌, ◌++◌, any, keep, sort,
  is_empty, trim_space, text_lt, if◌then◌else◌, ◌=ℕ◌, Result, ok, err, ◌>>=◌,
}

-- An instant is a number, of which 0 is Go's zero time; the layout is RFC 3339.
pub record Times : Type 0 where
  pub format : ℕ → Text
  pub parse : Text → Option ℕ

pub record AgentRun : Type 0 where
  pub id : Text
  pub project_id : ℕ
  pub workspace_path : Text
  pub metadata_json : Text
  pub created_at : ℕ

pub record RunRow : Type 0 where
  pub id : Text
  pub project_id : ℕ
  pub workspace_path : Text
  pub metadata_json : Text
  pub created_at : Text

pub data RunError : Type 0 where
  run_id_required workspace_path_required metadata_required : RunError
  run_taken run_not_found bad_created_at : Text → RunError

unfoldable pub find_run : Text → List RunRow → Option RunRow
find_run id [] = none
find_run id (r ∷ rows) = let rest = find_run id rows in if r.id == id then some r else rest

-- `RecordAgentRun`; the id is the primary key.
unfoldable pub record_agent_run :
    Times → ℕ → AgentRun → List RunRow → Result RunError (Unit {0}) × List RunRow
record_agent_run times now run rows =
    if is_empty (trim_space run.id)
    then (err run_id_required, rows)
    else if is_empty (trim_space run.workspace_path)
    then (err workspace_path_required, rows)
    else if is_empty (trim_space run.metadata_json)
    then (err metadata_required, rows)
    else elim (find_run run.id rows) [
      | some other ↦ (err (run_taken run.id), rows)
      | none ↦ (
        ok tt,
        rows
            ++ record {
              id = run.id;
              project_id = run.project_id;
              workspace_path = run.workspace_path;
              metadata_json = run.metadata_json;
              created_at = times.format (if run.created_at =ℕ 0 then now else run.created_at);
            }
              ∷ [],
      )
    ]

unfoldable pub run_of : Times → RunRow → Result RunError AgentRun
run_of times r = elim (times.parse r.created_at) [
  | none ↦ err (bad_created_at r.id)
  | some at ↦ ok (record {
    id = r.id;
    project_id = r.project_id;
    workspace_path = r.workspace_path;
    metadata_json = r.metadata_json;
    created_at = at;
  })
]

unfoldable pub runs_of : Times → List RunRow → Result RunError (List AgentRun)
runs_of times [] = ok []
runs_of times (r ∷ rows) =
    let rest = runs_of times rows in run_of times r >>= λ run. rest >>= λ runs. ok (run ∷ runs)

-- `order by created_at desc, id desc`
unfoldable pub later_first : RunRow → RunRow → Bool
later_first r s =
    if r.created_at == s.created_at then text_lt s.id r.id else text_lt s.created_at r.created_at

-- `ListAgentRuns`
unfoldable pub list_agent_runs : Times → List RunRow → Result RunError (List AgentRun)
list_agent_runs times rows = runs_of times (sort later_first rows)

-- The loop of `DeleteAgentRuns`: the rows after it, unless an id is blank.
unfoldable pub delete_runs : List Text → List RunRow → Result RunError (List RunRow)
delete_runs [] rows = ok rows
delete_runs (id ∷ ids) rows =
    let rest = delete_runs ids (keep (λ r. not (r.id == id)) rows) in
    if is_empty (trim_space id) then err run_id_required else rest

-- `DeleteAgentRuns`, in a transaction
unfoldable pub delete_agent_runs :
    List Text → List RunRow → Result RunError (Unit {0}) × List RunRow
delete_agent_runs ids rows = elim (delete_runs ids rows) [
  | ok after ↦ (ok tt, after)
  | err e ↦ (err e, rows)
]

unfoldable pub set_metadata : Text → Text → List RunRow → List RunRow
set_metadata id metadata_json [] = []
set_metadata id metadata_json (r ∷ rows) =
    (if r.id == id then record r { metadata_json = metadata_json } else r)
    ∷ set_metadata id metadata_json rows

-- `UpdateAgentRunMetadata`
unfoldable pub update_agent_run_metadata :
    Text → Text → List RunRow → Result RunError (Unit {0}) × List RunRow
update_agent_run_metadata id metadata_json rows =
    if is_empty (trim_space id)
    then (err run_id_required, rows)
    else if is_empty (trim_space metadata_json)
    then (err metadata_required, rows)
    else elim (find_run id rows) [
      | none ↦ (err (run_not_found id), rows)
      | some r ↦ (ok tt, set_metadata id metadata_json rows)
    ]
