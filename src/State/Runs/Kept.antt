-- ===== src/State/Runs/Kept.antt =====
-- internal/state/store.go: what the methods on agent runs do to each run.
use codemesh.Base.{
  ◌≡◌, refl, ◌∙◌, ℕ, Text, ◌==◌, eq_iff, eq_refl, ◌=ℕ◌, Bool, true, false, not, ◌&&◌, Option, none,
  some, List, [], ◌∷◌, ◌++◌, inl, inr, arith, is_some, is_empty, trim_space, keep, every, any,
  mem_text, if◌then◌else◌, Bool-cases, Option-cases, ok, err,
}
use codemesh.State.Runs.{
  Times, AgentRun, RunRow, run_id_required, record_agent_run, run_of, find_run, delete_runs,
  delete_agent_runs, set_metadata, update_agent_run_metadata,
}

find_run-keep :
    (id gone : Text) (rows : List RunRow)
    → find_run id (keep (λ r. not (r.id == gone)) rows)
      ≡ (if gone == id then none else find_run id rows)
unfolding find_run keep
find_run-keep id gone [] = ground arith
find_run-keep id gone (r ∷ rows) =
    ground (arith, find_run-keep id gone rows, eq_iff r.id gone, eq_iff r.id id, eq_iff gone id)

-- No id is blank.
abbrev pub all_named : List Text → Bool
all_named ids = every (λ id. not (is_empty (trim_space id))) ids

delete_runs-ok :
    (ids : List Text) (rows : List RunRow)
    → all_named ids ≡ true
    → (after : List RunRow) × (delete_runs ids rows ≡ ok after)
      × ((id : Text) → find_run id after ≡ (if mem_text id ids then none else find_run id rows))
unfolding delete_runs every mem_text any
delete_runs-ok [] rows named = (rows, refl, λ id. refl)
delete_runs-ok (gone ∷ ids) rows named =
    let (after, e, found) =
      delete_runs-ok ids (keep (λ r. not (r.id == gone)) rows) (ground (arith, named)) in
    (
      after,
      ground (arith, e),
      λ id. ground (arith, found id, find_run-keep id gone rows, eq_iff gone id),
    )

delete_runs-blank :
    (ids : List Text) (rows : List RunRow)
    → all_named ids ≡ false
    → delete_runs ids rows ≡ err run_id_required
unfolding delete_runs every
delete_runs-blank [] rows h = cc
delete_runs-blank (gone ∷ ids) rows h = elim (Bool-cases (is_empty (trim_space gone))) [
  | inl blank ↦ rw blank refl
  | inr named ↦
      rw named (delete_runs-blank ids (keep (λ r. not (r.id == gone)) rows) (rw named at h))
]

-- After `DeleteAgentRuns` none of the given runs is there and every other run is as it was; and if
-- an id is blank, every run is as it was.
pub delete_agent_runs-found :
    (ids : List Text) (rows : List RunRow) (id : Text)
    → find_run id (delete_agent_runs ids rows).1
      ≡ (if all_named ids && mem_text id ids then none else find_run id rows)
unfolding delete_agent_runs
delete_agent_runs-found ids rows id = elim (Bool-cases (all_named ids)) [
  | inl named ↦
      let (after, e, found) = delete_runs-ok ids rows named in
      rw (e, delete_agent_runs, named) (found id)
  | inr blank ↦ rw (delete_runs-blank ids rows blank, delete_agent_runs, blank) refl
]

pub with_metadata : Text → Option RunRow → Option RunRow
with_metadata metadata_json none = none
with_metadata metadata_json (some r) = some (record r { metadata_json = metadata_json })

find_run-set_metadata :
    (id metadata_json other : Text) (rows : List RunRow)
    → find_run other (set_metadata id metadata_json rows) ≡ (
        if id == other
        then with_metadata metadata_json (find_run other rows)
        else find_run other rows)
unfolding find_run set_metadata with_metadata
find_run-set_metadata id metadata_json other [] = ground arith
find_run-set_metadata id metadata_json other (r ∷ rows) = ground (
  arith,
  find_run-set_metadata id metadata_json other rows,
  eq_iff r.id id,
  eq_iff r.id other,
  eq_iff id other,
)

-- If `UpdateAgentRunMetadata` succeeds, the run was there and has the new metadata and its other
-- fields as before, and every other run is as it was.
pub update_agent_run_metadata-found :
    (id metadata_json : Text) (rows : List RunRow) (other : Text)
    → (update_agent_run_metadata id metadata_json rows).0 ≡ ok tt
    → (is_some (find_run id rows) ≡ true)
      × (find_run other (update_agent_run_metadata id metadata_json rows).1 ≡ (
          if id == other
          then with_metadata metadata_json (find_run other rows)
          else find_run other rows))
unfolding update_agent_run_metadata
update_agent_run_metadata-found id metadata_json rows other h =
    elim (Bool-cases (is_empty (trim_space id))) [
      | inl e ↦ cc (rw (e, update_agent_run_metadata) at h)
      | inr e ↦ elim (Bool-cases (is_empty (trim_space metadata_json))) [
        | inl f ↦ cc (rw (e, update_agent_run_metadata, f) at h)
        | inr f ↦ elim (Option-cases (find_run id rows)) [
          | inl none_there ↦ cc (rw (e, update_agent_run_metadata, f, none_there) at h)
          | inr (r, there) ↦
              rw (e, update_agent_run_metadata, f, there)
                (refl, find_run-set_metadata id metadata_json other rows)
        ]
      ]
    ]

find_run-append :
    (id : Text) (rows : List RunRow) (new : RunRow)
    → find_run id rows ≡ none
    → find_run id (rows ++ new ∷ []) ≡ (if new.id == id then some new else none)
unfolding find_run
find_run-append id [] new h = refl
find_run-append id (r ∷ rows) new h = elim (Bool-cases (r.id == id)) [
  | inl e ↦ cc (rw e at h)
  | inr e ↦ rw e (find_run-append id rows new (rw e at h))
]

-- A run that was recorded had an id that no run had, is found, and reads as it was given, with its
-- instant as it is parsed again; for Go's zero time that is the time of the call.
pub record_agent_run-found :
    (times : Times) (now : ℕ) (run : AgentRun) (rows : List RunRow) {at : ℕ}
    → times.parse (times.format (if run.created_at =ℕ 0 then now else run.created_at)) ≡ some at
    → (record_agent_run times now run rows).0 ≡ ok tt
    → (r : RunRow) × (find_run run.id (record_agent_run times now run rows).1 ≡ some r)
      × (find_run run.id rows ≡ none)
      × (run_of times r ≡ ok (record run { created_at = at }))
unfolding record_agent_run run_of
record_agent_run-found times now run rows parsed h =
    elim (Bool-cases (is_empty (trim_space run.id))) [
      | inl e ↦ cc (rw (e, record_agent_run) at h)
      | inr e ↦ elim (Bool-cases (is_empty (trim_space run.workspace_path))) [
        | inl f ↦ cc (rw (e, record_agent_run, f) at h)
        | inr f ↦ elim (Bool-cases (is_empty (trim_space run.metadata_json))) [
          | inl g ↦ cc (rw (e, record_agent_run, f, g) at h)
          | inr g ↦ elim (Option-cases (find_run run.id rows)) [
            | inr (r, taken) ↦ cc (rw (e, record_agent_run, f, g, taken) at h)
            | inl new ↦
                let row : RunRow = record {
                  id = run.id;
                  project_id = run.project_id;
                  workspace_path = run.workspace_path;
                  metadata_json = run.metadata_json;
                  created_at = times.format (if run.created_at =ℕ 0 then now else run.created_at);
                } in
                rw (e, record_agent_run, f, g, new)
                  (
                    row,
                    find_run-append run.id rows row new ∙ rw (eq_refl run.id) refl,
                    refl,
                    rw (run_of, parsed) refl,
                  )
          ]
        ]
      ]
    ]
