-- ===== src/State.antt =====
-- internal/state/store.go: the table `projects` of the local database, and the methods of
-- `SQLiteStore` that read and write it. A statement of SQL is the function that it denotes; that
-- the database itself fails (a full disk, a lock) is not modelled here.
pub mod Rows
pub mod Writes
pub mod Merges
pub mod Invariant
pub mod Canonical
pub mod Upsert
pub mod Bindings
pub mod Runs
pub mod Machines
use codemesh.Base.{
  ℕ, zero, suc, ◌+◌, max, Text, txt, ◌==◌, Bool, not, ◌&&◌, Option, none, some, List, [], ◌∷◌, ◌++◌,
  map, keep, is_empty, trim_space, text_lt, if◌then◌else◌, ◌=ℕ◌, Result, ok, err, sort,
}

pub record Project : Type 0 where
  pub id : ℕ
  pub alias : Text
  pub normalized_remote : Text
  pub clone_url : Text
  pub local_path : Text
  pub canonical_path : Text
  pub source : Text

pub data UpsertAction : Type 0 where
  added updated unchanged : UpsertAction

pub data StoreError : Type 0 where
  alias_required remote_required local_path_required id_required : StoreError
  alias_conflict : Text → StoreError
  remote_conflict : Text → StoreError
  not_found : ℕ → StoreError

-- The rows in the order of their ids.
abbrev pub Table : Type 0
Table = List Project

-- A method returns its result, or its error, and the table that it leaves.
abbrev pub Method : Type 0 → Type 0
Method A = Table → Result StoreError A × Table

unfoldable pub with_placement_defaults : Project → Project
with_placement_defaults p = record p {
  canonical_path =
      if is_empty (trim_space p.canonical_path) then p.local_path else p.canonical_path;
  source = if trim_space p.source == txt "canonical" then txt "canonical" else txt "local-only";
}

-- `if project.CloneURL == "" { project.CloneURL = project.NormalizedRemote }`
unfoldable pub with_clone_url : Project → Project
with_clone_url p = if is_empty p.clone_url then record p { clone_url = p.normalized_remote } else p

-- The checks that the three writing methods begin with.
unfoldable pub missing_field : Project → Option StoreError
missing_field p =
    if is_empty p.alias
    then some alias_required
    else if is_empty p.normalized_remote
    then some remote_required
    else if is_empty p.local_path
    then some local_path_required
    else none

unfoldable pub find_row : (Project → Bool) → Table → Option Project
find_row test [] = none
find_row test (p ∷ t) = if test p then some p else find_row test t

abbrev pub has_alias : Text → Project → Bool
has_alias alias p = p.alias == alias

abbrev pub has_remote : Text → Project → Bool
has_remote remote p = p.normalized_remote == remote

abbrev pub has_id : ℕ → Project → Bool
has_id id p = p.id =ℕ id

-- `integer primary key`: the next row id is one above the largest.
unfoldable pub last_id : Table → ℕ
last_id [] = 0
last_id (p ∷ t) = max p.id (last_id t)

unfoldable pub insert_row : Project → Method Project
insert_row p t = let row = record p { id = suc (last_id t) } in (ok row, t ++ row ∷ [])

-- `AddProject`
unfoldable pub add_project : Project → Method Project
add_project project t = elim (missing_field project) [
  | some e ↦ (err e, t)
  | none ↦
      let p = with_placement_defaults (with_clone_url project) in
      elim (find_row (has_alias p.alias) t) [
        | some other ↦ (err (alias_conflict p.alias), t)
        | none ↦ elim (find_row (has_remote p.normalized_remote) t) [
          | some other ↦ (err (remote_conflict p.normalized_remote), t)
          | none ↦ insert_row p t
        ]
      ]
]

-- `update projects set … where id = ?`, over the rows that have the id.
unfoldable pub set_row : ℕ → Project → Table → Table
set_row id p [] = []
set_row id p (q ∷ t) = (if has_id id q then record p { id = q.id } else q) ∷ set_row id p t

-- `UpdateProject`
unfoldable pub update_project : ℕ → Project → Method Project
update_project zero project t = (err id_required, t)
update_project (suc n) project t = elim (missing_field project) [
  | some e ↦ (err e, t)
  | none ↦
      let p = with_placement_defaults (with_clone_url project) in
      elim (find_row (λ q. has_alias p.alias q && not (has_id (suc n) q)) t) [
        | some other ↦ (err (alias_conflict p.alias), t)
        | none ↦
            elim (find_row (λ q. has_remote p.normalized_remote q && not (has_id (suc n) q)) t) [
              | some other ↦ (err (remote_conflict p.normalized_remote), t)
              | none ↦ elim (find_row (has_id (suc n)) t) [
                | none ↦ (err (not_found (suc n)), t)
                | some old ↦ (ok (record p { id = suc n }), set_row (suc n) p t)
              ]
            ]
      ]
]

-- `DeleteProject`
unfoldable pub delete_project : ℕ → Method (Unit {0})
delete_project zero t = (err id_required, t)
delete_project (suc n) t = elim (find_row (has_id (suc n)) t) [
  | none ↦ (err (not_found (suc n)), t)
  | some old ↦ (ok tt, keep (λ q. not (has_id (suc n) q)) t)
]

-- `ListProjects`: `order by alias`
unfoldable pub list_projects : Table → List Project
list_projects t = map with_placement_defaults (sort (λ p q. text_lt p.alias q.alias) t)

-- What `UpsertProject` writes to a row that it finds: a canonical row keeps its placement.
unfoldable pub merge_row : Project → Project → Project
merge_row existing p =
    if existing.source == txt "canonical"
    then record existing { local_path = p.local_path }
    else record existing {
      local_path = p.local_path;
      clone_url = p.clone_url;
      canonical_path = p.canonical_path;
      source = p.source;
    }

unfoldable pub same_placement : Project → Project → Bool
same_placement p q =
    p.local_path == q.local_path
    && p.clone_url == q.clone_url
    && p.canonical_path == q.canonical_path
    && p.source == q.source

abbrev pub with_action :
    UpsertAction
    → Result StoreError Project × Table
    → Result StoreError (Project × UpsertAction) × Table
with_action a (ok p, t) = (ok (p, a), t)
with_action a (err e, t) = (err e, t)

-- `UpsertProject`
unfoldable pub upsert_project : Project → Method (Project × UpsertAction)
upsert_project project t = elim (missing_field project) [
  | some e ↦ (err e, t)
  | none ↦
      let p = with_placement_defaults (with_clone_url project) in
      elim (find_row (has_remote p.normalized_remote) t) [
        | none ↦ with_action added (add_project p t)
        | some row ↦
            let existing = with_placement_defaults row in
            let merged = merge_row existing p in
            if same_placement existing merged
            then (ok (existing, unchanged), t)
            else (ok (merged, updated), set_row existing.id merged t)
      ]
]

-- `WithTransaction`: the table of before, if the function fails.
unfoldable pub commit_or_rollback {ℓ} :
    {E A : Type ℓ} → Table → Result E A × Table → Result E A × Table
commit_or_rollback before (ok a, after) = (ok a, after)
commit_or_rollback before (err e, after) = (err e, before)

unfoldable pub with_transaction {ℓ} :
    {E A : Type ℓ} → (Table → Result E A × Table) → Table → Result E A × Table
with_transaction body t = commit_or_rollback t (body t)
