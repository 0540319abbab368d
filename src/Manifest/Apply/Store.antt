-- ===== src/Manifest/Apply/Store.antt =====
-- What an import asks of a store, `ImportStore`, and the local database as such a store.
use codemesh.Base.{ℕ, List, Result, ok}
use codemesh.State.{
  Project, Table, StoreError, list_projects, add_project, update_project, delete_project,
}

pub record ImportStore (E S : Type 0) : Type 0 where
  pub list_projects : S → Result E (List Project)
  pub add_project : Project → S → Result E Project × S
  pub update_project : ℕ → Project → S → Result E Project × S
  pub delete_project : ℕ → S → Result E (Unit {0}) × S

abbrev pub sqlite : ImportStore StoreError Table
sqlite = record {
  list_projects = λ t. ok (list_projects t);
  add_project = add_project;
  update_project = update_project;
  delete_project = delete_project;
}
