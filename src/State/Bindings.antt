-- ===== src/State/Bindings.antt =====
-- internal/state/store.go: the table `env_bindings`, which says where the values of a project's
-- environment keys come from.
pub mod Tidied
pub mod Kept
use codemesh.Base.{
  ℕ, zero, suc, max, Text, ◌==◌, Bool, ◌&&◌, Option, none, some, List, [], ◌∷◌, ◌++◌, keep, sort,
  is_empty, trim_space, text_lt, unique_sorted, if◌then◌else◌, ◌=ℕ◌, Result, ok, err, ◌>>=◌,
}

pub record EnvBinding : Type 0 where
  pub id : ℕ
  pub project_id : ℕ
  pub requirement : Text
  pub provider : Text
  pub secret_ref : Text
  pub scopes : List Text

pub data BindingError : Type 0 where
  project_required requirement_required provider_required secret_ref_required : BindingError
  scopes_required : BindingError
  bad_scopes : Text → BindingError

-- encoding/json on a list of texts
pub record ScopesJson : Type 0 where
  pub marshal : List Text → Text
  pub unmarshal : Text → Option (List Text)

-- A row, without the times of its writing.
pub record BindingRow : Type 0 where
  pub id : ℕ
  pub project_id : ℕ
  pub requirement : Text
  pub provider : Text
  pub secret_ref : Text
  pub scopes_json : Text

-- `normalizedScopes`
unfoldable pub normalized_scopes : List Text → List Text
normalized_scopes scopes = unique_sorted scopes

-- The fields as they are written, after the checks.
unfoldable pub normalized_binding : EnvBinding → Result BindingError EnvBinding
normalized_binding b =
    let requirement = trim_space b.requirement in
    let provider = trim_space b.provider in
    let secret_ref = trim_space b.secret_ref in
    let scopes = normalized_scopes b.scopes in
    if b.project_id =ℕ 0
    then err project_required
    else if is_empty requirement
    then err requirement_required
    else if is_empty provider
    then err provider_required
    else if is_empty secret_ref
    then err secret_ref_required
    else if is_empty scopes
    then err scopes_required
    else ok (record b {
      requirement = requirement;
      provider = provider;
      secret_ref = secret_ref;
      scopes = scopes;
    })

abbrev pub has_key_of : ℕ → Text → BindingRow → Bool
has_key_of project_id requirement r = r.project_id =ℕ project_id && r.requirement == requirement

-- `select … where project_id = ? and requirement = ?`
unfoldable pub find_binding : ℕ → Text → List BindingRow → Option BindingRow
find_binding project_id requirement [] = none
find_binding project_id requirement (r ∷ rows) =
    let rest = find_binding project_id requirement rows in
    if has_key_of project_id requirement r then some r else rest

unfoldable pub last_binding_id : List BindingRow → ℕ
last_binding_id [] = 0
last_binding_id (r ∷ rows) = max r.id (last_binding_id rows)

-- `on conflict(project_id, requirement) do update`
unfoldable pub set_binding : BindingRow → List BindingRow → List BindingRow
set_binding new [] = []
set_binding new (r ∷ rows) =
    let rest = set_binding new rows in
    if has_key_of new.project_id new.requirement r
    then record r {
      provider = new.provider;
      secret_ref = new.secret_ref;
      scopes_json = new.scopes_json;
    }
      ∷ rest
    else r ∷ rest

module _ (json : ScopesJson) where
  unfoldable pub binding_row : ℕ → EnvBinding → BindingRow
  binding_row id b = record {
    id = id;
    project_id = b.project_id;
    requirement = b.requirement;
    provider = b.provider;
    secret_ref = b.secret_ref;
    scopes_json = json.marshal b.scopes;
  }

  -- `UpsertEnvBinding`
  unfoldable pub upsert_env_binding :
      EnvBinding → List BindingRow → Result BindingError EnvBinding × List BindingRow
  upsert_env_binding binding rows = elim (normalized_binding binding) [
    | err e ↦ (err e, rows)
    | ok b ↦ elim (find_binding b.project_id b.requirement rows) [
      | some r ↦ (ok (record b { id = r.id }), set_binding (binding_row r.id b) rows)
      | none ↦
          let id = suc (last_binding_id rows) in
          (ok (record b { id = id }), rows ++ binding_row id b ∷ [])
    ]
  ]

  -- The scan of a row.
  unfoldable pub binding_of : BindingRow → Result BindingError EnvBinding
  binding_of r = elim (json.unmarshal r.scopes_json) [
    | none ↦ err (bad_scopes r.requirement)
    | some scopes ↦ ok (record {
      id = r.id;
      project_id = r.project_id;
      requirement = r.requirement;
      provider = r.provider;
      secret_ref = r.secret_ref;
      scopes = normalized_scopes scopes;
    })
  ]

  unfoldable pub bindings_of : List BindingRow → Result BindingError (List EnvBinding)
  bindings_of [] = ok []
  bindings_of (r ∷ rows) =
      let rest = bindings_of rows in binding_of r >>= λ b. rest >>= λ bs. ok (b ∷ bs)

  -- `ListEnvBindings`: `order by requirement`
  unfoldable pub list_env_bindings : ℕ → List BindingRow → Result BindingError (List EnvBinding)
  list_env_bindings project_id rows =
      if project_id =ℕ 0
      then err project_required
      else bindings_of (
          sort (λ r s. text_lt r.requirement s.requirement)
            (keep (λ r. r.project_id =ℕ project_id) rows))
