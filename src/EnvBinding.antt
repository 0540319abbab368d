-- ===== src/EnvBinding.antt =====
-- internal/envbinding/envbinding.go: the bundle of environment values that a run is given.
pub mod Granted
use codemesh.Base.{
  ℕ, Text, txt, ◌==◌, Bool, true, false, not, ◌&&◌, ◌||◌, Option, none, some, List, [], ◌∷◌, ◌++◌,
  map, any, keep, is_empty, trim_space, trim_byte, trim_prefix, has_prefix, mem_text, text_lt, leb,
  sort, dir, unique_sorted, if◌then◌else◌, ◌=ℕ◌, Result, ok, err, ◌>>=◌, Dict, insert,
}
use codemesh.State.Bindings.{EnvBinding, BindingRow, BindingError, ScopesJson, list_env_bindings}

pub record Requirement : Type 0 where
  pub name : Text
  pub kind : Text

pub data Status : Type 0 where
  not_requested materialized missing_binding denied : Status

-- `Bundle`, whose format and values are constants.
pub record Bundle : Type 0 where
  pub present : Bool
  pub path : Text

pub record Summary : Type 0 where
  pub requirements : List Requirement
  pub allowed_scopes : List Text
  pub materialization_status : Status
  pub bundle : Bundle

-- `Diagnostic`, with what its message names.
pub data Diagnostic : Type 0 where
  provider_unsupported : Text → Diagnostic
  no_binding : Text → Text → Diagnostic
  scope_denied : Text → List Text → List Text → Diagnostic

pub record Request : Type 0 where
  pub project_id : ℕ
  pub required_files : List Text
  pub required_keys : List Text
  pub provider : Text
  pub allowed_scopes : List Text
  pub bundle_path : Text

pub data EnvError : Type 0 where
  bundle_path_required no_values : EnvError
  not_listed : BindingError → EnvError
  not_resolved directory_not_made bundle_not_made : Text → EnvError
  bundle_not_written bundle_not_closed : Text → EnvError

-- `Provider`: where the values come from.
pub record Provider : Type 0 where
  pub name : Text
  pub resolve : List EnvBinding → Result Text (Dict Text)

-- The calls that write a file: `os.MkdirAll`, `os.OpenFile` with `O_EXCL`, and the methods
-- `WriteString` and `Close`.
pub record Files (W : Type 0) : Type 0 where
  pub mkdir_all : Text → W → Result Text (Unit {0}) × W
  pub create_new : Text → W → Result Text (Unit {0}) × W
  pub write : Text → Text → W → Result Text (Unit {0}) × W
  pub close : Text → W → Result Text (Unit {0}) × W

-- `SummaryForRequirements`
unfoldable pub summary_for_requirements : List Text → List Text → List Text → Summary
summary_for_requirements files keys scopes = record {
  requirements =
      map (λ file. record { name = file; kind = txt "env_file" }) (unique_sorted files)
      ++ map (λ key. record { name = key; kind = txt "env_key" }) (unique_sorted keys);
  allowed_scopes = unique_sorted scopes;
  materialization_status = not_requested;
  bundle = record { present = false; path = [] };
}

-- `scopesIntersect`
unfoldable pub scopes_intersect : List Text → List Text → Bool
scopes_intersect allowed scopes =
    if is_empty allowed || is_empty scopes
    then false
    else any (λ scope. mem_text (trim_space scope) allowed) scopes

-- `byRequirement`: of two bindings of one key the later counts.
unfoldable pub binding_for : Text → Text → List EnvBinding → Option EnvBinding
binding_for key provider [] = none
binding_for key provider (b ∷ bindings) = elim (binding_for key provider bindings) [
  | some later ↦ some later
  | none ↦ if b.provider == provider && b.requirement == key then some b else none
]

-- The loop of `selectBindings`
unfoldable pub select_from :
    Text → List Text → List EnvBinding → List Text → List EnvBinding × List Diagnostic
select_from provider allowed bindings [] = ([], [])
select_from provider allowed bindings (key ∷ keys) =
    let (selected, diagnostics) = select_from provider allowed bindings keys in
    elim (binding_for key provider bindings) [
      | none ↦ (selected, no_binding key provider ∷ diagnostics)
      | some b ↦
          if not (scopes_intersect allowed b.scopes)
          then (selected, scope_denied key (unique_sorted b.scopes) allowed ∷ diagnostics)
          else (b ∷ selected, diagnostics)
    ]

-- `selectBindings`
unfoldable pub select_bindings :
    List Text → Text → List Text → List EnvBinding → List EnvBinding × List Diagnostic
select_bindings keys provider allowed bindings =
    let (selected, diagnostics) = select_from provider allowed bindings (unique_sorted keys) in
    if is_empty diagnostics then (selected, []) else ([], diagnostics)

-- `statusFromDiagnostics`
unfoldable pub status_from_diagnostics : List Diagnostic → Status
status_from_diagnostics [] = missing_binding
status_from_diagnostics (d ∷ diagnostics) = elim d [
  | scope_denied _ _ _ ↦ denied
  | provider_unsupported _ ↦ status_from_diagnostics diagnostics
  | no_binding _ _ ↦ status_from_diagnostics diagnostics
]

-- `ValidateFakeReference`
unfoldable pub is_fake_reference : Text → Bool
is_fake_reference ref =
    has_prefix (trim_space ref) (txt "fake://")
    && not (is_empty (trim_prefix (trim_space ref) (txt "fake://")))

unfoldable pub is_word : ℕ → Bool
is_word c =
    (leb b'A' c && leb c b'Z')
    || (leb b'a' c && leb c b'z')
    || (leb b'0' c && leb c b'9')
    || c =ℕ b'_'

-- The pattern `[^A-Za-z0-9_]+`: a run of other characters becomes one underscore. The flag says
-- that the character before belongs to such a run.
unfoldable pub squash : Bool → Text → Text
squash in_run [] = []
squash in_run (c ∷ s) =
    let word = squash false s in
    let other = squash true s in
    if is_word c then c ∷ word else if in_run then other else b'_' ∷ other

-- `FakeProviderValue`
unfoldable pub fake_provider_value : Text → Text
fake_provider_value ref =
    let name = trim_byte b'_' (squash false (trim_prefix (trim_space ref) (txt "fake://"))) in
    txt "codemesh_fake_secret_" ++ (if is_empty name then txt "value" else name)

unfoldable pub resolve_fake : Dict Text → List EnvBinding → Result Text (Dict Text)
resolve_fake values [] = ok values
resolve_fake values (b ∷ bindings) =
    let next =
      resolve_fake (insert b.requirement (fake_provider_value b.secret_ref) values) bindings in
    if is_fake_reference b.secret_ref
    then next
    else err (txt "fake provider secret reference must use fake://name")

-- `FakeProvider`
abbrev pub fake_provider : Provider
fake_provider = record { name = txt "fake"; resolve = resolve_fake [] }

-- The lines of a bundle, in the order of the keys.
unfoldable pub bundle_lines : Dict Text → Text
bundle_lines [] = []
bundle_lines ((key, value) ∷ values) =
    key ++ (txt "=" ++ (value ++ (txt "\n" ++ bundle_lines values)))

unfoldable pub bundle_text : Dict Text → Text
bundle_text values = bundle_lines (sort (λ (a b : Text × Text). text_lt a.0 b.0) values)

-- What `Materialize` answers, an error beside the summary.
pub record Answer : Type 0 where
  pub summary : Summary
  pub diagnostics : List Diagnostic
  pub error : Option EnvError

unfoldable pub failed_with : Summary → EnvError → Answer
failed_with summary e = record { summary = summary; diagnostics = []; error = some e }

unfoldable pub refused_with : Summary → Status → List Diagnostic → Answer
refused_with summary status diagnostics = record {
  summary = record summary { materialization_status = status };
  diagnostics = diagnostics;
  error = none;
}

module _ {W : Type 0} (files : Files W) where
  -- The file is written and closed, and an error of the writing counts first.
  unfoldable pub write_new : Text → Text → W → Result EnvError (Unit {0}) × W
  write_new path text w =
      let (written, w') = files.write path text w in
      let (closed, w'') = files.close path w' in
      elim written [
        | err e ↦ (err (bundle_not_written e), w'')
        | ok _ ↦ elim closed [ err e ↦ (err (bundle_not_closed e), w'') | ok _ ↦ (ok tt, w'') ]
      ]

  -- `WriteBundle`
  unfoldable pub write_bundle : Text → Dict Text → W → Result EnvError (Unit {0}) × W
  write_bundle path values w =
      if is_empty values
      then (err no_values, w)
      else let (made, w') = files.mkdir_all (dir path) w in
        elim made [
          | err e ↦ (err (directory_not_made e), w')
          | ok _ ↦
              let (created, w'') = files.create_new path w' in
              elim created [
                | err e ↦ (err (bundle_not_made e), w'')
                | ok _ ↦ write_new path (bundle_text values) w''
              ]
        ]

  -- The end of `Materialize`, with the bindings that were selected.
  unfoldable pub make_bundle : Provider → Text → Summary → List EnvBinding → W → Answer × W
  make_bundle provider path summary selected w = elim (provider.resolve selected) [
    | err e ↦ (failed_with summary (not_resolved e), w)
    | ok values ↦
        let (written, w') = write_bundle path values w in
        elim written [
          | err e ↦ (failed_with summary e, w')
          | ok _ ↦ (
            record {
              summary = record summary {
                materialization_status = materialized;
                bundle = record { present = true; path = path };
              };
              diagnostics = [];
              error = none;
            },
            w',
          )
        ]
  ]

  -- `Materialize`, with the rows of the store
  unfoldable pub materialize : ScopesJson → Provider → Request → List BindingRow → W → Answer × W
  materialize json provider request rows w =
      let summary =
        summary_for_requirements request.required_files request.required_keys
          request.allowed_scopes in
      let wanted = trim_space request.provider in
      if is_empty wanted || is_empty request.required_keys
      then (record { summary = summary; diagnostics = []; error = none }, w)
      else if not (provider.name == wanted)
      then (refused_with summary denied (provider_unsupported wanted ∷ []), w)
      else if is_empty (trim_space request.bundle_path)
      then (failed_with summary bundle_path_required, w)
      else elim (list_env_bindings json request.project_id rows) [
        | err e ↦ (failed_with summary (not_listed e), w)
        | ok bindings ↦
            let (selected, diagnostics) =
              select_bindings request.required_keys wanted summary.allowed_scopes bindings in
            if not (is_empty diagnostics)
            then (refused_with summary (status_from_diagnostics diagnostics) diagnostics, w)
            else make_bundle provider request.bundle_path summary selected w
      ]
