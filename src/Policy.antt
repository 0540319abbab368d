-- ===== src/Policy.antt =====
-- internal/policy/policy.go: the policy file of a project, `.codemesh.yml`.
pub mod Rules
pub mod Values
pub mod Acceptance
use codemesh.Base.{
  ℕ, suc, ◌+◌, Text, txt, ◌==◌, ◌!=◌, Bool, true, false, not, ◌&&◌, ◌||◌, Option, none, some, List,
  [], ◌∷◌, is_empty, trim_space, clean, join, is_abs, climbs, contains_byte, if◌then◌else◌, Result,
  ok, err, ◌>>=◌, ◌>>◌, refuse_if,
}
use codemesh.Host.{Host, Answer, found, not_exist, failed}
use codemesh.Toolchain.{valid_requirement_name}

pub data EnvMode : Type 0 where
  warn block : EnvMode

pub data PathCategory : Type 0 where
  dependency build cache generated env_config os_specific : PathCategory

pub record PathRule : Type 0 where
  pub path : Text
  pub category : PathCategory

pub record Policy : Type 0 where
  pub base_branch : Text
  pub base_branch_set : Bool
  pub env_mode : EnvMode
  pub required_files : List Text
  pub required_keys : List Text
  pub toolchain_mode : EnvMode
  pub requirements : List Text
  pub include_docs : List Text
  pub local_only : List PathRule

pub record LocalOnlyPath : Type 0 where
  pub path : Text
  pub category : Text

-- `policyFile`: what the YAML decoder fills in.
pub record PolicyFile : Type 0 where
  pub base : Text
  pub env_mode : Text
  pub required_files : List Text
  pub required_keys : List Text
  pub toolchain_mode : Text
  pub requirements : List Text
  pub include_docs : List Text
  pub local_only : List LocalOnlyPath

pub data ListField : Type 0 where
  files keys tools docs : ListField

pub data PolicyError : Type 0 where
  root_required bad_yaml bad_base bad_env_mode bad_toolchain_mode : PolicyError
  unreadable : Text → PolicyError
  empty_value : ListField → ℕ → PolicyError
  bad_value : ListField → ℕ → PolicyError
  empty_path padded_path bad_path empty_category padded_category source_category : ℕ → PolicyError
  bad_category : ℕ → PolicyError

-- The YAML decoder of gopkg.in/yaml.v3, and Git's test of a branch name.
pub record Tools : Type 0 where
  pub decode : Text → Option PolicyFile
  pub is_branch_name : Text → Bool

-- `Defaults`
abbrev pub defaults : Policy
defaults = record {
  base_branch = txt "main";
  base_branch_set = false;
  env_mode = warn;
  required_files = [];
  required_keys = [];
  toolchain_mode = warn;
  requirements = [];
  include_docs = [];
  local_only = [];
}

-- An empty mode leaves the default.
unfoldable pub parse_mode : Text → PolicyError → Result PolicyError EnvMode
parse_mode raw e =
    let mode = trim_space raw in
    if is_empty mode
    then ok warn
    else if mode == txt "warn"
    then ok warn
    else if mode == txt "block"
    then ok block
    else err e

-- A loop that refuses the first value that fails a test, and names its index.
unfoldable pub refuse_values :
    (Text → Bool) → (ℕ → PolicyError) → ℕ → List Text → Result PolicyError (Unit {0})
refuse_values bad e i [] = ok tt
refuse_values bad e i (value ∷ values) =
    let rest = refuse_values bad e (i + 1) values in if bad value then err (e i) else rest

-- `validateStrings`
abbrev pub is_blank : Text → Bool
is_blank value = is_empty (trim_space value)

-- `validateRequiredFiles`, `validateIncludeDocs`: the path leaves the checkout.
unfoldable pub leaves_checkout : Text → Bool
leaves_checkout value = is_abs value || is_abs (clean value) || climbs (clean value)

unfoldable pub file_leaves_checkout : Text → Bool
file_leaves_checkout value = is_abs value || climbs (clean value)

-- `validateRequiredFiles`, `validateRequiredKeys`, `validateToolchainRequirements` and `validateIncludeDocs`
-- refuse the blank values first, then those that fail their own test.
unfoldable pub check_values : ListField → (Text → Bool) → List Text → Result PolicyError (Unit {0})
check_values field bad values = do
  refuse_values is_blank (empty_value field) 0 values
  refuse_values bad (bad_value field) 0 values

-- `validateRequiredKeys`
unfoldable pub is_assignment : Text → Bool
is_assignment value = contains_byte b'=' value || trim_space value != value

-- `validLocalOnlyCategory`, and the category that a text names
unfoldable pub parse_category : Text → Option PathCategory
parse_category c =
    if c == txt "dependency"
    then some dependency
    else if c == txt "build"
    then some build
    else if c == txt "cache"
    then some cache
    else if c == txt "generated"
    then some generated
    else if c == txt "env-config"
    then some env_config
    else if c == txt "os-specific"
    then some os_specific
    else none

unfoldable pub check_category : ℕ → Text → Result PolicyError PathCategory
check_category i raw = do
  refuse_if (is_empty (trim_space raw)) (empty_category i)
  refuse_if (trim_space raw != raw) (padded_category i)
  refuse_if (trim_space raw == txt "source") (source_category i)
  elim (parse_category (trim_space raw)) [ none ↦ err (bad_category i) | some c ↦ ok c ]

-- One turn of the loop of `parseLocalOnlyPaths`
unfoldable pub parse_local_only_path : ℕ → LocalOnlyPath → Result PolicyError PathRule
parse_local_only_path i v =
    let path = trim_space v.path in
    let bad = is_abs path || is_abs (clean path) || clean path == txt "." || climbs (clean path) in
    do
      refuse_if (is_empty path) (empty_path i)
      refuse_if (path != v.path) (padded_path i)
      refuse_if bad (bad_path i)
      category ← check_category i v.category
      ok (record { path = clean path; category = category })

-- `parseLocalOnlyPaths`
unfoldable pub parse_local_only_paths : ℕ → List LocalOnlyPath → Result PolicyError (List PathRule)
parse_local_only_paths i [] = ok []
parse_local_only_paths i (v ∷ vs) =
    let rest = parse_local_only_paths (i + 1) vs in
    parse_local_only_path i v >>= λ rule. rest >>= λ rules. ok (rule ∷ rules)

module _ (h : Host) (t : Tools) where
  -- `validateBaseBranch`, and the defaults for an empty base
  unfoldable pub parse_base : Text → Result PolicyError (Text × Bool)
  parse_base raw =
      let base = trim_space raw in
      if is_empty base
      then ok (defaults.base_branch, false)
      else if t.is_branch_name base
      then ok (base, true)
      else err bad_base

  -- `ParseBytes`, behind the decoder
  unfoldable pub parse_file : PolicyFile → Result PolicyError Policy
  parse_file raw = do
    base ← parse_base raw.base
    env_mode ← parse_mode raw.env_mode bad_env_mode
    check_values files file_leaves_checkout raw.required_files
    check_values keys is_assignment raw.required_keys
    toolchain_mode ← parse_mode raw.toolchain_mode bad_toolchain_mode
    check_values tools (λ v. not (valid_requirement_name h v)) raw.requirements
    check_values docs leaves_checkout raw.include_docs
    rules ← parse_local_only_paths 0 raw.local_only
    ok (record {
      base_branch = base.0;
      base_branch_set = base.1;
      env_mode = env_mode;
      required_files = raw.required_files;
      required_keys = raw.required_keys;
      toolchain_mode = toolchain_mode;
      requirements = raw.requirements;
      include_docs = raw.include_docs;
      local_only = rules;
    })

  -- `ParseBytes`
  unfoldable pub parse_bytes : Text → Result PolicyError Policy
  parse_bytes bytes = elim (t.decode bytes) [ none ↦ err bad_yaml | some raw ↦ parse_file raw ]

  -- `Resolve`
  unfoldable pub resolve : Text → Result PolicyError Policy
  resolve raw =
      let root = trim_space raw in
      if is_empty root
      then err root_required
      else elim (h.read_file (join (root ∷ txt ".codemesh.yml" ∷ []))) [
        | not_exist ↦ ok defaults
        | failed message ↦ err (unreadable message)
        | found bytes ↦ parse_bytes bytes
      ]
