-- ===== src/Placeholder.antt =====
-- internal/placeholder/placeholder.go: the directories that stand for projects without a checkout.
pub mod Untouched
use codemesh.Base.{
  ℕ, ◌==◌, Text, txt, Bool, true, false, not, ◌&&◌, ◌||◌, Option, none, some, List, [], ◌∷◌, ◌++◌,
  is_empty, trim_space, clean, join, join_by, keep, sort, text_lt, if◌then◌else◌, ◌=ℕ◌, Result, ok,
  err, ◌>>=◌, ◌>>◌,
}
use codemesh.Host.{Host, found, not_exist, failed, directory}

pub record Metadata : Type 0 where
  pub schema_version : ℕ
  pub kind : Text
  pub project : Text
  pub identity : Text
  pub canonical_path : Text

pub data PlaceholderError : Type 0 where
  not_checked : Text → PlaceholderError
  unreadable_metadata unreadable_directory unreadable_note unreadable_barrier :
      Text → PlaceholderError
  bad_json invalid_metadata incomplete_metadata : PlaceholderError

-- The decoder and the encoder of encoding/json on this record.
pub record Json : Type 0 where
  pub unmarshal : Text → Option Metadata
  pub marshal_indent : Metadata → Text

abbrev pub kind : Text
kind = txt "codemesh-placeholder"

abbrev pub schema : ℕ
schema = 1

abbrev pub metadata_file : Text
metadata_file = txt ".codemesh-placeholder.json"

abbrev pub note_file : Text
note_file = txt "CODEMESH_PLACEHOLDER.txt"

abbrev pub git_barrier : Text
git_barrier = txt ".git"

-- `SentinelFiles`
abbrev pub sentinel_files : List Text
sentinel_files = metadata_file ∷ git_barrier ∷ note_file ∷ []

-- `noteText`, `gitBarrierText`
unfoldable pub note_text : Text → Text
note_text alias =
    txt
      "CodeMesh placeholder\n\nThis directory is metadata-only and is not a Git checkout. Run codemesh hydrate "
    ++ alias
    ++ txt " to clone source content.\n"

unfoldable pub git_barrier_text : Text → Text
git_barrier_text alias =
    txt "CodeMesh placeholder for " ++ alias ++ txt ": this path is not a Git checkout.\n"

-- `validate`
unfoldable pub validate : Metadata → Result PlaceholderError (Unit {0})
validate m =
    if not (m.schema_version =ℕ schema) || not (m.kind == kind)
    then err invalid_metadata
    else if is_empty (trim_space m.project)
        || is_empty (trim_space m.identity)
        || is_empty (trim_space m.canonical_path)
    then err incomplete_metadata
    else ok tt

unfoldable pub same_metadata : Metadata → Metadata → Bool
same_metadata m n =
    m.schema_version =ℕ n.schema_version
    && m.kind == n.kind
    && m.project == n.project
    && m.identity == n.identity
    && m.canonical_path == n.canonical_path

abbrev pub expected_metadata : Text → Text → Text → Metadata
expected_metadata path alias identity = record {
  schema_version = schema;
  kind = kind;
  project = alias;
  identity = identity;
  canonical_path = path;
}

module _ (h : Host) (j : Json) where
  -- `metadataBytes`; a record of texts and a number can always be encoded.
  unfoldable pub metadata_bytes : Metadata → Text
  metadata_bytes m = j.marshal_indent m ++ txt "\n"

  -- The files of a directory, on which a missing one is an error like any other.
  unfoldable pub read_or : (Text → PlaceholderError) → Text → Result PlaceholderError Text
  read_or e path = elim (h.read_file path) [
    | found data_read ↦ ok data_read
    | not_exist ↦ err (e [])
    | failed message ↦ err (e message)
  ]

  unfoldable pub decode_metadata : Text → Result PlaceholderError (Option Metadata)
  decode_metadata bytes = elim (j.unmarshal bytes) [
    | none ↦ err bad_json
    | some m ↦ validate m >>= λ _. ok (some m)
  ]

  unfoldable pub read_metadata : Text → Result PlaceholderError (Option Metadata)
  read_metadata path = elim (h.read_file (join (path ∷ metadata_file ∷ []))) [
    | not_exist ↦ ok none
    | failed message ↦ err (unreadable_metadata message)
    | found bytes ↦ decode_metadata bytes
  ]

  -- `Is`: the metadata of a placeholder, or none where there is no placeholder.
  unfoldable pub is : Text → Result PlaceholderError (Option Metadata)
  is path = elim (h.stat path) [
    | not_exist ↦ ok none
    | failed message ↦ err (not_checked message)
    | found directory ↦ read_metadata path
    | found _ ↦ ok none
  ]

  -- The names in the directory, but for the entry that is allowed.
  unfoldable pub counted_names : Text → Text → List Text → List Text
  counted_names path allowed names =
      keep (λ n. not (not (is_empty allowed) && clean (join (path ∷ n ∷ [])) == clean allowed))
        names

  unfoldable pub only_sentinels : Text → Text → List Text → Bool
  only_sentinels path allowed names =
      join_by 0 (sort text_lt (counted_names path allowed names)) == join_by 0 sentinel_files

  unfoldable pub has_expected_barrier : Text → Text → Result PlaceholderError Bool
  has_expected_barrier path alias = do
    barrier ← read_or unreadable_barrier (join (path ∷ git_barrier ∷ []))
    ok (barrier == git_barrier_text alias)

  unfoldable pub has_expected_note : Text → Text → Result PlaceholderError Bool
  has_expected_note path alias =
      let next = has_expected_barrier path alias in
      do
        note ← read_or unreadable_note (join (path ∷ note_file ∷ []))
        (if note == note_text alias then next else ok false)

  unfoldable pub has_expected_files : Text → Text → Text → Result PlaceholderError Bool
  has_expected_files path alias identity =
      let next = has_expected_note path alias in
      let wanted = metadata_bytes (expected_metadata path alias identity) in
      do
        bytes ← read_or unreadable_metadata (join (path ∷ metadata_file ∷ []))
        (if bytes == wanted then next else ok false)

  unfoldable pub is_untouched : Text → Text → Text → Text → Result PlaceholderError Bool
  is_untouched path alias identity allowed = elim (h.read_dir path) [
    | not_exist ↦ err (unreadable_directory [])
    | failed message ↦ err (unreadable_directory message)
    | found names ↦
        if only_sentinels path allowed names
        then has_expected_files path alias identity
        else ok false
  ]

  -- `OwnedByAllowing`
  unfoldable pub owned_by_allowing : Text → Text → Text → Text → Result PlaceholderError Bool
  owned_by_allowing path alias identity allowed = is path >>= λ present. elim present [
    | none ↦ ok false
    | some m ↦
        if same_metadata m (expected_metadata path alias identity)
        then is_untouched path alias identity allowed
        else ok false
  ]

  -- `OwnedBy`
  unfoldable pub owned_by : Text → Text → Text → Result PlaceholderError Bool
  owned_by path alias identity = owned_by_allowing path alias identity []
