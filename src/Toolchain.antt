-- ===== src/Toolchain.antt =====
-- internal/toolchain/toolchain.go: toolchain requirements, their names and how they are checked.
pub mod Checked
use codemesh.Base.{
  ℕ, Text, txt, ◌==◌, ◌!=◌, Bool, true, false, not, ◌&&◌, ◌||◌, List, [], ◌∷◌, every, is_empty,
  trim_space, mem_text, text_lt, sort, split, if◌then◌else◌, ◌=ℕ◌, Result, ok, err, ◌>>=◌, ◌>>◌,
  refuse_if, map_err, unique_sorted,
}
use codemesh.Host.{Host}

-- A status is a text: a detector may answer another one than the three constants.
abbrev pub status_present : Text
status_present = txt "present"

abbrev pub status_missing : Text
status_missing = txt "missing"

abbrev pub status_unknown : Text
status_unknown = txt "unknown"

-- `validStatus`
unfoldable pub valid_status : Text → Bool
valid_status status =
    status == status_present || status == status_missing || status == status_unknown

pub data CheckError : Type 0 where
  detector_failed : Text → CheckError
  unsupported_status : Text → Text → CheckError

pub record Detection : Type 0 where
  pub status : Text
  pub command : Text
  pub version : Text

pub record CheckResult : Type 0 where
  pub name : Text
  pub status : Text
  pub host_command : Text
  pub host_version : Text

-- `firstLine`
unfoldable pub first_nonblank : List Text → Text
first_nonblank [] = []
first_nonblank (line ∷ lines) =
    if is_empty (trim_space line) then first_nonblank lines else trim_space line

unfoldable pub first_line : Text → Text
first_line value = first_nonblank (split 10 value)

-- The body of the loop of `Check`; a detector answers, or fails with a message.
module _ (detect : Text → Result Text Detection) where
  unfoldable pub check_name : Text → Result CheckError CheckResult
  check_name name = do
    d ← map_err detector_failed (detect name)
    refuse_if (not (valid_status d.status)) (unsupported_status name d.status)
    ok (record {
      name = name;
      status = d.status;
      host_command = trim_space d.command;
      host_version = trim_space d.version;
    })

  unfoldable pub check_names : List Text → Result CheckError (List CheckResult)
  check_names [] = ok []
  check_names (name ∷ names) =
      let rest = check_names names in
      check_name name >>= λ result. rest >>= λ results. ok (result ∷ results)

  -- `Check`
  unfoldable pub check : List Text → Result CheckError (List CheckResult)
  check requirements = check_names (unique_sorted requirements)

-- `ValidRequirementName`
unfoldable pub valid_character : Host → Bool → ℕ → Bool
valid_character h first c =
    h.is_letter c
    || h.is_digit c
    || (not first && (c =ℕ b'-' || c =ℕ b'_' || c =ℕ b'.' || c =ℕ b'+'))

unfoldable pub valid_characters : Host → Text → Bool
valid_characters h [] = true
valid_characters h (c ∷ s) = valid_character h true c && every (valid_character h false) s

unfoldable pub valid_requirement_name : Host → Text → Bool
valid_requirement_name h name =
    not (is_empty name || trim_space name != name) && valid_characters h name
