-- ===== src/GitOps/CloneSources.antt =====
-- internal/gitops/gitops.go: what `ValidateCloneSource` lets pass.
use codemesh.Base.{
  ◌≡◌, Text, txt, ◌==◌, eq_iff, true, false, ◌||◌, none, some, is_empty, trim_space, to_lower,
  equal_fold, arith, Bool-cases, inl, inr, ok,
}
use codemesh.Host.{Host, Url, UserInfo}
use codemesh.GitOps.{
  is_windows_drive_path, safe_clone_url_component, validate_file_url, validate_user,
  validate_remote_url, validate_clone_source,
}

-- A URL without a query, a fragment and a password, that names a user only over SSH.
pub record IsSecretless (u : Url) : Type 0 where
  pub query : is_empty u.raw_query ≡ true
  pub fragment : is_empty u.fragment ≡ true
  pub user :
      (w : UserInfo)
      → u.user ≡ some w
      → (to_lower u.scheme ≡ txt "ssh")
        × (w.password ≡ none)
        × (safe_clone_url_component w.username ≡ true)

validate_file_url-IsSecretless : (u : Url) → validate_file_url u ≡ ok tt → IsSecretless u
unfolding validate_file_url
validate_file_url-IsSecretless u h = record {
  query = ground arith;
  fragment = ground arith;
  user = λ w named. ground arith;
}

user_over_ssh :
    (scheme : Text) (w : UserInfo)
    → (scheme == txt "https" || scheme == txt "ssh" || scheme == txt "git") ≡ true
    → validate_user scheme (some w) ≡ ok tt
    → (scheme ≡ txt "ssh") × (w.password ≡ none) × (safe_clone_url_component w.username ≡ true)
unfolding validate_user
user_over_ssh scheme w known h =
    (ground (arith, eq_iff scheme (txt "ssh")), ground arith, ground arith)

validate_remote_url-IsSecretless : (u : Url) → validate_remote_url u ≡ ok tt → IsSecretless u
unfolding validate_remote_url
validate_remote_url-IsSecretless u h = record {
  query = ground arith;
  fragment = ground arith;
  user = λ w named. user_over_ssh (to_lower u.scheme) w (ground arith) (ground arith);
}

-- A clone source that is accepted, is no Windows path and parses as a URL with a scheme, has no
-- query, no fragment and no password, and names a user only over SSH, with a safe name.
pub validate_clone_source-IsSecretless :
    (h : Host) (source : Text) (u : Url)
    → validate_clone_source h source ≡ ok tt
    → is_windows_drive_path (trim_space source) ≡ false
    → h.parse_url (trim_space source) ≡ some u
    → is_empty u.scheme ≡ false
    → IsSecretless u
unfolding validate_clone_source
validate_clone_source-IsSecretless h source u accepted no_drive parsed schemed =
    elim (Bool-cases (equal_fold u.scheme (txt "file"))) [
      | inl file ↦ validate_file_url-IsSecretless u (ground arith)
      | inr other ↦ validate_remote_url-IsSecretless u (ground arith)
    ]
