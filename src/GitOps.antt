-- ===== src/GitOps.antt =====
-- internal/gitops/gitops.go: the identity of a Git remote, and the clone URLs that are accepted.
pub mod CloneSources
use codemesh.Base.{
  ℕ, Text, txt, ◌==◌, ◌!=◌, Bool, true, false, not, ◌&&◌, ◌||◌, Option, none, some, List, [], ◌∷◌,
  ◌++◌, any, is_empty, is_some, trim_space, trim_prefix, trim_suffix, trim_left_by, has_prefix,
  contains, contains_byte, contains_any, cut, to_lower, equal_fold, clean, join, is_abs, ltb, leb,
  if◌then◌else◌, ◌=ℕ◌, Result, ok, err,
}
use codemesh.Host.{Host, Url, UserInfo}

pub data GitError : Type 0 where
  remote_required no_working_dir : GitError
  invalid_github_path : Text → GitError

pub record ScpRemote : Type 0 where
  pub user : Text
  pub host : Text
  pub path : Text

-- `splitSCPLikeRemote`: user@host:path
unfoldable pub split_scp_like_remote : Text → Option ScpRemote
split_scp_like_remote remote =
    if contains remote (txt "://") then none else elim (cut b'@' remote) [
      | none ↦ none
      | some (user, rest) ↦ if is_empty user then none else elim (cut b':' rest) [
        | none ↦ none
        | some (host, path) ↦
            if is_empty host || is_empty path
            then none
            else some (record { user = user; host = to_lower host; path = path })
      ]
    ]

-- `normalizeGitHubPath`
unfoldable pub normalize_github_path : Text → Result GitError Text
normalize_github_path path =
    let p = trim_suffix (trim_suffix (trim_prefix path (txt "/")) (txt "/")) (txt ".git") in
    if is_empty p || not (contains_byte b'/' p)
    then err (invalid_github_path p)
    else ok (txt "https://github.com/" ++ p)

abbrev pub is_drive_letter : ℕ → Bool
is_drive_letter c = (leb b'A' c && leb c b'Z') || (leb b'a' c && leb c b'z')

-- `isWindowsDrivePath`
unfoldable pub is_windows_drive_path : Text → Bool
is_windows_drive_path (drive ∷ colon ∷ slash ∷ rest) =
    colon =ℕ b':' && is_drive_letter drive && (slash =ℕ b'/' || slash =ℕ b'\\')
is_windows_drive_path _ = false

-- `isAbsoluteFileURLPath`
unfoldable pub is_absolute_file_url_path : Text → Bool
is_absolute_file_url_path path =
    is_abs path
    || is_windows_drive_path path
    || (has_prefix path (txt "/") && is_windows_drive_path (trim_prefix path (txt "/")))

-- `safeCloneURLComponent`, `safeCloneURLPath`
unfoldable pub safe_clone_url_component : Text → Bool
safe_clone_url_component part =
    not (is_empty part || trim_space part != part || has_prefix part (txt "-"))
    && not (any (λ r. ltb r 0x20 || r =ℕ 0x7f) part)
    && not (contains_any part (0x20 ∷ 9 ∷ 13 ∷ 10 ∷ []))

unfoldable pub safe_clone_url_path : Text → Bool
safe_clone_url_path path = safe_clone_url_component (trim_left_by (λ c. c =ℕ b'/') path)

-- Why `ValidateCloneSource` refuses a URL.
pub data CloneSourceError : Type 0 where
  url_required query_or_fragment credentials file_host file_relative scheme_unsupported :
      CloneSourceError
  unsafe_components unsafe_scp not_absolute : CloneSourceError

unfoldable pub validate_file_url : Url → Result CloneSourceError (Unit {0})
validate_file_url u =
    if is_some u.user || not (is_empty u.raw_query) || not (is_empty u.fragment)
    then err credentials
    else if not (is_empty u.host)
    then err file_host
    else if not (is_absolute_file_url_path u.path)
    then err file_relative
    else ok tt

unfoldable pub validate_user : Text → Option UserInfo → Result CloneSourceError (Unit {0})
validate_user scheme none = ok tt
validate_user scheme (some user) =
    if scheme == txt "https" || scheme == txt "git"
    then err credentials
    else if not (safe_clone_url_component user.username)
    then err unsafe_components
    else if is_some user.password
    then err credentials
    else ok tt

unfoldable pub validate_remote_url : Url → Result CloneSourceError (Unit {0})
validate_remote_url u =
    let scheme = to_lower u.scheme in
    if not (scheme == txt "https" || scheme == txt "ssh" || scheme == txt "git")
    then err scheme_unsupported
    else if not (safe_clone_url_component u.host) || not (safe_clone_url_path u.path)
    then err unsafe_components
    else elim (validate_user scheme u.user) [
      | err e ↦ err e
      | ok _ ↦
          if not (is_empty u.raw_query) || not (is_empty u.fragment) then err credentials else ok tt
    ]

unfoldable pub validate_scp_or_path : Text → Result CloneSourceError (Unit {0})
validate_scp_or_path raw = elim (split_scp_like_remote raw) [
  | some scp ↦
      if not (safe_clone_url_component scp.user)
        || not (safe_clone_url_component scp.host)
        || not (safe_clone_url_component scp.path)
      then err unsafe_scp
      else ok tt
  | none ↦ if is_abs raw then ok tt else err not_absolute
]

module _ (h : Host) where
  -- `filepath.Abs`
  unfoldable pub abs : Text → Option Text
  abs path =
      if is_abs path
      then some (clean path)
      else elim h.working_dir [ none ↦ none | some wd ↦ some (join (wd ∷ path ∷ [])) ]

  -- A parsed URL that has a scheme.
  unfoldable pub parse_absolute_url : Text → Option Url
  parse_absolute_url s = elim (h.parse_url s) [
    | none ↦ none
    | some u ↦ if is_empty u.scheme then none else some u
  ]

  unfoldable pub normalize_local : Text → Text → Result GitError Text
  normalize_local remote base_dir =
      if not (is_empty base_dir) && not (is_abs remote)
      then ok (clean (join (base_dir ∷ remote ∷ [])))
      else elim (abs remote) [ none ↦ err no_working_dir | some a ↦ ok (clean a) ]

  unfoldable pub normalize_url : Url → Result GitError Text
  normalize_url u =
      if to_lower (h.hostname u) == txt "github.com"
      then normalize_github_path u.path
      else if u.scheme == txt "file"
      then ok (clean u.path)
      else let host = to_lower u.host in
        let path = trim_suffix (h.escaped_path u) (txt ".git") in
        elim u.user [
          | some user ↦ ok (u.scheme ++ txt "://" ++ user.username ++ txt "@" ++ host ++ path)
          | none ↦ ok (u.scheme ++ txt "://" ++ host ++ path)
        ]

  -- `NormalizeRemoteFrom`
  unfoldable pub normalize_remote_from : Text → Text → Result GitError Text
  normalize_remote_from raw base_dir =
      let remote = trim_space raw in
      if is_empty remote then err remote_required else elim (split_scp_like_remote remote) [
        | some scp ↦
            if scp.host == txt "github.com"
            then normalize_github_path scp.path
            else ok (
                txt "ssh://"
                ++ scp.user
                ++ txt "@"
                ++ scp.host
                ++ txt "/"
                ++ trim_suffix (trim_prefix scp.path (txt "/")) (txt ".git"))
        | none ↦ elim (parse_absolute_url remote) [
          | some u ↦ normalize_url u
          | none ↦ normalize_local remote base_dir
        ]
      ]

  -- `NormalizeRemote`
  unfoldable pub normalize_remote : Text → Result GitError Text
  normalize_remote remote = normalize_remote_from remote []

  -- `RemoteMatchesSource`
  unfoldable pub remote_matches_source : Text → Text → Text → Text → Bool
  remote_matches_source normalized registered clone_url base_dir =
      if normalized == registered
      then true
      else let url = trim_space clone_url in
        if is_empty url then false else elim (normalize_remote_from url base_dir) [
          | err e ↦ false
          | ok identity ↦ normalized == identity
        ]

  -- `ValidateCloneSource`
  unfoldable pub validate_clone_source : Text → Result CloneSourceError (Unit {0})
  validate_clone_source source =
      let raw = trim_space source in
      if is_empty raw
      then err url_required
      else if contains_any raw (txt "?#")
      then err query_or_fragment
      else if is_windows_drive_path raw
      then ok tt
      else elim (h.parse_url raw) [
        | none ↦ validate_scp_or_path raw
        | some u ↦
            if equal_fold u.scheme (txt "file")
            then validate_file_url u
            else if not (is_empty u.scheme)
            then validate_remote_url u
            else validate_scp_or_path raw
      ]

  -- `RedactURLForMetadata`
  unfoldable pub redact_url_for_metadata : Text → Text
  redact_url_for_metadata raw = elim (parse_absolute_url raw) [
    | none ↦ raw
    | some u ↦ h.print_url (record u {
      user = elim u.user [
        | none ↦ none
        | some _ ↦ some (record { username = txt "redacted"; password = none })
      ];
      raw_query = [];
      fragment = [];
    })
  ]
