-- ===== src/Manifest/Entries/Hints.antt =====
-- The references that an entry may hold: `isLocalReference`, `hasUnsafeURLUserinfo`,
-- `hasURLQueryOrFragment`, `validateCloneHint` and what they call.
use codemesh.Base.{
  Text, txt, ◌==◌, ◌!=◌, Bool, true, false, not, ◌&&◌, ◌||◌, Option, none, some, [], ◌∷◌, is_empty,
  is_some, trim_space, trim_prefix, has_prefix, contains, contains_byte, contains_any, cut,
  equal_fold, is_abs, if◌then◌else◌, ◌=ℕ◌, Result, ok, err,
}
use codemesh.Host.{Host, Url, UserInfo}
use codemesh.GitOps.{is_drive_letter, ScpRemote, parse_absolute_url}

pub data EntryError : Type 0 where
  version identity_required identity_credentials identity_query identity_local : EntryError
  alias_required desired_path_required desired_path_absolute desired_path_outside : EntryError
  hint_not_clean hint_host hint_relative : EntryError

-- `isWindowsDrivePath` of this package: two characters are enough.
unfoldable pub is_windows_drive_path : Text → Bool
is_windows_drive_path (drive ∷ colon ∷ rest) = colon =ℕ b':' && is_drive_letter drive
is_windows_drive_path _ = false

-- `splitSCPLike`: the first colon stands behind the first `@`.
unfoldable pub split_scp_like : Text → Option ScpRemote
split_scp_like raw = if contains raw (txt "://") then none else elim (cut b'@' raw) [
  | none ↦ none
  | some (user, rest) ↦
      if is_empty user || contains_byte b':' user then none else elim (cut b':' rest) [
        | none ↦ none
        | some (host, path) ↦
            if is_empty host || is_empty path
            then none
            else some (record { user = user; host = host; path = path })
      ]
]

-- `isAbsoluteFileURLPath`
unfoldable pub is_absolute_file_url_path : Text → Bool
is_absolute_file_url_path path =
    is_abs path
    || is_windows_drive_path path
    || (has_prefix path (txt "/") && is_windows_drive_path (trim_prefix path (txt "/")))

-- Without the password, and over HTTP without the user.
unfoldable pub sanitized_user : Text → Option UserInfo → Option UserInfo
sanitized_user scheme none = none
sanitized_user scheme (some user) =
    if scheme == txt "http" || scheme == txt "https"
    then none
    else some (record user { password = none })

unfoldable pub check_file_hint : Text → Url → Result EntryError Text
check_file_hint clone_url u =
    if is_some u.user || not (is_empty u.raw_query) || not (is_empty u.fragment)
    then err hint_not_clean
    else if not (is_empty u.host)
    then err hint_host
    else if not (is_absolute_file_url_path u.path)
    then err hint_relative
    else ok clone_url

unfoldable pub check_path_hint : Text → Result EntryError Text
check_path_hint clone_url =
    if contains_any clone_url (txt "?#")
    then err hint_not_clean
    else if not (is_abs clone_url) && not (is_windows_drive_path clone_url)
    then err hint_relative
    else ok clone_url

module _ (h : Host) where
  -- A reference that parses as a `file` URL.
  unfoldable pub parse_file_url : Text → Option Url
  parse_file_url value = elim (h.parse_url value) [
    | none ↦ none
    | some u ↦ if equal_fold u.scheme (txt "file") then some u else none
  ]

  -- `isLocalReference`, which `isLocalCloneURL` calls
  unfoldable pub is_local_reference : Text → Bool
  is_local_reference value =
      if is_windows_drive_path value
      then true
      else if is_some (parse_file_url value)
      then true
      else if is_some (parse_absolute_url h value)
      then false
      else not (is_some (split_scp_like value))

  -- `hasUnsafeURLUserinfo`
  unfoldable pub has_unsafe_url_userinfo : Text → Bool
  has_unsafe_url_userinfo value = elim (parse_absolute_url h value) [
    | none ↦ false
    | some u ↦ elim u.user [
      | none ↦ false
      | some user ↦ u.scheme == txt "http" || u.scheme == txt "https" || is_some user.password
    ]
  ]

  -- `hasURLQueryOrFragment`
  unfoldable pub has_url_query_or_fragment : Text → Bool
  has_url_query_or_fragment value = elim (parse_absolute_url h value) [
    | none ↦ false
    | some u ↦ not (is_empty u.raw_query) || not (is_empty u.fragment)
  ]

  -- `sanitizedCloneHint`
  unfoldable pub sanitized_clone_hint : Text → Result EntryError Text
  sanitized_clone_hint clone_url =
      if is_local_reference clone_url
      then elim (parse_file_url clone_url) [
        | some u ↦ check_file_hint clone_url u
        | none ↦ check_path_hint clone_url
      ]
      else elim (parse_absolute_url h clone_url) [
        | some u ↦ ok (
            h.print_url
              (record u { user = sanitized_user u.scheme u.user; raw_query = []; fragment = [] }))
        | none ↦ if contains_any clone_url (txt "?#") then err hint_not_clean else ok clone_url
      ]

  -- `validateCloneHint`
  unfoldable pub validate_clone_hint : Text → Result EntryError (Unit {0})
  validate_clone_hint raw =
      let clone_url = trim_space raw in
      if is_empty clone_url then ok tt else elim (sanitized_clone_hint clone_url) [
        | err e ↦ err e
        | ok sanitized ↦ if sanitized != clone_url then err hint_not_clean else ok tt
      ]

  -- `manifestCloneHint`: the hint that an export writes, or none.
  unfoldable pub manifest_clone_hint : Text → Text
  manifest_clone_hint raw =
      let clone_url = trim_space raw in
      if is_empty clone_url || is_local_reference clone_url
      then []
      else elim (sanitized_clone_hint clone_url) [ err _ ↦ [] | ok hint ↦ hint ]

  -- `cloneURLForPlan`
  unfoldable pub clone_url_for_plan : Text → Text
  clone_url_for_plan raw =
      let clone_url = trim_space raw in
      if is_empty clone_url then [] else elim (sanitized_clone_hint clone_url) [
        | err _ ↦ txt "not-exported"
        | ok sanitized ↦ sanitized
      ]
