-- ===== src/Tests/Fixtures.antt =====
-- A small machine and a small registry.
use codemesh.Base.{
  ℕ, Text, txt, ◌==◌, Option, none, some, [], ◌∷◌, has_prefix, trim_prefix, cut, if◌then◌else◌, leb,
  ◌&&◌, ◌++◌,
}
use codemesh.Host.{Host, Url, Answer, found, not_exist, FileKind, directory}
use codemesh.State.{Project, Table}

-- The parser knows `https` URLs with no user.
abbrev pub parse_https : Text → Option Url
parse_https s =
    if has_prefix s (txt "https://")
    then elim (cut b'/' (trim_prefix s (txt "https://"))) [
      | none ↦ none
      | some (host, path) ↦ some (record {
        scheme = txt "https";
        user = none;
        host = host;
        path = b'/' ∷ path;
        raw_query = [];
        fragment = [];
      })
    ]
    else none

-- The root "/" and the workspace "/w" exist, and nothing below it.
abbrev pub only_workspace : Text → Answer FileKind
only_workspace path = if path == txt "/w" then found directory else not_exist

abbrev pub machine : Host
machine = record {
  lstat = only_workspace;
  stat = only_workspace;
  eval_symlinks = λ path. if path == txt "/w" then found path else not_exist;
  read_dir = λ path. found [];
  read_file = λ path. not_exist;
  working_dir = some (txt "/home");
  parse_url = parse_https;
  hostname = λ u. u.host;
  escaped_path = λ u. u.path;
  print_url = λ u. u.path;
  is_letter = λ c. leb b'a' c && leb c b'z';
  is_digit = λ c. leb b'0' c && leb c b'9';
  quote = λ s. b'"' ∷ s ++ b'"' ∷ [];
}

abbrev pub project : ℕ → Text → Text → Text → Project
project id alias remote path = record {
  id = id;
  alias = alias;
  normalized_remote = remote;
  clone_url = remote;
  local_path = path;
  canonical_path = path;
  source = txt "canonical";
}

abbrev pub a_project : Project
a_project = project 1 (txt "a") (txt "https://h/a") (txt "/w/a")

abbrev pub b_project : Project
b_project = project 2 (txt "b") (txt "https://h/b") (txt "/w/b")

abbrev pub two_projects : Table
two_projects = a_project ∷ b_project ∷ []
