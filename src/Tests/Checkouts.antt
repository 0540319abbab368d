-- ===== src/Tests/Checkouts.antt =====
-- What a checkout is given: sparse paths, a policy, and a check of its toolchain.
use codemesh.Base.{
  ◌≡◌, ◌≢◌, refl, Text, txt, true, some, List, [], ◌∷◌, Result, ok, All, Pairs, ◌==◌, if◌then◌else◌,
}
use codemesh.CloneStrategy.{Options, selection_for_options}
use codemesh.CloneStrategy.SparsePaths.{IsSafe, selection_for_options-IsSafe}
use codemesh.Toolchain.{Detection, CheckResult, status_present, status_missing, check}
use codemesh.Toolchain.Checked.{Reports, check-Reports}
use codemesh.Policy.{Policy, PolicyFile, Tools, build, block, warn, parse_bytes}
use codemesh.Policy.Acceptance.{IsAccepted, parse_bytes-IsAccepted}
use codemesh.Tests.Fixtures.{machine}
use codemesh.Tests.Opened.{text_code, clone_code, policy_code}

abbrev wanted : Options
wanted = record {
  partial = true;
  sparse_paths = txt "/docs/" ∷ txt "../up" ∷ txt "docs" ∷ txt ".git/x" ∷ txt "src\\a" ∷ [];
}

kept_paths : (selection_for_options wanted).sparse_paths ≡ txt "docs" ∷ txt "src/a" ∷ []
unfolding text_code clone_code
kept_paths = refl

selection_for_options-IsSafe_example :
    All IsSafe (selection_for_options wanted).sparse_paths
    × Pairs ◌≢◌ (selection_for_options wanted).sparse_paths
selection_for_options-IsSafe_example = selection_for_options-IsSafe wanted

-- A machine that has Go and no other tool.
abbrev detect_go : Text → Result Text Detection
detect_go name =
    if name == txt "go"
    then ok (record { status = status_present; command = txt "/bin/go"; version = txt "go1 " })
    else ok (record { status = status_missing; command = []; version = [] })

abbrev tools_asked : List Text
tools_asked = txt "node" ∷ txt " go " ∷ [] ∷ txt "go" ∷ []

abbrev answers : List CheckResult
answers =
    record {
      name = txt "go";
      status = status_present;
      host_command = txt "/bin/go";
      host_version = txt "go1";
    }
    ∷ record { name = txt "node"; status = status_missing; host_command = []; host_version = [] }
    ∷ []

checked : check detect_go tools_asked ≡ ok answers
unfolding text_code policy_code
checked = refl

check-Reports_example : Reports tools_asked answers
check-Reports_example = check-Reports detect_go tools_asked checked

abbrev pub raw : PolicyFile
raw = record {
  base = txt " dev ";
  env_mode = txt "block";
  required_files = txt ".env" ∷ [];
  required_keys = txt "TOKEN" ∷ [];
  toolchain_mode = [];
  requirements = txt "go" ∷ [];
  include_docs = txt "docs/a.md" ∷ [];
  local_only = record { path = txt "out//x"; category = txt "build" } ∷ [];
}

-- A decoder that reads every text as the same file, and a Git that allows every name.
abbrev pub lenient : Tools
lenient = record { decode = λ bytes. some raw; is_branch_name = λ name. true }

abbrev read_policy : Policy
read_policy = record {
  base_branch = txt "dev";
  base_branch_set = true;
  env_mode = block;
  required_files = txt ".env" ∷ [];
  required_keys = txt "TOKEN" ∷ [];
  toolchain_mode = warn;
  requirements = txt "go" ∷ [];
  include_docs = txt "docs/a.md" ∷ [];
  local_only = record { path = txt "out/x"; category = build } ∷ [];
}

policy_read : parse_bytes machine lenient [] ≡ ok read_policy
unfolding text_code policy_code
policy_read = refl

parse_bytes-IsAccepted_example :
    (file : PolicyFile) × (some raw ≡ some file) × IsAccepted machine lenient file read_policy
parse_bytes-IsAccepted_example = parse_bytes-IsAccepted machine lenient [] policy_read
