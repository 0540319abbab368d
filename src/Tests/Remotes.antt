-- ===== src/Tests/Remotes.antt =====
-- Clone sources that are accepted and refused.
use codemesh.Base.{◌≡◌, refl, txt, [], none, ok, err}
use codemesh.Host.{Url}
use codemesh.GitOps.{query_or_fragment, not_absolute, validate_clone_source}
use codemesh.GitOps.CloneSources.{IsSecretless, validate_clone_source-IsSecretless}
use codemesh.Tests.Fixtures.{machine}
use codemesh.Tests.Opened.{text_code, git_code}

abbrev remote_url : Url
remote_url = record {
  scheme = txt "https";
  user = none;
  host = txt "h";
  path = txt "/a";
  raw_query = [];
  fragment = [];
}

accepted : validate_clone_source machine (txt " https://h/a") ≡ ok tt
unfolding text_code git_code
accepted = refl

with_query : validate_clone_source machine (txt "https://h/a?x") ≡ err query_or_fragment
unfolding text_code git_code
with_query = refl

relative : validate_clone_source machine (txt "../a") ≡ err not_absolute
unfolding text_code git_code
relative = refl

validate_clone_source-IsSecretless_example : IsSecretless remote_url
unfolding text_code git_code
validate_clone_source-IsSecretless_example =
    validate_clone_source-IsSecretless machine (txt " https://h/a") remote_url accepted refl refl
      refl
