-- ===== src/State/Bindings/Tidied.antt =====
-- internal/state/store.go: how a binding that is written differs from the one that was given.
use codemesh.Base.{
  ◌≡◌, ◌≢◌, ℕ, [], arith, ok, trim_space, unique_sorted, Listing, unique_sorted-Listing,
}
use mathlib.Core.Path.{subst}
use codemesh.State.Bindings.{EnvBinding, normalized_scopes, normalized_binding}

-- A binding with the key, the provider and the reference of another without outer blanks, none of
-- them empty, and with its scopes tidied.
pub record Tidies (b written : EnvBinding) : Type 0 where
  pub project_id : written.project_id ≡ b.project_id
  pub requirement : written.requirement ≡ trim_space b.requirement
  pub provider : written.provider ≡ trim_space b.provider
  pub secret_ref : written.secret_ref ≡ trim_space b.secret_ref
  pub requirement_filled : written.requirement ≢ []
  pub provider_filled : written.provider ≢ []
  pub secret_ref_filled : written.secret_ref ≢ []
  pub scopes : Listing b.scopes written.scopes

pub normalized_binding-Tidies :
    (b n : EnvBinding) (id : ℕ) → normalized_binding b ≡ ok n → Tidies b (record n { id = id })
unfolding normalized_binding normalized_scopes
normalized_binding-Tidies b n id h = record {
  project_id = ground arith;
  requirement = ground arith;
  provider = ground arith;
  secret_ref = ground arith;
  requirement_filled = ground arith;
  provider_filled = ground arith;
  secret_ref_filled = ground arith;
  scopes =
      let same : unique_sorted b.scopes ≡ n.scopes = ground arith in
      subst (Listing b.scopes) same (unique_sorted-Listing b.scopes);
}
