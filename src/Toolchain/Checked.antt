-- ===== src/Toolchain/Checked.antt =====
-- internal/toolchain/toolchain.go: what a check that succeeds reports.
use codemesh.Base.{
  ◌≡◌, refl, sym, inl, inr, ◌⊎◌, Text, txt, ◌==◌, eq_iff, true, not, List, [], ◌∷◌, map, arith, All,
  Bool-cases, Result, ok, refuse_if, map_err, >>=-ok, >>-ok, refuse_if-ok, ok_injective,
  unique_sorted, Listing, unique_sorted-Listing,
}
use mathlib.Core.Path.{subst}
use codemesh.Toolchain.{
  Detection, CheckResult, valid_status, unsupported_status, detector_failed, check_name,
  check_names, check,
}

-- One of the three statuses.
abbrev pub IsStatus : Text → Type 0
IsStatus status = (status ≡ txt "present") ⊎ ((status ≡ txt "missing") ⊎ (status ≡ txt "unknown"))

valid_status-IsStatus : (status : Text) → valid_status status ≡ true → IsStatus status
unfolding valid_status
valid_status-IsStatus status h = elim (Bool-cases (status == txt "present")) [
  | inl e ↦ inl ((eq_iff status (txt "present")).0 e)
  | inr e ↦ elim (Bool-cases (status == txt "missing")) [
    | inl f ↦ inr (inl ((eq_iff status (txt "missing")).0 f))
    | inr f ↦ inr (inr ((eq_iff status (txt "unknown")).0 (ground arith)))
  ]
]

-- One result for each name, in the order of the names, and each with one of the three statuses.
record Answers (names : List Text) (results : List CheckResult) : Type 0 where
  named : map (λ (c : CheckResult). c.name) results ≡ names
  valid : All (λ (c : CheckResult). IsStatus c.status) results

-- The names of the results are those that were asked for, tidied, and each result has a status.
pub record Reports (requirements : List Text) (results : List CheckResult) : Type 0 where
  pub listed : Listing requirements (map (λ (c : CheckResult). c.name) results)
  pub statuses : All (λ (c : CheckResult). IsStatus c.status) results

module _ (detect : Text → Result Text Detection) where
  check_name_sound :
      (name : Text) {result : CheckResult}
      → check_name detect name ≡ ok result
      → (result.name ≡ name) × IsStatus result.status
  unfolding check_name
  check_name_sound name h =
      let (d, _, r) = >>=-ok (map_err detector_failed (detect name)) _ h in
      let (valid, made) =
        >>-ok (refuse_if (not (valid_status d.status)) (unsupported_status name d.status)) _ r in
      let accepted =
        refuse_if-ok (not (valid_status d.status)) (unsupported_status name d.status) valid in
      subst (λ (c : CheckResult). (c.name ≡ name) × IsStatus c.status) (ok_injective made)
        (refl, valid_status-IsStatus d.status (ground arith))

  check_names-Answers :
      (names : List Text) {results : List CheckResult}
      → check_names detect names ≡ ok results
      → Answers names results
  unfolding check_names
  check_names-Answers [] h =
      subst (Answers []) (ok_injective h) (record { named = refl; valid = tt })
  check_names-Answers (name ∷ names) h =
      let (result, one, r) = >>=-ok (check_name detect name) _ h in
      let (results, others, made) = >>=-ok (check_names detect names) _ r in
      let first = check_name_sound name one in
      let rest = check_names-Answers names others in
      subst (Answers (name ∷ names)) (ok_injective made)
        (record { named = rw (first.0, rest.named) refl; valid = (first.1, rest.valid) })

  -- A check that succeeds reports once each name that is asked for and not blank, without its outer
  -- space, and no other name: the names are pairwise different and none comes below the one
  -- before it, and each has one of the statuses present, missing and unknown.
  pub check-Reports :
      (requirements : List Text) {results : List CheckResult}
      → check detect requirements ≡ ok results
      → Reports requirements results
  unfolding check
  check-Reports requirements h =
      let made = check_names-Answers (unique_sorted requirements) h in
      record {
        listed = subst (Listing requirements) (sym made.named) (unique_sorted-Listing requirements);
        statuses = made.valid;
      }
