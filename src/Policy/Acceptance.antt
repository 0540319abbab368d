-- ===== src/Policy/Acceptance.antt =====
-- internal/policy/policy.go: what holds of a policy that was read from a file.
use codemesh.Base.{
  ℕ, ◌+◌, Text, txt, ◌≡◌, ◌≢◌, ◌⊎◌, refl, Bool, true, false, not, some, List, [], ◌∷◌, trim_space,
  arith, ok, >>=-ok, >>-ok, ok_injective, All, All-imp, is_empty, inl, inr, Bool-cases,
  Option-cases,
}
use mathlib.Core.Path.{subst}
use codemesh.Host.{Host}
use codemesh.Toolchain.{valid_requirement_name}
use codemesh.Policy.{
  Policy, ListField, PolicyFile, PolicyError, Tools, is_blank, file_leaves_checkout, is_assignment,
  leaves_checkout, refuse_values, parse_local_only_paths, parse_file, parse_bytes, bad_env_mode,
  empty_value, bad_value, files, keys, tools, docs, parse_base, parse_mode, bad_toolchain_mode,
  check_values,
}
use codemesh.Policy.Rules.{not_blank, AreRulesOf, parse_local_only_paths-AreRulesOf}
use codemesh.Policy.Values.{
  Passes, StaysInside, IsKey, IsToolName, file-StaysInside, doc-StaysInside, is_assignment-IsKey,
  valid_requirement_name-IsToolName,
}

refuse_values_sound :
    (bad : Text → Bool) (e : ℕ → PolicyError) (i : ℕ) (values : List Text)
    → refuse_values bad e i values ≡ ok tt
    → All (λ v. bad v ≡ false) values
unfolding refuse_values
refuse_values_sound bad e i [] h = tt
refuse_values_sound bad e i (v ∷ vs) h = elim (Bool-cases (bad v)) [
  | inl refused ↦ ground arith
  | inr fine ↦ (fine, refuse_values_sound bad e (i + 1) vs (ground arith))
]

check_values_sound :
    (field : ListField) (bad : Text → Bool) (values : List Text)
    → check_values field bad values ≡ ok tt
    → All (Passes bad) values
unfolding check_values
check_values_sound field bad values h =
    let (first, second) = >>-ok (refuse_values is_blank (empty_value field) 0 values) _ h in
    both values (refuse_values_sound is_blank (empty_value field) 0 values first)
      (refuse_values_sound bad (bad_value field) 0 values second)
  where
    both :
        (vs : List Text)
        → All (λ v. is_blank v ≡ false) vs
        → All (λ v. bad v ≡ false) vs
        → All (Passes bad) vs
    both [] a b = tt
    both (v ∷ vs) a b = ((a.0, b.0), both vs a.1 b.1)

-- The base branch is the default, or the text of the file if Git takes it for a branch name.
abbrev pub IsBranchOf : Tools → Text → Text × Bool → Type 0
IsBranchOf t raw base =
    ((trim_space raw ≡ []) × (base.0 ≡ txt "main") × (base.1 ≡ false))
    ⊎ ((base.0 ≡ trim_space raw)
        × (base.0 ≢ [])
        × (t.is_branch_name base.0 ≡ true)
        × (base.1 ≡ true))

-- What a policy is that was read from the fields of a file.
pub record IsAccepted (h : Host) (t : Tools) (raw : PolicyFile) (p : Policy) : Type 0 where
  pub branch : IsBranchOf t raw.base (p.base_branch, p.base_branch_set)
  pub same_files : p.required_files ≡ raw.required_files
  pub same_keys : p.required_keys ≡ raw.required_keys
  pub same_requirements : p.requirements ≡ raw.requirements
  pub same_docs : p.include_docs ≡ raw.include_docs
  pub files : All StaysInside p.required_files
  pub keys : All IsKey p.required_keys
  pub requirements : All (IsToolName h) p.requirements
  pub include_docs : All StaysInside p.include_docs
  pub local_only : AreRulesOf raw.local_only p.local_only

-- The two ways a branch is settled, on what `parse_base` returns.
parse_base-IsBranchOf :
    (h : Host) (t : Tools) (raw : Text) {base : Text × Bool}
    → parse_base h t raw ≡ ok base
    → IsBranchOf t raw base
unfolding parse_base
parse_base-IsBranchOf h t raw {base} e = elim (Bool-cases (is_empty (trim_space raw))) [
  | inl blank ↦
      subst (IsBranchOf t raw) {x = (txt "main", false)} (ground arith)
        (inl (is_blank-nil (trim_space raw) blank, refl, refl))
  | inr given ↦ elim (Bool-cases (t.is_branch_name (trim_space raw))) [
    | inl fine ↦
        subst (IsBranchOf t raw) {x = (trim_space raw, true)} (ground arith)
          (inr (refl, not_blank (trim_space raw) given, fine, refl))
    | inr refused ↦ ground arith
  ]
]
  where
    is_blank-nil : (x : Text) → is_empty x ≡ true → x ≡ []
    is_blank-nil [] e = refl
    is_blank-nil (c ∷ s) e = cc

parse_file-IsAccepted :
    (h : Host) (t : Tools) (raw : PolicyFile) {p : Policy}
    → parse_file h t raw ≡ ok p
    → IsAccepted h t raw p
unfolding parse_file
parse_file-IsAccepted h t raw e =
    let bad_name : Text → Bool = λ v. not (valid_requirement_name h v) in
    let (base, branch, r1) = >>=-ok (parse_base h t raw.base) _ e in
    let (mode, _, r2) = >>=-ok (parse_mode raw.env_mode bad_env_mode) _ r1 in
    let (fs, r3) = >>-ok (check_values files file_leaves_checkout raw.required_files) _ r2 in
    let (ks, r4) = >>-ok (check_values keys is_assignment raw.required_keys) _ r3 in
    let (tmode, _, r5) = >>=-ok (parse_mode raw.toolchain_mode bad_toolchain_mode) _ r4 in
    let (ts, r6) = >>-ok (check_values tools bad_name raw.requirements) _ r5 in
    let (ds, r7) = >>-ok (check_values docs leaves_checkout raw.include_docs) _ r6 in
    let (rules, ls, r8) = >>=-ok (parse_local_only_paths 0 raw.local_only) _ r7 in
    subst (IsAccepted h t raw) (ok_injective r8) (record {
      branch = parse_base-IsBranchOf h t raw.base branch;
      same_files = refl;
      same_keys = refl;
      same_requirements = refl;
      same_docs = refl;
      files =
          All-imp _ StaysInside raw.required_files file-StaysInside
            (check_values_sound files file_leaves_checkout raw.required_files fs);
      keys =
          All-imp _ IsKey raw.required_keys is_assignment-IsKey
            (check_values_sound keys is_assignment raw.required_keys ks);
      requirements =
          All-imp _ (IsToolName h) raw.requirements
            (λ v passes. valid_requirement_name-IsToolName h v passes.1)
            (check_values_sound tools bad_name raw.requirements ts);
      include_docs =
          All-imp _ StaysInside raw.include_docs doc-StaysInside
            (check_values_sound docs leaves_checkout raw.include_docs ds);
      local_only = parse_local_only_paths-AreRulesOf 0 raw.local_only ls;
    })

-- A policy that is read from bytes comes from a file that they decode to. Its base branch is
-- "main", if the file names none, or else the file's, which Git takes for a branch name. Its required
-- files, required keys, requirements and documents to include are those of the file: the files and
-- documents are not blank, not absolute, and their cleaned form is not ".." and does not begin with
-- "../"; the keys are not empty and hold no "=" and no outer space; a requirement is a letter or
-- digit followed by letters, digits and the characters "-_.+". It has one rule for each local-only
-- path of the file, in their order, with the category that the file names and the cleaned path,
-- which is relative, not "." or "..", and does not begin with "../".
pub parse_bytes-IsAccepted :
    (h : Host) (t : Tools) (bytes : Text) {p : Policy}
    → parse_bytes h t bytes ≡ ok p
    → (raw : PolicyFile) × (t.decode bytes ≡ some raw) × IsAccepted h t raw p
unfolding parse_bytes
parse_bytes-IsAccepted h t bytes e = elim (Option-cases (t.decode bytes)) [
  | inl broken ↦ ground arith
  | inr (raw, decoded) ↦ (raw, decoded, parse_file-IsAccepted h t raw (ground arith))
]
