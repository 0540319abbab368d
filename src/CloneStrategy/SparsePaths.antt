-- ===== src/CloneStrategy/SparsePaths.antt =====
-- The paths that a sparse checkout is given stay in the checkout, and none is given twice.
use codemesh.Base.{
  ◌≡◌, ◌≢◌, inl, inr, Text, Bool, false, ◌||◌, List, [], ◌∷◌, any, split, contains_any, mem_text,
  arith, All, Unseen, weaken-Unseen, Unseen-ne, Pairs, Bool-cases, txt, All-imp, eq_iff,
  contains_byte,
}
use codemesh.CloneStrategy.{
  Options, is_unsafe_part, is_skipped, normalize_sparse_path, sparse_paths_from,
  normalize_sparse_paths, selection_for_options,
}

-- A part of a path that is not empty, ".", ".." or ".git".
pub record IsPlain (part : Text) : Type 0 where
  pub nonempty : part ≢ []
  pub not_here : part ≢ txt "."
  pub not_up : part ≢ txt ".."
  pub not_git : part ≢ txt ".git"

-- A relative path none of whose parts is empty, ".", ".." or ".git", with no wildcard.
pub record IsSafe (path : Text) : Type 0 where
  pub nonempty : path ≢ []
  pub no_wildcard : All (λ c. (c ≢ b'*') × (c ≢ b'?') × (c ≢ b'[')) path
  pub parts : All IsPlain (split b'/' path)

any-false-All :
    {A : Type 0} (p : A → Bool) (xs : List A) → any p xs ≡ false → All (λ x. p x ≡ false) xs
unfolding any
any-false-All p [] e = tt
any-false-All p (x ∷ xs) e = (ground arith, any-false-All p xs (ground arith))

safe-IsPlain : (part : Text) → is_unsafe_part part ≡ false → IsPlain part
unfolding is_unsafe_part
safe-IsPlain part h = record {
  nonempty = λ e. ground arith;
  not_here = λ e. ground (arith, eq_iff part (txt "."));
  not_up = λ e. ground (arith, eq_iff part (txt ".."));
  not_git = λ e. ground (arith, eq_iff part (txt ".git"));
}

no_wildcards :
    (path : Text)
    → contains_any path (txt "*?[") ≡ false
    → All (λ c. (c ≢ b'*') × (c ≢ b'?') × (c ≢ b'[')) path
unfolding contains_any contains_byte any
no_wildcards path h =
    All-imp _ _ path (λ c absent. (λ e. ground arith, λ e. ground arith, λ e. ground arith))
      (any-false-All (λ d. contains_byte d (txt "*?[")) path h)

kept-IsSafe : (path : Text) → is_skipped path ≡ false → IsSafe path
unfolding is_skipped
kept-IsSafe path e = record {
  nonempty = ground arith;
  no_wildcard = no_wildcards path (ground arith);
  parts =
      All-imp _ IsPlain (split b'/' path) safe-IsPlain
        (any-false-All is_unsafe_part (split b'/' path) (ground arith));
}

sparse_paths_from-IsSafe : (seen items : List Text) → All IsSafe (sparse_paths_from seen items)
unfolding sparse_paths_from
sparse_paths_from-IsSafe seen [] = tt
sparse_paths_from-IsSafe seen (item ∷ items) =
    let path = normalize_sparse_path item in
    elim (Bool-cases (is_skipped path || mem_text path seen)) [
      | inl skipped ↦ rw skipped (sparse_paths_from-IsSafe seen items)
      | inr kept ↦
          rw kept (kept-IsSafe path (ground arith), sparse_paths_from-IsSafe (path ∷ seen) items)
    ]

sparse_paths_from-Unseen :
    (seen items : List Text) → All (Unseen seen) (sparse_paths_from seen items)
unfolding sparse_paths_from
sparse_paths_from-Unseen seen [] = tt
sparse_paths_from-Unseen seen (item ∷ items) =
    let path = normalize_sparse_path item in
    elim (Bool-cases (is_skipped path || mem_text path seen)) [
      | inl skipped ↦ rw skipped (sparse_paths_from-Unseen seen items)
      | inr kept ↦
          rw kept (
            (ground arith),
            weaken-Unseen path seen _ (sparse_paths_from-Unseen (path ∷ seen) items),
          )
    ]

sparse_paths_from-ne : (seen items : List Text) → Pairs ◌≢◌ (sparse_paths_from seen items)
unfolding sparse_paths_from
sparse_paths_from-ne seen [] = tt
sparse_paths_from-ne seen (item ∷ items) =
    let path = normalize_sparse_path item in
    elim (Bool-cases (is_skipped path || mem_text path seen)) [
      | inl skipped ↦ rw skipped (sparse_paths_from-ne seen items)
      | inr kept ↦ rw kept (
        Unseen-ne path seen _ (sparse_paths_from-Unseen (path ∷ seen) items),
        sparse_paths_from-ne (path ∷ seen) items,
      )
    ]

-- Whatever the options name, the selected sparse paths are pairwise different, and each is
-- nonempty, has no wildcard, and has no part that is empty, ".", ".." or ".git".
pub selection_for_options-IsSafe :
    (options : Options)
    → All IsSafe (selection_for_options options).sparse_paths
      × Pairs ◌≢◌ (selection_for_options options).sparse_paths
unfolding selection_for_options normalize_sparse_paths
selection_for_options-IsSafe options = ground (
  arith,
  sparse_paths_from-IsSafe [] options.sparse_paths,
  sparse_paths_from-ne [] options.sparse_paths,
)
