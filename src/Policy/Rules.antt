-- ===== src/Policy/Rules.antt =====
-- internal/policy/policy.go: the rules that the local-only paths of a policy file become.
use codemesh.Base.{
  ℕ, ◌+◌, Text, txt, ◌≡◌, ◌≢◌, sym, ap, ◌∙◌, ◌==◌, ◌!=◌, eq_iff, Bool, true, false, not, ◌||◌, some,
  List, [], ◌∷◌, trim_space, clean, is_abs, climbs, arith, ok, >>=-ok, >>-ok, refuse_if-ok,
  ok_injective, some_injective, refuse_if, is_empty, inl, inr, Bool-cases, Option-cases, IsRelative,
  Stays, is_abs-IsRelative, climbs-Stays,
}
use mathlib.Core.Path.{subst}
use codemesh.Policy.{
  PathRule, LocalOnlyPath, PathCategory, dependency, build, cache, generated, env_config,
  os_specific, parse_category, check_category, parse_local_only_path, parse_local_only_paths,
  bad_path, empty_path, padded_path, empty_category, padded_category, source_category,
}

pub not-false : {b : Bool} → not b ≡ false → b ≡ true
not-false {b} h = ground arith

pub not_blank : (x : Text) → is_empty x ≡ false → x ≢ []
not_blank [] h e = cc
not_blank (c ∷ s) h e = cc

-- The text that names a category.
abbrev pub category_text : PathCategory → Text
category_text dependency = txt "dependency"
category_text build = txt "build"
category_text cache = txt "cache"
category_text generated = txt "generated"
category_text env_config = txt "env-config"
category_text os_specific = txt "os-specific"

parse_category-text :
    (text : Text) (c : PathCategory) → parse_category text ≡ some c → text ≡ category_text c
unfolding parse_category
parse_category-text text c h = elim (Bool-cases (text == txt "dependency")) [
  | inl e ↦ named dependency e (some_injective (rw e at h))
  | inr n1 ↦ elim (Bool-cases (text == txt "build")) [
    | inl e ↦ named build e (some_injective (rw (n1, e) at h))
    | inr n2 ↦ elim (Bool-cases (text == txt "cache")) [
      | inl e ↦ named cache e (some_injective (rw (n1, n2, e) at h))
      | inr n3 ↦ elim (Bool-cases (text == txt "generated")) [
        | inl e ↦ named generated e (some_injective (rw (n1, n2, n3, e) at h))
        | inr n4 ↦ elim (Bool-cases (text == txt "env-config")) [
          | inl e ↦ named env_config e (some_injective (rw (n1, n2, n3, n4, e) at h))
          | inr n5 ↦ elim (Bool-cases (text == txt "os-specific")) [
            | inl e ↦ named os_specific e (some_injective (rw (n1, n2, n3, n4, n5, e) at h))
            | inr n6 ↦ cc (rw (n1, n2, n3, n4, n5, n6) at h)
          ]
        ]
      ]
    ]
  ]
]
  where
    named : (d : PathCategory) → (text == category_text d) ≡ true → d ≡ c → text ≡ category_text c
    named d e same = subst (λ x. text ≡ category_text x) same ((eq_iff text (category_text d)).0 e)

-- The rule of an entry: its cleaned path, which stays in the checkout, and its category.
pub record IsRuleOf (v : LocalOnlyPath) (rule : PathRule) : Type 0 where
  pub cleaned : rule.path ≡ clean v.path
  pub category : v.category ≡ category_text rule.category
  pub filled : v.path ≢ []
  pub trimmed : trim_space v.path ≡ v.path
  pub relative : IsRelative v.path
  pub not_root : rule.path ≢ txt "."
  pub stays : IsRelative rule.path × Stays rule.path

-- One rule for each entry, in their order.
abbrev pub AreRulesOf : List LocalOnlyPath → List PathRule → Type 0
AreRulesOf [] [] = Unit
AreRulesOf [] (rule ∷ rules) = ⊥
AreRulesOf (v ∷ vs) [] = ⊥
AreRulesOf (v ∷ vs) (rule ∷ rules) = IsRuleOf v rule × AreRulesOf vs rules

check_category-text :
    (i : ℕ) (raw : Text) {c : PathCategory} → check_category i raw ≡ ok c → raw ≡ category_text c
unfolding check_category
check_category-text i raw {c} h =
    let (_, h1) = >>-ok (refuse_if (is_empty (trim_space raw)) (empty_category i)) _ h in
    let (same, h2) = >>-ok (refuse_if (trim_space raw != raw) (padded_category i)) _ h1 in
    let (_, h3) = >>-ok (refuse_if (trim_space raw == txt "source") (source_category i)) _ h2 in
    let trimmed : trim_space raw ≡ raw =
      (eq_iff (trim_space raw) raw).0 (not-false (refuse_if-ok _ (padded_category i) same)) in
    elim (Option-cases (parse_category (trim_space raw))) [
      | inl unknown ↦ cc (rw unknown at h3)
      | inr (d, known) ↦
          let e : d ≡ c = ok_injective (rw known at h3) in
          sym trimmed
          ∙ parse_category-text (trim_space raw) c (known ∙ ap (λ (x : PathCategory). some x) e)
    ]

-- The test of a local-only path.
abbrev leaves_or_names_root : Text → Bool
leaves_or_names_root path =
    is_abs path || is_abs (clean path) || clean path == txt "." || climbs (clean path)

parse_local_only_path-IsRuleOf :
    (i : ℕ) (v : LocalOnlyPath) {rule : PathRule}
    → parse_local_only_path i v ≡ ok rule
    → IsRuleOf v rule
unfolding parse_local_only_path
parse_local_only_path-IsRuleOf i v {rule} h =
    let path = trim_space v.path in
    let (some_path, h1) = >>-ok (refuse_if (is_empty path) (empty_path i)) _ h in
    let (same, h2) = >>-ok (refuse_if (path != v.path) (padded_path i)) _ h1 in
    let (good, h3) = >>-ok (refuse_if (leaves_or_names_root path) (bad_path i)) _ h2 in
    let fine = refuse_if-ok (leaves_or_names_root path) (bad_path i) good in
    let trimmed : path ≡ v.path =
      (eq_iff path v.path).0 (not-false (refuse_if-ok _ (padded_path i) same)) in
    let (c, named, h4) = >>=-ok (check_category i v.category) _ h3 in
    let filled = not_blank path (refuse_if-ok (is_empty path) (empty_path i) some_path) in
    subst (IsRuleOf v) {x = record { path = clean path; category = c }} (ok_injective h4) (record {
      cleaned = ap clean trimmed;
      category = check_category-text i v.category named;
      filled = λ e. filled (trimmed ∙ e);
      trimmed = trimmed;
      relative = subst IsRelative trimmed (is_abs-IsRelative path (ground arith));
      not_root = λ e. ground (arith, eq_iff (clean path) (txt "."));
      stays =
          (is_abs-IsRelative (clean path) (ground arith), climbs-Stays (clean path) (ground arith));
    })

pub parse_local_only_paths-AreRulesOf :
    (i : ℕ) (vs : List LocalOnlyPath) {rules : List PathRule}
    → parse_local_only_paths i vs ≡ ok rules
    → AreRulesOf vs rules
unfolding parse_local_only_paths
parse_local_only_paths-AreRulesOf i [] h = subst (AreRulesOf []) {x = []} (ground arith) tt
parse_local_only_paths-AreRulesOf i (v ∷ vs) h =
    let (rule, one, h1) = >>=-ok (parse_local_only_path i v) _ h in
    let (rules, others, h2) = >>=-ok (parse_local_only_paths (i + 1) vs) _ h1 in
    subst (AreRulesOf (v ∷ vs)) {x = rule ∷ rules} (ground arith)
      (parse_local_only_path-IsRuleOf i v one, parse_local_only_paths-AreRulesOf (i + 1) vs others)
