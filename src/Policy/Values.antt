-- ===== src/Policy/Values.antt =====
-- internal/policy/policy.go: what the tests of a policy's values let pass.
use codemesh.Base.{
  ℕ, Text, ◌≡◌, ◌≢◌, ◌⊎◌, ◌∙◌, eq_iff, =ℕ_iff, ◌=ℕ◌, Bool, true, false, not, ◌||◌, [], ◌∷◌,
  trim_space, clean, arith, All, every, any, contains_byte, inl, inr, Bool-cases, IsRelative, Stays,
  is_abs-IsRelative, climbs-Stays,
}
use mathlib.Core.Path.{}
use codemesh.Host.{Host}
use codemesh.Toolchain.{valid_requirement_name, valid_characters, valid_character}
use codemesh.Policy.{is_blank, file_leaves_checkout, is_assignment, leaves_checkout}
use codemesh.Policy.Rules.{not-false, not_blank}

-- A nonblank value that passes a further test.
abbrev pub Passes : (Text → Bool) → Text → Type 0
Passes bad value = (is_blank value ≡ false) × (bad value ≡ false)

-- A path that is not blank and does not leave the checkout.
abbrev pub StaysInside : Text → Type 0
StaysInside path = (trim_space path ≢ []) × IsRelative path × Stays (clean path)

-- A key with no outer space and no "=".
abbrev pub IsKey : Text → Type 0
IsKey key = (key ≢ []) × (trim_space key ≡ key) × All (λ c. c ≢ b'=') key

module _ (h : Host) where
  abbrev pub IsAlphanumeric : ℕ → Type 0
  IsAlphanumeric c = (h.is_letter c ≡ true) ⊎ (h.is_digit c ≡ true)

  abbrev pub IsNamePart : ℕ → Type 0
  IsNamePart c = IsAlphanumeric c ⊎ ((c ≡ b'-') ⊎ ((c ≡ b'_') ⊎ ((c ≡ b'.') ⊎ (c ≡ b'+'))))

  -- A letter or digit, and then letters, digits and the characters "-_.+".
  abbrev pub IsToolName : Text → Type 0
  IsToolName [] = ⊥
  IsToolName (c ∷ s) = IsAlphanumeric c × All IsNamePart s

  first-IsAlphanumeric : (c : ℕ) → valid_character h true c ≡ true → IsAlphanumeric c
  unfolding valid_character
  first-IsAlphanumeric c e = elim (Bool-cases (h.is_letter c)) [
    | inl letter ↦ inl letter
    | inr other ↦ inr (ground arith)
  ]

  later-IsNamePart : (c : ℕ) → valid_character h false c ≡ true → IsNamePart c
  unfolding valid_character
  later-IsNamePart c e = elim (Bool-cases (h.is_letter c)) [
    | inl letter ↦ inl (inl letter)
    | inr n1 ↦ elim (Bool-cases (h.is_digit c)) [
      | inl digit ↦ inl (inr digit)
      | inr n2 ↦ inr (mark (rw (n1, n2) at e))
    ]
  ]
    where
      mark :
          (c =ℕ b'-' || c =ℕ b'_' || c =ℕ b'.' || c =ℕ b'+') ≡ true
          → (c ≡ b'-') ⊎ ((c ≡ b'_') ⊎ ((c ≡ b'.') ⊎ (c ≡ b'+')))
      mark g = elim (Bool-cases (c =ℕ b'-')) [
        | inl e ↦ inl ((=ℕ_iff c b'-').0 e)
        | inr m1 ↦ elim (Bool-cases (c =ℕ b'_')) [
          | inl e ↦ inr (inl ((=ℕ_iff c b'_').0 e))
          | inr m2 ↦ elim (Bool-cases (c =ℕ b'.')) [
            | inl e ↦ inr (inr (inl ((=ℕ_iff c b'.').0 e)))
            | inr m3 ↦ inr (inr (inr ((=ℕ_iff c b'+').0 (rw (m1, m2, m3) at g))))
          ]
        ]
      ]

  every-IsNamePart : (s : Text) → every (valid_character h false) s ≡ true → All IsNamePart s
  unfolding every
  every-IsNamePart [] e = tt
  every-IsNamePart (c ∷ s) e =
      (later-IsNamePart c (ground arith), every-IsNamePart s (ground arith))

  pub valid_requirement_name-IsToolName :
      (name : Text) → not (valid_requirement_name h name) ≡ false → IsToolName name
  unfolding valid_requirement_name valid_characters
  valid_requirement_name-IsToolName [] e = cc
  valid_requirement_name-IsToolName (c ∷ s) e =
      (first-IsAlphanumeric c (ground arith), every-IsNamePart s (ground arith))

not_blank-ne : (v : Text) → is_blank v ≡ false → trim_space v ≢ []
not_blank-ne v fine = not_blank (trim_space v) fine

pub file-StaysInside : (v : Text) → Passes file_leaves_checkout v → StaysInside v
unfolding file_leaves_checkout
file-StaysInside v (filled, good) = (
  not_blank-ne v filled,
  is_abs-IsRelative v (ground arith),
  climbs-Stays (clean v) (ground arith),
)

pub doc-StaysInside : (v : Text) → Passes leaves_checkout v → StaysInside v
unfolding leaves_checkout
doc-StaysInside v (filled, good) = (
  not_blank-ne v filled,
  is_abs-IsRelative v (ground arith),
  climbs-Stays (clean v) (ground arith),
)

no_equals : (v : Text) → contains_byte b'=' v ≡ false → All (λ c. c ≢ b'=') v
unfolding contains_byte any
no_equals [] e = tt
no_equals (c ∷ s) e = ((λ same. ground arith), no_equals s (ground arith))

pub is_assignment-IsKey : (v : Text) → Passes is_assignment v → IsKey v
unfolding is_assignment
is_assignment-IsKey v (filled, good) =
    let same : trim_space v ≡ v = (eq_iff (trim_space v) v).0 (not-false (ground arith)) in
    ((λ e. not_blank-ne v filled (same ∙ e)), same, no_equals v (ground arith))
