-- ===== src/Base/Tidy.antt =====
-- To make a list of names tidy twice changes nothing more.
use mathlib.Core.Path.{◌≡◌, refl, sym, ap, subst, ◌∙◌}
use mathlib.Core.Logic.{◌⊎◌, ◌≢◌, inl, inr}
use mathlib.Core.Bool.{Bool, true, false, ◌||◌}
use mathlib.Core.List.{List, [], ◌∷◌}
use Prim.Native.Nat.{ℕ}
use native.Mathlib.Omega.{arith}
use codemesh.Base.Tests.{is_empty, Bool-cases, All, Pairs, any}
use codemesh.Base.Strings.{
  Text, ◌==◌, eq_iff, trim_space, trim_left_by, trim_right_by, is_space, mem_text, text_lt,
}
use codemesh.Base.Sorting.{sort, place, sort-All, sort-Pairs, Follows, Linked, sort-Linked}
use codemesh.Base.Distinct.{Unseen, weaken-Unseen, Unseen-ne}
use codemesh.Base.Names.{unique_from, unique_sorted}

List-cases : (s : Text) → (s ≡ []) ⊎ ((c : ℕ) × (r : Text) × (s ≡ c ∷ r))
List-cases [] = inl refl
List-cases (c ∷ r) = inr (c, r, refl)

module _ (p : ℕ → Bool) where
  starts : Text → Bool
  starts [] = false
  starts (c ∷ s) = p c

  trim_left-starts : (s : Text) → starts (trim_left_by p s) ≡ false
  unfolding trim_left_by starts
  trim_left-starts [] = refl
  trim_left-starts (c ∷ s) = ground (arith, trim_left-starts s)

  trim_left-same : (s : Text) → starts s ≡ false → trim_left_by p s ≡ s
  unfolding trim_left_by starts
  trim_left-same [] h = refl
  trim_left-same (c ∷ s) h = ground arith

  trim_right-starts : (s : Text) → starts s ≡ false → starts (trim_right_by p s) ≡ false
  unfolding trim_right_by starts
  trim_right-starts [] h = refl
  trim_right-starts (c ∷ s) h = elim (List-cases (trim_right_by p s)) [
    | inl e ↦ ground arith
    | inr (d, r, e) ↦ ground arith
  ]

  trim_right_idempotent : (s : Text) → trim_right_by p (trim_right_by p s) ≡ trim_right_by p s
  unfolding trim_right_by
  trim_right_idempotent [] = refl
  trim_right_idempotent (c ∷ s) = elim (List-cases (trim_right_by p s)) [
    | inl e ↦ ground arith
    | inr (d, r, e) ↦
        let again : trim_right_by p (d ∷ r) ≡ d ∷ r =
          subst (λ x. trim_right_by p x ≡ x) e (trim_right_idempotent s) in
        ground arith
  ]

pub trim_space_idempotent : (s : Text) → trim_space (trim_space s) ≡ trim_space s
unfolding trim_space
trim_space_idempotent s =
    let inner = trim_left_by is_space s in
    let kept =
      trim_left-same is_space (trim_right_by is_space inner)
        (trim_right-starts is_space inner (trim_left-starts is_space s)) in
    ap (trim_right_by is_space) kept ∙ trim_right_idempotent is_space inner

-- Names that are not blank and have no outer space.
abbrev pub Tidy : Text → Type 0
Tidy name = (trim_space name ≡ name) × (is_empty name ≡ false)

unique_from-Tidy : (seen values : List Text) → All Tidy (unique_from seen values)
unfolding unique_from
unique_from-Tidy seen [] = tt
unique_from-Tidy seen (value ∷ values) =
    let v = trim_space value in
    elim (Bool-cases (is_empty v || mem_text v seen)) [
      | inl skipped ↦ rw skipped (unique_from-Tidy seen values)
      | inr kept ↦
          rw kept ((trim_space_idempotent value, ground arith), unique_from-Tidy (v ∷ seen) values)
    ]

pub unique_from-Unseen : (seen values : List Text) → All (Unseen seen) (unique_from seen values)
unfolding unique_from
unique_from-Unseen seen [] = tt
unique_from-Unseen seen (value ∷ values) =
    let v = trim_space value in
    elim (Bool-cases (is_empty v || mem_text v seen)) [
      | inl skipped ↦ rw skipped (unique_from-Unseen seen values)
      | inr kept ↦
          rw kept (ground arith, weaken-Unseen v seen _ (unique_from-Unseen (v ∷ seen) values))
    ]

pub unique_from-ne : (seen values : List Text) → Pairs ◌≢◌ (unique_from seen values)
unfolding unique_from
unique_from-ne seen [] = tt
unique_from-ne seen (value ∷ values) =
    let v = trim_space value in
    elim (Bool-cases (is_empty v || mem_text v seen)) [
      | inl skipped ↦ rw skipped (unique_from-ne seen values)
      | inr kept ↦ rw kept (
        Unseen-ne v seen _ (unique_from-Unseen (v ∷ seen) values),
        unique_from-ne (v ∷ seen) values,
      )
    ]

Unseen-cons :
    (x : Text) (seen xs : List Text)
    → All (λ p. x ≢ p) xs
    → All (Unseen seen) xs
    → All (Unseen (x ∷ seen)) xs
unfolding mem_text any
Unseen-cons x seen [] other new = tt
Unseen-cons x seen (p ∷ ps) other new = (
  elim (Bool-cases (x == p)) [
    | inl e ↦ absurd (other.0 ((eq_iff x p).0 e))
    | inr e ↦ ground (arith, new.0)
  ],
  Unseen-cons x seen ps other.1 new.1,
)

unique_from-same :
    (seen xs : List Text)
    → All Tidy xs
    → All (Unseen seen) xs
    → Pairs ◌≢◌ xs
    → unique_from seen xs ≡ xs
unfolding unique_from
unique_from-same seen [] tidy new other = refl
unique_from-same seen (x ∷ xs) tidy new other =
    rw (tidy.0.0, tidy.0.1, new.0)
      (ap (λ r. x ∷ r)
        (unique_from-same (x ∷ seen) xs tidy.1 (Unseen-cons x seen xs other.0 new.1) other.1))

pub text_lt_asym : (s t : Text) → text_lt s t ≡ true → text_lt t s ≡ false
unfolding text_lt
text_lt_asym s [] h = cc
text_lt_asym [] (d ∷ t) h = refl
text_lt_asym (c ∷ s) (d ∷ t) h = ground (arith, text_lt_asym s t)

place-same : (x : Text) (xs : List Text) → Follows text_lt x xs → place text_lt x xs ≡ x ∷ xs
unfolding place
place-same x [] h = refl
place-same x (y ∷ ys) h = rw h refl

sort-same : (xs : List Text) → Linked text_lt xs → sort text_lt xs ≡ xs
unfolding sort
sort-same [] h = refl
sort-same (x ∷ xs) h = rw (sort-same xs h.1) (place-same x xs h.0)

-- A list that was made unique and sorted is not changed by doing so again: the names stay trimmed,
-- different and in order.
pub unique_sorted_idempotent :
    (values : List Text) → unique_sorted (unique_sorted values) ≡ unique_sorted values
unfolding unique_sorted
unique_sorted_idempotent values =
    let names = unique_from [] values in
    let kept =
      unique_from-same [] (sort text_lt names)
        (sort-All text_lt Tidy names (unique_from-Tidy [] values))
        (sort-All text_lt (Unseen []) names (unique_from-Unseen [] values))
        (sort-Pairs text_lt ◌≢◌ (λ x y d e. d (sym e)) names (unique_from-ne [] values)) in
    ap (sort text_lt) kept ∙ sort-same (sort text_lt names) (sort-Linked text_lt text_lt_asym names)
