-- ===== src/Base/Listings.antt =====
-- What a list of names that was tidied is, said of the list alone.
use mathlib.Core.Path.{◌≡◌, refl, sym, ap, subst, ◌∙◌}
use mathlib.Core.Logic.{◌⊎◌, ◌≢◌, inl, inr}
use mathlib.Core.Bool.{true, false, ◌||◌}
use mathlib.Core.List.{List, [], ◌∷◌}
use native.Mathlib.Omega.{arith}
use codemesh.Base.Tests.{is_empty, Bool-cases, All, Pairs, any}
use codemesh.Base.Strings.{Text, eq_iff, ◌==◌, trim_space, mem_text, text_lt}
use codemesh.Base.Sorting.{sort, place, sort-All, sort-Pairs, Linked, sort-Linked}
use codemesh.Base.Names.{unique_from, unique_sorted}
use codemesh.Base.Tidy.{text_lt_asym, unique_from-ne}

abbrev pub Among : Text → List Text → Type 0
Among x [] = ⊥
Among x (y ∷ ys) = (y ≡ x) ⊎ Among x ys

pub All-Among : (P : Text → Type 0) (xs : List Text) (x : Text) → All P xs → Among x xs → P x
All-Among P [] x h m = absurd m
All-Among P (y ∷ ys) x h (inl e) = subst P e h.0
All-Among P (y ∷ ys) x h (inr m) = All-Among P ys x h.1 m

pub mem_text-Among : (x : Text) (xs : List Text) → mem_text x xs ≡ true → Among x xs
unfolding mem_text any
mem_text-Among x [] h = cc
mem_text-Among x (y ∷ ys) h = elim (Bool-cases (y == x)) [
  | inl e ↦ inl ((eq_iff y x).0 e)
  | inr e ↦ inr (mem_text-Among x ys (ground arith))
]

-- The name is one of the values without its outer space, and is not empty.
abbrev pub Named : List Text → Text → Type 0
Named values name = (name ≢ []) × ((value : Text) × Among value values × (trim_space value ≡ name))

-- The names are the values that are not blank, without outer space, in order and each once.
pub record Listing (values names : List Text) : Type 0 where
  pub ascending : Linked text_lt names
  pub different : Pairs ◌≢◌ names
  pub named : All (Named values) names
  pub complete :
      (value : Text) → Among value values → trim_space value ≢ [] → Among (trim_space value) names

place-Among_self : (x : Text) (xs : List Text) → Among x (place text_lt x xs)
unfolding place
place-Among_self x [] = inl refl
place-Among_self x (y ∷ ys) = elim (Bool-cases (text_lt y x)) [
  | inl lower ↦ rw lower (inr (place-Among_self x ys))
  | inr other ↦ rw other (inl refl)
]

later-Among :
    (z y : Text) (xs ys : List Text)
    → (Among z xs → Among z ys)
    → Among z (y ∷ xs)
    → Among z (y ∷ ys)
later-Among z y xs ys f (inl e) = inl e
later-Among z y xs ys f (inr m) = inr (f m)

place-Among : (z x : Text) (xs : List Text) → Among z xs → Among z (place text_lt x xs)
unfolding place
place-Among z x [] m = absurd m
place-Among z x (y ∷ ys) m = elim (Bool-cases (text_lt y x)) [
  | inr other ↦ rw other (inr m)
  | inl lower ↦ rw lower (later-Among z y ys _ (place-Among z x ys) m)
]

sort-Among : (z : Text) (xs : List Text) → Among z xs → Among z (sort text_lt xs)
unfolding sort
sort-Among z [] m = m
sort-Among z (x ∷ xs) (inl e) =
    subst (λ y. Among y (place text_lt x (sort text_lt xs))) e
      (place-Among_self x (sort text_lt xs))
sort-Among z (x ∷ xs) (inr m) = place-Among z x (sort text_lt xs) (sort-Among z xs m)

is_empty-false : (x : Text) → is_empty x ≡ false → x ≢ []
is_empty-false [] h e = cc
is_empty-false (c ∷ s) h e = cc

Named-cons :
    (v : Text) (values names : List Text)
    → All (Named values) names
    → All (Named (v ∷ values)) names
Named-cons v values [] h = tt
Named-cons v values (n ∷ ns) ((filled, (value, m, e)), h) =
    ((filled, (value, inr m, e)), Named-cons v values ns h)

unique_from-Named : (seen values : List Text) → All (Named values) (unique_from seen values)
unfolding unique_from
unique_from-Named seen [] = tt
unique_from-Named seen (value ∷ values) =
    let v = trim_space value in
    elim (Bool-cases (is_empty v || mem_text v seen)) [
      | inl skipped ↦ rw skipped (Named-cons value values _ (unique_from-Named seen values))
      | inr kept ↦ rw kept (
        (is_empty-false v (ground arith), (value, inl refl, refl)),
        Named-cons value values _ (unique_from-Named (v ∷ seen) values),
      )
    ]

shift :
    (t v : Text) (seen names : List Text)
    → Among t (v ∷ seen) ⊎ Among t names
    → Among t seen ⊎ Among t (v ∷ names)
shift t v seen names (inl (inl e)) = inr (inl e)
shift t v seen names (inl (inr m)) = inl m
shift t v seen names (inr m) = inr (inr m)

skipped-Among :
    (v : Text) (seen : List Text) → (is_empty v || mem_text v seen) ≡ true → v ≢ [] → Among v seen
skipped-Among [] seen h filled = absurd (filled refl)
skipped-Among (c ∷ s) seen h filled = mem_text-Among (c ∷ s) seen h

unique_from_complete :
    (seen values : List Text) (value : Text)
    → Among value values
    → trim_space value ≢ []
    → Among (trim_space value) seen ⊎ Among (trim_space value) (unique_from seen values)
unfolding unique_from
unique_from_complete seen [] value m filled = absurd m
unique_from_complete seen (first ∷ values) value (inr m) filled =
    let v = trim_space first in
    elim (Bool-cases (is_empty v || mem_text v seen)) [
      | inl skipped ↦ rw skipped (unique_from_complete seen values value m filled)
      | inr kept ↦
          rw kept (shift _ v seen _ (unique_from_complete (v ∷ seen) values value m filled))
    ]
unique_from_complete seen (first ∷ values) value (inl e) filled =
    let v = trim_space first in
    let same : v ≡ trim_space value = ap trim_space e in
    elim (Bool-cases (is_empty v || mem_text v seen)) [
      | inl skipped ↦ inl (
          subst (λ t. Among t seen) same
            (skipped-Among v seen skipped (λ blank. filled (sym same ∙ blank))))
      | inr kept ↦ rw kept (inr (inl same))
    ]

not_seen : (x : Text) (names : List Text) → Among x [] ⊎ Among x names → Among x names
not_seen x names (inl m) = absurd m
not_seen x names (inr m) = m

pub unique_sorted-Listing : (values : List Text) → Listing values (unique_sorted values)
unfolding unique_sorted
unique_sorted-Listing values =
    let names = unique_from [] values in
    record {
      ascending = sort-Linked text_lt text_lt_asym names;
      different = sort-Pairs text_lt ◌≢◌ (λ x y d e. d (sym e)) names (unique_from-ne [] values);
      named = sort-All text_lt (Named values) names (unique_from-Named [] values);
      complete = λ value m filled.
          sort-Among (trim_space value) names
            (not_seen _ names (unique_from_complete [] values value m filled));
    }
