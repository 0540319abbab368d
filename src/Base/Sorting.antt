-- ===== src/Base/Sorting.antt =====
-- `sort.SliceStable` and the other sorts of the package `sort`: equal elements keep their order.
use mathlib.Core.Path.{◌≡◌}
use mathlib.Core.Bool.{Bool, true, false}
use mathlib.Core.Logic.{inl, inr}
use mathlib.Core.List.{List, [], ◌∷◌, Perm}
use mathlib.Core.List.Perm
use codemesh.Base.Tests.{if◌then◌else◌, Bool-cases, All, Pairs}

module _ {ℓ} {A : Type ℓ} (less : A → A → Bool) where
  unfoldable pub place : A → List A → List A
  place x [] = x ∷ []
  place x (y ∷ ys) = let on = y ∷ place x ys in if less y x then on else x ∷ y ∷ ys

  unfoldable pub sort : List A → List A
  unfolding place
  sort [] = []
  sort (x ∷ xs) = place x (sort xs)

  module _ {κ} (P : A → Type κ) where
    place-All : (x : A) (xs : List A) → P x → All P xs → All P (place x xs)
    unfolding place
    place-All x [] p h = (p, tt)
    place-All x (y ∷ ys) p h = elim (Bool-cases (less y x)) [
      | inl lower ↦ rw lower (h.0, place-All x ys p h.1)
      | inr other ↦ rw other (p, h)
    ]

    pub sort-All : (xs : List A) → All P xs → All P (sort xs)
    unfolding sort
    sort-All [] h = tt
    sort-All (x ∷ xs) h = place-All x (sort xs) h.0 (sort-All xs h.1)

  -- For a symmetric relation that holds between any two of the elements.
  module _ {κ} (R : A → A → Type κ) (symmetric : (x y : A) → R x y → R y x) where
    place-Pairs : (x : A) (xs : List A) → All (R x) xs → Pairs R xs → Pairs R (place x xs)
    unfolding place
    place-Pairs x [] p h = (tt, tt)
    place-Pairs x (y ∷ ys) p h = elim (Bool-cases (less y x)) [
      | inl lower ↦
          rw lower (place-All (R y) x ys (symmetric x y p.0) h.0, place-Pairs x ys p.1 h.1)
      | inr other ↦ rw other (p, h)
    ]

    pub sort-Pairs : (xs : List A) → Pairs R xs → Pairs R (sort xs)
    unfolding sort
    sort-Pairs [] h = tt
    sort-Pairs (x ∷ xs) h = place-Pairs x (sort xs) (sort-All (R x) xs h.0) (sort-Pairs xs h.1)

  -- No element comes below the one before it.
  abbrev pub Follows : A → List A → Type 0
  Follows x [] = Unit
  Follows x (y ∷ ys) = less y x ≡ false

  abbrev pub Linked : List A → Type 0
  Linked [] = Unit
  Linked (x ∷ xs) = Follows x xs × Linked xs

  module _ (asym : (x y : A) → less x y ≡ true → less y x ≡ false) where
    place-Follows :
        (y x : A) (xs : List A) → less x y ≡ false → Follows y xs → Follows y (place x xs)
    unfolding place
    place-Follows y x [] low above = low
    place-Follows y x (z ∷ zs) low above = elim (Bool-cases (less z x)) [
      | inl lower ↦ rw lower above
      | inr other ↦ rw other low
    ]

    place-Linked : (x : A) (xs : List A) → Linked xs → Linked (place x xs)
    unfolding place
    place-Linked x [] h = (tt, tt)
    place-Linked x (y ∷ ys) h = elim (Bool-cases (less y x)) [
      | inl lower ↦ rw lower (place-Follows y x ys (asym y x lower) h.0, place-Linked x ys h.1)
      | inr other ↦ rw other (other, h)
    ]

    pub sort-Linked : (xs : List A) → Linked (sort xs)
    unfolding sort
    sort-Linked [] = tt
    sort-Linked (x ∷ xs) = place-Linked x (sort xs) (sort-Linked xs)

  place-Perm : (x : A) (xs : List A) → Perm (place x xs) (x ∷ xs)
  unfolding place
  place-Perm x [] = Perm.refl (x ∷ [])
  place-Perm x (y ∷ ys) = elim (Bool-cases (less y x)) [
    | inl lower ↦ rw lower (Perm.trans (Perm.cons y (place-Perm x ys)) (Perm.swap x y ys))
    | inr other ↦ rw other (Perm.refl (x ∷ y ∷ ys))
  ]

  -- To sort a list only moves its elements.
  pub sort-Perm : (xs : List A) → Perm (sort xs) xs
  unfolding sort
  sort-Perm [] = Perm.refl []
  sort-Perm (x ∷ xs) = Perm.trans (place-Perm x (sort xs)) (Perm.cons x (sort-Perm xs))

-- A relation of every element to the next one.
abbrev pub Before {ℓ κ} : {A : Type ℓ} → (A → A → Type κ) → A → List A → Type κ
Before R x [] = Unit
Before R x (y ∷ ys) = R x y

abbrev pub Consecutive {ℓ κ} : {A : Type ℓ} → (A → A → Type κ) → List A → Type κ
Consecutive R [] = Unit
Consecutive R (x ∷ xs) = Before R x xs × Consecutive R xs

pub Linked-Consecutive {ℓ κ} :
    {A : Type ℓ} (less : A → A → Bool) (R : A → A → Type κ)
    → ((x y : A) → less y x ≡ false → R x y)
    → (xs : List A) → Linked less xs
    → Consecutive R xs
Linked-Consecutive less R f [] h = tt
Linked-Consecutive less R f (x ∷ []) h = (tt, tt)
Linked-Consecutive less R f (x ∷ y ∷ ys) h = (f x y h.0, Linked-Consecutive less R f (y ∷ ys) h.1)
