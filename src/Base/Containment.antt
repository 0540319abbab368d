-- ===== src/Base/Containment.antt =====
-- A relative path that does not climb stays below the directory that it is joined to.
use Prim.Native.Nat.{ℕ}
use mathlib.Core.Path.{◌≡◌, refl, sym, ap, subst, ◌∙◌}
use mathlib.Core.Logic.{◌≢◌, inl, inr}
use mathlib.Core.Bool.{Bool, true, false}
use mathlib.Core.List.{List, [], ◌∷◌, ◌++◌, reverse, reverse-append, reverse-reverse}
use native.Mathlib.Omega.{arith}
use codemesh.Base.Tests.{Bool-cases}
use codemesh.Base.Strings.{Text, txt, ◌==◌, eq_iff, has_prefix, split, split_onto, join_by}
use codemesh.Base.Paths.{
  is_abs, push_element, push_elements, elements, from_elements, clean, join, climbs,
}

split_onto-append :
    (c : ℕ) (acc s t : Text) → split_onto c acc (s ++ c ∷ t) ≡ split_onto c acc s ++ split c t
unfolding split_onto split
split_onto-append c acc [] t = ground arith
split_onto-append c acc (d ∷ s) t =
    ground (arith, split_onto-append c [] s t, split_onto-append c (d ∷ acc) s t)

pub push_elements-append :
    (rooted : Bool) (stack xs ys : List Text)
    → push_elements rooted stack (xs ++ ys)
      ≡ push_elements rooted (push_elements rooted stack xs) ys
unfolding push_elements
push_elements-append rooted stack [] ys = refl
push_elements-append rooted stack (x ∷ xs) ys =
    push_elements-append rooted (push_element rooted stack x) xs ys

-- The element that was pushed first.
bottom_is_up : List Text → Bool
bottom_is_up [] = false
bottom_is_up (e ∷ []) = e == txt ".."
bottom_is_up (e ∷ f ∷ es) = bottom_is_up (f ∷ es)

push_element-bottom :
    (stack : List Text) (e : Text)
    → bottom_is_up stack ≡ true
    → bottom_is_up (push_element false stack e) ≡ true
unfolding push_element bottom_is_up
push_element-bottom [] e h = cc
push_element-bottom (t ∷ []) e h = ground arith
push_element-bottom (t ∷ u ∷ stack) e h = ground arith

push_elements-bottom :
    (stack es : List Text)
    → bottom_is_up stack ≡ true
    → bottom_is_up (push_elements false stack es) ≡ true
unfolding push_elements
push_elements-bottom stack [] h = h
push_elements-bottom stack (e ∷ es) h =
    push_elements-bottom (push_element false stack e) es (push_element-bottom stack e h)

-- On a stack that is the floor of another, an element that does not break through the floor does
-- what it does on the other alone.
push_element-floor :
    (stack floor : List Text) (e : Text)
    → bottom_is_up (push_element false stack e) ≡ false
    → push_element true (stack ++ floor) e ≡ push_element false stack e ++ floor
unfolding push_element bottom_is_up
push_element-floor [] [] e h = ground arith
push_element-floor [] (f ∷ floor) e h = ground arith
push_element-floor (t ∷ stack) floor e h = ground arith

push_elements-floor :
    (stack floor es : List Text)
    → bottom_is_up (push_elements false stack es) ≡ false
    → push_elements true (stack ++ floor) es ≡ push_elements false stack es ++ floor
unfolding push_elements
push_elements-floor stack floor [] h = refl
push_elements-floor stack floor (e ∷ es) h =
    let next = push_element false stack e in
    elim (Bool-cases (bottom_is_up next)) [
      | inl up ↦ cc (push_elements-bottom next es up)
      | inr down ↦ rw (push_element-floor stack floor e down) (push_elements-floor next floor es h)
    ]

-- A text that begins with ".." or "../" as a cleaned path climbs.
pub join_by-up : (es : List Text) → climbs (join_by b'/' (txt ".." ∷ es)) ≡ true
unfolding climbs join_by has_prefix ◌==◌
join_by-up [] = refl
join_by-up (e ∷ es) = refl

bottom-reverse : (e : Text) (es : List Text) → bottom_is_up (reverse (e ∷ es)) ≡ (e == txt "..")
unfolding bottom_is_up
bottom-reverse e es = rw (reverse-append (e ∷ []) es) (last_one (reverse es))
  where
    last_one : (xs : List Text) → bottom_is_up (xs ++ e ∷ []) ≡ (e == txt "..")
    last_one [] = refl
    last_one (x ∷ []) = refl
    last_one (x ∷ y ∷ xs) = last_one (y ∷ xs)

no_climb-bottom :
    (es : List Text) → climbs (from_elements false es) ≡ false → bottom_is_up (reverse es) ≡ false
unfolding from_elements bottom_is_up
no_climb-bottom [] h = refl
no_climb-bottom (e ∷ es) h = elim (Bool-cases (e == txt "..")) [
  | inr other ↦ bottom-reverse e es ∙ other
  | inl up ↦
      let same : e ≡ txt ".." = (eq_iff e (txt "..")).0 up in
      cc (subst (λ x. climbs (join_by b'/' (x ∷ es)) ≡ false) same h, join_by-up es)
]

pub split-append : (c : ℕ) (s t : Text) → split c (s ++ c ∷ t) ≡ split c s ++ split c t
unfolding split
split-append c s t = split_onto-append c [] s t

is_abs-append : (s t : Text) → is_abs s ≡ true → is_abs (s ++ t) ≡ true
unfolding is_abs
is_abs-append [] t h = cc
is_abs-append (c ∷ s) t h = h

elements-join_by :
    (root path : Text)
    → is_abs root ≡ true
    → is_abs path ≡ false
    → climbs (clean path) ≡ false
    → elements (root ++ b'/' ∷ path) ≡ elements root ++ elements path
unfolding elements clean
elements-join_by root path rooted relative down =
    let floor = push_elements true [] (split b'/' root) in
    let stack = push_elements false [] (split b'/' path) in
    let base : bottom_is_up stack ≡ false =
      rw (sym (reverse-reverse stack)) (no_climb-bottom (reverse stack) (rw relative at down)) in
    rw
      (
        is_abs-append root (b'/' ∷ path) rooted,
        rooted,
        relative,
        split-append,
        push_elements-append,
      )
      (rw (push_elements-floor [] floor (split b'/' path) base) (reverse-append stack floor))

not_abs-nil : is_abs [] ≢ true
unfolding is_abs
not_abs-nil e = cc

clean_rooted : (s : Text) → is_abs s ≡ true → clean s ≡ from_elements true (elements s)
unfolding clean
clean_rooted s h = rw h

join_two :
    (c : ℕ) (root path : Text) → join ((c ∷ root) ∷ path ∷ []) ≡ clean ((c ∷ root) ++ b'/' ∷ path)
unfolding join join_by
join_two c root path = refl

-- Joined to an absolute directory, a relative path that does not climb names what its own elements
-- name below the elements of the directory.
pub join-elements :
    (root path : Text)
    → is_abs root ≡ true
    → is_abs path ≡ false
    → climbs (clean path) ≡ false
    → join (root ∷ path ∷ []) ≡ from_elements true (elements root ++ elements path)
join-elements [] path rooted relative down = absurd (not_abs-nil rooted)
join-elements (c ∷ root) path rooted relative down =
    join_two c root path
    ∙ clean_rooted ((c ∷ root) ++ b'/' ∷ path) (is_abs-append (c ∷ root) (b'/' ∷ path) rooted)
    ∙ ap (from_elements true) (elements-join_by (c ∷ root) path rooted relative down)
