-- ===== src/Base/Normal.antt =====
-- A cleaned path is in normal form: to clean it again changes nothing.
use Prim.Native.Nat.{ℕ}
use mathlib.Core.Path.{◌≡◌, refl, sym, ap, ◌∙◌}
use mathlib.Core.Logic.{inl, inr}
use mathlib.Core.Bool.{Bool, true, false, not, ◌&&◌, ◌||◌}
use mathlib.Core.List.{List, [], ◌∷◌, ◌++◌, reverse, reverse-append, append-nil, append_assoc}
use native.Mathlib.Omega.{arith}
use codemesh.Base.Tests.{Bool-cases, All, is_empty, any, ◌=ℕ◌}
use codemesh.Base.Strings.{Text, txt, ◌==◌, split, split_onto, join_by}
use codemesh.Base.Paths.{push_element, push_elements}
use codemesh.Base.Containment.{push_elements-append, split-append}

unfoldable pub has_slash : Text → Bool
unfolding any
has_slash s = any (λ c. c =ℕ b'/') s

-- An element of a path: not empty, not ".", and with no separator.
pub record IsElement (e : Text) : Type 0 where
  pub filled : is_empty e ≡ false
  pub not_here : (e == txt ".") ≡ false
  pub no_slash : has_slash e ≡ false

reverse-no_slash : (s : Text) (c : ℕ) → has_slash (s ++ c ∷ []) ≡ (has_slash s || (c =ℕ b'/'))
unfolding has_slash any
reverse-no_slash [] c = ground arith
reverse-no_slash (d ∷ s) c = ground (arith, reverse-no_slash s c)

has_slash-reverse : (s : Text) → has_slash (reverse s) ≡ has_slash s
unfolding has_slash any
has_slash-reverse [] = refl
has_slash-reverse (c ∷ s) =
    rw (reverse-append (c ∷ []) s)
      (ground (arith, reverse-no_slash (reverse s) c, has_slash-reverse s))

pub split_onto-no_slash :
    (acc s : Text) → has_slash acc ≡ false → All (λ e. has_slash e ≡ false) (split_onto b'/' acc s)
unfolding split_onto has_slash any
split_onto-no_slash acc [] h = (has_slash-reverse acc ∙ h, tt)
split_onto-no_slash acc (c ∷ s) h = elim (Bool-cases (c =ℕ b'/')) [
  | inl cut ↦ rw cut (has_slash-reverse acc ∙ h, split_onto-no_slash [] s refl)
  | inr on ↦ rw on (split_onto-no_slash (c ∷ acc) s (ground arith))
]

-- The element may stand on the stack: ".." only on the bottom of a relative path or on another.
abbrev may_stand : Bool → Text → List Text → Bool
may_stand rooted e [] = not (e == txt ".." && rooted)
may_stand rooted e (f ∷ es) = not (e == txt "..") || f == txt ".."

unfoldable pub IsNormal : Bool → List Text → Type 0
IsNormal rooted [] = Unit
IsNormal rooted (e ∷ es) = IsElement e × (may_stand rooted e es ≡ true) × IsNormal rooted es

IsElement-kept :
    (e : Text) → has_slash e ≡ false → (is_empty e || e == txt ".") ≡ false → IsElement e
IsElement-kept e s kept = record { filled = ground arith; not_here = ground arith; no_slash = s }

push_element-IsNormal :
    (rooted : Bool) (stack : List Text) (e : Text)
    → has_slash e ≡ false
    → IsNormal rooted stack
    → IsNormal rooted (push_element rooted stack e)
unfolding push_element IsNormal
push_element-IsNormal rooted [] e s n = elim (Bool-cases (is_empty e || e == txt ".")) [
  | inl skipped ↦ rw skipped tt
  | inr kept ↦ elim (Bool-cases (e == txt ".." && rooted)) [
    | inl up ↦ rw (kept, up) tt
    | inr down ↦ rw (kept, down) (IsElement-kept e s kept, rw down refl, tt)
  ]
]
push_element-IsNormal rooted (f ∷ es) e s n = elim (Bool-cases (is_empty e || e == txt ".")) [
  | inl skipped ↦ rw skipped n
  | inr kept ↦ elim (Bool-cases (e == txt "..")) [
    | inr down ↦ rw (kept, down) (IsElement-kept e s kept, rw down refl, n)
    | inl up ↦ elim (Bool-cases (f == txt "..")) [
      | inr back ↦ rw (kept, up, back) n.2
      | inl again ↦ rw (kept, up, again) (IsElement-kept e s kept, rw (up, again) refl, n)
    ]
  ]
]

pub push_elements-IsNormal :
    (rooted : Bool) (stack es : List Text)
    → All (λ e. has_slash e ≡ false) es
    → IsNormal rooted stack
    → IsNormal rooted (push_elements rooted stack es)
unfolding push_elements
push_elements-IsNormal rooted stack [] s n = n
push_elements-IsNormal rooted stack (e ∷ es) s n =
    push_elements-IsNormal rooted (push_element rooted stack e) es s.1
      (push_element-IsNormal rooted stack e s.0 n)

push_element-top :
    (rooted : Bool) (e : Text) (es : List Text)
    → IsElement e
    → may_stand rooted e es ≡ true
    → push_element rooted es e ≡ e ∷ es
unfolding push_element
push_element-top rooted e [] i m = ground (arith, i)
push_element-top rooted e (f ∷ es) i m = ground (arith, i)

-- Pushed again, the elements of a stack in normal form are that stack.
pub push_elements-reverse :
    (rooted : Bool) (stack : List Text)
    → IsNormal rooted stack
    → push_elements rooted [] (reverse stack) ≡ stack
unfolding push_elements IsNormal
push_elements-reverse rooted [] n = refl
push_elements-reverse rooted (e ∷ es) (i, m, n) =
    rw (reverse-append (e ∷ []) es, push_elements-append, push_elements-reverse rooted es n)
      (push_element-top rooted e es i m)

split_onto-whole :
    (acc s : Text) → has_slash s ≡ false → split_onto b'/' acc s ≡ (reverse acc ++ s) ∷ []
unfolding split_onto has_slash any
split_onto-whole acc [] h = ap (λ x. x ∷ []) (sym (append-nil (reverse acc)))
split_onto-whole acc (c ∷ s) h =
    let on : (c =ℕ b'/') ≡ false = ground arith in
    rw on (
      split_onto-whole (c ∷ acc) s (ground arith)
      ∙ ap (λ x. x ∷ [])
          (ap (λ y. y ++ s) (reverse-append (c ∷ []) acc) ∙ append_assoc (reverse acc) (c ∷ []) s))

split-whole : (e : Text) → has_slash e ≡ false → split b'/' e ≡ e ∷ []
unfolding split
split-whole e h = split_onto-whole [] e h

-- Names that are joined are split again into the same names.
pub split-join_by :
    (e : Text) (es : List Text)
    → All (λ x. has_slash x ≡ false) (e ∷ es)
    → split b'/' (join_by b'/' (e ∷ es)) ≡ e ∷ es
unfolding join_by
split-join_by e [] h = split-whole e h.0
split-join_by e (f ∷ es) h =
    split-append b'/' e (join_by b'/' (f ∷ es))
    ∙ ap (λ x. x ++ split b'/' (join_by b'/' (f ∷ es))) (split-whole e h.0)
    ∙ ap (λ x. e ∷ x) (split-join_by f es h.1)
