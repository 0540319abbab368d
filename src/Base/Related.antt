-- ===== src/Base/Related.antt =====
-- `Rel` compares two paths element by element.
use Prim.Native.Nat.{}
use mathlib.Core.Path.{◌≡◌, refl, sym, ap, ◌∙◌}
use mathlib.Core.Logic.{◌≢◌, inl, inr}
use mathlib.Core.Bool.{Bool, true, false}
use mathlib.Core.Option.{Option, none, some}
use mathlib.Core.List.{List, [], ◌∷◌, ◌++◌, map}
use native.Mathlib.Omega.{arith}
use codemesh.Base.Tests.{Bool-cases, some_injective, All, is_empty, same, if◌then◌else◌}
use codemesh.Base.Strings.{Text, txt, ◌==◌, eq_iff, eq_refl, has_prefix, split, split_onto, join_by}
use codemesh.Base.Paths.{
  is_abs, push_element, push_elements, elements, from_elements, clean, rel, rel_from, rel_elements,
  climbs,
}
use codemesh.Base.Containment.{join_by-up}
use codemesh.Base.Normal.{IsElement, split-join_by}
use codemesh.Base.Cleaned.{
  elements-IsElement, no_slashes, is_abs-join_by, is_abs-clean, elements-clean,
}

rel_elements-rooted : (s : Text) → is_empty s ≡ false → rel_elements (b'/' ∷ s) ≡ split b'/' s
unfolding rel_elements
rel_elements-rooted s h = rw h refl

rel_elements-relative :
    (s : Text) → is_abs s ≡ false → is_empty s ≡ false → rel_elements s ≡ split b'/' s
unfolding rel_elements is_abs
rel_elements-relative [] a h = cc
rel_elements-relative (c ∷ s) a h = rw a refl

join_by-filled :
    (e : Text) (es : List Text) → IsElement e → is_empty (join_by b'/' (e ∷ es)) ≡ false
unfolding join_by
join_by-filled [] es i = cc (i.filled)
join_by-filled (c ∷ s) [] i = refl
join_by-filled (c ∷ s) (f ∷ es) i = refl

rel_elements-from_elements :
    (rooted : Bool) (es : List Text)
    → All IsElement es
    → (from_elements rooted es == txt ".") ≡ false
    → rel_elements (from_elements rooted es) ≡ es
unfolding from_elements join_by
rel_elements-from_elements true [] all h = unfold rel_elements in refl
rel_elements-from_elements false [] all h = cc (h, eq_refl (txt "."))
rel_elements-from_elements true (e ∷ es) all h =
    rel_elements-rooted (join_by b'/' (e ∷ es)) (join_by-filled e es all.0)
    ∙ split-join_by e es (no_slashes (e ∷ es) all)
rel_elements-from_elements false (e ∷ es) all h =
    rel_elements-relative (join_by b'/' (e ∷ es)) (is_abs-join_by e es all.0)
      (join_by-filled e es all.0)
    ∙ split-join_by e es (no_slashes (e ∷ es) all)

pub rel_elements-clean :
    (p : Text) → (clean p == txt ".") ≡ false → rel_elements (clean p) ≡ elements p
unfolding clean
rel_elements-clean p h = rel_elements-from_elements (is_abs p) (elements p) (elements-IsElement p) h

-- A path that is cleaned to "." is relative and has no elements.
pub here-elements :
    (p : Text) → (clean p == txt ".") ≡ true → (is_abs p ≡ false) × (elements p ≡ [])
here-elements p h =
    let e = (eq_iff (clean p) (txt ".")).0 h in
    (sym (is_abs-clean p) ∙ ap is_abs e ∙ dot.0, sym (elements-clean p) ∙ ap elements e ∙ dot.1)
  where
    dot : (is_abs (txt ".") ≡ false) × (elements (txt ".") ≡ [])
    dot = (
      unfold is_abs in refl,
      unfold elements push_elements push_element split split_onto is_abs ◌==◌ in refl,
    )

pub same-eq : (a b : Bool) → same a b ≡ true → b ≡ a
same-eq true b h = h
same-eq false true h = cc
same-eq false false h = refl

pub same_self : (a : Bool) → same a a ≡ true
same_self true = refl
same_self false = refl

pub rel-same : (p c : Text) → (clean p == clean c) ≡ true → rel p c ≡ some (txt ".")
unfolding rel
rel-same p c e = rw e refl

unfoldable pub compared : Bool → List Text → Text → Option Text
compared rooted es c = if same rooted (is_abs c) then rel_from es (rel_elements (clean c)) else none

-- Two cleaned paths that differ are compared element by element.
pub rel-apart :
    (p c : Text) → (clean p == clean c) ≡ false → rel p c ≡ compared (is_abs p) (elements p) c
unfolding rel compared
rel-apart p c differ = elim (Bool-cases (clean p == txt ".")) [
  | inl here ↦
      let (relative, no_elements) = here-elements p here in
      rw (differ, here, is_abs-clean c)
        (unfold is_abs rel_elements in λ i. compared (sym relative i) (sym no_elements i) c)
  | inr other ↦ rw (differ, other, is_abs-clean p, is_abs-clean c, rel_elements-clean p other) refl
]

pub rel_from_sound :
    (bs ts : List Text) {r : Text}
    → rel_from bs ts ≡ some r
    → climbs r ≡ false
    → (rest : List Text) × (ts ≡ bs ++ rest) × (r ≡ join_by b'/' rest)
unfolding rel_from
rel_from_sound [] ts h low = (ts, refl, sym (some_injective h))
rel_from_sound (b ∷ bs) [] {r} h low = elim (Bool-cases (b == txt "..")) [
  | inl up ↦ cc (rw up at h)
  | inr down ↦
      let e = some_injective (rw down at h) in cc (sym e, low, join_by-up (map (λ _. txt "..") bs))
]
rel_from_sound (b ∷ bs) (t ∷ ts) {r} h low = elim (Bool-cases (b == t)) [
  | inl e ↦
      let (rest, below, joined) = rel_from_sound bs ts {r = r} (rw e at h) low in
      (rest, (λ i. (sym ((eq_iff b t).0 e)) i ∷ below i), joined)
  | inr n ↦ elim (Bool-cases (b == txt "..")) [
    | inl up ↦ cc (rw (n, up) at h)
    | inr down ↦
        let e = some_injective (rw (n, down) at h) in
        cc (sym e, low, join_by-up (map (λ _. txt "..") bs ++ t ∷ ts))
  ]
]

pub rel_from-append : (bs rest : List Text) → rel_from bs (bs ++ rest) ≡ some (join_by b'/' rest)
unfolding rel_from
rel_from-append [] rest = refl
rel_from-append (b ∷ bs) rest = rw (eq_refl b) (rel_from-append bs rest)

split-here : split b'/' (txt ".") ≡ txt "." ∷ []
unfolding split split_onto
split-here = refl

split-up : split b'/' (txt "..") ≡ txt ".." ∷ []
unfolding split split_onto
split-up = refl

split-above : (x : Text) → split b'/' (txt "../" ++ x) ≡ txt ".." ∷ split b'/' x
unfolding split split_onto
split-above x = refl

has_prefix-rest : (s p : Text) → has_prefix s p ≡ true → (x : Text) × (s ≡ p ++ x)
unfolding has_prefix
has_prefix-rest s [] h = (s, refl)
has_prefix-rest [] (d ∷ p) h = cc
has_prefix-rest (c ∷ s) (d ∷ p) h =
    let (x, e) = has_prefix-rest s p (ground arith) in
    let first : c ≡ d = ground arith in (x, λ i. first i ∷ e i)

first-eq : {e f : Text} {es fs : List Text} → e ∷ es ≡ f ∷ fs → e ≡ f
first-eq h = cc

-- Names that do not begin with ".." make a path that does not climb and is not ".".
pub joined-low :
    (e : Text) (es : List Text)
    → All IsElement (e ∷ es)
    → e ≢ txt ".."
    → climbs (join_by b'/' (e ∷ es)) ≡ false
unfolding climbs
joined-low e es all low =
    let path = join_by b'/' (e ∷ es) in
    let names = split-join_by e es (no_slashes (e ∷ es) all) in
    elim (Bool-cases (path == txt "..")) [
      | inl up ↦
          let is_up = (eq_iff path (txt "..")).0 up in
          absurd (low (first-eq (sym names ∙ ap (split b'/') is_up ∙ split-up)))
      | inr other ↦ elim (Bool-cases (has_prefix path (txt "../"))) [
        | inr down ↦ rw (other, down) refl
        | inl above ↦
            let (x, e') = has_prefix-rest path (txt "../") above in
            absurd (low (first-eq (sym names ∙ ap (split b'/') e' ∙ split-above x)))
      ]
    ]

pub joined-not_here :
    (e : Text) (es : List Text)
    → All IsElement (e ∷ es)
    → (join_by b'/' (e ∷ es) == txt ".") ≡ false
joined-not_here e es all = elim (Bool-cases (join_by b'/' (e ∷ es) == txt ".")) [
  | inr other ↦ other
  | inl here ↦
      let is_here = (eq_iff (join_by b'/' (e ∷ es)) (txt ".")).0 here in
      let first = first-eq (
        sym (split-join_by e es (no_slashes (e ∷ es) all))
        ∙ ap (split b'/') is_here
        ∙ split-here) in
      cc (all.0.not_here, (eq_iff e (txt ".")).1 first)
]
