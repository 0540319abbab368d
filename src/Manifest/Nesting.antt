-- ===== src/Manifest/Nesting.antt =====
-- internal/workspacemanifest/manifest.go: `pathIsAncestor` finds exactly the paths that lie below.
use mathlib.Core.Path.{subst}
use mathlib.Core.List.{append-nil}
use codemesh.Base.{
  ◌≡◌, ◌≢◌, refl, sym, ap, ◌∙◌, Text, txt, ◌==◌, eq_iff, true, false, not, ◌&&◌, ◌||◌, some, List,
  [], ◌∷◌, ◌++◌, arith, inl, inr, Bool-cases, Option-cases, All, is_abs, elements, clean, rel,
  climbs, from_elements, join_by, same, rel_from, rel_elements, ◌!=◌,
}
use codemesh.Base.Containment.{join_by-up}
use codemesh.Base.Normal.{IsElement}
use codemesh.Base.Cleaned.{elements-IsElement, clean_lem}
use codemesh.Base.Within.{StaysBelow, Within}
use codemesh.Base.Related.{
  compared, rel_elements-clean, here-elements, rel-same, rel-apart, rel_from_sound, rel_from-append,
  joined-low, joined-not_here, same-eq, same_self,
}
use codemesh.Host.{Host}
use codemesh.Manifest.Locations.{path_is_ancestor, path_within_root, canonical_path_for_comparison}

climbs-StaysBelow : (rest : List Text) → climbs (join_by b'/' rest) ≡ false → StaysBelow rest
climbs-StaysBelow [] h = tt
climbs-StaysBelow (e ∷ es) h =
    λ up. cc (subst (λ x. climbs (join_by b'/' (x ∷ es)) ≡ false) up h, join_by-up es)

-- Paths with the same elements that are both absolute or both relative are cleaned to one.
clean-eq :
    (p c : Text) → is_abs c ≡ is_abs p → elements c ≡ elements p → (clean p == clean c) ≡ true
clean-eq p c rooted names =
    (eq_iff (clean p) (clean c)).1
      (clean_lem p ∙ (λ i. from_elements (sym rooted i) (sym names i)) ∙ sym (clean_lem c))

-- The element "." is in no path.
not_here-nil : (es rest : List Text) → All IsElement es → txt "." ∷ [] ≡ es ++ rest → es ≡ []
not_here-nil [] rest all h = refl
not_here-nil (e ∷ es) rest all h =
    let first : txt "." ≡ e = cc in cc (all.0.not_here, (eq_iff e (txt ".")).1 (sym first))

-- The path that `Rel` gives, where it does not climb, is that of the elements that follow.
compared-Within :
    (p c r : Text)
    → (clean p == clean c) ≡ false
    → compared (is_abs p) (elements p) c ≡ some r
    → climbs r ≡ false
    → Within p c
unfolding compared
compared-Within p c r differ h low = elim (Bool-cases (same (is_abs p) (is_abs c))) [
  | inr other ↦ cc (rw other at h)
  | inl both ↦
      let rooted = same-eq (is_abs p) (is_abs c) both in
      let (rest, below, joined) =
        rel_from_sound (elements p) (rel_elements (clean c)) {r = r} (rw both at h) low in
      let stays = climbs-StaysBelow rest (subst (λ x. climbs x ≡ false) joined low) in
      elim (Bool-cases (clean c == txt ".")) [
        | inr names ↦ record {
          rooted = rooted;
          rest = rest;
          below = sym (rel_elements-clean c names) ∙ below;
          stays = stays;
        }
        | inl here ↦
            let (relative, no_elements) = here-elements c here in
            let only : rel_elements (clean c) ≡ txt "." ∷ [] =
              ap rel_elements ((eq_iff (clean c) (txt ".")).0 here)
              ∙ (unfold rel_elements in refl) in
            let none_above =
              not_here-nil (elements p) rest (elements-IsElement p) (sym only ∙ below) in
            cc (differ, clean-eq p c rooted (no_elements ∙ sym none_above))
      ]
]

pub path_is_ancestor-Within : (p c : Text) → path_is_ancestor p c ≡ true → Within p c
unfolding path_is_ancestor
path_is_ancestor-Within p c h = elim (Option-cases (rel p c)) [
  | inl apart ↦ cc (rw (apart, path_is_ancestor) at h)
  | inr (r, e) ↦
      let low : (r != txt "." && not (climbs r)) ≡ true = rw (e, path_is_ancestor) at h in
      elim (Bool-cases (clean p == clean c)) [
        | inl equal ↦
            let is_here : txt "." ≡ r = ground (arith, sym (rel-same p c equal) ∙ e) in
            ground (arith, low, eq_iff r (txt "."))
        | inr differ ↦
            compared-Within p c r differ (sym (rel-apart p c differ) ∙ e) (ground (arith, low))
      ]
]

All-later : {A : Type 0} (P : A → Type 0) (xs ys : List A) → All P (xs ++ ys) → All P ys
All-later P [] ys h = h
All-later P (x ∷ xs) ys h = All-later P xs ys h.1

append-ne : (xs : List Text) (e : Text) (es : List Text) → xs ++ e ∷ es ≢ []
append-ne [] e es h = cc
append-ne (x ∷ xs) e es h = cc

rel-below :
    (p c e : Text) (es : List Text)
    → is_abs c ≡ is_abs p
    → elements c ≡ elements p ++ e ∷ es
    → (clean p == clean c) ≡ false
    → rel p c ≡ some (join_by b'/' (e ∷ es))
unfolding compared
rel-below p c e es rooted below differ = elim (Bool-cases (clean c == txt ".")) [
  | inl here ↦ absurd (append-ne (elements p) e es (sym below ∙ (here-elements c here).1))
  | inr names ↦
      rel-apart p c differ
      ∙ rw (rooted, same_self (is_abs p), rel_elements-clean c names)
          (ap (rel_from (elements p)) below ∙ rel_from-append (elements p) (e ∷ es))
]

ancestor-some :
    (p c r : Text) → rel p c ≡ some r → path_is_ancestor p c ≡ (r != txt "." && not (climbs r))
unfolding path_is_ancestor
ancestor-some p c r e = rw (e, path_is_ancestor) refl

ancestor-below :
    (p c : Text) (rest : List Text)
    → is_abs c ≡ is_abs p
    → elements c ≡ elements p ++ rest
    → StaysBelow rest
    → (clean p == clean c || path_is_ancestor p c) ≡ true
ancestor-below p c [] rooted below stays =
    rw (clean-eq p c rooted (below ∙ append-nil (elements p))) refl
ancestor-below p c (e ∷ es) rooted below stays =
    let all =
      All-later IsElement (elements p) (e ∷ es)
        (subst (All IsElement) below (elements-IsElement c)) in
    elim (Bool-cases (clean p == clean c)) [
      | inl equal ↦ rw equal refl
      | inr differ ↦
          rw (differ, ancestor-some p c _ (rel-below p c e es rooted below differ))
            (rw (joined-not_here e es all, joined-low e es all stays) refl)
    ]

-- A path that lies in another is cleaned to the same path, or has it as an ancestor.
pub Within-path_is_ancestor :
    (p c : Text) → Within p c → (clean p == clean c || path_is_ancestor p c) ≡ true
Within-path_is_ancestor p c w = ancestor-below p c w.rest w.rooted w.below w.stays

-- A path that is within the root by its canonical form lies in the root's canonical form.
pub path_within_root-Within :
    (h : Host) (root path : Text)
    → path_within_root h root path ≡ true
    → Within (canonical_path_for_comparison h root) (canonical_path_for_comparison h path)
unfolding path_within_root
path_within_root-Within h root path inside =
    let r = canonical_path_for_comparison h root in
    let p = canonical_path_for_comparison h path in
    elim (Bool-cases (p == r)) [
      | inr other ↦ path_is_ancestor-Within r p (ground arith)
      | inl equal ↦
          let e = (eq_iff p r).0 equal in
          record {
            rooted = ap is_abs e;
            rest = [];
            below = ap elements e ∙ sym (append-nil (elements r));
            stays = tt;
          }
    ]
