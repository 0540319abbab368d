-- ===== src/Base/Cleaned.antt =====
-- The elements of a cleaned path are those of the path.
use mathlib.Core.Path.{◌≡◌, refl, sym, ap, ◌∙◌}
use mathlib.Core.Logic.{}
use mathlib.Core.Bool.{Bool, true, false}
use mathlib.Core.List.{List, [], ◌∷◌, ◌++◌, reverse, reverse-append}
use native.Mathlib.Omega.{arith}
use codemesh.Base.Tests.{All, All-imp, any}
use codemesh.Base.Strings.{Text, ◌==◌, split, split_onto, join_by}
use codemesh.Base.Paths.{is_abs, push_element, push_elements, elements, from_elements, clean}
use codemesh.Base.Normal.{
  has_slash, IsElement, IsNormal, push_elements-IsNormal, push_elements-reverse,
  split_onto-no_slash, split-join_by,
}

stack_of : Text → List Text
stack_of p = push_elements (is_abs p) [] (split b'/' p)

stack_of-IsNormal : (p : Text) → IsNormal (is_abs p) (stack_of p)
unfolding stack_of IsNormal split
stack_of-IsNormal p =
    push_elements-IsNormal (is_abs p) [] (split b'/' p)
      (split_onto-no_slash [] p (unfold has_slash any in refl)) tt

All-append {ℓ} :
    {A : Type ℓ} (P : A → Type 0) (xs ys : List A) → All P xs → All P ys → All P (xs ++ ys)
All-append P [] ys h k = k
All-append P (x ∷ xs) ys h k = (h.0, All-append P xs ys h.1 k)

reverse-IsElement :
    (rooted : Bool) (stack : List Text) → IsNormal rooted stack → All IsElement (reverse stack)
unfolding IsNormal
reverse-IsElement rooted [] n = tt
reverse-IsElement rooted (e ∷ es) (i, m, n) =
    rw (reverse-append (e ∷ []) es)
      (All-append IsElement (reverse es) (e ∷ []) (reverse-IsElement rooted es n) (i, tt))

pub elements-IsElement : (p : Text) → All IsElement (elements p)
unfolding elements stack_of
elements-IsElement p = reverse-IsElement (is_abs p) (stack_of p) (stack_of-IsNormal p)

pub no_slashes : (es : List Text) → All IsElement es → All (λ e. has_slash e ≡ false) es
no_slashes es h = All-imp IsElement _ es (λ e i. i.no_slash) h

pub is_abs-join_by :
    (e : Text) (es : List Text) → IsElement e → is_abs (join_by b'/' (e ∷ es)) ≡ false
unfolding is_abs join_by has_slash any
is_abs-join_by [] es i = cc (i.filled)
is_abs-join_by (c ∷ s) [] i = ground (arith, i.no_slash)
is_abs-join_by (c ∷ s) (f ∷ es) i = ground (arith, i.no_slash)

pub clean_lem : (p : Text) → clean p ≡ from_elements (is_abs p) (elements p)
unfolding clean
clean_lem p = refl

pushed_again :
    (rooted : Bool) (e : Text) (es stack : List Text)
    → All IsElement (e ∷ es)
    → e ∷ es ≡ reverse stack
    → IsNormal rooted stack
    → reverse (push_elements rooted [] (split b'/' (join_by b'/' (e ∷ es)))) ≡ e ∷ es
pushed_again rooted e es stack all same n =
    ap (λ x. reverse (push_elements rooted [] x))
      (split-join_by e es (no_slashes (e ∷ es) all) ∙ same)
    ∙ ap reverse (push_elements-reverse rooted stack n)
    ∙ sym same

-- The path that is made of names has them as its elements.
made :
    (rooted : Bool) (es stack : List Text)
    → All IsElement es
    → es ≡ reverse stack
    → IsNormal rooted stack
    → (is_abs (from_elements rooted es) ≡ rooted) × (elements (from_elements rooted es) ≡ es)
unfolding from_elements elements is_abs split split_onto join_by push_elements push_element ◌==◌
made true [] stack all same n = (refl, refl)
made false [] stack all same n = (refl, refl)
made true (e ∷ es) stack all same n =
    (refl, unfold split in pushed_again true e es stack all same n)
made false (e ∷ es) stack all same n =
    let relative = is_abs-join_by e es all.0 in
    (relative, rw relative (pushed_again false e es stack all same n))

pub is_abs-clean : (p : Text) → is_abs (clean p) ≡ is_abs p
unfolding clean elements stack_of
is_abs-clean p =
    (made (is_abs p) (elements p) (stack_of p) (elements-IsElement p) refl (stack_of-IsNormal p)).0

pub elements-clean : (p : Text) → elements (clean p) ≡ elements p
unfolding clean elements stack_of
elements-clean p =
    (made (is_abs p) (elements p) (stack_of p) (elements-IsElement p) refl (stack_of-IsNormal p)).1

-- To clean a path twice changes nothing more.
pub clean_idempotent : (p : Text) → clean (clean p) ≡ clean p
clean_idempotent p =
    clean_lem (clean p)
    ∙ ap (λ b. from_elements b (elements (clean p))) (is_abs-clean p)
    ∙ ap (from_elements (is_abs p)) (elements-clean p)
    ∙ sym (clean_lem p)
