-- ===== src/Base/Paths.antt =====
-- The functions of the package `path/filepath` that the program calls, as they are on Unix: the
-- separator is '/', and `FromSlash` and `ToSlash` change nothing.
use mathlib.Core.Path.{◌≡◌, refl}
use mathlib.Core.Bool.{Bool, true, false, ◌&&◌, ◌||◌}
use mathlib.Core.Option.{Option, none, some}
use mathlib.Core.List.{List, [], ◌∷◌, ◌++◌, reverse, map}
use codemesh.Base.Tests.{◌=ℕ◌, if◌then◌else◌, is_empty, same}
use codemesh.Base.Strings.{Text, txt, ◌==◌, has_prefix, split, join_by, trim_right_by}

-- `filepath.IsAbs`
unfoldable pub is_abs : Text → Bool
is_abs [] = false
is_abs (c ∷ s) = c =ℕ b'/'

-- The elements that `Clean` keeps, the last one first: ".." takes the element before it back.
unfoldable pub push_element : Bool → List Text → Text → List Text
push_element rooted [] e =
    if is_empty e || e == txt "." then [] else if e == txt ".." && rooted then [] else e ∷ []
push_element rooted (top ∷ stack) e =
    if is_empty e || e == txt "."
    then top ∷ stack
    else if e == txt ".."
    then (if top == txt ".." then e ∷ top ∷ stack else stack)
    else e ∷ top ∷ stack

unfoldable pub push_elements : Bool → List Text → List Text → List Text
unfolding push_element
push_elements rooted stack [] = stack
push_elements rooted stack (e ∷ es) = push_elements rooted (push_element rooted stack e) es

unfoldable pub elements : Text → List Text
unfolding push_elements is_abs split
elements p = reverse (push_elements (is_abs p) [] (split b'/' p))

-- The text of a cleaned path with these elements.
unfoldable pub from_elements : Bool → List Text → Text
unfolding join_by
from_elements true es = b'/' ∷ join_by b'/' es
from_elements false [] = txt "."
from_elements false (e ∷ es) = join_by b'/' (e ∷ es)

unfoldable pub clean : Text → Text
unfolding elements from_elements
clean p = from_elements (is_abs p) (elements p)

-- `filepath.Join`
unfoldable pub join : List Text → Text
unfolding clean
join [] = []
join ([] ∷ ps) = join ps
join ((c ∷ p) ∷ ps) = clean (join_by b'/' ((c ∷ p) ∷ ps))

-- What stands before and after the last '/', both reversed: the first keeps the separator.
unfoldable pub cut_last : Text → Text × Text
cut_last [] = ([], [])
cut_last (c ∷ s) =
    let (before, after) = cut_last s in if c =ℕ b'/' then (c ∷ s, []) else (before, c ∷ after)

-- `filepath.Dir`, `filepath.Base`
unfoldable pub dir : Text → Text
unfolding cut_last clean
dir p = clean (reverse (cut_last (reverse p)).0)

unfoldable pub base : Text → Text
unfolding cut_last trim_right_by
base [] = txt "."
base (c ∷ s) =
    let name = reverse (cut_last (reverse (trim_right_by (λ d. d =ℕ b'/') (c ∷ s)))).1 in
    if is_empty name then txt "/" else name

-- The elements of a cleaned path as `Rel` sees them: "." stands for none in the base path.
unfoldable pub rel_elements : Text → List Text
unfolding split
rel_elements [] = []
rel_elements (c ∷ s) =
    let rest = if is_empty s then [] else split b'/' s in
    let whole = split b'/' (c ∷ s) in if c =ℕ b'/' then rest else whole

unfoldable pub rel_from : List Text → List Text → Option Text
unfolding join_by
rel_from [] targ = some (join_by b'/' targ)
rel_from (b ∷ bs) [] =
    if b == txt ".." then none else some (join_by b'/' (map (λ _. txt "..") (b ∷ bs)))
rel_from (b ∷ bs) (t ∷ ts) =
    let rest = rel_from bs ts in
    if b == t
    then rest
    else if b == txt ".."
    then none
    else some (join_by b'/' (map (λ _. txt "..") (b ∷ bs) ++ t ∷ ts))

-- `filepath.Rel`; `none` is its error.
unfoldable pub rel : Text → Text → Option Text
unfolding rel_elements rel_from clean
rel base_path targ_path =
    let b = clean base_path in
    let t = clean targ_path in
    if b == t
    then some (txt ".")
    else let b' = if b == txt "." then [] else b in
      if same (is_abs b') (is_abs t) then rel_from (rel_elements b') (rel_elements t) else none

-- The test on the result of `Rel` that the packages repeat.
unfoldable pub climbs : Text → Bool
unfolding has_prefix
climbs p = p == txt ".." || has_prefix p (txt "../")

cleaned : clean (txt "/a//b/../c/./") ≡ txt "/a/c"
unfolding clean ◌==◌
cleaned = refl

relative : rel (txt "/w/a") (txt "/w/b/c") ≡ some (txt "../b/c")
unfolding rel ◌==◌
relative = refl

parents :
    (dir (txt "/w/a/b") ≡ txt "/w/a") × (base (txt "/w/a/b/") ≡ txt "b") × (dir (txt "a") ≡ txt ".")
unfolding dir base ◌==◌
parents = (refl, refl, refl)
