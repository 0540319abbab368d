-- ===== src/Base/Strings.antt =====
-- Go strings as lists of code points, and the functions of the package `strings` that the
-- program calls. For valid UTF-8 the byte-wise functions agree with these.
use Prim.Native.Nat.{ℕ, ◌+◌}
use Prim.Native.Char.{code}
use Prim.Native.String.{String}
use mathlib.Core.Path.{◌≡◌, refl}
use mathlib.Core.Logic.{◌↔◌}
use mathlib.Core.Bool.{Bool, true, false, not, ◌&&◌, ◌||◌}
use mathlib.Core.Option.{Option, none, some}
use mathlib.Core.List.{List, [], ◌∷◌, ◌++◌, reverse, map}
use native.Mathlib.Omega.{arith}
use codemesh.Base.Tests.{◌=ℕ◌, ltb, leb, if◌then◌else◌, any}

abbrev pub Text : Type 0
Text = List ℕ

-- A literal of the source.
abbrev pub txt : String → Text
txt String.[] = []
txt (String.◌∷◌ c s) = code c ∷ txt s

infix 50 ◌==◌ ◌!=◌
unfoldable pub ◌==◌ : Text → Text → Bool
[] == [] = true
[] == (d ∷ t) = false
(c ∷ s) == [] = false
(c ∷ s) == (d ∷ t) = (c =ℕ d) && (s == t)

abbrev pub ◌!=◌ : Text → Text → Bool
s != t = not (s == t)

pub eq_iff : (s t : Text) → ((s == t) ≡ true) ↔ (s ≡ t)
unfolding ◌==◌
eq_iff [] [] = (λ _. refl, λ _. refl)
eq_iff [] (d ∷ t) = (λ h. cc, λ h. cc)
eq_iff (c ∷ s) [] = (λ h. cc, λ h. cc)
eq_iff (c ∷ s) (d ∷ t) = ground (arith, eq_iff s t)

pub eq_refl : (s : Text) → (s == s) ≡ true
eq_refl s = (eq_iff s s).1 refl

-- `unicode.IsSpace`
unfoldable pub is_space : ℕ → Bool
is_space c =
    (leb 9 c && leb c 13)
    || c =ℕ 0x20
    || c =ℕ 0x85
    || c =ℕ 0xa0
    || c =ℕ 0x1680
    || (leb 0x2000 c && leb c 0x200a)
    || c =ℕ 0x2028
    || c =ℕ 0x2029
    || c =ℕ 0x202f
    || c =ℕ 0x205f
    || c =ℕ 0x3000

unfoldable pub trim_left_by : (ℕ → Bool) → Text → Text
trim_left_by p [] = []
trim_left_by p (c ∷ s) = let rest = trim_left_by p s in if p c then rest else c ∷ s

-- A character at the right end stays if something that stays follows it.
unfoldable pub trim_right_by : (ℕ → Bool) → Text → Text
trim_right_by p [] = []
trim_right_by p (c ∷ s) = elim (trim_right_by p s) [
  | [] ↦ if p c then [] else c ∷ []
  | d ∷ r ↦ c ∷ d ∷ r
]

-- `strings.TrimSpace`, `strings.Trim(s, "c")`
unfoldable pub trim_space : Text → Text
unfolding trim_left_by trim_right_by is_space
trim_space s = trim_right_by is_space (trim_left_by is_space s)

unfoldable pub trim_byte : ℕ → Text → Text
unfolding trim_left_by trim_right_by
trim_byte c s = trim_right_by (λ d. d =ℕ c) (trim_left_by (λ d. d =ℕ c) s)

unfoldable pub has_prefix : Text → Text → Bool
has_prefix s [] = true
has_prefix [] (d ∷ p) = false
has_prefix (c ∷ s) (d ∷ p) = (c =ℕ d) && has_prefix s p

-- What follows a prefix, if it is there.
unfoldable pub after_prefix : Text → Text → Option Text
after_prefix s [] = some s
after_prefix [] (d ∷ p) = none
after_prefix (c ∷ s) (d ∷ p) = if c =ℕ d then after_prefix s p else none

unfoldable pub trim_prefix : Text → Text → Text
unfolding after_prefix
trim_prefix s p = elim (after_prefix s p) [ none ↦ s | some r ↦ r ]

unfoldable pub has_suffix : Text → Text → Bool
unfolding has_prefix
has_suffix s p = has_prefix (reverse s) (reverse p)

unfoldable pub trim_suffix : Text → Text → Text
unfolding after_prefix
trim_suffix s p = elim (after_prefix (reverse s) (reverse p)) [ none ↦ s | some r ↦ reverse r ]

unfoldable pub contains : Text → Text → Bool
unfolding has_prefix
contains [] p = has_prefix [] p
contains (c ∷ s) p = has_prefix (c ∷ s) p || contains s p

unfoldable pub contains_byte : ℕ → Text → Bool
unfolding any
contains_byte c s = any (λ d. d =ℕ c) s

-- `strings.ContainsAny`
unfoldable pub contains_any : Text → Text → Bool
unfolding any contains_byte
contains_any s chars = any (λ d. contains_byte d chars) s

-- `strings.ReplaceAll` of one character by another
unfoldable pub replace_byte : ℕ → ℕ → Text → Text
replace_byte old new = map (λ c. if c =ℕ old then new else c)

-- `strings.Split` at one character: always one part at least
unfoldable pub split_onto : ℕ → Text → Text → List Text
split_onto sep acc [] = reverse acc ∷ []
split_onto sep acc (c ∷ s) =
    let cut = reverse acc ∷ split_onto sep [] s in
    let on = split_onto sep (c ∷ acc) s in if c =ℕ sep then cut else on

unfoldable pub split : ℕ → Text → List Text
unfolding split_onto
split sep s = split_onto sep [] s

-- `strings.Join` with one character
unfoldable pub join_by : ℕ → List Text → Text
join_by sep [] = []
join_by sep (p ∷ []) = p
join_by sep (p ∷ q ∷ ps) = p ++ sep ∷ join_by sep (q ∷ ps)

unfoldable pub lower_letter : ℕ → ℕ
lower_letter c = if leb 0x41 c && leb c 0x5a then c + 32 else c

-- `strings.ToLower` on the ASCII letters and the two other letters whose lower case is ASCII. The
-- remaining letters are left as they are, where Go lowers them too.
unfoldable pub to_lower : Text → Text
to_lower = map (λ c. if c =ℕ 0x130 then b'i' else if c =ℕ 0x212a then b'k' else lower_letter c)

-- `strings.EqualFold` with an ASCII word that has no `k` and no `s`
unfoldable pub equal_fold : Text → Text → Bool
equal_fold s word = map lower_letter s == word

-- What stands before and after the first occurrence of a character.
unfoldable pub cut : ℕ → Text → Option (Text × Text)
cut sep [] = none
cut sep (c ∷ s) =
    let here : Option (Text × Text) = some ([], s) in
    let later : Option (Text × Text) = elim (cut sep s) [
      | none ↦ none
      | some (a, b) ↦ some (c ∷ a, b)
    ] in
    if c =ℕ sep then here else later

-- Go's `<` on strings
unfoldable pub text_lt : Text → Text → Bool
text_lt s [] = false
text_lt [] (d ∷ t) = true
text_lt (c ∷ s) (d ∷ t) = if c =ℕ d then text_lt s t else ltb c d

unfoldable pub mem_text : Text → List Text → Bool
unfolding any
mem_text t = any (λ s. s == t)

trimmed : trim_space (txt "  a b\t") ≡ txt "a b"
unfolding trim_space
trimmed = refl

parts : split b'/' (txt "/a//b") ≡ [] ∷ txt "a" ∷ [] ∷ txt "b" ∷ []
unfolding split
parts = refl

stem : trim_suffix (txt "repo.git") (txt ".git") ≡ txt "repo"
unfolding trim_suffix
stem = refl
