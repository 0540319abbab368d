-- ===== src/Base/Descent.antt =====
-- Relative paths that do not climb, said of their text alone.
use mathlib.Core.Path.{◌≡◌, refl, subst}
use mathlib.Core.Logic.{◌≢◌}
use mathlib.Core.Bool.{true, false}
use mathlib.Core.List.{◌∷◌, ◌++◌}
use native.Mathlib.Omega.{}
use codemesh.Base.Strings.{Text, txt, ◌==◌, has_prefix}
use codemesh.Base.Paths.{is_abs, climbs}

-- The path does not begin with a separator.
abbrev pub IsRelative : Text → Type 0
IsRelative path = (rest : Text) → path ≢ b'/' ∷ rest

-- The path is not ".." and does not begin with "../".
abbrev pub Stays : Text → Type 0
Stays path = (path ≢ txt "..") × ((rest : Text) → path ≢ txt "../" ++ rest)

pub is_abs-IsRelative : (path : Text) → is_abs path ≡ false → IsRelative path
unfolding is_abs
is_abs-IsRelative path h rest e = cc (subst (λ p. is_abs p ≡ false) e h)

up-climbs : climbs (txt "..") ≡ true
unfolding climbs ◌==◌
up-climbs = refl

above-climbs : (rest : Text) → climbs (txt "../" ++ rest) ≡ true
unfolding climbs ◌==◌ has_prefix
above-climbs rest = refl

pub climbs-Stays : (path : Text) → climbs path ≡ false → Stays path
climbs-Stays path h = (
  (λ e. cc (subst (λ p. climbs p ≡ false) e h, up-climbs)),
  (λ rest e. cc (subst (λ p. climbs p ≡ false) e h, above-climbs rest)),
)
