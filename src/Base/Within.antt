-- ===== src/Base/Within.antt =====
-- One path lies in another, said of their elements.
use mathlib.Core.Path.{◌≡◌}
use mathlib.Core.Logic.{◌≢◌}
use mathlib.Core.List.{List, [], ◌∷◌, ◌++◌}
use codemesh.Base.Strings.{Text, txt}
use codemesh.Base.Paths.{is_abs, elements}

-- The first of the elements is not "..".
abbrev pub StaysBelow : List Text → Type 0
StaysBelow [] = Unit
StaysBelow (e ∷ es) = e ≢ txt ".."

-- The elements of the child are those of the parent, followed by some that do not climb.
pub record Within (parent child : Text) : Type 0 where
  pub rooted : is_abs child ≡ is_abs parent
  pub rest : List Text
  pub below : elements child ≡ elements parent ++ rest
  pub stays : StaysBelow rest
