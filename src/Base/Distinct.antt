-- ===== src/Base/Distinct.antt =====
-- A loop that keeps what it has not seen before gives pairwise different texts.
use mathlib.Core.Path.{◌≡◌}
use mathlib.Core.Logic.{◌≢◌}
use mathlib.Core.Bool.{false}
use mathlib.Core.List.{List, [], ◌∷◌}
use native.Mathlib.Omega.{arith}
use codemesh.Base.Tests.{All, any}
use codemesh.Base.Strings.{Text, mem_text, eq_iff}

abbrev pub Unseen : List Text → Text → Type 0
Unseen seen path = mem_text path seen ≡ false

pub weaken-Unseen :
    (x : Text) (seen paths : List Text) → All (Unseen (x ∷ seen)) paths → All (Unseen seen) paths
unfolding mem_text any
weaken-Unseen x seen [] h = tt
weaken-Unseen x seen (p ∷ ps) h = (ground (arith, h.0), weaken-Unseen x seen ps h.1)

pub Unseen-ne :
    (x : Text) (seen paths : List Text) → All (Unseen (x ∷ seen)) paths → All (λ p. x ≢ p) paths
unfolding mem_text any
Unseen-ne x seen [] h = tt
Unseen-ne x seen (p ∷ ps) h = ((λ e. ground (arith, h.0, eq_iff x p)), Unseen-ne x seen ps h.1)
