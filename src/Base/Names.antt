-- ===== src/Base/Names.antt =====
-- The names that a caller gives, without blanks and repeats and in order: `uniqueSorted` of
-- internal/toolchain and internal/envbinding, `normalizedScopes` of internal/state.
use mathlib.Core.Bool.{◌||◌}
use mathlib.Core.List.{List, [], ◌∷◌}
use codemesh.Base.Tests.{if◌then◌else◌, is_empty}
use codemesh.Base.Strings.{Text, trim_space, mem_text, text_lt}
use codemesh.Base.Sorting.{sort}

-- The loop of `uniqueSorted`: `seen` holds the names that were kept.
unfoldable pub unique_from : List Text → List Text → List Text
unique_from seen [] = []
unique_from seen (value ∷ values) =
    let v = trim_space value in
    let skipped = unique_from seen values in
    let kept = v ∷ unique_from (v ∷ seen) values in
    if is_empty v || mem_text v seen then skipped else kept

-- `uniqueSorted`
unfoldable pub unique_sorted : List Text → List Text
unique_sorted values = sort text_lt (unique_from [] values)
