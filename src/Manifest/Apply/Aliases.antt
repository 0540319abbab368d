-- ===== src/Manifest/Apply/Aliases.antt =====
-- `importTempAlias` and `importRollbackAlias`: an alias that no project uses.
use codemesh.Base.{
  ℕ, zero, suc, ◌+◌, Text, txt, List, ◌++◌, Option, none, some, mem_text, decimal, length,
  if◌then◌else◌,
}

-- The alias of one round: the name itself, and then the name with the number of the round.
unfoldable pub candidate : Text → ℕ → Text
candidate name zero = name
candidate name (suc n) = name ++ (txt "_" ++ decimal (suc n))

-- The loop, with as many further rounds as are given.
unfoldable pub search_alias : Text → List Text → ℕ → ℕ → Option Text
search_alias name used zero suffix =
    if mem_text (candidate name suffix) used then none else some (candidate name suffix)
search_alias name used (suc rounds) suffix =
    let further = search_alias name used rounds (suffix + 1) in
    if mem_text (candidate name suffix) used then further else some (candidate name suffix)

-- The rounds are one more than the aliases in use.
unfoldable pub fresh_alias : Text → List Text → Option Text
fresh_alias name used = search_alias name used (length used) 0

unfoldable pub import_temp_alias : ℕ → List Text → Option Text
import_temp_alias id used = fresh_alias (txt "__codemesh_manifest_" ++ decimal id) used

unfoldable pub import_rollback_alias : ℕ → List Text → Option Text
import_rollback_alias id used = fresh_alias (txt "__codemesh_manifest_rollback_" ++ decimal id) used
