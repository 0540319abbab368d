-- ===== src/State/Invariant.antt =====
-- The table of projects stays consistent: no two rows share an id, an alias or a remote, and no
-- row lacks a required field.
use codemesh.Base.{ℕ}
use codemesh.State.{Project, Table, add_project, update_project, delete_project, upsert_project}
use codemesh.State.Rows.{IsConsistent}
use codemesh.State.Writes.{
  add_project-IsConsistent, update_project-IsConsistent, delete_project-IsConsistent,
}
use codemesh.State.Merges.{upsert_project-IsConsistent}

-- The methods that write to the table, as steps of its life.
pub data Step : Table → Table → Type 0 where
  add : (p : Project) (t : Table) → Step t (add_project p t).1
  upsert : (p : Project) (t : Table) → Step t (upsert_project p t).1
  update : (id : ℕ) (p : Project) (t : Table) → Step t (update_project id p t).1
  delete : (id : ℕ) (t : Table) → Step t (delete_project id t).1

pub data Reach (s : Table) : Table → Type 0 where
  here : Reach s s
  next : {t u : Table} → Reach s t → Step t u → Reach s u

Step-IsConsistent : {t u : Table} → Step t u → IsConsistent t → IsConsistent u
Step-IsConsistent (add p t) c = add_project-IsConsistent p t c
Step-IsConsistent (upsert p t) c = upsert_project-IsConsistent p t c
Step-IsConsistent (update id p t) c = update_project-IsConsistent id p t c
Step-IsConsistent (delete id t) c = delete_project-IsConsistent id t c

-- Whatever methods are called, in whatever order and with whatever arguments, a table that began
-- consistent has no two rows with one id, one alias or one remote, and no row without an alias,
-- a remote or a local path.
pub Reach-IsConsistent : {s t : Table} → IsConsistent s → Reach s t → IsConsistent t
Reach-IsConsistent c here = c
Reach-IsConsistent c (next r st) = Step-IsConsistent st (Reach-IsConsistent c r)
