-- ===== src/State/Canonical.antt =====
-- internal/state/store.go: what a repeated scan changes of a canonical project.
use codemesh.Base.{
  ℕ, ◌≡◌, ◌≢◌, refl, sym, ap, ◌∙◌, Text, txt, none, some, true, false, [], ◌∷◌, arith, Result, ok,
  if◌then◌else◌, is_empty, trim_space, ◌==◌, eq_refl, eq_iff, ◌=ℕ◌, =ℕ_iff, inl, inr, Bool-cases,
  Pairs,
}
use mathlib.Core.Path.{subst}
use codemesh.State.{
  Project, Table, StoreError, UpsertAction, unchanged, updated, find_row, has_id, has_remote,
  set_row, missing_field, with_clone_url, with_placement_defaults, upsert_project, merge_row,
  same_placement,
}
use codemesh.State.Rows.{Differ, IsConsistent}
use codemesh.State.Merges.{All-find_row}

filled-is_empty : (x : Text) → x ≢ [] → is_empty x ≡ false
filled-is_empty [] h = absurd (h refl)
filled-is_empty (c ∷ s) h = refl

-- The fields that `UpsertProject` asks for are there.
pub record IsComplete (p : Project) : Type 0 where
  pub alias : p.alias ≢ []
  pub remote : p.normalized_remote ≢ []
  pub local_path : p.local_path ≢ []

complete-missing_field : (p : Project) → IsComplete p → missing_field p ≡ none
unfolding missing_field
complete-missing_field p c =
    rw
      (
        filled-is_empty p.alias c.alias,
        filled-is_empty p.normalized_remote c.remote,
        filled-is_empty p.local_path c.local_path,
      )
      refl

-- A row of the table that is canonical.
pub record IsCanonical (row : Project) : Type 0 where
  pub source : row.source ≡ txt "canonical"
  pub canonical_path : trim_space row.canonical_path ≢ []

canonical_trimmed : (trim_space (txt "canonical") == txt "canonical") ≡ true
unfolding trim_space ◌==◌
canonical_trimmed = refl

canonical-defaults : (row : Project) → IsCanonical row → with_placement_defaults row ≡ row
unfolding with_placement_defaults
canonical-defaults row c =
    let path = filled-is_empty (trim_space row.canonical_path) c.canonical_path in
    let source : (trim_space row.source == txt "canonical") ≡ true =
      subst (λ s. (trim_space s == txt "canonical") ≡ true) (sym c.source) canonical_trimmed in
    ground (arith, path, source, c.source)

scan : Project → Project
scan p = with_placement_defaults (with_clone_url p)

scan-local_path : (p : Project) → (scan p).local_path ≡ p.local_path
unfolding scan with_placement_defaults with_clone_url
scan-local_path p = ground arith

scan-remote : (p : Project) → (scan p).normalized_remote ≡ p.normalized_remote
unfolding scan with_placement_defaults with_clone_url
scan-remote p = ground arith

-- In a table whose ids differ, a row that is found by its remote is found by its id.
find_row-id :
    (remote : Text) (t : Table) (row : Project)
    → Pairs Differ t
    → find_row (has_remote remote) t ≡ some row
    → find_row (has_id row.id) t ≡ some row
unfolding find_row
find_row-id remote [] row d e = cc
find_row-id remote (q ∷ t) row d e = elim (Bool-cases (has_remote remote q)) [
  | inl hit ↦
      let same : q ≡ row = ground (arith, rw hit at e) in
      subst (λ r. find_row (has_id r.id) (q ∷ t) ≡ some r) same (ground (arith, =ℕ_iff q.id q.id))
  | inr miss ↦
      let later = rw miss at e in
      let other : q.id ≢ row.id = (All-find_row (Differ q) (has_remote remote) t d.0 later).ids in
      let skipped : (q.id =ℕ row.id) ≡ false = ground (arith, other, =ℕ_iff q.id row.id) in
      rw skipped (find_row-id remote t row d.1 later)
]

find_row-set_row :
    (n : ℕ) (new row : Project) (t : Table)
    → find_row (has_id n) t ≡ some row
    → find_row (has_id n) (set_row n new t) ≡ some (record new { id = n })
unfolding find_row set_row
find_row-set_row n new row [] e = cc
find_row-set_row n new row (q ∷ t) e = elim (Bool-cases (q.id =ℕ n)) [
  | inl own ↦
      let same : q.id ≡ n = (=ℕ_iff q.id n).0 own in
      rw own (rw own (ap (λ i. some (record new { id = i })) same))
  | inr other ↦ rw other (rw other (find_row-set_row n new row t (rw other at e)))
]

find_row-set_row_other :
    (n id : ℕ) (new : Project) (t : Table)
    → (n =ℕ id) ≡ false
    → find_row (has_id id) (set_row n new t) ≡ find_row (has_id id) t
unfolding find_row set_row
find_row-set_row_other n id new [] h = refl
find_row-set_row_other n id new (q ∷ t) h = ground (arith, find_row-set_row_other n id new t h)

-- The row with its local path moved, under its id; and every other id finds what it found.
pub record MovesOnly (row : Project) (path : Text) (t after : Table) : Type 0 where
  pub own : find_row (has_id row.id) after ≡ some (record row { local_path = path })
  pub others : (id : ℕ) → id ≢ row.id → find_row (has_id id) after ≡ find_row (has_id id) t

set_row-MovesOnly :
    (row : Project) (path : Text) (t : Table)
    → find_row (has_id row.id) t ≡ some row
    → MovesOnly row path t (set_row row.id (record row { local_path = path }) t)
set_row-MovesOnly row path t found = record {
  own = find_row-set_row row.id (record row { local_path = path }) row t found;
  others = λ id other.
      find_row-set_row_other row.id id (record row { local_path = path }) t
        (ground (arith, other, =ℕ_iff row.id id));
}

-- What `UpsertProject` does once it has a row and what the row becomes.
outcome : Project → Project → Table → Result StoreError (Project × UpsertAction) × Table
outcome old new t =
    if same_placement old new
    then (ok (old, unchanged), t)
    else (ok (new, updated), set_row old.id new t)

upsert_project-outcome :
    (p row : Project) (t : Table)
    → missing_field p ≡ none
    → find_row (has_remote (scan p).normalized_remote) t ≡ some row
    → upsert_project p t
      ≡ outcome (with_placement_defaults row) (merge_row (with_placement_defaults row) (scan p)) t
unfolding upsert_project outcome scan
upsert_project-outcome p row t good found = rw (good, found, upsert_project) refl

merge_row-canonical :
    (p row : Project)
    → row.source ≡ txt "canonical"
    → merge_row row (scan p) ≡ record row { local_path = p.local_path }
unfolding merge_row
merge_row-canonical p row source =
    rw ((eq_iff row.source (txt "canonical")).1 source)
      (ap (λ path. record row { local_path = path }) (scan-local_path p))

same_placement-path :
    (row : Project) (path : Text)
    → same_placement row (record row { local_path = path }) ≡ (row.local_path == path)
unfolding same_placement
same_placement-path row path =
    ground (arith, eq_refl row.clone_url, eq_refl row.canonical_path, eq_refl row.source)

-- Where the path is the one of before, nothing moves.
stays-MovesOnly :
    (row : Project) (path : Text) (t : Table)
    → row.local_path ≡ path
    → find_row (has_id row.id) t ≡ some row
    → MovesOnly row path t t
stays-MovesOnly row path t same found = record {
  own = found ∙ ap (λ x. some (record row { local_path = x })) same;
  others = λ id other. refl;
}

-- A project that has its required fields is registered, and a row of the consistent table has its
-- remote, is canonical and has a canonical path that is not blank. Then the answer is that row with
-- the local path of the scan, as `unchanged` exactly when the row had that path before; and
-- afterwards the row has that local path and its other fields as before, and every other row is as
-- it was.
pub upsert_project_canonical :
    (p row : Project) (t : Table)
    → IsConsistent t
    → IsComplete p
    → find_row (has_remote p.normalized_remote) t ≡ some row
    → IsCanonical row
    → ((upsert_project p t).0
        ≡ ok (
          record row { local_path = p.local_path },
          if row.local_path == p.local_path then unchanged else updated,
        ))
      × MovesOnly row p.local_path t (upsert_project p t).1
unfolding outcome
upsert_project_canonical p row t c complete found canonical =
    let same_remote = sym (scan-remote p) in
    let found' = subst (λ r. find_row (has_remote r) t ≡ some row) same_remote found in
    let old = canonical-defaults row canonical in
    let moved = record row { local_path = p.local_path } in
    let by_id = find_row-id p.normalized_remote t row c.differ found in
    let steps : upsert_project p t ≡ outcome row moved t =
      upsert_project-outcome p row t (complete-missing_field p complete) found'
      ∙ ap (λ r. outcome r (merge_row r (scan p)) t) old
      ∙ ap (λ m. outcome row m t) (merge_row-canonical p row canonical.source) in
    rw steps (elim (Bool-cases (row.local_path == p.local_path)) [
      | inl same ↦
          let path = (eq_iff row.local_path p.local_path).0 same in
          rw (same_placement-path row p.local_path, same)
            (
              ap (λ x. ok (record row { local_path = x }, unchanged)) path,
              stays-MovesOnly row p.local_path t path by_id,
            )
      | inr other ↦
          rw (same_placement-path row p.local_path, other)
            (refl, set_row-MovesOnly row p.local_path t by_id)
    ])
