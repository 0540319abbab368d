-- ===== src/State/Merges.antt =====
-- A project that is registered again is merged into its row, and the table stays consistent.
use codemesh.Base.{
  ℕ, suc, ◌≡◌, refl, sym, inl, inr, Bool, true, none, some, [], ◌∷◌, arith, Result, ok, err, All,
  Pairs, Bool-cases, Option-cases,
}
use mathlib.Core.Path.{subst}
use codemesh.State.{
  Project, Table, find_row, has_remote, set_row, missing_field, with_clone_url,
  with_placement_defaults, upsert_project, merge_row, with_action, same_placement, StoreError,
  UpsertAction,
}
use codemesh.State.Rows.{Differ, IsFilled, IsConsistent}
use codemesh.State.Writes.{add_project-IsConsistent, Apart, set_row-Differ, set_row-IsFilled}

-- A row that is found is one of the rows.
pub All-find_row :
    (P : Project → Type 0) (test : Project → Bool) (t : Table) {row : Project}
    → All P t
    → find_row test t ≡ some row
    → P row
unfolding find_row
All-find_row P test [] h e = cc
All-find_row P test (q ∷ t) h e = elim (Bool-cases (test q)) [
  | inl hit ↦ ground (arith, rw hit at e, h.0)
  | inr miss ↦ All-find_row P test t h.1 (rw miss at e)
]

found-test :
    (test : Project → Bool) (t : Table) {row : Project}
    → find_row test t ≡ some row
    → test row ≡ true
unfolding find_row
found-test test [] e = cc
found-test test (q ∷ t) e = elim (Bool-cases (test q)) [
  | inl hit ↦ ground (arith, rw hit at e, hit)
  | inr miss ↦ found-test test t (rw miss at e)
]

Differ-Apart : (row q : Project) → Differ row q → Apart row.id row q
unfolding Apart
Differ-Apart row q d = inr (λ e. d.aliases (sym e), λ e. d.remotes (sym e))

Differ-Apart_back : (row q : Project) → Differ q row → Apart row.id row q
unfolding Apart
Differ-Apart_back row q d = inr (d.aliases, d.remotes)

All-map_one : (P Q : Project → Type 0) (t : Table) → ((q : Project) → P q → Q q) → All P t → All Q t
All-map_one P Q [] f h = tt
All-map_one P Q (q ∷ t) f h = (f q h.0, All-map_one P Q t f h.1)

found-Apart :
    (test : Project → Bool) (t : Table) (row : Project)
    → Pairs Differ t
    → find_row test t ≡ some row
    → All (Apart row.id row) t
unfolding find_row
found-Apart test [] row d e = cc
found-Apart test (q ∷ t) row d e = elim (Bool-cases (test q)) [
  | inl hit ↦
      let same : q ≡ row = ground (arith, rw hit at e) in
      subst (λ r. All (Apart r.id r) (q ∷ t)) same
        (unfold Apart in inl (ground arith), All-map_one (Differ q) _ t (Differ-Apart q) d.0)
  | inr miss ↦ (
    Differ-Apart_back row q (All-find_row (Differ q) test t d.0 (rw miss at e)),
    found-Apart test t row d.1 (rw miss at e),
  )
]

merged : Project → Project → Project
merged row p = merge_row (with_placement_defaults row) p

merged-Apart :
    (row p q : Project)
    → Apart row.id row q
    → Apart (with_placement_defaults row).id (merged row p) q
unfolding Apart merged merge_row with_placement_defaults
merged-Apart row p q a = ground (arith, a)

merged-IsFilled :
    (row p : Project) (n : ℕ)
    → IsFilled row
    → missing_field p ≡ none
    → IsFilled (record (merged row (with_placement_defaults (with_clone_url p))) { id = suc n })
unfolding merged merge_row with_placement_defaults with_clone_url missing_field
merged-IsFilled row p n f h = ground (arith, f)

set_merged-IsConsistent :
    (test : Project → Bool) (p row : Project) (t : Table)
    → IsConsistent t
    → missing_field p ≡ none
    → find_row test t ≡ some row
    → IsConsistent (
        set_row
          (with_placement_defaults row).id
          (merged row (with_placement_defaults (with_clone_url p)))
          t)
set_merged-IsConsistent test p row t c good found = record {
  differ = set_row-Differ _ _ t c.differ (
      All-map_one (Apart row.id row) _ t (merged-Apart row _)
        (found-Apart test t row c.differ found));
  filled =
      set_row-IsFilled _ _ t c.filled
        (λ n. merged-IsFilled row p n (All-find_row IsFilled test t c.filled found) good);
}

with_action-table :
    (a : UpsertAction) (r : Result StoreError Project × Table) → (with_action a r).1 ≡ r.1
with_action-table a (ok p, t) = refl
with_action-table a (err e, t) = refl

-- `UpsertProject` keeps the table consistent, also when it refuses.
pub upsert_project-IsConsistent :
    (p : Project) (t : Table) → IsConsistent t → IsConsistent (upsert_project p t).1
unfolding upsert_project merged
upsert_project-IsConsistent p t c =
    let q = with_placement_defaults (with_clone_url p) in
    elim (Option-cases (missing_field p)) [
      | inr (e, bad) ↦ rw (bad, upsert_project) c
      | inl good ↦ elim (Option-cases (find_row (has_remote q.normalized_remote) t)) [
        | inl new ↦
            rw (good, new, upsert_project) (rw with_action-table (add_project-IsConsistent q t c))
        | inr (row, found) ↦
            let old = with_placement_defaults row in
            elim (Bool-cases (same_placement old (merge_row old q))) [
              | inl as_is ↦ rw (good, found, as_is, upsert_project) c
              | inr moved ↦
                  rw (good, found, moved, upsert_project)
                    (set_merged-IsConsistent _ p row t c good found)
            ]
      ]
    ]
