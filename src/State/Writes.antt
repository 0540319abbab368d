-- ===== src/State/Writes.antt =====
-- The methods that write one row keep the table consistent.
use codemesh.Base.{
  ℕ, zero, suc, ◌≡◌, ◌≢◌, ◌⊎◌, inl, inr, eq_iff, true, false, not, ◌&&◌, [], ◌∷◌, arith,
  if◌then◌else◌, ◌=ℕ◌, All, Pairs, Bool-cases, Option-cases,
}
use codemesh.State.{
  Project, Table, find_row, has_alias, has_remote, has_id, set_row, missing_field, with_clone_url,
  with_placement_defaults, add_project, update_project, delete_project, insert_row,
}
use codemesh.State.Rows.{
  Differ, IsFilled, IsConsistent, find_row-All, All-keep, Pairs-keep, defaults-IsFilled,
  insert_row-IsConsistent,
}

-- `AddProject` keeps the table consistent, also when it refuses.
pub add_project-IsConsistent :
    (p : Project) (t : Table) → IsConsistent t → IsConsistent (add_project p t).1
unfolding add_project insert_row
add_project-IsConsistent p t c =
    let q = with_placement_defaults (with_clone_url p) in
    elim (Option-cases (missing_field p)) [
      | inr (e, bad) ↦ rw (bad, add_project) c
      | inl good ↦ elim (Option-cases (find_row (has_alias q.alias) t)) [
        | inr (o, taken) ↦ rw (good, taken, add_project) c
        | inl free ↦ elim (Option-cases (find_row (has_remote q.normalized_remote) t)) [
          | inr (o, taken) ↦ rw (good, free, taken, add_project) c
          | inl new ↦
              rw (good, free, new, add_project)
                (insert_row-IsConsistent q t c (λ n. defaults-IsFilled p n good) free new)
        ]
      ]
    ]

-- Each other row differs from the row that is written in alias and remote, or has its id.
unfoldable pub Apart : ℕ → Project → Project → Type 0
Apart id p q =
    ((q.id =ℕ id) ≡ true) ⊎ ((q.alias ≢ p.alias) × (q.normalized_remote ≢ p.normalized_remote))

rows-Apart :
    (id : ℕ) (p : Project) (t : Table)
    → All (λ q. (has_alias p.alias q && not (has_id id q)) ≡ false) t
    → All (λ q. (has_remote p.normalized_remote q && not (has_id id q)) ≡ false) t
    → All (Apart id p) t
unfolding Apart
rows-Apart id p [] a r = tt
rows-Apart id p (q ∷ t) a r = (
  elim (Bool-cases (q.id =ℕ id)) [
    | inl own ↦ inl own
    | inr other ↦ inr (
      (λ e. ground (arith, a.0, eq_iff q.alias p.alias)),
      (λ e. ground (arith, r.0, eq_iff q.normalized_remote p.normalized_remote)),
    )
  ],
  rows-Apart id p t a.1 r.1,
)

set_row-Differ_one :
    (id : ℕ) (p o : Project) (t : Table)
    → All (Differ o) t
    → All (Apart id p) t
    → Apart id p o
    → All (Differ (if has_id id o then record p { id = o.id } else o)) (set_row id p t)
unfolding set_row Apart
set_row-Differ_one id p o [] d a b = tt
set_row-Differ_one id p o (q ∷ t) d a b =
    (ground (arith, d.0, a.0, b), set_row-Differ_one id p o t d.1 a.1 b)

pub set_row-Differ :
    (id : ℕ) (p : Project) (t : Table)
    → Pairs Differ t
    → All (Apart id p) t
    → Pairs Differ (set_row id p t)
unfolding set_row
set_row-Differ id p [] d a = tt
set_row-Differ id p (q ∷ t) d a =
    (set_row-Differ_one id p q t d.0 a.1 a.0, set_row-Differ id p t d.1 a.1)

pub set_row-IsFilled :
    (id : ℕ) (p : Project) (t : Table)
    → All IsFilled t
    → ((n : ℕ) → IsFilled (record p { id = suc n }))
    → All IsFilled (set_row id p t)
unfolding set_row
set_row-IsFilled id p [] h f = tt
set_row-IsFilled id p (q ∷ t) h f = (ground (arith, h.0, f 0), set_row-IsFilled id p t h.1 f)

-- `UpdateProject` keeps the table consistent, also when it refuses.
pub update_project-IsConsistent :
    (id : ℕ) (p : Project) (t : Table) → IsConsistent t → IsConsistent (update_project id p t).1
unfolding update_project
update_project-IsConsistent zero p t c = c
update_project-IsConsistent (suc n) p t c =
    let q = with_placement_defaults (with_clone_url p) in
    let same_alias = find_row (λ r. has_alias q.alias r && not (has_id (suc n) r)) t in
    let same_remote =
      find_row (λ r. has_remote q.normalized_remote r && not (has_id (suc n) r)) t in
    elim (Option-cases (missing_field p)) [
      | inr (e, bad) ↦ rw (bad, update_project) c
      | inl good ↦ elim (Option-cases same_alias) [
        | inr (o, taken) ↦ rw (good, taken, update_project) c
        | inl free ↦ elim (Option-cases same_remote) [
          | inr (o, taken) ↦ rw (good, free, taken, update_project) c
          | inl new ↦ elim (Option-cases (find_row (has_id (suc n)) t)) [
            | inl gone ↦ rw (good, free, new, gone, update_project) c
            | inr (o, there) ↦
                rw (good, free, new, there, update_project)
                  (record {
                    differ =
                        set_row-Differ (suc n) q t c.differ
                          (rows-Apart (suc n) q t (find_row-All _ t free) (find_row-All _ t new));
                    filled =
                        set_row-IsFilled (suc n) q t c.filled (λ k. defaults-IsFilled p k good);
                  })
          ]
        ]
      ]
    ]

-- `DeleteProject` keeps the table consistent, also when it refuses.
pub delete_project-IsConsistent :
    (id : ℕ) (t : Table) → IsConsistent t → IsConsistent (delete_project id t).1
unfolding delete_project
delete_project-IsConsistent zero t c = c
delete_project-IsConsistent (suc n) t c = elim (Option-cases (find_row (has_id (suc n)) t)) [
  | inl gone ↦ rw (gone, delete_project) c
  | inr (o, there) ↦
      rw (there, delete_project)
        (record {
          differ = Pairs-keep Differ _ t c.differ;
          filled = All-keep IsFilled _ t c.filled;
        })
]
