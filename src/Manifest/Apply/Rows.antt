-- ===== src/Manifest/Apply/Rows.antt =====
-- What one successful call does to the rows of the table.
use codemesh.Base.{
  ℕ, zero, suc, ◌≡◌, ◌≢◌, refl, sym, ◌∙◌, ap, ◌⊎◌, inl, inr, not, ◌&&◌, some, [], ◌∷◌, ◌++◌,
  Option-cases, Bool-cases, ok, arith, ◌=ℕ◌,
}
use codemesh.State.{
  Project, Table, find_row, has_alias, has_remote, has_id, set_row, insert_row, missing_field,
  with_clone_url, with_placement_defaults, add_project, update_project,
}

-- A row of the table.
abbrev pub InTable : Project → Table → Type 0
InTable p [] = ⊥
InTable p (q ∷ t) = (q ≡ p) ⊎ InTable p t

-- What a writing method stores, but for the id.
unfoldable pub stored : Project → Project
stored p = with_placement_defaults (with_clone_url p)

pub InTable-append : (p : Project) (t u : Table) → InTable p t → InTable p (t ++ u)
InTable-append p [] u m = elim m [ ]
InTable-append p (q ∷ t) u (inl e) = inl e
InTable-append p (q ∷ t) u (inr m) = inr (InTable-append p t u m)

pub InTable-last : (p : Project) (t : Table) → InTable p (t ++ p ∷ [])
InTable-last p [] = inl refl
InTable-last p (q ∷ t) = inr (InTable-last p t)

pub InTable-set_row :
    (id : ℕ) (p q : Project) (t : Table) → q.id ≢ id → InTable q t → InTable q (set_row id p t)
unfolding set_row
InTable-set_row id p q [] other m = elim m [ ]
InTable-set_row id p q (r ∷ t) other (inl e) = elim (Bool-cases (r.id =ℕ id)) [
  | inl hit ↦ absurd (other (sym (ap (λ (x : Project). x.id) e) ∙ ground arith))
  | inr miss ↦ rw miss (inl e)
]
InTable-set_row id p q (r ∷ t) other (inr m) = inr (InTable-set_row id p q t other m)

set_row-InTable :
    (id : ℕ) (p old : Project) (t : Table)
    → find_row (has_id id) t ≡ some old
    → InTable (record p { id = id }) (set_row id p t)
unfolding set_row find_row
set_row-InTable id p old [] found = cc
set_row-InTable id p old (r ∷ t) found = elim (Bool-cases (r.id =ℕ id)) [
  | inl hit ↦ rw hit (inl (let e : r.id ≡ id = ground arith in rw e))
  | inr miss ↦ inr (set_row-InTable id p old t (rw miss at found))
]

module _ (p : Project) (t : Table) where
  -- A project that is added is a new last row, with an id of its own.
  pub add_project-ok :
      {row : Project}
      → (add_project p t).0 ≡ ok row
      → (row ≡ record (stored p) { id = row.id }) × ((add_project p t).1 ≡ t ++ row ∷ [])
  unfolding add_project insert_row stored
  add_project-ok {row} done =
      let q = with_placement_defaults (with_clone_url p) in
      elim (Option-cases (missing_field p)) [
        | inr (e, bad) ↦ ground arith
        | inl good ↦ elim (Option-cases (find_row (has_alias q.alias) t)) [
          | inr (o, taken) ↦ ground arith
          | inl free ↦ elim (Option-cases (find_row (has_remote q.normalized_remote) t)) [
            | inr (o, taken) ↦ ground arith
            | inl new ↦ (ground arith, ground arith)
          ]
        ]
      ]

  -- A project that is updated is in the row of its id, and the other rows stay.
  pub update_project-ok :
      (id : ℕ) {row : Project}
      → (update_project id p t).0 ≡ ok row
      → (InTable (record (stored p) { id = id }) (update_project id p t).1)
        × ((update_project id p t).1 ≡ set_row id (stored p) t)
  unfolding update_project stored
  update_project-ok zero done = cc
  update_project-ok (suc n) done =
      let q = with_placement_defaults (with_clone_url p) in
      elim (Option-cases (missing_field p)) [
        | inr (e, bad) ↦ ground arith
        | inl good ↦
            elim (Option-cases (find_row (λ r. has_alias q.alias r && not (has_id (suc n) r)) t)) [
              | inr (o, taken) ↦ ground arith
              | inl free ↦
                  elim (Option-cases (
                    find_row (λ r. has_remote q.normalized_remote r && not (has_id (suc n) r)) t)) [
                      | inr (o, taken) ↦ ground arith
                      | inl new ↦ elim (Option-cases (find_row (has_id (suc n)) t)) [
                        | inl gone ↦ ground arith
                        | inr (old, found) ↦
                            rw (good, update_project, free, new, found)
                              (set_row-InTable (suc n) q old t found, refl)
                      ]
                    ]
            ]
      ]
