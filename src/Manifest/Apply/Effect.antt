-- ===== src/Manifest/Apply/Effect.antt =====
-- What a successful import leaves in the table.
use mathlib.Core.Path.{subst}
use codemesh.Base.{
  ℕ, ◌≡◌, ◌≢◌, refl, sym, true, false, none, List, [], ◌∷◌, ◌++◌, map, keep, ok, Bool-cases,
  Option-cases, Result-cases, inl, inr, is_empty, arith, All, All-imp, Pairs, trim_space, txt, ◌==◌,
  ◌∙◌, if◌then◌else◌,
}
use codemesh.State.{
  Project, Table, add_project, update_project, with_placement_defaults, with_clone_url,
}
use codemesh.Manifest.Plan.Change.{ImportChange}
use codemesh.Manifest.Apply.Store.{sqlite}
use codemesh.Manifest.Apply.Rows.{
  InTable, stored, InTable-append, InTable-last, InTable-set_row, add_project-ok, update_project-ok,
}
use codemesh.Manifest.Apply.{
  Applied, project_from_import_change, is_update, is_add, first_with_id, free_aliases,
  write_updates, add_changes, temp_rows, apply_updates_of, apply_import_updates,
  apply_import_changes, fail_updates, fail_adds, UpdateRollback,
}

-- The row that a change asks for, under an id.
abbrev pub desired_row : ImportChange → ℕ → Project
desired_row c id = record {
  id = id;
  alias = c.alias;
  normalized_remote = c.identity;
  clone_url = if is_empty c.clone_url then c.identity else c.clone_url;
  local_path = c.local_path;
  canonical_path =
      if is_empty (trim_space c.canonical_path) then c.local_path else c.canonical_path;
  source = txt "canonical";
}

canonical_kept : (trim_space (txt "canonical") == txt "canonical") ≡ true
unfolding trim_space ◌==◌
canonical_kept = refl

stored-desired_row :
    (c : ImportChange) (id : ℕ)
    → record (stored (project_from_import_change c)) { id = id } ≡ desired_row c id
unfolding stored project_from_import_change with_placement_defaults with_clone_url
stored-desired_row c id = ground (arith, canonical_kept)

abbrev pub SameTarget : ImportChange → ImportChange → Type 0
SameTarget c d = c.project_id ≡ d.project_id

-- The change is for another row.
abbrev pub Elsewhere : ℕ → ImportChange → Type 0
Elsewhere id c = id ≢ c.project_id

update_project-keeps :
    (id : ℕ) (p q : Project) (t : Table) {row : Project}
    → (update_project id p t).0 ≡ ok row
    → q.id ≢ id
    → InTable q t
    → InTable q (update_project id p t).1
update_project-keeps id p q t done other here =
    subst (InTable q) (sym (update_project-ok p t id done).1)
      (InTable-set_row id (stored p) q t other here)

write_updates-keeps :
    (q : Project) (cs : List ImportChange) (updated : List Project) (t : Table)
    → All (Elsewhere q.id) cs
    → (write_updates sqlite cs updated t).0 ≡ none
    → InTable q t
    → InTable q (write_updates sqlite cs updated t).2
unfolding write_updates
write_updates-keeps q [] updated t others done here = here
write_updates-keeps q (c ∷ cs) updated t others done here =
    let p = project_from_import_change c in
    elim (Result-cases (update_project c.project_id p t).0) [
      | inr (e, failed) ↦ ground arith
      | inl (row, fine) ↦
          rw (write_updates, fine)
            (write_updates-keeps q cs (updated ++ row ∷ []) _ others.1 (ground arith)
              (update_project-keeps c.project_id p q t fine others.0 here))
    ]

write_updates-rows :
    (cs : List ImportChange) (updated : List Project) (t : Table)
    → Pairs (λ c d. Elsewhere c.project_id d) cs
    → (write_updates sqlite cs updated t).0 ≡ none
    → (after : Table) → (write_updates sqlite cs updated t).2 ≡ after
    → All (λ c. InTable (desired_row c c.project_id) after) cs
unfolding write_updates
write_updates-rows [] updated t apart done after e = tt
write_updates-rows (c ∷ cs) updated t apart done after e =
    let p = project_from_import_change c in
    elim (Result-cases (update_project c.project_id p t).0) [
      | inr (e, failed) ↦ ground arith
      | inl (row, fine) ↦
          let t' = (update_project c.project_id p t).1 in
          let more = updated ++ row ∷ [] in
          let rest : (write_updates sqlite cs more t').0 ≡ none = ground arith in
          let end : (write_updates sqlite cs more t').2 ≡ after = ground arith in
          (
            subst (InTable (desired_row c c.project_id)) end (
                write_updates-keeps (desired_row c c.project_id) cs more t' apart.0 rest (
                  subst (λ q. InTable q t') (stored-desired_row c c.project_id)
                    (update_project-ok p t c.project_id fine).0)),
            write_updates-rows cs more t' apart.1 rest after end,
          )
    ]

free_aliases-keeps :
    (q : Project) (temps : List Project) (cs : List ImportChange) (renamed : List ℕ) (t : Table)
    → All (Elsewhere q.id) cs
    → (free_aliases sqlite temps cs renamed t).0 ≡ none
    → InTable q t
    → InTable q (free_aliases sqlite temps cs renamed t).2
unfolding free_aliases
free_aliases-keeps q temps [] renamed t others done here = here
free_aliases-keeps q temps (c ∷ cs) renamed t others done here =
    elim (Option-cases (first_with_id temps c.project_id)) [
      | inl same ↦
          rw (same, free_aliases)
            (free_aliases-keeps q temps cs renamed t others.1 (ground arith) here)
      | inr (p, other) ↦ elim (Result-cases (update_project c.project_id p t).0) [
        | inr (e, failed) ↦ ground arith
        | inl (row, fine) ↦
            rw (other, free_aliases, fine)
              (free_aliases-keeps q temps cs (renamed ++ c.project_id ∷ []) _ others.1
                (ground arith) (update_project-keeps c.project_id p q t fine others.0 here))
      ]
    ]

add_project-keeps :
    (p q : Project) (t : Table) {row : Project}
    → (add_project p t).0 ≡ ok row
    → InTable q t
    → InTable q (add_project p t).1
add_project-keeps p q t {row} done here =
    subst (InTable q) (sym (add_project-ok p t done).1) (InTable-append q t (row ∷ []) here)

add_changes-keeps :
    (q : Project) (cs : List ImportChange) (added : List Project) (t : Table)
    → (add_changes sqlite cs added t).0 ≡ none
    → InTable q t
    → InTable q (add_changes sqlite cs added t).2
unfolding add_changes
add_changes-keeps q [] added t done here = here
add_changes-keeps q (c ∷ cs) added t done here = elim (Bool-cases (is_add c.action)) [
  | inr other ↦ rw (other, add_changes) (add_changes-keeps q cs added t (ground arith) here)
  | inl adds ↦
      let p = project_from_import_change c in
      elim (Result-cases (add_project p t).0) [
        | inr (e, failed) ↦ ground arith
        | inl (row, fine) ↦
            rw (adds, add_changes, fine)
              (add_changes-keeps q cs (added ++ row ∷ []) _ (ground arith)
                (add_project-keeps p q t fine here))
      ]
]

abbrev pub adding_changes : List ImportChange → List ImportChange
adding_changes = keep (λ c. is_add c.action)

abbrev pub updating_changes : List ImportChange → List ImportChange
updating_changes = keep (λ c. is_update c.action)

add_changes-rows :
    (cs : List ImportChange) (added : List Project) (t : Table)
    → (add_changes sqlite cs added t).0 ≡ none
    → (after : Table) → (add_changes sqlite cs added t).2 ≡ after
    → All (λ c. (id : ℕ) × InTable (desired_row c id) after) (adding_changes cs)
unfolding add_changes keep
add_changes-rows [] added t done after e = tt
add_changes-rows (c ∷ cs) added t done after e = elim (Bool-cases (is_add c.action)) [
  | inr other ↦ rw other (add_changes-rows cs added t (ground arith) after (ground arith))
  | inl adds ↦
      let p = project_from_import_change c in
      elim (Result-cases (add_project p t).0) [
        | inr (e, failed) ↦ ground arith
        | inl (row, fine) ↦
            let (shape, grown) = add_project-ok p t fine in
            let t' = (add_project p t).1 in
            let more = added ++ row ∷ [] in
            let here : InTable row t' = subst (InTable row) (sym grown) (InTable-last row t) in
            let rest : (add_changes sqlite cs more t').0 ≡ none = ground arith in
            let end : (add_changes sqlite cs more t').2 ≡ after = ground arith in
            rw adds (
              (
                row.id,
                subst (InTable (desired_row c row.id)) end (
                    add_changes-keeps (desired_row c row.id) cs more t' rest
                      (subst (λ r. InTable r t') (shape ∙ stored-desired_row c row.id) here)),
              ),
              add_changes-rows cs more t' rest after end,
            )
      ]
]

-- The table holds the row of every change that updates, under its id, and a row for every change
-- that adds.
pub record Reflects (changes : List ImportChange) (t : Table) : Type 0 where
  pub updated : All (λ c. InTable (desired_row c c.project_id) t) (updating_changes changes)
  pub added : All (λ c. (id : ℕ) × InTable (desired_row c id) t) (adding_changes changes)

-- No two of the changes update one row.
abbrev pub TargetsDiffer : List ImportChange → Type 0
TargetsDiffer changes = Pairs (λ c d. Elsewhere c.project_id d) (updating_changes changes)

apply_updates_of-rows :
    (cs : List ImportChange) (projects : List Project) (t : Table)
    {x : List Project × UpdateRollback}
    → (apply_updates_of sqlite false cs projects t).0 ≡ ok x
    → Pairs (λ c d. Elsewhere c.project_id d) cs
    → All
        (λ c. InTable (desired_row c c.project_id) (apply_updates_of sqlite false cs projects t).1)
        cs
unfolding apply_updates_of fail_updates
apply_updates_of-rows cs projects t done apart =
    let used = map (λ (c : ImportChange). c.alias) cs ++ map (λ (q : Project). q.alias) projects in
    let (stopped, renamed, t') = free_aliases sqlite (temp_rows projects used [] cs) cs [] t in
    elim (Option-cases stopped) [
      | inr (failure, e) ↦ ground arith
      | inl freed ↦
          let (stopped', updated, t'') = write_updates sqlite cs [] t' in
          elim (Option-cases stopped') [
            | inr (failure, e) ↦ ground arith
            | inl written ↦ write_updates-rows cs [] t' apart written _ (ground arith)
          ]
    ]

All-empty {ℓ κ} : {A : Type ℓ} (P : A → Type κ) (xs : List A) → is_empty xs ≡ true → All P xs
All-empty P [] e = tt
All-empty P (x ∷ xs) e = cc

apply_import_updates-rows :
    (changes : List ImportChange) (projects : List Project) (t : Table)
    {x : List Project × UpdateRollback}
    → (apply_import_updates sqlite false changes projects t).0 ≡ ok x
    → TargetsDiffer changes
    → (after : Table) → (apply_import_updates sqlite false changes projects t).1 ≡ after
    → All (λ c. InTable (desired_row c c.project_id) after) (updating_changes changes)
unfolding apply_import_updates
apply_import_updates-rows changes projects t {x} done apart after e =
    let cs = updating_changes changes in
    elim (Bool-cases (is_empty cs)) [
      | inl nothing ↦ All-empty (λ c. InTable (desired_row c c.project_id) after) cs nothing
      | inr some_changes ↦
          subst (λ u. All (λ c. InTable (desired_row c c.project_id) u) cs)
            {x = (apply_updates_of sqlite false cs projects t).1} (ground arith)
            (apply_updates_of-rows cs projects t {x = x} (ground arith) apart)
    ]

-- Changes that are applied with success are reflected in the table.
pub apply_import_changes-Reflects :
    (changes : List ImportChange) (projects : List Project) (t : Table) {a : Applied}
    → (apply_import_changes sqlite false changes projects t).0 ≡ ok a
    → TargetsDiffer changes
    → Reflects changes (apply_import_changes sqlite false changes projects t).1
unfolding apply_import_changes fail_adds
apply_import_changes-Reflects changes projects t done apart =
    let (r, t') = apply_import_updates sqlite false changes projects t in
    elim (Result-cases r) [
      | inr (e, failed) ↦ ground arith
      | inl (x, fine) ↦
          let (stopped, added, t'') = add_changes sqlite changes [] t' in
          elim (Option-cases stopped) [
            | inr (failure, e) ↦ ground arith
            | inl all ↦ subst (Reflects changes) {x = t''} (ground arith) (record {
              updated =
                  All-imp (λ c. InTable (desired_row c c.project_id) t')
                    (λ c. InTable (desired_row c c.project_id) t'') (updating_changes changes)
                    (λ c here.
                      add_changes-keeps (desired_row c c.project_id) changes [] t' all here)
                    (apply_import_updates-rows changes projects t fine apart t' refl);
              added = add_changes-rows changes [] t' all t'' refl;
            })
          ]
    ]
