-- ===== src/State/Bindings/Kept.antt =====
-- internal/state/store.go: a binding that was written is read back.
use codemesh.Base.{
  ◌≡◌, refl, ap, ◌∙◌, suc, ℕ, Text, ◌==◌, eq_iff, =ℕ_iff, ◌=ℕ◌, true, false, ◌&&◌, none, some, List,
  [], ◌∷◌, ◌++◌, if◌then◌else◌, inl, inr, arith, Bool-cases, Option-cases, Result-cases, ok,
  ok_injective, unique_sorted_idempotent,
}
use mathlib.Core.Path.{subst, sym}
use codemesh.State.Bindings.Tidied.{Tidies, normalized_binding-Tidies}
use codemesh.State.Bindings.{
  EnvBinding, ScopesJson, BindingRow, normalized_scopes, normalized_binding, has_key_of,
  find_binding, set_binding, binding_row, upsert_env_binding, binding_of, last_binding_id,
}

normalized_binding-fields :
    (b n : EnvBinding) → normalized_binding b ≡ ok n → n.scopes ≡ normalized_scopes b.scopes
unfolding normalized_binding
normalized_binding-fields b n h = ground arith

normalized_scopes_idempotent :
    (scopes : List Text) → normalized_scopes (normalized_scopes scopes) ≡ normalized_scopes scopes
unfolding normalized_scopes
normalized_scopes_idempotent scopes = unique_sorted_idempotent scopes

find_binding-key :
    (project_id : ℕ) (requirement : Text) (rows : List BindingRow) (r : BindingRow)
    → find_binding project_id requirement rows ≡ some r
    → (r.project_id ≡ project_id) × (r.requirement ≡ requirement)
unfolding find_binding
find_binding-key project_id requirement [] r h = cc
find_binding-key project_id requirement (q ∷ rows) r h =
    elim (Bool-cases (has_key_of project_id requirement q)) [
      | inl is_it ↦ ground (arith, =ℕ_iff q.project_id project_id, eq_iff q.requirement requirement)
      | inr other ↦ find_binding-key project_id requirement rows r (rw other at h)
    ]

-- What a write does to a row that it finds.
abbrev replaced : BindingRow → BindingRow → BindingRow
replaced r new = record r {
  provider = new.provider;
  secret_ref = new.secret_ref;
  scopes_json = new.scopes_json;
}

find_binding-set_binding :
    (new : BindingRow) (rows : List BindingRow) (r : BindingRow)
    → find_binding new.project_id new.requirement rows ≡ some r
    → find_binding new.project_id new.requirement (set_binding new rows) ≡ some (replaced r new)
unfolding find_binding set_binding
find_binding-set_binding new [] r h = cc
find_binding-set_binding new (q ∷ rows) r h =
    elim (Bool-cases (has_key_of new.project_id new.requirement q)) [
      | inl is_it ↦
          let same : q ≡ r = cc (rw is_it at h) in
          rw is_it (rw is_it (ap (λ x. some (replaced x new)) same))
      | inr other ↦ rw other (rw other (find_binding-set_binding new rows r (rw other at h)))
    ]

find_binding-append :
    (project_id : ℕ) (requirement : Text) (rows : List BindingRow) (new : BindingRow)
    → find_binding project_id requirement rows ≡ none
    → find_binding project_id requirement (rows ++ new ∷ [])
      ≡ (if has_key_of project_id requirement new then some new else none)
unfolding find_binding
find_binding-append project_id requirement [] new h = refl
find_binding-append project_id requirement (q ∷ rows) new h =
    elim (Bool-cases (has_key_of project_id requirement q)) [
      | inl is_it ↦ cc (rw is_it at h)
      | inr other ↦ rw other (find_binding-append project_id requirement rows new (rw other at h))
    ]

-- The rows of other keys stay as they are.
find_binding-append_other :
    (project_id : ℕ) (requirement : Text) (rows : List BindingRow) (new : BindingRow)
    → has_key_of project_id requirement new ≡ false
    → find_binding project_id requirement (rows ++ new ∷ [])
      ≡ find_binding project_id requirement rows
unfolding find_binding
find_binding-append_other project_id requirement [] new h = rw h refl
find_binding-append_other project_id requirement (q ∷ rows) new h =
    ground (arith, find_binding-append_other project_id requirement rows new h)

find_binding-skip :
    (project_id : ℕ) (requirement : Text) (q : BindingRow) (rows : List BindingRow)
    → has_key_of project_id requirement q ≡ false
    → find_binding project_id requirement (q ∷ rows) ≡ find_binding project_id requirement rows
unfolding find_binding
find_binding-skip project_id requirement q rows h = rw h refl

find_binding-set_binding_other :
    (project_id : ℕ) (requirement : Text) (new : BindingRow) (rows : List BindingRow)
    → has_key_of project_id requirement new ≡ false
    → find_binding project_id requirement (set_binding new rows)
      ≡ find_binding project_id requirement rows
unfolding find_binding set_binding
find_binding-set_binding_other project_id requirement new [] h = refl
find_binding-set_binding_other project_id requirement new (q ∷ rows) h =
    let rest = find_binding-set_binding_other project_id requirement new rows h in
    elim (Bool-cases (has_key_of new.project_id new.requirement q)) [
      | inr other ↦
          rw other (ap (λ x. if has_key_of project_id requirement q then some q else x) rest)
      | inl is_it ↦
          let e : q.project_id ≡ new.project_id =
            ground (arith, =ℕ_iff q.project_id new.project_id) in
          let f : q.requirement ≡ new.requirement =
            ground (arith, eq_iff q.requirement new.requirement) in
          let not_it : has_key_of project_id requirement q ≡ false = rw (e, f) h in
          rw is_it (
            find_binding-skip project_id requirement (replaced q new) _ not_it
            ∙ rest
            ∙ sym (find_binding-skip project_id requirement q rows not_it))
    ]

-- The row of the binding is read as the binding, its key finds it, and every other key finds what it
-- found before.
pub record IsKept (json : ScopesJson) (rows after : List BindingRow) (b : EnvBinding) : Type 0 where
  pub row : BindingRow
  pub reads : binding_of json row ≡ ok b
  pub found :
      (project_id : ℕ) (requirement : Text)
      → find_binding project_id requirement after ≡ (
          if b.project_id =ℕ project_id && b.requirement == requirement
          then some row
          else find_binding project_id requirement rows)

-- What is found under every key, from what is found under one and under the others.
found-by_key :
    (rows after : List BindingRow) (row : BindingRow) (project_id : ℕ) (requirement : Text)
    → find_binding project_id requirement after ≡ some row
    → ((p : ℕ) (k : Text)
        → (project_id =ℕ p && requirement == k) ≡ false
        → find_binding p k after ≡ find_binding p k rows)
    → (p : ℕ) (k : Text)
    → find_binding p k after
      ≡ (if project_id =ℕ p && requirement == k then some row else find_binding p k rows)
found-by_key rows after row project_id requirement own others p k =
    elim (Bool-cases (project_id =ℕ p && requirement == k)) [
      | inr other ↦ rw other (others p k other)
      | inl same ↦
          let e : project_id ≡ p = ground (arith, same, =ℕ_iff project_id p) in
          let f : requirement ≡ k = ground (arith, same, eq_iff requirement k) in
          rw same (
            subst (λ x. find_binding x k after ≡ some row) e
              (subst (λ x. find_binding project_id x after ≡ some row) f own))
    ]

module _ (json : ScopesJson) (rows : List BindingRow) (n : EnvBinding)
    (decodes : json.unmarshal (json.marshal n.scopes) ≡ some n.scopes)
    (same : normalized_scopes n.scopes ≡ n.scopes) where
  own_key : (n.project_id =ℕ n.project_id && n.requirement == n.requirement) ≡ true
  own_key = ground (arith, =ℕ_iff n.project_id n.project_id, eq_iff n.requirement n.requirement)

  insert-IsKept :
      (id : ℕ)
      → find_binding n.project_id n.requirement rows ≡ none
      → IsKept json rows (rows ++ binding_row json id n ∷ []) (record n { id = id })
  unfolding binding_of binding_row
  insert-IsKept id new = record {
    row = binding_row json id n;
    reads = rw (binding_of, decodes, same) refl;
    found =
        found-by_key rows _ (binding_row json id n) n.project_id n.requirement
          (find_binding-append n.project_id n.requirement rows (binding_row json id n) new
            ∙ rw own_key refl)
          (λ p k other. find_binding-append_other p k rows (binding_row json id n) other);
  }

  replace-IsKept :
      (r : BindingRow)
      → find_binding n.project_id n.requirement rows ≡ some r
      → IsKept json rows (set_binding (binding_row json r.id n) rows) (record n { id = r.id })
  unfolding binding_of binding_row
  replace-IsKept r old =
      let (p, k) = find_binding-key n.project_id n.requirement rows r old in
      record {
        row = replaced r (binding_row json r.id n);
        reads = rw (binding_of, decodes, same, p, k) refl;
        found =
            found-by_key rows _ (replaced r (binding_row json r.id n)) n.project_id n.requirement
              (find_binding-set_binding (binding_row json r.id n) rows r old)
              (λ p k other.
                find_binding-set_binding_other p k (binding_row json r.id n) rows other);
      }

-- A binding that was written is the binding that its row is read as: it has the project of the one
-- that was given, its key, its provider and its reference without outer blanks, none of them empty,
-- and its scopes that are not blank, without outer blanks, each once and in order. The rows of other
-- keys are left as they were. The scopes have to be texts that encoding/json gives back.
pub upsert_env_binding-IsKept :
    (json : ScopesJson) (b : EnvBinding) (rows : List BindingRow) {written : EnvBinding}
    → json.unmarshal (json.marshal (normalized_scopes b.scopes)) ≡ some (normalized_scopes b.scopes)
    → (upsert_env_binding json b rows).0 ≡ ok written
    → Tidies b written × IsKept json rows (upsert_env_binding json b rows).1 written
unfolding upsert_env_binding
upsert_env_binding-IsKept json b rows {written = written} decodes h =
    elim (Result-cases (normalized_binding b)) [
      | inr (e, f) ↦ cc (rw (f, upsert_env_binding) at h)
      | inl (n, f) ↦
          let scopes = normalized_binding-fields b n f in
          let back : json.unmarshal (json.marshal n.scopes) ≡ some n.scopes =
            subst (λ x. json.unmarshal (json.marshal x) ≡ some x) (sym scopes) decodes in
          let same : normalized_scopes n.scopes ≡ n.scopes =
            subst (λ x. normalized_scopes x ≡ x) (sym scopes)
              (normalized_scopes_idempotent b.scopes) in
          elim (Option-cases (find_binding n.project_id n.requirement rows)) [
            | inl new ↦
                let id = suc (last_binding_id rows) in
                let result = ok_injective (rw (f, upsert_env_binding, new) at h) in
                rw (f, upsert_env_binding, new)
                  (subst (λ x. Tidies b x × IsKept json rows (rows ++ binding_row json id n ∷ []) x)
                    result
                    (
                      normalized_binding-Tidies b n id f,
                      insert-IsKept json rows n back same id new,
                    ))
            | inr (r, old) ↦
                let result = ok_injective (rw (f, upsert_env_binding, old) at h) in
                rw (f, upsert_env_binding, old)
                  (subst
                    (λ x.
                      Tidies b x × IsKept json rows (set_binding (binding_row json r.id n) rows) x)
                    result
                    (
                      normalized_binding-Tidies b n r.id f,
                      replace-IsKept json rows n back same r old,
                    ))
          ]
    ]
