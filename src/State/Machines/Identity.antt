-- ===== src/State/Machines/Identity.antt =====
-- internal/state/store.go: a machine keeps the id that it was registered with.
use codemesh.Base.{
  ◌≡◌, refl, sym, ap, ◌∙◌, ◌⊎◌, ℕ, Text, true, false, ◌=ℕ◌, =ℕ_iff, Option, none, some, List, [],
  ◌∷◌, inl, inr, arith, is_empty, if◌then◌else◌, Bool-cases, Option-cases, Result-cases, ok,
  ok_injective,
}
use mathlib.Core.Path.{subst}
use codemesh.State.Runs.{Times}
use codemesh.State.Machines.{
  MachineFacts, Machine, MachineRow, check_facts, identified_row, first_row, chosen_row,
  new_machine_id, set_machine, machine_of, update_machine, insert_machine, register_machine,
}

-- The table knows this machine by the id.
abbrev pub Knows : List MachineRow → Text → Type 0
Knows rows machine_id =
    (r : MachineRow) × (identified_row rows ≡ some r) × (r.machine_id ≡ machine_id)

identified_row-set_machine :
    (new : MachineRow) (rows : List MachineRow) (r : MachineRow)
    → is_empty new.machine_id ≡ false
    → identified_row rows ≡ some r
    → r.id ≡ new.id
    → Knows (set_machine new rows) new.machine_id
unfolding identified_row set_machine
identified_row-set_machine new [] r named h same = cc
identified_row-set_machine new (q ∷ rows) r named h same = elim (Bool-cases (q.id =ℕ new.id)) [
  | inl it ↦ rw (it, named) (record new { created_at = q.created_at }, refl, refl)
  | inr other ↦ elim (Bool-cases (is_empty q.machine_id)) [
    | inl unnamed ↦
        rw (other, unnamed) (identified_row-set_machine new rows r named (rw unnamed at h) same)
    | inr there ↦ ground (arith, =ℕ_iff q.id new.id)
  ]
]

identified_row-named :
    (rows : List MachineRow) (r : MachineRow)
    → identified_row rows ≡ some r
    → is_empty r.machine_id ≡ false
unfolding identified_row
identified_row-named [] r h = cc
identified_row-named (q ∷ rows) r h = elim (Bool-cases (is_empty q.machine_id)) [
  | inl unnamed ↦ identified_row-named rows r (rw unnamed at h)
  | inr named ↦ ground (arith, named)
]

minted-named :
    (digits : Option Text) (old id : Text)
    → (if is_empty old then new_machine_id digits else some old) ≡ some id
    → is_empty id ≡ false
unfolding new_machine_id
minted-named none old id h = ground arith
minted-named (some hex) old id h = ground arith

machine_of-ok :
    (times : Times) (now : ℕ) (r : MachineRow) (text : Text) (rows : List MachineRow) {m : Machine}
    → (machine_of times now r text rows).0 ≡ ok m
    → ((machine_of times now r text rows).1 ≡ rows) × (m.id ≡ r.machine_id)
unfolding machine_of
machine_of-ok times now r text rows h = elim (Option-cases (times.parse text)) [
  | inl e ↦ cc (rw (e, machine_of) at h)
  | inr (at, e) ↦
      rw (e, machine_of)
        (refl, ap (λ (x : Machine). x.id) (sym (ok_injective (rw (e, machine_of) at h))))
]

-- The row is chosen for this machine.
Chosen : List MachineRow → MachineRow → Type 0
Chosen rows r = (identified_row rows ≡ some r) ⊎ ((rest : List MachineRow) × (rows ≡ r ∷ rest))

chosen_row-Chosen :
    (rows : List MachineRow) (r : MachineRow) → chosen_row rows ≡ some r → Chosen rows r
unfolding chosen_row first_row Chosen identified_row
chosen_row-Chosen [] r h = cc
chosen_row-Chosen (q ∷ rest) r h = elim (Option-cases (identified_row (q ∷ rest))) [
  | inr (p, e) ↦ inl (e ∙ rw (chosen_row, e) at h)
  | inl e ↦ let same : some q ≡ some r = rw (chosen_row, e) at h in inr (rest, cc)
]

chosen_row-none : (rows : List MachineRow) → chosen_row rows ≡ none → rows ≡ []
unfolding chosen_row first_row identified_row
chosen_row-none [] h = refl
chosen_row-none (q ∷ rest) h = elim (Option-cases (identified_row (q ∷ rest))) [
  | inr (p, e) ↦ cc (rw (chosen_row, e) at h)
  | inl e ↦ cc (rw (chosen_row, e) at h)
]

set_machine-Knows :
    (rows : List MachineRow) (r new : MachineRow)
    → Chosen rows r
    → r.id ≡ new.id
    → is_empty new.machine_id ≡ false
    → Knows (set_machine new rows) new.machine_id
unfolding Chosen identified_row set_machine
set_machine-Knows rows r new (inl e) same named = identified_row-set_machine new rows r named e same
set_machine-Knows rows r new (inr (rest, e)) same named =
    let it : (r.id =ℕ new.id) ≡ true = ground (arith, same, =ℕ_iff r.id new.id) in
    subst (λ x. Knows (set_machine new x) new.machine_id) (sym e)
      (rw (it, named) (record new { created_at = r.created_at }, refl, refl))

single-Knows :
    (new : MachineRow) → is_empty new.machine_id ≡ false → Knows (new ∷ []) new.machine_id
unfolding identified_row
single-Knows new named = rw named (new, refl, refl)

module _ (times : Times) where
  update_machine-Knows :
      (now : ℕ) (digits : Option Text) (facts : MachineFacts) (r : MachineRow)
      (rows : List MachineRow) {m : Machine}
      → Chosen rows r
      → (update_machine times now digits facts r rows).0 ≡ ok m
      → Knows (update_machine times now digits facts r rows).1 m.id
        × ((if is_empty r.machine_id then new_machine_id digits else some r.machine_id) ≡ some m.id)
  unfolding update_machine
  update_machine-Knows now digits facts r rows {m = m} chosen h =
      elim (Option-cases
        (if is_empty r.machine_id then new_machine_id digits else some r.machine_id)) [
          | inl e ↦ cc (rw (e, update_machine) at h)
          | inr (id, e) ↦
              let (same_rows, same_id) =
                machine_of-ok times now _ _ _ (rw (e, update_machine) at h) in
              let known =
                set_machine-Knows rows r _ chosen refl (minted-named digits r.machine_id id e) in
              rw (e, update_machine, same_rows, same_id) (known, refl)
        ]

  insert_machine-Knows :
      (now : ℕ) (digits : Option Text) (facts : MachineFacts) {m : Machine}
      → (insert_machine times now digits facts []).0 ≡ ok m
      → Knows (insert_machine times now digits facts []).1 m.id
  unfolding insert_machine identified_row
  insert_machine-Knows now digits facts h = elim (Option-cases (new_machine_id digits)) [
    | inl e ↦ cc (rw (e, insert_machine) at h)
    | inr (id, e) ↦
        let (same_rows, same_id) = machine_of-ok times now _ _ _ (rw (e, insert_machine) at h) in
        let named : is_empty id ≡ false = minted-named digits [] id e in
        rw (e, insert_machine, same_rows, same_id) (single-Knows _ named)
  ]

  register_machine-Knows :
      (now : ℕ) (digits : Option Text) (facts : MachineFacts) (rows : List MachineRow) {m : Machine}
      → (register_machine times now digits facts rows).0 ≡ ok m
      → Knows (register_machine times now digits facts rows).1 m.id
  unfolding register_machine
  register_machine-Knows now digits facts rows {m = m} h = elim (Result-cases (check_facts facts)) [
    | inr (x, e) ↦ cc (rw (e, register_machine) at h)
    | inl (u, e) ↦ elim (Option-cases (chosen_row rows)) [
      | inr (r, f) ↦
          rw (e, register_machine, f)
            (update_machine-Knows now digits facts r rows (chosen_row-Chosen rows r f)
              (rw (e, register_machine, f) at h)).0
      | inl f ↦
          let empty = chosen_row-none rows f in
          rw (e, register_machine, f)
            (subst
              (λ x.
                (insert_machine times now digits facts x).0 ≡ ok m
                → Knows (insert_machine times now digits facts x).1 m.id)
              (sym empty) (insert_machine-Knows now digits facts)
              (rw (e, register_machine, f) at h))
    ]
  ]

  register_machine-known :
      (now : ℕ) (digits : Option Text) (facts : MachineFacts) (rows : List MachineRow) (id : Text)
      {m : Machine}
      → Knows rows id
      → (register_machine times now digits facts rows).0 ≡ ok m
      → m.id ≡ id
  unfolding register_machine chosen_row Chosen
  register_machine-known now digits facts rows id (r, there, same) h =
      elim (Result-cases (check_facts facts)) [
        | inr (x, e) ↦ cc (rw (e, register_machine) at h)
        | inl (u, e) ↦
            let chosen : chosen_row rows ≡ some r = rw (chosen_row, there) refl in
            let kept =
              (update_machine-Knows now digits facts r rows (inl there)
                (rw (e, register_machine, chosen) at h)).1 in
            let named = identified_row-named rows r there in ground (arith, kept, named, same)
      ]

-- A machine that is registered again keeps its id, whatever facts are given and however its rows
-- looked before: the first registration leaves a row with the id that it reports, and the second
-- reports the same id.
pub register_machine-keeps :
    (times : Times) (now later : ℕ) (digits more_digits : Option Text)
    (facts new_facts : MachineFacts) (rows : List MachineRow) {m n : Machine}
    → (register_machine times now digits facts rows).0 ≡ ok m
    → (register_machine times later more_digits new_facts
        (register_machine times now digits facts rows).1).0
      ≡ ok n
    → Knows (register_machine times now digits facts rows).1 m.id × (n.id ≡ m.id)
register_machine-keeps times now later digits more_digits facts new_facts rows h i =
    let known = register_machine-Knows times now digits facts rows h in
    (known, register_machine-known times later more_digits new_facts _ _ known i)
