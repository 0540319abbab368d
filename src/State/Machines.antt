-- ===== src/State/Machines.antt =====
-- internal/state/store.go: the table `machines`, of which one row is this machine.
pub mod Identity
use codemesh.Base.{
  ℕ, suc, max, Text, txt, Bool, true, false, not, Option, none, some, List, [], ◌∷◌, ◌++◌, is_empty,
  trim_space, keep, if◌then◌else◌, ◌=ℕ◌, Result, ok, err, ◌>>=◌, ◌>>◌, refuse_if,
}
use codemesh.State.Runs.{Times}

pub record MachineFacts : Type 0 where
  pub name : Text
  pub hostname : Text
  pub os : Text
  pub architecture : Text
  pub codemesh_home : Text
  pub workspace_root : Text

pub record Machine : Type 0 where
  pub id : Text
  pub facts : MachineFacts
  pub created_at : ℕ
  pub updated_at : ℕ

-- A row; an absent machine id is the empty text, as the queries read it.
pub record MachineRow : Type 0 where
  pub id : ℕ
  pub machine_id : Text
  pub facts : MachineFacts
  pub registered_at : Option Text
  pub created_at : Text
  pub updated_at : Text

pub data MachineError : Type 0 where
  hostname_required os_required architecture_required home_required root_required : MachineError
  no_machine_id : MachineError
  bad_time : Text → MachineError

-- The checks of `RegisterMachine`
unfoldable pub check_facts : MachineFacts → Result MachineError (Unit {0})
check_facts facts =
    refuse_if (is_empty (trim_space facts.hostname)) hostname_required
    >> refuse_if (is_empty (trim_space facts.os)) os_required
    >> refuse_if (is_empty (trim_space facts.architecture)) architecture_required
    >> refuse_if (is_empty (trim_space facts.codemesh_home)) home_required
    >> refuse_if (is_empty (trim_space facts.workspace_root)) root_required

-- `order by case when … then 0 else 1 end, id limit 1`, on rows in the order of their ids
unfoldable pub identified_row : List MachineRow → Option MachineRow
identified_row [] = none
identified_row (r ∷ rows) =
    let rest = identified_row rows in if is_empty r.machine_id then rest else some r

unfoldable pub first_row : List MachineRow → Option MachineRow
first_row [] = none
first_row (r ∷ rows) = some r

unfoldable pub chosen_row : List MachineRow → Option MachineRow
chosen_row rows = elim (identified_row rows) [ some r ↦ some r | none ↦ first_row rows ]

-- `coalesce(registered_at, created_at)`
unfoldable pub registered_text : MachineRow → Text
registered_text r = elim r.registered_at [ some text ↦ text | none ↦ r.created_at ]

-- `registeredMachineName`
unfoldable pub registered_machine_name : Text → Text → Text → Text
registered_machine_name requested existing hostname =
    if not (is_empty requested)
    then requested
    else if not (is_empty (trim_space existing))
    then trim_space existing
    else trim_space hostname

-- `newMachineID`, with the digits of the random bytes, if there are any
unfoldable pub new_machine_id : Option Text → Option Text
new_machine_id digits = elim digits [ none ↦ none | some hex ↦ some (txt "machine_" ++ hex) ]

-- `update machines set … where id = ?`
unfoldable pub set_machine : MachineRow → List MachineRow → List MachineRow
set_machine new [] = []
set_machine new (r ∷ rows) =
    (if r.id =ℕ new.id then record new { created_at = r.created_at } else r) ∷ set_machine new rows

unfoldable pub last_machine_id : List MachineRow → ℕ
last_machine_id [] = 0
last_machine_id (r ∷ rows) = max r.id (last_machine_id rows)

module _ (times : Times) where
  -- The answer after the commit; a creation time that cannot be parsed is an error only then.
  unfoldable pub machine_of :
      ℕ → MachineRow → Text → List MachineRow → Result MachineError Machine × List MachineRow
  machine_of now r created_text rows = elim (times.parse created_text) [
    | none ↦ (err (bad_time created_text), rows)
    | some created ↦ (
      ok (record { id = r.machine_id; facts = r.facts; created_at = created; updated_at = now }),
      rows,
    )
  ]

  -- The case of a row that is there, whose machine id may be missing.
  unfoldable pub update_machine :
      ℕ
      → Option Text
      → MachineFacts
      → MachineRow
      → List MachineRow
      → Result MachineError Machine × List MachineRow
  update_machine now digits facts r rows =
      let minted = if is_empty r.machine_id then new_machine_id digits else some r.machine_id in
      elim minted [
        | none ↦ (err no_machine_id, rows)
        | some machine_id ↦
            let new : MachineRow = record r {
              machine_id = machine_id;
              facts = record facts {
                name = registered_machine_name (trim_space facts.name) r.facts.name facts.hostname;
              };
              registered_at = some (registered_text r);
              updated_at = times.format now;
            } in
            machine_of now new (registered_text r) (set_machine new rows)
      ]

  -- The case of an empty table.
  unfoldable pub insert_machine :
      ℕ
      → Option Text
      → MachineFacts
      → List MachineRow
      → Result MachineError Machine × List MachineRow
  insert_machine now digits facts rows = elim (new_machine_id digits) [
    | none ↦ (err no_machine_id, rows)
    | some machine_id ↦
        let new : MachineRow = record {
          id = suc (last_machine_id rows);
          machine_id = machine_id;
          facts = record facts {
            name = registered_machine_name (trim_space facts.name) [] facts.hostname;
          };
          registered_at = some (times.format now);
          created_at = times.format now;
          updated_at = times.format now;
        } in
        machine_of now new (times.format now) (rows ++ new ∷ [])
  ]

  -- `RegisterMachine`; `digits` are those of 16 random bytes, if there are any.
  unfoldable pub register_machine :
      ℕ
      → Option Text
      → MachineFacts
      → List MachineRow
      → Result MachineError Machine × List MachineRow
  register_machine now digits facts rows = elim (check_facts facts) [
    | err e ↦ (err e, rows)
    | ok _ ↦ elim (chosen_row rows) [
      | none ↦ insert_machine now digits facts rows
      | some r ↦ update_machine now digits facts r rows
    ]
  ]

  unfoldable pub machines_of : List MachineRow → Result MachineError (List Machine)
  machines_of [] = ok []
  machines_of (r ∷ rows) =
      let rest = machines_of rows in
      elim (times.parse (registered_text r)) [
        | none ↦ err (bad_time r.machine_id)
        | some created ↦ elim (times.parse r.updated_at) [
          | none ↦ err (bad_time r.machine_id)
          | some updated ↦ rest >>= λ machines. ok (
              record {
                id = r.machine_id;
                facts = r.facts;
                created_at = created;
                updated_at = updated;
              }
              ∷ machines)
        ]
      ]

  -- `ListMachines`
  unfoldable pub list_machines : List MachineRow → Result MachineError (List Machine)
  list_machines rows = machines_of (keep (λ r. not (is_empty r.machine_id)) rows)
