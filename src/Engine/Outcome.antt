-- ===== src/Engine/Outcome.antt =====
-- The registration of the commands with whatever memory: a registry that it builds is whole.
use mathlib.Core.Path.{subst}
use mathlib.Core.Option.{some-injective}
use cftp_server.Base.{
  ℕ, ◌≡◌, refl, sym, ◌∙◌, Bool, true, false, Option, none, some, List, [], ◌∷◌, String, bytes, ◌==◌,
  if◌then◌else◌,
}
use cftp_server.Faults.{Run, ok, fault, null_pointer, >>=-eq-ok, ok_injective}
use cftp_server.Hashmap.{
  create_hash_table, insert_entry, insert_key, slot, get_ptr_to_elem_by_key, find_elem,
  create_hash_table_elem, deref,
}
use cftp_server.Hashmap.Allocations.{insert_entry-enough}
use cftp_server.Engine.{
  CommandCb, command_actions, Registry, StartMemory, plenty, register_command, register_commands,
  initialize_execution_engine,
}
use cftp_server.Engine.Registry.{Answers, initialize_execution_engine-Answers}

-- A registration that succeeds is the one with enough memory for its entries.
register_commands-plenty :
    (mem : StartMemory) (l : List (String × CommandCb)) (r : Registry) (last : Registry)
    → register_commands mem l r ≡ ok (some last)
    → register_commands plenty l r ≡ ok (some last)
unfolding register_commands register_command
register_commands-plenty mem [] r last h = h
register_commands-plenty mem ((name, cb) ∷ rest) r last h =
    let ((result, r'), ran, later) = >>=-eq-ok _ (register_command mem name cb r) h in
    let (nonzero, later') = on_result result r' later in
    let ran' = with_callbacks (mem.callbacks name) (result, r') ran in
    rw (insert_entry-enough (mem.entry name) r (bytes name) (some cb) (result, r') nonzero ran')
      (on_success (result == 0) r' nonzero (register_commands-plenty mem rest r' last later'))
  where
    with_callbacks :
        (b : Bool) (x : ℕ × Registry)
        → (if b
            then insert_entry (mem.entry name) r (some (bytes name)) (some cb)
            else fault null_pointer)
          ≡ ok x
        → insert_entry (mem.entry name) r (some (bytes name)) (some cb) ≡ ok x
    with_callbacks true x e = e
    with_callbacks false x e = absurd cc

    on_result :
        (result : ℕ) (r' : Registry)
        → elim (result == 0) as (λ _. Run (Option Registry)) [
          | true ↦ ok none
          | false ↦ register_commands mem rest r'
        ]
          ≡ ok (some last)
        → ((result == 0) ≡ false) × (register_commands mem rest r' ≡ ok (some last))
    on_result result r' e = decided (result == 0) r' e
      where
        decided :
            (b : Bool) (r' : Registry)
            → elim b as (λ _. Run (Option Registry)) [
              | true ↦ ok none
              | false ↦ register_commands mem rest r'
            ]
              ≡ ok (some last)
            → (b ≡ false) × (register_commands mem rest r' ≡ ok (some last))
        decided true r' e = absurd cc
        decided false r' e = (refl, e)

    on_success :
        (b : Bool) (r' : Registry)
        → b ≡ false
        → register_commands plenty rest r' ≡ ok (some last)
        → elim b as (λ _. Run (Option Registry)) [
          | true ↦ ok none
          | false ↦ register_commands plenty rest r'
        ]
          ≡ ok (some last)
    on_success true r' e h = absurd cc
    on_success false r' e h = h

table_made :
    (o b k : Bool) (r : Registry)
    → register_commands plenty command_actions
        (create_hash_table (record { object = o; table = b; key = k }))
      ≡ ok (some r)
    → initialize_execution_engine plenty ≡ ok (some r)
unfolding initialize_execution_engine create_hash_table register_commands register_command
    command_actions insert_entry insert_key slot get_ptr_to_elem_by_key find_elem
    create_hash_table_elem deref
table_made true true k r h = h
table_made true false k r h = absurd cc
table_made false b k r h = absurd cc

-- Whichever allocations succeed: if the registration neither faults nor ends the process, the
-- registry gives each name of the table exactly its callbacks, and any other word no callbacks.
pub registered-Answers :
    (mem : StartMemory) (r : Registry) → initialize_execution_engine mem ≡ ok (some r) → Answers r
unfolding initialize_execution_engine
registered-Answers mem r run =
    let (r', run', answers) = initialize_execution_engine-Answers in
    let same =
      table_made mem.table.object mem.table.table mem.table.key r
        (register_commands-plenty mem command_actions (create_hash_table mem.table) r run) in
    subst Answers (some-injective _ _ (ok_injective (sym run' ∙ same))) answers
