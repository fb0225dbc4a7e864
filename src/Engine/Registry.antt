-- ===== src/Engine/Registry.antt =====
-- The registry that `initialize_execution_engine` of src/engine/command_parser.c builds.
use mathlib.Core.Option
use cftp_server.Base.{
  ℕ, suc, ◌+◌, ◌^◌, ◌<◌, ◌≡◌, refl, ap, ◌∙◌, Bool, true, false, is_some, Option, none, some, List,
  [], ◌∷◌, String, Bytes, bytes, arith, length, strcmp_eq, All, ◌==◌, if◌then◌else◌,
}
use cftp_server.Faults.{Run, ok, Returns}
use cftp_server.Hashmap.{Table, enough, insert_entry, get_ptr_to_value_by_key}
use cftp_server.Hashmap.Buckets.{update}
use cftp_server.Hashmap.Models.{Models, create_hash_table-Models, get_ptr_to_value_by_key-eq}
use cftp_server.Hashmap.Methods.{insert_entry-Inserted}
use cftp_server.Engine.{
  CommandCb, command_actions, Registry, plenty, register_command, register_commands,
  initialize_execution_engine,
}

-- A map of commands, as a hash table of addresses holds it.
abbrev pub CommandMap : Type 0
CommandMap = Bytes → Option (Option CommandCb)

-- The map after the entries of a list have been inserted in order.
abbrev pub updates : List (String × CommandCb) → CommandMap → CommandMap
updates [] f = f
updates ((name, cb) ∷ rest) f = updates rest (update f (bytes name) (some (some cb)))

room :
    (b : Bool) (n n' k : ℕ)
    → n' ≡ n + (if b then 0 else 1)
    → n + suc k + 1 < 2 ^ 31
    → n' + k + 1 < 2 ^ 31
room true n n' k e h = omega arith
room false n n' k e h = omega arith

register_step :
    (name : String) (cb : CommandCb) (rest : List (String × CommandCb)) (t : Table CommandCb)
    (r : ℕ × Option (Table CommandCb)) (t' : Table CommandCb) (last : Option Registry)
    → insert_entry enough (some t) (some (bytes name)) (some cb) ≡ ok r
    → r.1 ≡ some t'
    → (r.0 == 0) ≡ false
    → register_commands plenty rest (some t') ≡ ok last
    → register_commands plenty ((name, cb) ∷ rest) (some t) ≡ ok last
unfolding register_commands register_command
register_step name cb rest t (result, table) t' last run stored success later =
    rw run (registered (result == 0) success (ap (register_commands plenty rest) stored ∙ later))
  where
    registered :
        (failed : Bool)
        → failed ≡ false
        → register_commands plenty rest table ≡ ok last
        → elim failed as (λ _. Run (Option Registry)) [
          | true ↦ ok none
          | false ↦ register_commands plenty rest table
        ]
          ≡ ok last
    registered true e h = cc
    registered false e h = h

register_commands-Models :
    (l : List (String × CommandCb)) (f : CommandMap) (t : Table CommandCb)
    → Models f t
    → t.elem_count + length l + 1 < 2 ^ 31
    → Returns
        (register_commands plenty l (some t))
        λ r. (t' : Table CommandCb) × (r ≡ some (some t')) × Models (updates l f) t'
unfolding register_commands
register_commands-Models [] f t m small = (some (some t), refl, (t, refl, m))
register_commands-Models ((name, cb) ∷ rest) f t m small =
    let (r, run, done) = insert_entry-Inserted m (bytes name) (some cb) (omega arith) in
    let (last, run', result) =
      register_commands-Models rest (update f (bytes name) (some (some cb))) done.after done.models
        (room (is_some (f (bytes name))) _ _ (length rest) done.count (omega arith)) in
    (last, register_step name cb rest t r done.after last run done.stored done.success run', result)

-- The table of commands gives each of its names its callbacks.
Finds : String × CommandCb → Type 0
Finds e = updates command_actions (λ _. none) (bytes e.0) ≡ some (some e.1)

command_actions-Finds : All Finds command_actions
unfolding Finds command_actions bytes strcmp_eq
command_actions-Finds = (
  refl,
  (
    refl,
    (
      refl,
      (
        refl,
        (
          refl,
          (
            refl,
            (
              refl,
              (
                refl,
                (
                  refl,
                  (
                    refl,
                    (
                      refl,
                      (
                        refl,
                        (
                          refl,
                          (
                            refl,
                            (
                              refl,
                              (
                                refl,
                                (refl, (refl, (refl, (refl, (refl, (refl, (refl, (refl, tt)))))))),
                              ),
                            ),
                          ),
                        ),
                      ),
                    ),
                  ),
                ),
              ),
            ),
          ),
        ),
      ),
    ),
  ),
)

-- A word that is no name of a list is not in the map.
pub updates_miss :
    (l : List (String × CommandCb)) (f : CommandMap) (q : Bytes)
    → All (λ e. strcmp_eq (bytes e.0) q ≡ false) l
    → updates l f q ≡ f q
updates_miss [] f q other = refl
updates_miss ((name, cb) ∷ rest) f q other =
    updates_miss rest (update f (bytes name) (some (some cb))) q other.1 ∙ rw other.0

few : (n : ℕ) → n ≡ 0 → n + length command_actions + 1 < 2 ^ 31
unfolding command_actions
few n e = omega arith

-- The registration of all commands succeeds, and builds the map of the table.
pub initialize_execution_engine-Models : Returns (initialize_execution_engine plenty) λ r.
    (t : Table CommandCb) × (r ≡ some (some t)) × Models (updates command_actions (λ _. none)) t
unfolding initialize_execution_engine
initialize_execution_engine-Models =
    let (t, made, zero_count, m) = create_hash_table-Models {V = CommandCb} in
    rw made (register_commands-Models command_actions (λ _. none) t m (few t.elem_count zero_count))

found_bind :
    (e : String × CommandCb)
    → Finds e
    → ok (Option.bind (updates command_actions (λ _. none) (bytes e.0)) (λ a. a)) ≡ ok (some e.1)
unfolding Finds Option.bind
found_bind e found = rw found

miss_bind : ok (Option.bind {A = Option CommandCb} none (λ a. a)) ≡ ok none
unfolding Option.bind
miss_bind = refl

All-map {ℓ κ μ} :
    {A : Type ℓ} (P : A → Type κ) (Q : A → Type μ) (l : List A)
    → ((a : A) → P a → Q a)
    → All P l
    → All Q l
All-map P Q [] f h = tt
All-map P Q (a ∷ l) f h = (f a h.0, All-map P Q l f h.1)

-- What the registry answers to every word.
pub record Answers (r : Registry) : Type 0 where
  pub known :
      All (λ e. get_ptr_to_value_by_key r (some (bytes e.0)) ≡ ok (some e.1)) command_actions
  pub unknown :
      (q : Bytes)
      → All (λ e. strcmp_eq (bytes e.0) q ≡ false) command_actions
      → get_ptr_to_value_by_key r (some q) ≡ ok none

-- If every allocation succeeds, the registration does not fault and does not end the process, and
-- afterwards the registry gives each name of the table exactly its callbacks, and any other word no
-- callbacks.
pub initialize_execution_engine-Answers :
    (r : Registry) × (initialize_execution_engine plenty ≡ ok (some r)) × Answers r
initialize_execution_engine-Answers =
    let (r, run, (t, stored', m)) = initialize_execution_engine-Models in
    (
      some t,
      run ∙ ap ok stored',
      record {
        known =
            All-map Finds _ command_actions
              (λ e found. rw (get_ptr_to_value_by_key-eq m (bytes e.0)) (found_bind e found))
              command_actions-Finds;
        unknown = λ q other.
            rw (get_ptr_to_value_by_key-eq m q, updates_miss command_actions (λ _. none) q other)
              miss_bind;
      },
    )
