-- ===== src/Hashmap.antt =====
-- The chained hash table of src/core/structures/hashmap.c and hashmap.h. The definitions stand
-- here and in Hash and Chains; the other children are about the table as a map from keys to
-- addresses.
pub mod Hash
pub mod Chains
pub mod Buckets
pub mod Rehash
pub mod Models
pub mod Growth
pub mod Methods
pub mod Deletion
pub mod Release
pub mod Allocations
use Prim.Native.Nat.{bit_or}
use mathlib.Core.Option
use cftp_server.Base.{
  ℕ, zero, suc, ◌+◌, ◌*◌, ◌%◌, ◌^◌, Bool, true, false, Option, none, some, List, [], ◌∷◌, Bytes,
  get_or, set, replicate, leb, ◌==◌, is_some, if◌then◌else◌,
}
use cftp_server.Faults.{Run, ok, fault, null_pointer, division_by_zero, out_of_range, ◌>>=◌}
use Hash.{fnv1a_string_hash}
use Chains.{has_key, Elem, Chain, find, assign, unlink}

-- HASH_TABLE_INTIAL_SIZE and the result bits
abbrev pub initial_size : ℕ
initial_size = 21

abbrev pub entry_failed : ℕ
entry_failed = 0x0

abbrev pub entry_success : ℕ
entry_success = 0x1

abbrev pub entry_collision : ℕ
entry_collision = 0x2

abbrev pub table_resized : ℕ
table_resized = 0x4

abbrev pub table_freed : ℕ
table_freed = 0x8

abbrev pub entry_updated : ℕ
entry_updated = 0x10

-- `struct hash_table`; `table` is `none` where the pointer is null. The load factor is always
-- DEFAULT_LOAD_FACTOR and stands in `check_grow`.
pub record Table {ℓ} (V : Type ℓ) : Type ℓ where
  pub length : ℕ
  pub table : Option (List (Chain V))
  pub elem_count : ℕ

-- Which of the allocations of a call succeed.
pub record Memory : Type 0 where
  pub object : Bool
  pub table : Bool
  pub key : Bool

abbrev pub enough : Memory
enough = record { object = true; table = true; key = true }

-- `calloc(n, sizeof(struct hash_table_elem *))`
abbrev pub calloc_table {ℓ} : {V : Type ℓ} → Bool → ℕ → Option (List (Chain V))
calloc_table true n = some (replicate n [])
calloc_table false n = none

unfoldable pub create_hash_table {ℓ} : {V : Type ℓ} → Memory → Option (Table V)
create_hash_table mem =
    if mem.object
    then some (record {
      length = initial_size;
      table = calloc_table mem.table initial_size;
      elem_count = 0;
    })
    else none

-- The product with 0.75f is compared as a fraction: it is exact while the length and the count
-- are below 2 ^ 22. The result is a `uint64_t`.
unfoldable pub check_grow {ℓ} : {V : Type ℓ} → Table V → ℕ
check_grow t = if leb (t.length * 3) ((t.elem_count + 1) * 4) then t.length * 2 % 2 ^ 64 else 0

-- The index of a key in a table of `n` chains.
unfoldable pub slot : Bytes → ℕ → Run ℕ
slot key n = if n == 0 then fault division_by_zero else ok (fnv1a_string_hash key % n)

-- `hashtable->table[i]`
unfoldable pub at {ℓ} : {A : Type ℓ} → List A → ℕ → Run A
at (a ∷ rest) zero = ok a
at (a ∷ rest) (suc i) = at rest i
at [] i = fault out_of_range

unfoldable pub deref {ℓ} : {A : Type ℓ} → Option A → Run A
deref none = fault null_pointer
deref (some a) = ok a

-- `strcpy` runs before the test of the key's allocation.
unfoldable pub create_hash_table_elem {ℓ} :
    {V : Type ℓ} → Memory → Bytes → Option V → Run (Option (Elem V))
create_hash_table_elem mem key address =
    if mem.object
    then (if mem.key then ok (some (key, address)) else fault null_pointer)
    else ok none

module _ {ℓ} {V : Type ℓ} where
  -- One element goes to the front of its chain of the new table, whose index is in range.
  unfoldable pub move_elem : ℕ → Elem V → List (Chain V) → List (Chain V)
  move_elem n e fresh = let i = fnv1a_string_hash e.0 % n in set fresh i (e ∷ get_or fresh i [])

  unfoldable pub move_chain : ℕ → Chain V → List (Chain V) → List (Chain V)
  move_chain n [] fresh = fresh
  move_chain n (e ∷ es) fresh = move_chain n es (move_elem n e fresh)

  unfoldable pub move_all : ℕ → List (Chain V) → List (Chain V) → List (Chain V)
  move_all n [] fresh = fresh
  move_all n (c ∷ cs) fresh = move_all n cs (move_chain n c fresh)

  -- The end of `insert_entry`: the test of the load and the rehash.
  unfoldable pub grow : Memory → ℕ → Table V → List (Chain V) → Run (ℕ × Option (Table V))
  grow mem result t bs =
      let n = check_grow t in
      if n == 0 then ok (result, some (record t { table = some bs })) else do
        fresh ← deref (calloc_table mem.table n)
        ok (
          bit_or result table_resized,
          some (record t { length = n; table = some (move_all n bs fresh) }),
        )

  -- `get_ptr_to_elem_by_key`, past the test of the table object
  unfoldable pub find_elem : Table V → Option Bytes → Run (Option (Elem V))
  find_elem t none = ok none
  find_elem t (some key) = elim (t.table) [
    | none ↦ ok none
    | some bs ↦ do i ← slot key t.length; c ← at bs i; ok (find key c)
  ]

  unfoldable pub get_ptr_to_elem_by_key : Option (Table V) → Option Bytes → Run (Option (Elem V))
  unfolding find_elem
  get_ptr_to_elem_by_key none key = ok none
  get_ptr_to_elem_by_key (some t) key = find_elem t key

  unfoldable pub check_key_exists : Option (Table V) → Option Bytes → Run Bool
  check_key_exists t key = do e ← get_ptr_to_elem_by_key t key; ok (is_some e)

  -- A missing key and a null value give the same null pointer.
  unfoldable pub get_ptr_to_value_by_key : Option (Table V) → Option Bytes → Run (Option V)
  get_ptr_to_value_by_key t key = do e ← get_ptr_to_elem_by_key t key; ok (Option.bind e (λ x. x.1))

  -- The result of an insertion in front of a chain, before the load is tested.
  abbrev pub inserted : Chain V → ℕ
  inserted [] = entry_success
  inserted (_ ∷ _) = bit_or entry_success entry_collision

  -- A new element goes to the front of its chain.
  unfoldable pub insert_new :
      Memory → Table V → List (Chain V) → ℕ → Elem V → Run (ℕ × Option (Table V))
  unfolding grow
  insert_new mem t bs i e = do
    c ← at bs i
    grow mem (inserted c) (record t { elem_count = t.elem_count + 1 }) (set bs i (e ∷ c))

  unfoldable pub insert_key : Memory → Table V → Bytes → Option V → Run (ℕ × Option (Table V))
  unfolding insert_new
  insert_key mem t key address = do
    i ← slot key t.length
    found ← get_ptr_to_elem_by_key (some t) (some key)
    elim found [
      | some _ ↦ do
        bs ← deref t.table
        c ← at bs i
        ok (
          bit_or entry_success entry_updated,
          some (record t { table = some (set bs i (assign key address c)) }),
        )
      | none ↦ do
        created ← create_hash_table_elem mem key address
        elim created [
          | none ↦ ok (entry_failed, some t)
          | some e ↦ do bs ← deref t.table; insert_new mem t bs i e
        ]
    ]

  unfoldable pub insert_entry :
      Memory → Option (Table V) → Option Bytes → Option V → Run (ℕ × Option (Table V))
  unfolding insert_key
  insert_entry mem none key address = ok (entry_failed, none)
  insert_entry mem (some t) none address = ok (entry_failed, some t)
  insert_entry mem (some t) (some key) address = insert_key mem t key address

  -- The search of `delete_entry` behind the head of the chain.
  unfoldable pub delete_later :
      Table V → List (Chain V) → ℕ → Bytes → Elem V → Chain V → ℕ × Option (Table V)
  delete_later t bs i key head later = elim (unlink key later) [
    | none ↦ (entry_failed, some t)
    | some rest ↦ (
      bit_or entry_success entry_collision,
      some (record t { table = some (set bs i (head ∷ rest)) }),
    )
  ]

  unfoldable pub delete_in : Table V → List (Chain V) → ℕ → Bytes → Chain V → ℕ × Option (Table V)
  unfolding delete_later
  delete_in t bs i key [] = (entry_failed, some t)
  delete_in t bs i key (head ∷ later) =
      if has_key key head
      then (entry_success, some (record t { table = some (set bs i later) }))
      else delete_later t bs i key head later

  -- The key is hashed without a test, so a null key is read through.
  unfoldable pub delete_entry : Option (Table V) → Option Bytes → Run (ℕ × Option (Table V))
  unfolding delete_in
  delete_entry none key = ok (table_freed, none)
  delete_entry (some t) none = fault null_pointer
  delete_entry (some t) (some key) = do
    i ← slot key t.length
    bs ← deref t.table
    c ← at bs i
    ok (delete_in t bs i key c)
