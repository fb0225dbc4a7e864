-- ===== src/Tests/Tables.antt =====
-- The hash table with one entry.
use cftp_server.Base.{ℕ, ◌≡◌, none, some, [], ◌∷◌, Bytes, arith}
use mathlib.Core.Option
use cftp_server.Faults.{ok, Returns}
use cftp_server.Hashmap.{
  Table, enough, create_hash_table, insert_entry, delete_entry, get_ptr_to_value_by_key,
}
use cftp_server.Hashmap.Buckets.{update}
use cftp_server.Hashmap.Models.{Models, create_hash_table-Models, get_ptr_to_value_by_key-eq}
use cftp_server.Hashmap.Methods.{Inserted, insert_entry-Inserted}
use cftp_server.Hashmap.Deletion.{Deleted, delete_entry-Deleted}
use cftp_server.Hashmap.Release.{free_hash_table, Freed, free_hash_table-Freed}

new :
    (t : Table ℕ) × (create_hash_table enough ≡ some t) × (t.elem_count ≡ 0) × Models (λ _. none) t
new = create_hash_table-Models

abbrev pwd_key : Bytes
pwd_key = 80 ∷ 87 ∷ 68 ∷ []

insert_entry-Inserted_example :
    Returns
      (insert_entry enough (some new.0) (some pwd_key) (some 5))
      (Inserted new.3 pwd_key (some 5))
insert_entry-Inserted_example = insert_entry-Inserted new.3 pwd_key (some 5) (omega (arith, new.2))

one :
    Returns
      (insert_entry enough (some new.0) (some pwd_key) (some 5))
      (Inserted new.3 pwd_key (some 5))
one = insert_entry-Inserted new.3 pwd_key (some 5) (omega (arith, new.2))

get_ptr_to_value_by_key-eq_example :
    get_ptr_to_value_by_key (some one.2.after) (some pwd_key)
    ≡ ok (Option.bind (update (λ _. none) pwd_key (some (some 5)) pwd_key) (λ a. a))
get_ptr_to_value_by_key-eq_example = get_ptr_to_value_by_key-eq one.2.models pwd_key

delete_entry-Deleted_example :
    Returns (delete_entry (some one.2.after) (some pwd_key)) (Deleted one.2.models pwd_key)
delete_entry-Deleted_example = delete_entry-Deleted one.2.models pwd_key

free_hash_table-Freed_example : Returns (free_hash_table (some one.2.after)) (Freed one.2.models)
free_hash_table-Freed_example = free_hash_table-Freed one.2.models
