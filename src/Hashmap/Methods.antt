-- ===== src/Hashmap/Methods.antt =====
-- `insert_entry` of src/core/structures/hashmap.c over the table as a map.
use Prim.Native.Nat.{bit_or}
use cftp_server.Base.{
  ℕ, ◌+◌, ◌^◌, ◌<◌, ◌≡◌, refl, ◌∙◌, inl, inr, Bool, true, false, Option, none, some, [], ◌∷◌, Bytes,
  arith, set, is_some, Option-cases, ◌==◌, if◌then◌else◌,
}
use cftp_server.Faults.{ok, Returns}
use cftp_server.Hashmap.Chains.{Chain, assign}
use cftp_server.Hashmap.Chains.Laws.{value-assign, count-assign, length-assign}
use cftp_server.Hashmap.Buckets.{home, update}
use cftp_server.Hashmap.{
  Table, Memory, table_resized, entry_failed, enough, deref, grow, inserted, insert_key,
  insert_entry, create_hash_table_elem,
}
use cftp_server.Hashmap.Models.{
  Models, slot-ok, at-ok, view-value, get_ptr_to_elem_by_key-eq, bucket, write_back, push_new,
}
use cftp_server.Hashmap.Growth.{is_loaded, Grown, grow-Grown}

-- Every result of an insertion of a new key has the success bit.
result_success {ℓ} :
    {V : Type ℓ} (c : Chain V) (loaded : Bool)
    → ((if loaded then bit_or (inserted c) table_resized else inserted c) == 0) ≡ false
result_success [] true = refl
result_success [] false = refl
result_success (e ∷ c) true = refl
result_success (e ∷ c) false = refl

module _ {ℓ} {V : Type ℓ} {f : Bytes → Option (Option V)} {t : Table V} (m : Models f t)
    (key : Bytes) (a : Option V) where
  -- The key is there: its address is overwritten, and nothing else changes.
  insert_key-there :
      (old : Option V)
      → f key ≡ some old
      → (t' : Table V) × (insert_key enough t key a ≡ ok (0x11, some t'))
        × (t'.elem_count ≡ t.elem_count)
        × Models (update f key (some a)) t'
  unfolding insert_key deref
  insert_key-there old there =
      let c = bucket m key in
      let read = view-value m key ∙ there in
      (
        record t { table = some (set m.chains (home key t.length) (assign key a c)) },
        rw (slot-ok m key, get_ptr_to_elem_by_key-eq m key, there, m.points, at-ok m key),
        refl,
        record {
          chains = _;
          points = refl;
          total = m.total;
          counted = m.counted;
          sparse = m.sparse;
          holds =
              write_back m key (some a) (assign key a c) m.total (rw length-assign)
                (λ q. rw count-assign (omega arith)) (λ q. value-assign key q a c old read);
        },
      )

  insert_key-grow :
      f key ≡ none
      → insert_key enough t key a
        ≡ grow enough
            (inserted (bucket m key))
            (record t { elem_count = t.elem_count + 1 })
            (set m.chains (home key t.length) ((key, a) ∷ bucket m key))
  unfolding insert_key deref create_hash_table_elem
  insert_key-grow absent =
      rw (slot-ok m key, get_ptr_to_elem_by_key-eq m key, absent, m.points, at-ok m key)

  -- The key is new: a new element, the count, and the table doubled if the load asks for it.
  insert_key-new :
      f key ≡ none
      → t.elem_count + 1 < 2 ^ 31
      → Returns (insert_key enough t key a) (
          Grown
            (update f key (some a))
            (record t { elem_count = t.elem_count + 1 })
            (inserted (bucket m key)))
  insert_key-new absent small =
      let (r, run, grown) =
        grow-Grown (update f key (some a)) (record t { elem_count = t.elem_count + 1 })
          (set m.chains (home key t.length) ((key, a) ∷ bucket m key)) (m.total + 1)
          (inserted (bucket m key)) (push_new m key a absent) (omega (arith, m.counted))
          (omega arith) (omega (arith, m.sparse)) small in
      (r, insert_key-grow absent ∙ run, grown)

  -- What an insertion leaves: the map updated at the key, and the count up by one for a new key.
  pub record Inserted (r : ℕ × Option (Table V)) : Type ℓ where
    pub after : Table V
    pub stored : r.1 ≡ some after
    pub success : (r.0 == 0) ≡ false
    pub count : after.elem_count ≡ t.elem_count + (if is_some (f key) then 0 else 1)
    pub models : Models (update f key (some a)) after

  -- In a table that is the map f, with memory and counts below 2 ^ 31, an insertion does not
  -- fault, and leaves a valid table that is f updated at the key, with a result other than a failure; a new key adds
  -- one to the count.
  pub insert_entry-Inserted :
      t.elem_count + 1 < 2 ^ 31 → Returns (insert_entry enough (some t) (some key) a) Inserted
  unfolding insert_entry
  insert_entry-Inserted small = elim (Option-cases (f key)) [
    | inl absent ↦
        let (r, run, g) = insert_key-new absent small in
        (
          r,
          run,
          record {
            after = g.after;
            stored = g.stored;
            success = rw g.bits (
                result_success (bucket m key)
                  (is_loaded (record t { elem_count = t.elem_count + 1 })));
            count = rw absent g.same_count;
            models = g.models;
          },
        )
    | inr (old, there) ↦
        let (t', run, same, m') = insert_key-there old there in
        (
          (0x11, some t'),
          run,
          record {
            after = t';
            stored = refl;
            success = refl;
            count = rw there (omega (arith, same));
            models = m';
          },
        )
  ]

  -- Without memory for the element a new key is refused, and the table stays as it is.
  pub insert_entry-no_memory :
      (mem : Memory)
      → mem.object ≡ false
      → f key ≡ none
      → insert_entry mem (some t) (some key) a ≡ ok (entry_failed, some t)
  unfolding insert_entry create_hash_table_elem
  insert_entry-no_memory mem out absent =
      rw (slot-ok m key, get_ptr_to_elem_by_key-eq m key, absent, out)
