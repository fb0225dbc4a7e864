-- ===== src/Hashmap/Allocations.antt =====
-- An insertion that succeeds found all the memory that it asked for.
use cftp_server.Base.{
  ℕ, ◌≡◌, Bool, true, false, Option, none, some, List, Bytes, ◌==◌, if◌then◌else◌, arith,
}
use cftp_server.Faults.{Run, ok, fault, null_pointer, ◌>>=◌, >>=-eq-ok}
use cftp_server.Hashmap.Chains.{Elem, Chain}
use cftp_server.Hashmap.{
  Table, Memory, enough, insert_entry, insert_key, insert_new, grow, check_grow, deref, at, slot,
  get_ptr_to_elem_by_key, create_hash_table_elem, entry_failed,
}

module _ {ℓ} {V : Type ℓ} where
  grow-enough :
      (o b k : Bool) (result : ℕ) (t : Table V) (bs : List (Chain V)) (r : ℕ × Option (Table V))
      → grow (record { object = o; table = b; key = k }) result t bs ≡ ok r
      → grow enough result t bs ≡ ok r
  unfolding grow deref
  grow-enough o true k result t bs r h = h
  grow-enough o false k result t bs r h = go (check_grow t == 0) _ _ h
    where
      go :
          (z : Bool) (x y : Run (ℕ × Option (Table V)))
          → (if z then x else fault null_pointer) ≡ ok r
          → (if z then x else y) ≡ ok r
      go true x y e = e
      go false x y e = absurd cc

  insert_new-enough :
      (o b k : Bool) (t : Table V) (bs : List (Chain V)) (i : ℕ) (e : Elem V)
      (r : ℕ × Option (Table V))
      → insert_new (record { object = o; table = b; key = k }) t bs i e ≡ ok r
      → insert_new enough t bs i e ≡ ok r
  unfolding insert_new
  insert_new-enough o b k t bs i e r h =
      let (c, first, rest) = >>=-eq-ok _ (at bs i) h in rw first (grow-enough o b k _ _ _ r rest)

  insert_absent-enough :
      (o b k : Bool) (t : Table V) (i : ℕ) (key : Bytes) (a : Option V) (r : ℕ × Option (Table V))
      → (r.0 == 0) ≡ false
      → (create_hash_table_elem (record { object = o; table = b; key = k }) key a >>= λ created.
          elim created as (λ _. Run (ℕ × Option (Table V))) [
            | none ↦ ok (entry_failed, some t)
            | some e ↦ deref t.table >>= λ bs.
                insert_new (record { object = o; table = b; key = k }) t bs i e
          ])
        ≡ ok r
      → (deref t.table >>= λ bs. insert_new enough t bs i (key, a)) ≡ ok r
  unfolding create_hash_table_elem
  insert_absent-enough false b k t i key a r done h = absurd (ground arith)
  insert_absent-enough true b false t i key a r done h = absurd cc
  insert_absent-enough true b true t i key a r done h =
      let (bs, first, rest) = >>=-eq-ok _ (deref t.table) h in
      rw first (insert_new-enough true b true t bs i (key, a) r rest)

  insert_key-enough :
      (o b k : Bool) (t : Table V) (key : Bytes) (a : Option V) (r : ℕ × Option (Table V))
      → (r.0 == 0) ≡ false
      → insert_key (record { object = o; table = b; key = k }) t key a ≡ ok r
      → insert_key enough t key a ≡ ok r
  unfolding insert_key create_hash_table_elem
  insert_key-enough o b k t key a r done h =
      let (i, first, rest) = >>=-eq-ok _ (slot key t.length) h in
      let (found, second, rest') = >>=-eq-ok _ (get_ptr_to_elem_by_key (some t) (some key)) rest in
      rw (first, second) (by_found found _ _ _ (insert_absent-enough o b k t i key a r done) rest')
    where
      by_found :
          (found : Option (Elem V)) (x y z : Run (ℕ × Option (Table V)))
          → (y ≡ ok r → z ≡ ok r)
          → elim found as (λ _. Run (ℕ × Option (Table V))) [ none ↦ y | some _ ↦ x ] ≡ ok r
          → elim found as (λ _. Run (ℕ × Option (Table V))) [ none ↦ z | some _ ↦ x ] ≡ ok r
      by_found none x y z f e = f e
      by_found (some c) x y z f e = e

  -- An insertion that does not fault and does not fail is the one with enough memory.
  pub insert_entry-enough :
      (mem : Memory) (table : Option (Table V)) (key : Bytes) (a : Option V)
      (r : ℕ × Option (Table V))
      → (r.0 == 0) ≡ false
      → insert_entry mem table (some key) a ≡ ok r
      → insert_entry enough table (some key) a ≡ ok r
  unfolding insert_entry
  insert_entry-enough mem none key a r done h = h
  insert_entry-enough mem (some t) key a r done h =
      insert_key-enough mem.object mem.table mem.key t key a r done h
