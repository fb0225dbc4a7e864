-- ===== src/Hashmap/Release.antt =====
-- `free_hash_table` of src/core/structures/hashmap.c over the table as a map.
use mathlib.Core.List.{flatten}
use cftp_server.Base.{
  ℕ, ◌≤◌, ◌≡◌, refl, ap, ◌∙◌, Option, none, some, List, [], ◌∷◌, ◌++◌, Bytes, length,
}
use cftp_server.Faults.{Run, ok, Returns, ◌>>=◌}
use cftp_server.Hashmap.{Table, deref, table_freed}
use cftp_server.Hashmap.Chains.{Elem, Chain, value, count}
use cftp_server.Hashmap.Buckets.{flatten-view, length-flatten}
use cftp_server.Hashmap.Models.{Models}

module _ {ℓ} {V : Type ℓ} where
  -- The two loops: the elements in the order in which they and their keys are freed.
  unfoldable pub free_chains : List (Chain V) → List (Elem V)
  free_chains [] = []
  free_chains (c ∷ cs) = c ++ free_chains cs

  -- The result, and the elements that were freed. The array and the object are freed behind them.
  unfoldable pub free_hash_table : Option (Table V) → Run (ℕ × List (Elem V))
  unfolding free_chains
  free_hash_table none = ok (table_freed, [])
  free_hash_table (some t) = do bs ← deref t.table; ok (table_freed, free_chains bs)

  free_chains-flatten : (bs : List (Chain V)) → free_chains bs ≡ flatten bs
  unfolding free_chains flatten
  free_chains-flatten [] = refl
  free_chains-flatten (c ∷ cs) = ap (◌++◌ c) (free_chains-flatten cs)

  module _ {f : Bytes → Option (Option V)} {t : Table V} (m : Models f t) where
    -- What is freed: the result, each key of the map once and with its address, no other, and as
    -- many elements as the chains have.
    pub record Freed (r : ℕ × List (Elem V)) : Type ℓ where
      pub result : r.0 ≡ table_freed
      pub each : (q : Bytes) → value q r.1 ≡ f q
      pub once : (q : Bytes) → count q r.1 ≤ 1
      pub number : length r.1 ≡ m.total

    -- A table that is the map f is freed without a fault, and every element exactly once.
    pub free_hash_table-Freed : Returns (free_hash_table (some t)) Freed
    unfolding free_hash_table deref
    free_hash_table-Freed =
        let flat = flatten-view m.chains m.holds.placed in
        let same = free_chains-flatten m.chains in
        (
          (table_freed, free_chains m.chains),
          rw m.points refl,
          record {
            result = refl;
            each = λ q. rw same (flat q).0 ∙ m.holds.reads q;
            once = λ q. rw same (flat q).1;
            number = rw same (length-flatten m.chains ∙ m.holds.size);
          },
        )
