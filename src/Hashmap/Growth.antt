-- ===== src/Hashmap/Growth.antt =====
-- `check_grow` and the end of `insert_entry` over the table as a map.
use Prim.Native.Nat.{bit_or}
use cftp_server.Base.{
  ℕ, ◌+◌, ◌*◌, ◌^◌, ◌≤◌, ◌<◌, ◌≡◌, refl, ◌∙◌, inl, inr, Bool, true, false, Option, some, List, [],
  Bytes, arith, replicate, Bool-cases, ◌==◌, leb, if◌then◌else◌,
}
use cftp_server.Faults.{Returns}
use cftp_server.Hashmap.Chains.{Chain}
use cftp_server.Hashmap.Buckets.{Holds}
use cftp_server.Hashmap.Rehash.{move_all-Holds}
use cftp_server.Hashmap.{Table, table_resized, enough, check_grow, deref, move_all, grow}
use cftp_server.Hashmap.Models.{Models}

nonzero_test : (n : ℕ) → 0 < n → (n == 0) ≡ false
nonzero_test n h = ground arith

module _ {ℓ} {V : Type ℓ} where
  -- Whether the load asks for a table of twice the length.
  abbrev pub is_loaded : Table V → Bool
  is_loaded t = leb (t.length * 3) ((t.elem_count + 1) * 4)

  check_grow-double :
      (t : Table V) → is_loaded t ≡ true → t.elem_count < 2 ^ 31 → check_grow t ≡ t.length * 2
  unfolding check_grow
  check_grow-double t full small = ground arith

  check_grow-zero : (t : Table V) → is_loaded t ≡ false → check_grow t ≡ 0
  unfolding check_grow
  check_grow-zero t full = rw full

  still_sparse : (t : Table V) → is_loaded t ≡ false → (t.elem_count + 1) * 4 < t.length * 3
  still_sparse t full = ground arith

  -- What the end of an insertion leaves of the count, the length and the result bits.
  pub record Grown (f : Bytes → Option (Option V)) (t : Table V) (result : ℕ)
      (r : ℕ × Option (Table V)) : Type ℓ where
    pub after : Table V
    pub stored : r.1 ≡ some after
    pub same_count : after.elem_count ≡ t.elem_count
    pub length : after.length ≡ (if is_loaded t then t.length * 2 else t.length)
    pub bits : r.0 ≡ (if is_loaded t then bit_or result table_resized else result)
    pub models : Models f after

  -- The end of an insertion: `t` has the new count, and its chains are `bs`.
  module _ (f : Bytes → Option (Option V)) (t : Table V) (bs : List (Chain V)) (total result : ℕ)
      (h : Holds t.length total f bs) (counted : total ≤ t.elem_count) where
    double-Grown :
        is_loaded t ≡ true
        → 0 < t.length
        → t.elem_count * 4 < t.length * 3
        → t.elem_count < 2 ^ 31
        → 0 < t.elem_count
        → Returns (grow enough result t bs) (Grown f t result)
    unfolding grow deref
    double-Grown full room load small some_there =
        let twice : 0 < t.length * 2 = omega arith in
        let all = move_all-Holds (t.length * 2) bs twice h.placed in
        (
          (
            bit_or result table_resized,
            some (record t {
              length = t.length * 2;
              table = some (move_all (t.length * 2) bs (replicate (t.length * 2) []));
            }),
          ),
          rw (check_grow-double t full small, nonzero_test (t.length * 2) twice),
          record {
            after = _;
            stored = refl;
            same_count = refl;
            length = rw full;
            bits = rw full;
            models = record {
              chains = _;
              points = refl;
              total = total;
              counted = counted;
              sparse = omega arith;
              holds = record {
                width = all.width;
                size = all.size ∙ h.size;
                placed = all.placed;
                reads = λ q. all.reads q ∙ h.reads q;
              };
            };
          },
        )

    keep-Grown : is_loaded t ≡ false → Returns (grow enough result t bs) (Grown f t result)
    unfolding grow
    keep-Grown room = (
      (result, some (record t { table = some bs })),
      rw (check_grow-zero t room),
      record {
        after = _;
        stored = refl;
        same_count = refl;
        length = rw room;
        bits = rw room;
        models = record {
          chains = bs;
          points = refl;
          total = total;
          counted = counted;
          sparse = still_sparse t room;
          holds = h;
        };
      },
    )

    pub grow-Grown :
        0 < t.elem_count
        → t.elem_count * 4 < t.length * 3
        → t.elem_count < 2 ^ 31
        → Returns (grow enough result t bs) (Grown f t result)
    grow-Grown some_there load small = elim (Bool-cases (is_loaded t)) [
      | inl full ↦ double-Grown full (omega arith) load small some_there
      | inr room ↦ keep-Grown room
    ]
