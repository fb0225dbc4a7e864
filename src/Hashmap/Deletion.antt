-- ===== src/Hashmap/Deletion.antt =====
-- `delete_entry` of src/core/structures/hashmap.c over the table as a map.
use cftp_server.Base.{
  ℕ, ◌+◌, ◌-◌, ◌<◌, ◌≡◌, refl, ap, sym, ◌∙◌, inl, inr, true, not, false, Option, none, some, List,
  [], ◌∷◌, Bytes, arith, length, set, strcmp_eq, strcmp_eq_iff, is_some, Bool-cases, Option-cases,
  ◌==◌, if◌then◌else◌,
}
use cftp_server.Faults.{ok, Returns}
use cftp_server.Hashmap.Chains.{Chain, has_key, value, unlink}
use cftp_server.Hashmap.Chains.Laws.{
  without, value-without, count-without-le, unlink-without, length-without,
}
use cftp_server.Hashmap.Buckets.{home, home-lt, update, population-set}
use cftp_server.Hashmap.{Table, entry_failed, deref, delete_later, delete_in, delete_entry}
use cftp_server.Hashmap.Models.{
  Models, pos, slot-ok, at-ok, view-value, bucket, bucket_few, write_back,
}

module _ {ℓ} {V : Type ℓ} where
  -- The result of an unlinking: whether the element was the head of its chain.
  abbrev unlinked : Bytes → Chain V → ℕ
  unlinked key [] = 0
  unlinked key (e ∷ _) = if has_key key e then 1 else 3

  delete_in-eq :
      (t : Table V) (bs : List (Chain V)) (i : ℕ) (key : Bytes) (c : Chain V)
      → delete_in t bs i key c ≡ (
          if is_some (value key c)
          then (unlinked key c, some (record t { table = some (set bs i (without key c)) }))
          else (entry_failed, some t))
  unfolding delete_in value without
  delete_in-eq t bs i key [] = refl
  delete_in-eq t bs i key (e ∷ c) = elim (Bool-cases (has_key key e)) [
    | inl head ↦ rw head
    | inr later ↦ elim (Bool-cases (is_some (value key c))) [
      | inl there ↦
          let taken : unlink key c ≡ some (without key c) = rw there at (unlink-without key c) in
          rw (later, there, taken, delete_later)
      | inr absent ↦
          let kept : unlink key c ≡ none = rw absent at (unlink-without key c) in
          rw (later, absent, kept, delete_later)
    ]
  ]

  unlinked-pos :
      (key : Bytes) (c : Chain V) → is_some (value key c) ≡ true → (unlinked key c == 0) ≡ false
  unfolding value
  unlinked-pos key [] h = cc
  unlinked-pos key (e ∷ c) h = ground arith

  -- Clearing a key that is not there changes nothing.
  update_absent :
      (f : Bytes → Option (Option V)) (key q : Bytes) → f key ≡ none → f q ≡ update f key none q
  update_absent f key q absent = elim (Bool-cases (strcmp_eq key q)) [
    | inl same ↦ rw same (ap f (sym ((strcmp_eq_iff key q).0 same)) ∙ absent)
    | inr other ↦ rw other
  ]

  module _ {f : Bytes → Option (Option V)} {t : Table V} (m : Models f t) (key : Bytes) where
    -- What a deletion leaves: the key is cleared, and the count stays as it was.
    pub record Deleted (r : ℕ × Option (Table V)) : Type ℓ where
      pub after : Table V
      pub stored : r.1 ≡ some after
      pub count : after.elem_count ≡ t.elem_count
      pub failed : (r.0 == 0) ≡ not (is_some (f key))
      pub models : Models (update f key none) after

    delete_entry-run :
        delete_entry (some t) (some key)
        ≡ ok (delete_in t m.chains (home key t.length) key (bucket m key))
    unfolding delete_entry deref
    delete_entry-run = rw (slot-ok m key, m.points, at-ok m key)

    -- The total falls with the chain.
    shorter :
        is_some (value key (bucket m key)) ≡ true
        → m.total - 1 + length (bucket m key) ≡ m.total + length (without key (bucket m key))
    shorter found =
        let less : length (without key (bucket m key)) + 1 ≡ length (bucket m key) =
          rw found at (length-without key (bucket m key)) in
        let room : home key t.length < length m.chains =
          rw m.holds.width (home-lt key t.length (pos m)) in
        omega (arith, population-set [] (home key t.length) m.chains room, m.holds.size)

    there-Deleted :
        (old : Option V)
        → f key ≡ some old
        → Deleted (
          unlinked key (bucket m key),
          some (record t {
            table = some (set m.chains (home key t.length) (without key (bucket m key)));
          }),
        )
    there-Deleted old there =
        let read = view-value m key ∙ there in
        let found : is_some (value key (bucket m key)) ≡ true = rw read in
        record {
          after = _;
          stored = refl;
          count = refl;
          failed = rw there (unlinked-pos key (bucket m key) found);
          models = record {
            chains = _;
            points = refl;
            total = m.total - 1;
            counted = omega (arith, m.counted);
            sparse = m.sparse;
            holds =
                write_back m key none (without key (bucket m key)) (m.total - 1) (shorter found)
                  (λ q. count-without-le key q (bucket m key))
                  (λ q. value-without key q (bucket m key) (bucket_few m q key));
          };
        }

    absent-Deleted : f key ≡ none → Deleted (entry_failed, some t)
    absent-Deleted absent = record {
      after = t;
      stored = refl;
      count = refl;
      failed = rw absent;
      models = record {
        chains = m.chains;
        points = m.points;
        total = m.total;
        counted = m.counted;
        sparse = m.sparse;
        holds = record {
          width = m.holds.width;
          size = m.holds.size;
          placed = m.holds.placed;
          reads = λ q. m.holds.reads q ∙ update_absent f key q absent;
        };
      };
    }

    -- In a table that is the map f a deletion does not fault; it clears the key, reports a failure
    -- exactly for a key that is not there, and leaves the element count as it was.
    pub delete_entry-Deleted : Returns (delete_entry (some t) (some key)) Deleted
    delete_entry-Deleted = elim (Option-cases (f key)) [
      | inr (old, there) ↦
          let read = view-value m key ∙ there in
          (
            _,
            delete_entry-run ∙ ap ok (delete_in-eq t m.chains _ key (bucket m key) ∙ rw read),
            there-Deleted old there,
          )
      | inl absent ↦
          let read = view-value m key ∙ absent in
          (
            (entry_failed, some t),
            delete_entry-run ∙ ap ok (delete_in-eq t m.chains _ key (bucket m key) ∙ rw read),
            absent-Deleted absent,
          )
    ]
