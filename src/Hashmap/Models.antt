-- ===== src/Hashmap/Models.antt =====
-- The table as a map from keys to addresses: a new table, the searches, and writes to one chain.
use mathlib.Core.Option
use cftp_server.Base.{
  ℕ, ◌+◌, ◌*◌, ◌≤◌, ◌<◌, ◌≡◌, refl, ap, ◌∙◌, Option, none, some, List, [], ◌∷◌, Bytes, arith,
  length, get_or, set, replicate, strcmp_eq, strcmp_eq_refl, is_some, if◌then◌else◌,
}
use cftp_server.Faults.{ok, ◌>>=◌}
use cftp_server.Hashmap.Chains.{Elem, Chain, value, count}
use cftp_server.Hashmap.Chains.Laws.{find-value, count-eq-zero}
use cftp_server.Hashmap.Buckets.{
  home, home-lt, slot-home, at-get_or, view, update, Holds, write-Holds,
}
use cftp_server.Hashmap.Rehash.{replicate-Holds}
use cftp_server.Hashmap.{
  Table, enough, initial_size, create_hash_table, slot, at, get_ptr_to_elem_by_key,
  check_key_exists, get_ptr_to_value_by_key,
}

module _ {ℓ} {V : Type ℓ} where
  bind-map :
      (key : Bytes) (o : Option (Option V))
      → Option.bind (Option.map (λ (a : Option V). (key, a)) o) (λ (e : Elem V). e.1)
        ≡ Option.bind o (λ a. a)
  unfolding Option.bind
  bind-map key none = refl
  bind-map key (some a) = refl

  is_some-map :
      (key : Bytes) (o : Option (Option V))
      → is_some (Option.map {B = Elem V} (λ a. (key, a)) o) ≡ is_some o
  is_some-map key none = refl
  is_some-map key (some a) = refl

  -- The table is allocated, is the map `f`, and is below its load factor.
  pub record Models (f : Bytes → Option (Option V)) (t : Table V) : Type ℓ where
    pub chains : List (Chain V)
    pub points : t.table ≡ some chains
    pub total : ℕ
    pub counted : total ≤ t.elem_count
    pub sparse : (t.elem_count + 1) * 4 < t.length * 3
    pub holds : Holds t.length total f chains

  -- With memory a new table is the empty map, and counts no elements.
  pub create_hash_table-Models :
      (t : Table V) × (create_hash_table enough ≡ some t)
      × (t.elem_count ≡ 0)
      × Models (λ _. none) t
  unfolding create_hash_table
  create_hash_table-Models = (
    record { length = _; table = _; elem_count = _ },
    refl,
    refl,
    record {
      chains = replicate initial_size [];
      points = refl;
      total = 0;
      counted = omega arith;
      sparse = omega arith;
      holds = replicate-Holds initial_size;
    },
  )

  module _ {f : Bytes → Option (Option V)} {t : Table V} (m : Models f t) where
    pub pos : 0 < t.length
    pos = omega (arith, m.sparse)

    -- The chain of a key is read without a fault.
    pub slot-ok : (key : Bytes) → slot key t.length ≡ ok (home key t.length)
    slot-ok key = slot-home key t.length pos

    pub at-ok :
        (key : Bytes)
        → at m.chains (home key t.length) ≡ ok (get_or m.chains (home key t.length) [])
    at-ok key =
        at-get_or [] (home key t.length) m.chains (rw m.holds.width (home-lt key t.length pos))

    pub view-value : (key : Bytes) → value key (get_or m.chains (home key t.length) []) ≡ f key
    unfolding view
    view-value key = rw (← m.holds.width) (m.holds.reads key)

    pub get_ptr_to_elem_by_key-eq :
        (key : Bytes)
        → get_ptr_to_elem_by_key (some t) (some key) ≡ ok (Option.map (λ a. (key, a)) (f key))
    unfolding get_ptr_to_elem_by_key
    get_ptr_to_elem_by_key-eq key =
        rw (m.points, slot-ok key, at-ok key, ◌>>=◌, find-value, view-value key)

    -- The value under a key; a missing key and a null value give the same.
    pub get_ptr_to_value_by_key-eq :
        (key : Bytes)
        → get_ptr_to_value_by_key (some t) (some key) ≡ ok (Option.bind (f key) (λ a. a))
    unfolding get_ptr_to_value_by_key
    get_ptr_to_value_by_key-eq key =
        rw (get_ptr_to_elem_by_key-eq key) (ap ok (bind-map key (f key)))

    pub check_key_exists-eq :
        (key : Bytes) → check_key_exists (some t) (some key) ≡ ok (is_some (f key))
    unfolding check_key_exists
    check_key_exists-eq key = rw (get_ptr_to_elem_by_key-eq key) (ap ok (is_some-map key (f key)))

    abbrev pub bucket : Bytes → Chain V
    bucket key = get_or m.chains (home key t.length) []

    -- At most one element of the chain of a key carries the key.
    pub bucket_few : (q key : Bytes) → count q (bucket key) ≤ 1
    bucket_few q key = ground (arith, m.holds.placed q (home key t.length))

    -- One chain is written back.
    pub write_back :
        (key : Bytes) (v : Option (Option V)) (c : Chain V) (total : ℕ)
        → total + length (bucket key) ≡ m.total + length c
        → ((q : Bytes) → count q c ≤ count q (bucket key))
        → ((q : Bytes) → value q c ≡ (if strcmp_eq key q then v else value q (bucket key)))
        → Holds t.length total (update f key v) (set m.chains (home key t.length) c)
    write_back key v c total size few reads =
        write-Holds t.length m.total f m.chains m.holds.width pos m.holds key v c total size
          (λ q. omega (arith, few q)) (omega (arith, few key, bucket_few key key)) reads

    pub push_new :
        (key : Bytes) (a : Option V)
        → f key ≡ none
        → Holds t.length
            (m.total + 1)
            (update f key (some a))
            (set m.chains (home key t.length) ((key, a) ∷ bucket key))
    unfolding count value
    push_new key a absent =
        let gone = count-eq-zero key (bucket key) (view-value key ∙ absent) in
        write-Holds t.length m.total f m.chains m.holds.width pos m.holds key (some a)
          ((key, a) ∷ bucket key) (m.total + 1) (omega arith) (λ q. omega arith)
          (rw (gone, strcmp_eq_refl key) (omega arith)) (λ q. refl)
