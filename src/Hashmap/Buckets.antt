-- ===== src/Hashmap/Buckets.antt =====
-- Where elements stand, the map that an array of chains is, and writes to one chain.
use mathlib.Core.List.{flatten}
use mathlib.Core.Option.{or_else}
use cftp_server.Base.{
  ℕ, zero, suc, ◌+◌, ◌%◌, ◌≤◌, ◌<◌, ◌≡◌, refl, ap, Option, none, some, List, [], ◌∷◌, Bytes, arith,
  Bool-cases, inl, inr, true, false, length, length-append, length-set, get_or, set, get_or-set,
  strcmp_eq, strcmp_eq_iff, ◌==◌, ==_iff, if◌then◌else◌,
}
use cftp_server.Faults.{ok}
use cftp_server.Hashmap.Hash.{fnv1a_string_hash}
use cftp_server.Hashmap.Chains.{Chain, to_nat, value, count}
use cftp_server.Hashmap.Chains.Laws.{value-eq-none, count-eq-zero, value-append, count-append}
use cftp_server.Hashmap.{at, slot}

abbrev pub home : Bytes → ℕ → ℕ
home key n = fnv1a_string_hash key % n

pub home-lt : (key : Bytes) (n : ℕ) → 0 < n → home key n < n
home-lt key n h = grind arith

pub slot-home : (key : Bytes) (n : ℕ) → 0 < n → slot key n ≡ ok (home key n)
unfolding slot
slot-home key n h = ground arith

-- How many elements the chains have.
unfoldable pub population {ℓ} : {A : Type ℓ} → List (List A) → ℕ
population [] = 0
population (c ∷ cs) = length c + population cs

module _ {ℓ} {A : Type ℓ} where
  -- An index in range is read without a fault.
  pub at-get_or : (d : A) (i : ℕ) (xs : List A) → i < length xs → at xs i ≡ ok (get_or xs i d)
  unfolding at get_or
  at-get_or d zero (x ∷ xs) h = refl
  at-get_or d (suc i) (x ∷ xs) h = at-get_or d i xs (omega arith)
  at-get_or d i [] h = absurd (omega arith)

  -- Writing one chain exchanges its length in the population.
  pub population-set :
      (c : List A) (i : ℕ) (cs : List (List A))
      → i < length cs
      → population cs + length c ≡ population (set cs i c) + length (get_or cs i [])
  unfolding population get_or
  population-set c zero (x ∷ cs) h = omega arith
  population-set c (suc i) (x ∷ cs) h = omega (arith, population-set c i cs (omega arith))
  population-set c i [] h = absurd (omega arith)

  pub length-flatten : (cs : List (List A)) → length (flatten cs) ≡ population cs
  unfolding population flatten
  length-flatten [] = refl
  length-flatten (c ∷ cs) = omega (arith, length-append c (flatten cs), length-flatten cs)

pub home_congr : (k q : Bytes) (n : ℕ) → strcmp_eq k q ≡ true → home k n ≡ home q n
home_congr k q n h = ap (λ (s : Bytes). home s n) ((strcmp_eq_iff k q).0 h)

home_ne : (k q : Bytes) (n : ℕ) → (home k n == home q n) ≡ false → strcmp_eq k q ≡ false
home_ne k q n h = ground (arith, home_congr k q n)

pub or_else-none {ℓ} : {A : Type ℓ} (o : Option A) → or_else o none ≡ o
unfolding or_else
or_else-none none = refl
or_else-none (some a) = refl

module _ {ℓ} {V : Type ℓ} where
  abbrev pub chain_of : List (Chain V) → Bytes → Chain V
  chain_of bs key = get_or bs (home key (length bs)) []

  -- The abstract map: under each key nothing, or an address.
  unfoldable pub view : List (Chain V) → Bytes → Option (Option V)
  view bs key = value key (chain_of bs key)

  -- An element stands in the chain of its key, and a key has one element at most.
  abbrev pub IsPlaced : List (Chain V) → Type 0
  IsPlaced bs = (q : Bytes) (i : ℕ) → count q (get_or bs i []) ≤ to_nat (i == home q (length bs))

  abbrev pub update :
      (Bytes → Option (Option V)) → Bytes → Option (Option V) → Bytes → Option (Option V)
  update f k v q = if strcmp_eq k q then v else f q

  -- `bs` has `n` chains with `total` elements, and is the map `f`.
  pub record Holds (n total : ℕ) (f : Bytes → Option (Option V)) (bs : List (Chain V))
      : Type ℓ where
    pub width : length bs ≡ n
    pub size : population bs ≡ total
    pub placed : IsPlaced bs
    pub reads : (q : Bytes) → view bs q ≡ f q

  module _ (bs : List (Chain V)) (pos : 0 < length bs) (placed : IsPlaced bs) (k : Bytes) where
    -- A chain is written back that differs at one key only.
    pub set-Holds :
        (total : ℕ) (c : Chain V) (v : Option (Option V))
        → ((q : Bytes) → count q c ≤ count q (chain_of bs k) + (to_nat (strcmp_eq k q)))
        → (count k c ≤ 1)
        → population bs + length c ≡ total + length (chain_of bs k)
        → ((q : Bytes) → value q c ≡ (if strcmp_eq k q then v else value q (chain_of bs k)))
        → Holds (length bs) total (update (view bs) k v) (set bs (home k (length bs)) c)
    unfolding view
    set-Holds total c v few one size reads = record {
      width = length-set bs _ c;
      size = omega (arith, population-set c _ bs (home-lt k (length bs) pos));
      placed = λ q i.
          rw (length-set, get_or-set bs _ i c [] (home-lt k (length bs) pos))
            (ground (arith, placed q i, few q, one, home_congr k q (length bs), strcmp_eq_iff k q));
      reads = λ q.
          rw (length-set, get_or-set bs _ (home q (length bs)) c [] (home-lt k (length bs) pos))
            (elim (Bool-cases (home k (length bs) == home q (length bs))) [
              | inl e ↦ rw (e, ← (==_iff _ _).0 e) (reads q)
              | inr e ↦ rw (e, home_ne k q (length bs) e)
            ]);
    }

    -- A new key goes to the front of its chain.
    pub push-Holds :
        (a : Option V)
        → view bs k ≡ none
        → Holds
            (length bs)
            (population bs + 1)
            (update (view bs) k (some a))
            (set bs (home k (length bs)) ((k, a) ∷ chain_of bs k))
    unfolding view count value
    push-Holds a absent =
        let old = chain_of bs k in
        set-Holds _ ((k, a) ∷ old) (some a) (λ q. omega arith) (ground (arith, count-eq-zero k old))
          (omega arith) (λ q. refl)

  -- The same over a table that holds `f`, at its own length.
  pub write-Holds :
      (n total : ℕ) (f : Bytes → Option (Option V)) (bs : List (Chain V))
      → length bs ≡ n
      → 0 < n
      → Holds n total f bs
      → (k : Bytes) (v : Option (Option V)) (c : Chain V) (total' : ℕ)
      → total' + length (get_or bs (home k n) []) ≡ total + length c
      → ((q : Bytes) → count q c ≤ count q (get_or bs (home k n) []) + to_nat (strcmp_eq k q))
      → count k c ≤ 1
      → ((q : Bytes) → value q c ≡ (if strcmp_eq k q then v else value q (get_or bs (home k n) [])))
      → Holds n total' (update f k v) (set bs (home k n) c)
  write-Holds n total f bs w = rw (← w) (λ pos t k v c total' size few one reads.
      let h = set-Holds bs pos t.placed k total' c v few one (omega (arith, t.size)) reads in
      record {
        width = h.width;
        size = h.size;
        placed = h.placed;
        reads = λ q. rw (← t.reads q) (h.reads q);
      })

  -- One key over all the chains.
  flatten_absent :
      (q : Bytes) (bs : List (Chain V))
      → ((i : ℕ) → count q (get_or bs i []) ≡ 0)
      → count q (flatten bs) ≡ 0
  unfolding get_or flatten count
  flatten_absent q [] none_there = refl
  flatten_absent q (c ∷ cs) none_there =
      rw count-append (omega (arith, none_there 0, flatten_absent q cs (λ i. none_there (suc i))))

  flatten_present :
      (q : Bytes) (bs : List (Chain V)) (h : ℕ)
      → ((i : ℕ) → count q (get_or bs i []) ≤ to_nat (i == h))
      → (value q (flatten bs) ≡ value q (get_or bs h [])) × (count q (flatten bs) ≤ 1)
  unfolding get_or flatten count value or_else
  flatten_present q [] h at_most = (refl, omega arith)
  flatten_present q (c ∷ cs) zero at_most =
      let rest = flatten_absent q cs (λ i. ground (arith, at_most (suc i))) in
      rw (value-append, count-append, value-eq-none q (flatten cs) rest)
        (or_else-none (value q c), omega (arith, at_most 0))
  flatten_present q (c ∷ cs) (suc h) at_most =
      let (reads, few) = flatten_present q cs h (λ i. ground (arith, at_most (suc i))) in
      let absent : count q c ≡ 0 = ground (arith, at_most 0) in
      rw (value-append, count-append, value-eq-none q c absent) (reads, omega arith)

  -- The elements of all the chains, in one list, are the same map.
  pub flatten-view :
      (bs : List (Chain V))
      → IsPlaced bs
      → (q : Bytes) → (value q (flatten bs) ≡ view bs q) × (count q (flatten bs) ≤ 1)
  unfolding view
  flatten-view bs placed q = flatten_present q bs _ (placed q)
