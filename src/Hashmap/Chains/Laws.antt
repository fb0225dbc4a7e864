-- ===== src/Hashmap/Chains/Laws.antt =====
-- What the operations of one chain do to the addresses under its keys.
use mathlib.Core.Option
use mathlib.Core.List.{◌++◌}
use mathlib.Core.Option.{or_else}
use cftp_server.Base.{
  ◌+◌, ◌≤◌, ◌≡◌, refl, Option, none, some, [], ◌∷◌, Bytes, arith, length, strcmp_eq, strcmp_eq_iff,
  is_some, if◌then◌else◌,
}
use cftp_server.Hashmap.Chains.{Chain, has_key, to_nat, find, assign, unlink, value, count}

module _ {ℓ} {V : Type ℓ} where
  -- The chain with the first element of a key taken out.
  unfoldable pub without : Bytes → Chain V → Chain V
  without k [] = []
  without k (e ∷ c) = if has_key k e then c else e ∷ without k c

  -- The element found under a key carries that key.
  pub find-value : (q : Bytes) (c : Chain V) → find q c ≡ Option.map (λ a. (q, a)) (value q c)
  unfolding find value
  find-value q [] = refl
  find-value q ((k, a) ∷ c) = ground (arith, find-value q c, strcmp_eq_iff k q)

  pub value-eq-none : (q : Bytes) (c : Chain V) → count q c ≡ 0 → value q c ≡ none
  unfolding value count
  value-eq-none q [] h = refl
  value-eq-none q (e ∷ c) h = ground (arith, value-eq-none q c)

  pub count-eq-zero : (q : Bytes) (c : Chain V) → value q c ≡ none → count q c ≡ 0
  unfolding value count
  count-eq-zero q [] h = refl
  count-eq-zero q (e ∷ c) h = ground (arith, count-eq-zero q c)

  pub value-append :
      (q : Bytes) (a b : Chain V) → value q (a ++ b) ≡ or_else (value q a) (value q b)
  unfolding value or_else
  value-append q [] b = refl
  value-append q (e ∷ a) b = rw (value-append q a b) (ground arith)

  pub count-append : (q : Bytes) (c d : Chain V) → count q (c ++ d) ≡ count q c + count q d
  unfolding count
  count-append q (e ∷ c) d = omega (arith, count-append q c d)
  count-append q [] d = omega arith

  module _ (k q : Bytes) where
    pub value-assign :
        (v : Option V) (c : Chain V) (old : Option V)
        → value k c ≡ some old
        → value q (assign k v c) ≡ (if strcmp_eq k q then some v else value q c)
    unfolding value assign
    value-assign v [] old h = cc
    value-assign v ((j, w) ∷ c) old h =
        ground
          (arith, value-assign v c old, strcmp_eq_iff j k, strcmp_eq_iff j q, strcmp_eq_iff k q)

    pub count-assign : (v : Option V) (c : Chain V) → count q (assign k v c) ≡ count q c
    unfolding count assign
    count-assign v [] = refl
    count-assign v (e ∷ c) = ground (arith, count-assign v c)

    pub value-without :
        (c : Chain V)
        → count q c ≤ 1
        → value q (without k c) ≡ (if strcmp_eq k q then none else value q c)
    unfolding value without count
    value-without [] few = ground arith
    value-without ((j, w) ∷ c) few = ground (
      arith,
      value-without c,
      value-eq-none q c,
      strcmp_eq_iff j k,
      strcmp_eq_iff j q,
      strcmp_eq_iff k q,
    )

    pub count-without-le : (c : Chain V) → count q (without k c) ≤ count q c
    unfolding without count
    count-without-le [] = omega arith
    count-without-le (e ∷ c) = ground (arith, count-without-le c)

  pub length-assign : (k : Bytes) (v : Option V) (c : Chain V) → length (assign k v c) ≡ length c
  unfolding assign
  length-assign k v [] = refl
  length-assign k v (e ∷ c) = ground (arith, length-assign k v c)

  -- The search takes out the element of a key that is there, and finds no other.
  pub unlink-without :
      (k : Bytes) (c : Chain V)
      → unlink k c ≡ (if is_some (value k c) then some (without k c) else none)
  unfolding unlink value without
  unlink-without k [] = refl
  unlink-without k (e ∷ c) = ground (arith, unlink-without k c)

  pub length-without :
      (k : Bytes) (c : Chain V) → length (without k c) + to_nat (is_some (value k c)) ≡ length c
  unfolding value without
  length-without k [] = omega arith
  length-without k (e ∷ c) = ground (arith, length-without k c)
