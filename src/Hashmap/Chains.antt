-- ===== src/Hashmap/Chains.antt =====
-- One chain of src/core/structures/hashmap.c: the elements from the head along `next`. The link
-- `prev` is written and never read, so a list holds all that the code can see.
pub mod Laws
use cftp_server.Base.{
  ℕ, ◌+◌, ◌≤◌, ◌≡◌, refl, Bool, true, false, Option, none, some, List, [], ◌∷◌, Bytes, arith,
  length, strcmp_eq, strcmp_eq_iff, is_some, if◌then◌else◌,
}

-- `struct hash_table_elem`: the key and the address, which may be null.
abbrev pub Elem {ℓ} : Type ℓ → Type ℓ
Elem V = Bytes × Option V

abbrev pub Chain {ℓ} : Type ℓ → Type ℓ
Chain V = List (Elem V)

abbrev pub to_nat : Bool → ℕ
to_nat true = 1
to_nat false = 0

module _ {ℓ} {V : Type ℓ} where
  abbrev pub has_key : Bytes → Elem V → Bool
  has_key key e = strcmp_eq e.0 key

  -- `while (ptr) { if (strcmp(ptr->key, keyname) == 0) return ptr; ptr = ptr->next; }`
  unfoldable pub find : Bytes → Chain V → Option (Elem V)
  find key [] = none
  find key (e ∷ c) = if has_key key e then some e else find key c

  -- `ptr->address = address` at the element that `find` gives
  unfoldable pub assign : Bytes → Option V → Chain V → Chain V
  assign key address [] = []
  assign key address (e ∷ c) =
      if has_key key e then (e.0, address) ∷ c else e ∷ assign key address c

  -- `prev->next = next` at the element with the key
  unfoldable pub unlink : Bytes → Chain V → Option (Chain V)
  unlink key [] = none
  unlink key (e ∷ c) =
      let rest = unlink key c in
      if has_key key e then some c else elim rest [ none ↦ none | some r ↦ some (e ∷ r) ]

  -- The address under a key, which may be null, if the chain has the key.
  unfoldable pub value : Bytes → Chain V → Option (Option V)
  value key [] = none
  value key (e ∷ c) = if has_key key e then some e.1 else value key c

  -- How many elements carry a key.
  unfoldable pub count : Bytes → Chain V → ℕ
  count key [] = 0
  count key (e ∷ c) = to_nat (has_key key e) + count key c
