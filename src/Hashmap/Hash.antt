-- ===== src/Hashmap/Hash.antt =====
-- `fnv1a_string_hash` of src/core/structures/hashmap.c, in 64-bit arithmetic.
use Prim.Native.Nat.{bit_xor}
use cftp_server.Base.{ℕ, ◌*◌, ◌%◌, ◌^◌, [], ◌∷◌, Bytes}

abbrev pub fnv_1a_offset_basis : ℕ
fnv_1a_offset_basis = 0xCBF29CE484222325

abbrev pub fnv_1a_prime : ℕ
fnv_1a_prime = 0x100000001B3

-- The loop over the bytes of the string.
hash_from : ℕ → Bytes → ℕ
hash_from hash [] = hash
hash_from hash (c ∷ str) = hash_from (bit_xor hash c * fnv_1a_prime % 2 ^ 64) str

unfoldable pub fnv1a_string_hash : Bytes → ℕ
unfolding hash_from
fnv1a_string_hash str = hash_from fnv_1a_offset_basis str
