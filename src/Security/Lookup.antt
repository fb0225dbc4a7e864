-- ===== src/Security/Lookup.antt =====
-- `get_passwd_from_uid` and `get_group_from_gid` of src/security/security.c: the buffer for an entry
-- of the user database is doubled until the call of the C library does not fail.
use mathlib.Core.Path.{subst}
use cftp_server.Base.{
  ℕ, zero, suc, ◌+◌, ◌*◌, ◌%◌, ◌^◌, ◌≤◌, ◌<◌, ◌≡◌, refl, sym, Bool, true, false, arith, ltb, ◌==◌,
  ==_iff, Bool-cases, inl, inr, if◌then◌else◌,
}

-- What a lookup comes to: the buffer that is returned, by its length; `NULL` with the buffer freed;
-- `NULL` with the buffer, of this length, left behind; `NULL` after all the tries; and `NULL` since
-- there is no place for the result.
pub data Lookup : Type 0 where
  buffer leaked : ℕ → Lookup
  overflowed exhausted no_result : Lookup

-- MAX_TRIES
abbrev pub max_tries : ℕ
max_tries = 4096

-- The loop that both functions have. `call` gives the error of the call of a number with a length,
-- and `realloc` says whether there is memory for a length. A `size_t` has 64 bits.
unfoldable pub try_lookup : (ℕ → ℕ → ℕ) → (ℕ → Bool) → ℕ → ℕ → ℕ → Lookup
try_lookup call realloc zero i length = exhausted
try_lookup call realloc (suc tries) i length =
    let new_len = 2 * length % 2 ^ 64 in
    let later = try_lookup call realloc tries (suc i) new_len in
    if call i length == 0
    then buffer length
    else if ltb new_len length
    then overflowed
    else if realloc new_len
    then later
    else leaked length

unfoldable pub get_passwd_from_uid : (ℕ → ℕ → ℕ → ℕ) → (ℕ → Bool) → ℕ → Bool → Lookup
unfolding try_lookup
get_passwd_from_uid getpwuid_r realloc uid false = no_result
get_passwd_from_uid getpwuid_r realloc uid true =
    try_lookup (getpwuid_r uid) realloc max_tries 0 1024

unfoldable pub get_group_from_gid : (ℕ → ℕ → ℕ → ℕ) → (ℕ → Bool) → ℕ → Bool → Lookup
unfolding try_lookup
get_group_from_gid getgrgid_r realloc gid false = no_result
get_group_from_gid getgrgid_r realloc gid true =
    try_lookup (getgrgid_r gid) realloc max_tries 0 1024

-- The length of the buffer at the call of this number.
pub buffer_length : ℕ → ℕ
buffer_length zero = 1024
buffer_length (suc i) = 2 * buffer_length i

longer : (m i : ℕ) → i ≤ m → buffer_length i ≤ buffer_length m
unfolding buffer_length
longer zero zero h = omega arith
longer zero (suc i) h = absurd (omega arith)
longer (suc m) i h = elim (Bool-cases (i == suc m)) [
  | inl same ↦ rw ((==_iff i (suc m)).0 same) (omega arith)
  | inr other ↦ omega (arith, longer m i (grind (arith, ==_iff i (suc m))))
]

last_length : buffer_length 53 ≡ 2 ^ 63
unfolding buffer_length
last_length = refl

buffer_length-bound : (i : ℕ) → i ≤ 53 → (1024 ≤ buffer_length i) × (buffer_length i ≤ 2 ^ 63)
buffer_length-bound i h = (
  unfold buffer_length in longer i 0 (omega arith),
  subst (λ m. buffer_length i ≤ m) last_length (longer 53 i h),
)

-- The doubled length wraps exactly at the last call.
last_wraps : ltb (2 * buffer_length 53 % 2 ^ 64) (buffer_length 53) ≡ true
unfolding buffer_length
last_wraps = refl

no_wrap : (i : ℕ) → i < 53 → 2 * buffer_length i % 2 ^ 64 ≡ buffer_length (suc i)
unfolding buffer_length
no_wrap i h = let b = buffer_length-bound (suc i) (omega arith) in omega arith

no_overflow : (i : ℕ) → i < 53 → ltb (buffer_length (suc i)) (buffer_length i) ≡ false
no_overflow i h = unfold buffer_length in ground (arith, buffer_length-bound i (omega arith))

module _ (call : ℕ → ℕ → ℕ) (realloc : ℕ → Bool) where
  -- The first `k` calls fail.
  abbrev pub Failed : ℕ → Type 0
  Failed k = (i : ℕ) → i < k → (call i (buffer_length i) == 0) ≡ false

  -- The first call that does not fail gives its buffer, after at most 54 calls; otherwise memory
  -- runs out at a length below 2 ^ 64, or all the 54 lengths that a `size_t` can have are too short.
  -- The tries are never used up.
  pub Tried : Lookup → Type 0
  Tried (buffer n) = (k : ℕ) × (k < 54) × (n ≡ buffer_length k) × (call k n ≡ 0) × Failed k
  Tried (leaked n) =
      (k : ℕ) × (k < 53) × (n ≡ buffer_length k) × (realloc (2 * n) ≡ false) × Failed (suc k)
  Tried overflowed = Failed 54
  Tried exhausted = ⊥
  Tried no_result = ⊥

  Failed-suc : (k : ℕ) → Failed k → (call k (buffer_length k) == 0) ≡ false → Failed (suc k)
  Failed-suc k before this i h = elim (Bool-cases (i == k)) [
    | inl same ↦ rw ((==_iff i k).0 same) this
    | inr other ↦ before i (grind (arith, ==_iff i k))
  ]

  last_try :
      (tries : ℕ)
      → (call 53 (buffer_length 53) == 0) ≡ false
      → Failed 53
      → Tried (try_lookup call realloc (suc tries) 53 (buffer_length 53))
  unfolding try_lookup Tried
  last_try tries fails before = rw (fails, last_wraps) (Failed-suc 53 before fails)

  try_lookup-Tried :
      (tries i : ℕ)
      → 54 ≤ tries + i
      → i < 54
      → Failed i
      → Tried (try_lookup call realloc tries i (buffer_length i))
  unfolding try_lookup Tried
  try_lookup-Tried zero i enough h before = absurd (omega arith)
  try_lookup-Tried (suc tries) i enough h before =
      elim (Bool-cases (call i (buffer_length i) == 0)) [
        | inl done ↦ rw (done) (i, h, refl, (==_iff _ 0).0 done, before)
        | inr fails ↦ elim (Bool-cases (i == 53)) [
          | inl last ↦
              subst
                (λ k.
                  (call k (buffer_length k) == 0) ≡ false
                  → Failed k
                  → Tried (try_lookup call realloc (suc tries) k (buffer_length k)))
                (sym ((==_iff i 53).0 last)) (last_try tries) fails before
          | inr early ↦
              let h' : i < 53 = grind (arith, ==_iff i 53) in
              elim (Bool-cases (realloc (buffer_length (suc i)))) [
                | inl room ↦
                    rw (fails, no_wrap i h', no_overflow i h', room)
                      (try_lookup-Tried tries (suc i) (omega arith) (omega arith)
                        (Failed-suc i before fails))
                | inr full ↦
                    rw (fails, no_wrap i h', no_overflow i h', full)
                      (i, h', refl, unfold buffer_length in full, Failed-suc i before fails)
              ]
        ]
      ]

-- For each number the lookups of a user and of a group give the buffer of the first call that does
-- not fail, after at most 54 calls; or they give none since memory ran out before, or since no
-- length of 64 bits is enough. They end before their 4096 tries are used up.
pub get_entries-Tried :
    (getpwuid_r getgrgid_r : ℕ → ℕ → ℕ → ℕ) (realloc : ℕ → Bool) (id : ℕ)
    → Tried (getpwuid_r id) realloc (get_passwd_from_uid getpwuid_r realloc id true)
      × Tried (getgrgid_r id) realloc (get_group_from_gid getgrgid_r realloc id true)
unfolding get_passwd_from_uid get_group_from_gid
get_entries-Tried getpwuid_r getgrgid_r realloc id = (
  unfold buffer_length in
      try_lookup-Tried (getpwuid_r id) realloc max_tries 0 (omega arith) (omega arith)
        (λ i h. absurd (omega arith)),
  unfold buffer_length in
      try_lookup-Tried (getgrgid_r id) realloc max_tries 0 (omega arith) (omega arith)
        (λ i h. absurd (omega arith)),
)
