-- ===== src/Data/Ports.antt =====
-- The search for a port of the passive range.
use native.Mathlib.Decide.{dec_lt}
use cftp_server.Base.{
  ℕ, zero, suc, ◌+◌, ◌%◌, ◌^◌, ◌≤◌, ◌<◌, ◌≡◌, refl, ap, ◌∙◌, Bool, true, false, Option, none, some,
  arith, Bool-cases, inl, inr, leb,
}
use cftp_server.Faults.{fault, out_of_fuel, Returns}
use cftp_server.Data.{find_port}

-- The result is the first port from `start` to `end` that can be bound, or there is none.
abbrev pub IsFirst : (ℕ → Bool) → ℕ → ℕ → Option ℕ → Type 0
IsFirst can_bind start end none = (q : ℕ) → start ≤ q → q ≤ end → can_bind q ≡ false
IsFirst can_bind start end (some p) =
    (start ≤ p)
    × (p ≤ end)
    × (can_bind p ≡ true)
    × ((q : ℕ) → start ≤ q → q < p → can_bind q ≡ false)

later_or_same :
    (can_bind : ℕ → Bool) (start q : ℕ)
    → can_bind start ≡ false
    → ((start + 1 ≤ q) → can_bind q ≡ false)
    → start ≤ q
    → can_bind q ≡ false
later_or_same can_bind start q busy later h = elim (dec_lt start q) [
  | yes less ↦ later (omega arith)
  | no other ↦ let same : q ≡ start = omega arith in ap can_bind same ∙ busy
]

IsFirst-step :
    (can_bind : ℕ → Bool) (start end : ℕ) (r : Option ℕ)
    → can_bind start ≡ false
    → IsFirst can_bind (start + 1) end r
    → start ≤ end
    → IsFirst can_bind start end r
IsFirst-step can_bind start end none busy f le =
    λ q h k. later_or_same can_bind start q busy (λ h'. f q h' k) h
IsFirst-step can_bind start end (some p) busy (low, high, free, before) le =
    (omega arith, high, free, λ q h k. later_or_same can_bind start q busy (λ h'. before q h' k) h)

-- In a range whose end is below 65535 the loop ends within one round more than there are ports.
pub find_port-IsFirst :
    (can_bind : ℕ → Bool) (fuel end start : ℕ)
    → end < 65535
    → 0 < fuel
    → end + 1 < start + fuel
    → Returns (find_port can_bind fuel end start) (IsFirst can_bind start end)
unfolding find_port
find_port-IsFirst can_bind zero end start small more enough = absurd (omega arith)
find_port-IsFirst can_bind (suc fuel) end start small more enough =
    elim (Bool-cases (leb start end)) [
      | inr past ↦ (none, rw past, λ q h k. absurd (ground arith))
      | inl inside ↦ elim (Bool-cases (can_bind start)) [
        | inl free ↦ (some start, rw (inside, free), ground arith)
        | inr busy ↦
            let (r, run, first) =
              find_port-IsFirst can_bind fuel end (start + 1) small (ground arith) (omega arith) in
            let next : (start + 1) % 2 ^ 16 ≡ start + 1 = ground arith in
            (
              r,
              rw (inside, busy, next) run,
              IsFirst-step can_bind start end r busy first (ground arith),
            )
      ]
    ]

-- With a range that ends at 65535 the counter wraps: where no port can be bound the loop does not
-- end, whatever the fuel and wherever it starts.
pub find_port_wraps :
    (can_bind : ℕ → Bool) (fuel port : ℕ)
    → port < 2 ^ 16
    → ((q : ℕ) → q < 2 ^ 16 → can_bind q ≡ false)
    → find_port can_bind fuel 65535 port ≡ fault out_of_fuel
unfolding find_port
find_port_wraps can_bind zero port small busy = refl
find_port_wraps can_bind (suc fuel) port small busy =
    let inside : leb port 65535 ≡ true = ground arith in
    rw (inside, busy port small)
      (find_port_wraps can_bind fuel ((port + 1) % 2 ^ 16) (omega arith) busy)
