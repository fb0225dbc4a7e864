-- ===== src/Decimal.antt =====
-- Decimal numbers as `%u` and `%d` of printf write them and `sscanf` reads them.
use native.Mathlib.Nat.{pow-suc}
use mathlib.Core.List.{append_assoc}
use native.Mathlib.Decide.{dec_lt}
use cftp_server.Base.{
  ℕ, zero, suc, ◌+◌, ◌-◌, ◌*◌, ◌/◌, ◌%◌, ◌^◌, ◌≤◌, ◌<◌, ◌≡◌, refl, ap, ◌∙◌, Bool, true, false, [],
  ◌∷◌, ◌++◌, Bytes, arith, isdigit, ltb, if◌then◌else◌, All, All-append, length, length-append,
}

-- At most `f` digits, the last one first found.
unfoldable pub decimal_upto : ℕ → ℕ → Bytes
decimal_upto zero n = []
decimal_upto (suc f) n = elim (ltb n 10) [
  | true ↦ (b'0' + n) ∷ []
  | false ↦ decimal_upto f (n / 10) ++ (b'0' + n % 10) ∷ []
]

-- Twenty digits are enough for 64 bits.
unfoldable pub decimal : ℕ → Bytes
unfolding decimal_upto
decimal n = decimal_upto 20 n

-- The value of the digits at the front of a text, and the text behind them.
unfoldable pub read_digits : ℕ → Bytes → ℕ × Bytes
read_digits n [] = (n, [])
read_digits n (c ∷ s) = elim (isdigit c) [
  | true ↦ read_digits (n * 10 + (c - b'0')) s
  | false ↦ (n, c ∷ s)
]

-- The text does not go on with a digit.
abbrev pub ends_number : Bytes → Bool
ends_number [] = true
ends_number (c ∷ s) = if isdigit c then false else true

digit_test : (d : ℕ) → d < 10 → isdigit (b'0' + d) ≡ true
unfolding isdigit
digit_test d h = ground arith

read_digits-step :
    (n c : ℕ) (s : Bytes)
    → isdigit c ≡ true
    → read_digits n (c ∷ s) ≡ read_digits (n * 10 + (c - b'0')) s
unfolding read_digits
read_digits-step n c s h = ground arith

-- One digit; the sum is given by an equation.
read_digit :
    (n d k : ℕ) (s : Bytes)
    → d < 10
    → n * 10 + d ≡ k
    → read_digits n ((b'0' + d) ∷ s) ≡ read_digits k s
read_digit n d k s h e =
    read_digits-step n (b'0' + d) s (digit_test d h) ∙ ap (λ (m : ℕ). read_digits m s) (omega arith)

decimal_small : (f n : ℕ) → n < 10 → decimal_upto (suc f) n ≡ (b'0' + n) ∷ []
unfolding decimal_upto
decimal_small f n h = ground arith

decimal_big :
    (f n : ℕ) → 10 ≤ n → decimal_upto (suc f) n ≡ decimal_upto f (n / 10) ++ (b'0' + n % 10) ∷ []
unfolding decimal_upto
decimal_big f n h = ground arith

-- Reading what was printed gives the number, and leaves what follows.
pub read_digits-decimal_upto :
    (f n : ℕ) (s : Bytes) → n < 10 ^ f → read_digits 0 (decimal_upto f n ++ s) ≡ read_digits n s
read_digits-decimal_upto zero n s h =
    unfold decimal_upto in ap (λ (k : ℕ). read_digits k s) (omega arith)
read_digits-decimal_upto (suc f) n s h = elim (dec_lt n 10) [
  | yes small ↦ rw (decimal_small f n small) (read_digit 0 n n s small (omega arith))
  | no big ↦
      rw (decimal_big f n (omega arith), append_assoc)
        (read_digits-decimal_upto f (n / 10) ((b'0' + n % 10) ∷ s) (omega (arith, pow-suc 10 f))
          ∙ read_digit (n / 10) (n % 10) n s (omega arith) (omega arith))
]

-- What follows a number is read up to.
pub read_digits-ends : (n : ℕ) (s : Bytes) → ends_number s ≡ true → read_digits n s ≡ (n, s)
unfolding read_digits
read_digits-ends n [] h = refl
read_digits-ends n (c ∷ s) h = ground arith

-- A decimal number starts with a digit.
pub decimal_upto-cons :
    (f n : ℕ) → (d : ℕ) × (r : Bytes) × (decimal_upto (suc f) n ≡ (b'0' + d) ∷ r) × (d < 10)
decimal_upto-cons zero n = elim (dec_lt n 10) [
  | yes small ↦ (n, [], decimal_small zero n small, small)
  | no big ↦
      (n % 10, [], decimal_big zero n (omega arith) ∙ (unfold decimal_upto in refl), omega arith)
]
decimal_upto-cons (suc f) n = elim (dec_lt n 10) [
  | yes small ↦ (n, [], decimal_small (suc f) n small, small)
  | no big ↦
      let (d, r, e, lt) = decimal_upto-cons f (n / 10) in
      (d, r ++ (b'0' + n % 10) ∷ [], rw (decimal_big (suc f) n (omega arith), e), lt)
]

pub decimal_upto-isdigit : (f n : ℕ) → All (λ c. isdigit c ≡ true) (decimal_upto f n)
decimal_upto-isdigit zero n = unfold decimal_upto in tt
decimal_upto-isdigit (suc f) n = elim (dec_lt n 10) [
  | yes small ↦ rw (decimal_small f n small) (digit_test n small, tt)
  | no big ↦ rw (decimal_big f n (omega arith)) (
      All-append _ (decimal_upto f (n / 10)) _ (decimal_upto-isdigit f (n / 10))
        (digit_test (n % 10) (omega arith), tt))
]

pub length-decimal_upto : (f n : ℕ) → length (decimal_upto f n) ≤ f
length-decimal_upto zero n = unfold decimal_upto in omega arith
length-decimal_upto (suc f) n = elim (dec_lt n 10) [
  | yes small ↦ rw (decimal_small f n small) (omega arith)
  | no big ↦ rw (decimal_big f n (omega arith)) (
      omega (
        arith,
        length-append (decimal_upto f (n / 10)) ((b'0' + n % 10) ∷ []),
        length-decimal_upto f (n / 10),
      ))
]

decimal_lem : (n : ℕ) → decimal n ≡ decimal_upto 20 n
unfolding decimal
decimal_lem n = refl

-- A number is its digits: it starts with one, has nothing else, and at most twenty.
pub decimal-cons : (n : ℕ) → (c : ℕ) × (r : Bytes) × (decimal n ≡ c ∷ r) × (isdigit c ≡ true)
decimal-cons n =
    let (d, r, e, lt) = decimal_upto-cons 19 n in (b'0' + d, r, decimal_lem n ∙ e, digit_test d lt)

pub decimal-isdigit : (n : ℕ) → All (λ c. isdigit c ≡ true) (decimal n)
decimal-isdigit n = rw decimal_lem (decimal_upto-isdigit 20 n)

pub length-decimal : (n : ℕ) → length (decimal n) ≤ 20
length-decimal n = rw decimal_lem (length-decimal_upto 20 n)

pub read_digits-decimal :
    (n : ℕ) (s : Bytes)
    → n < 2 ^ 64
    → ends_number s ≡ true
    → read_digits 0 (decimal n ++ s) ≡ (n, s)
read_digits-decimal n s small e =
    rw decimal_lem (read_digits-decimal_upto 20 n s (omega arith)) ∙ read_digits-ends n s e
