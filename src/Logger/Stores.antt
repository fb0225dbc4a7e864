-- ===== src/Logger/Stores.antt =====
-- Texts that are stored one behind the other in the buffer of a log message.
use mathlib.Core.List.{append_assoc}
use cftp_server.Base.{
  ℕ, zero, suc, ◌+◌, ◌≤◌, ◌<◌, ◌≡◌, refl, ap, sym, ◌∙◌, true, false, [], ◌∷◌, ◌++◌, Bytes, arith,
  c_string, length, length-append, length-take, take, drop, length-drop, All, leb, ◌==◌,
}
use cftp_server.Faults.{fault, out_of_range, Returns}
use cftp_server.Logger.{message_size, store}

take-prefix : (n : ℕ) (xs ys : Bytes) → length xs ≡ n → take n (xs ++ ys) ≡ xs
take-prefix zero [] ys h = refl
take-prefix zero (x ∷ xs) ys h = absurd (omega arith)
take-prefix (suc n) [] ys h = absurd (omega arith)
take-prefix (suc n) (x ∷ xs) ys h = ap (λ zs. x ∷ zs) (take-prefix n xs ys (omega arith))

-- A buffer of the right size that begins with a text.
pub record Begins (t : Bytes) (buffer : Bytes) : Type 0 where
  pub size : length buffer ≡ message_size
  pub rest : Bytes
  pub shape : buffer ≡ t ++ rest

pub Begins-first : (s t buffer : Bytes) → Begins (s ++ t) buffer → Begins s buffer
Begins-first s t buffer b = record {
  size = b.size;
  rest = t ++ b.rest;
  shape = b.shape ∙ append_assoc s t b.rest;
}

stored-size :
    (offset : ℕ) (more buffer : Bytes)
    → offset + length more + 1 ≤ length buffer
    → length (take offset buffer ++ more ++ 0 ∷ drop (offset + length more + 1) buffer)
      ≡ length buffer
stored-size offset more buffer fits = omega (
  arith,
  length-append (take offset buffer ++ more) (0 ∷ drop (offset + length more + 1) buffer),
  length-append (take offset buffer) more,
  length-take offset buffer,
  length-drop (offset + length more + 1) buffer,
)

take-behind :
    (n : ℕ) (t rest : Bytes) → length t ≤ n → (middle : Bytes) × (take n (t ++ rest) ≡ t ++ middle)
take-behind n [] rest h = (take n rest, refl)
take-behind zero (x ∷ t) rest h = absurd (omega arith)
take-behind (suc n) (x ∷ t) rest h =
    let (middle, same) = take-behind n t rest (omega arith) in (middle, ap (λ u. x ∷ u) same)

-- A text that is stored behind the beginning continues it.
pub store-Begins :
    (t more buffer : Bytes)
    → Begins t buffer
    → length t + length more + 1 ≤ message_size
    → Returns (store (length t) more buffer) (Begins ((t ++ more) ++ 0 ∷ []))
unfolding store
store-Begins t more buffer b fits =
    let test : leb (length t + length more + 1) (length buffer) ≡ true = rw b.size (ground arith) in
    let behind = drop (length t + length more + 1) buffer in
    let before : take (length t) buffer ≡ t =
      ap (take (length t)) b.shape ∙ take-prefix (length t) t b.rest refl in
    (
      take (length t) buffer ++ more ++ 0 ∷ behind,
      rw (store, test) refl,
      record {
        size = stored-size (length t) more buffer (rw b.size fits) ∙ b.size;
        rest = behind;
        shape =
            ap (λ u. u ++ more ++ 0 ∷ behind) before
            ∙ sym (append_assoc (t ++ more) (0 ∷ []) behind);
      },
    )

-- A text that is stored further behind leaves the beginning alone.
pub store-beyond :
    (t more buffer : Bytes) (offset : ℕ)
    → Begins t buffer
    → length t ≤ offset
    → offset + length more + 1 ≤ message_size
    → Returns (store offset more buffer) (Begins t)
unfolding store
store-beyond t more buffer offset b behind fits =
    let test : leb (offset + length more + 1) (length buffer) ≡ true = rw b.size (ground arith) in
    let tail = drop (offset + length more + 1) buffer in
    let (middle, same) = take-behind offset t b.rest behind in
    (
      take offset buffer ++ more ++ 0 ∷ tail,
      rw (store, test) refl,
      record {
        size = stored-size offset more buffer (rw b.size fits) ∙ b.size;
        rest = middle ++ more ++ 0 ∷ tail;
        shape =
            ap (λ u. u ++ more ++ 0 ∷ tail) (ap (take offset) b.shape ∙ same)
            ∙ ap (λ u. u ++ 0 ∷ tail) (append_assoc t middle more)
            ∙ append_assoc t (middle ++ more) (0 ∷ tail);
      },
    )

c_string-append : (t rest : Bytes) → All (λ c. (c == 0) ≡ false) t → c_string (t ++ 0 ∷ rest) ≡ t
unfolding c_string
c_string-append [] rest h = refl
c_string-append (c ∷ t) rest h = rw (h.0, c_string-append t rest h.1)

pub c_string-Begins :
    (t buffer : Bytes)
    → All (λ c. (c == 0) ≡ false) t
    → Begins (t ++ 0 ∷ []) buffer
    → c_string buffer ≡ t
c_string-Begins t buffer clean b =
    ap c_string (b.shape ∙ append_assoc t (0 ∷ []) b.rest) ∙ c_string-append t b.rest clean

pub store-overflow :
    (offset : ℕ) (more buffer : Bytes)
    → length buffer ≡ message_size
    → message_size < offset + length more + 1
    → store offset more buffer ≡ fault out_of_range
unfolding store
store-overflow offset more buffer size far =
    let test : leb (offset + length more + 1) (length buffer) ≡ false = rw size (ground arith) in
    rw (store, test) refl
