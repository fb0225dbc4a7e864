-- ===== src/Ipc/Names.antt =====
-- What a client process gets for the number of a user or of a group.
use mathlib.Core.List.{append-nil}
use cftp_server.Base.{
  ℕ, zero, suc, ◌+◌, ◌-◌, ◌≤◌, ◌<◌, ◌^◌, ◌≡◌, refl, ap, ◌∙◌, true, false, Option, some, [], ◌∷◌,
  ◌++◌, map, Bytes, bytes, arith, snprintf, c_string, take, drop, take_all, take-take, length,
  length-append, All, isspace, toupper, isdigit, skip_spaces, strcmp_eq, ◌==◌,
}
use cftp_server.Decimal.{
  decimal, read_digits, decimal-cons, decimal-isdigit, length-decimal, read_digits-decimal,
}
use cftp_server.Faults.{ok}
use cftp_server.Command.{max_arg_len, parse_text_command}
use cftp_server.Command.Words.{is_plain, IsWord, render_words, parse_text_command-render_words}
use cftp_server.Ipc.{
  scan_unsigned, name_or_unknown, name_reply, root_reply, execute_root_command, ipc_reply_cb,
  ask_custom_command, ask_root_for_username, ask_root_for_groupname,
}

-- A name is a C string.
abbrev pub IsText : Bytes → Type 0
IsText name = All (λ c. (c == 0) ≡ false) name

c_string-take :
    (k : ℕ) (name : Bytes) → IsText name → c_string (take k (name ++ 0 ∷ [])) ≡ take k name
unfolding c_string
c_string-take zero name t = refl
c_string-take (suc k) [] t = refl
c_string-take (suc k) (c ∷ name) t = rw (t.0, c_string-take k name t.1)

IsText-take : (n : ℕ) (name : Bytes) → IsText name → IsText (take n name)
IsText-take zero name t = tt
IsText-take (suc n) [] t = tt
IsText-take (suc n) (c ∷ name) t = (t.0, IsText-take n name t.1)

-- What a name that is sent leaves in the input of a child behind its buffer.
pub rest_of_name : ℕ → Bytes → Bytes
rest_of_name size name = drop (size - 1) (snprintf max_arg_len name ++ 0 ∷ [])

-- The reply arrives as the name, cut to the buffer.
ipc_reply_cb-name :
    (size : ℕ) (name : Bytes)
    → size ≤ 4096
    → IsText name
    → ipc_reply_cb size (snprintf max_arg_len name ++ 0 ∷ [])
      ≡ (take (size - 1) name, rest_of_name size name)
unfolding ipc_reply_cb rest_of_name
ipc_reply_cb-name size name small t =
    ap (λ s. (s, rest_of_name size name))
      (c_string-take (size - 1) (take 4095 name) (IsText-take 4095 name t)
        ∙ take-take (size - 1) 4095 name (omega arith))

scan_digits :
    (c : ℕ) (s : Bytes) (n : ℕ)
    → isdigit c ≡ true
    → read_digits 0 (c ∷ s) ≡ (n, [])
    → n < 2 ^ 32
    → scan_unsigned (c ∷ s) ≡ some n
unfolding scan_unsigned skip_spaces isspace isdigit
scan_digits c s n digit read small = ground arith

scan_unsigned-decimal : (n : ℕ) → n < 2 ^ 32 → scan_unsigned (decimal n) ≡ some n
scan_unsigned-decimal n small =
    let (c, r, e, digit) = decimal-cons n in
    rw e (
      scan_digits c r n digit (rw (append-nil, e) at (read_digits-decimal n [] (omega arith) refl))
        small)

digit_plain : (c : ℕ) → isdigit c ≡ true → is_plain c ≡ true
unfolding isdigit isspace
digit_plain c h = ground arith

All-plain : (s : Bytes) → All (λ c. isdigit c ≡ true) s → All (λ c. is_plain c ≡ true) s
All-plain [] h = tt
All-plain (c ∷ s) h = (digit_plain c h.0, All-plain s h.1)

IsWord-decimal : (n : ℕ) → IsWord (decimal n)
IsWord-decimal n =
    let (c, r, e, digit) = decimal-cons n in rw e (All-plain (c ∷ r) (rw e at (decimal-isdigit n)))

-- The request for a number, with its word in capitals.
request :
    (c : ℕ) (w : Bytes) (n : ℕ)
    → (c ∷ w) ++ 32 ∷ decimal n ≡ (c ∷ w) ++ render_words (decimal n ∷ [])
unfolding render_words
request c w n = rw append-nil

request-parsed :
    (c : ℕ) (w : Bytes) (n : ℕ)
    → All (λ b. isspace b ≡ false) (c ∷ w)
    → length (c ∷ w) < max_arg_len
    → parse_text_command (λ _. true) ((c ∷ w) ++ 32 ∷ decimal n)
      ≡ record { command = map toupper (c ∷ w); args = decimal n ∷ [] }
request-parsed c w n clean fits = rw (request c w n) (
    parse_text_command-render_words c w (decimal n ∷ []) clean fits (omega arith)
      (IsWord-decimal n, tt) (omega (arith, length-decimal n), tt))

module _ (getpwuid getgrgid : ℕ → Option Bytes) (id : ℕ) (small : id < 2 ^ 32) where
  abbrev root : Bytes → Option Bytes
  root = execute_root_command (λ _. true) getpwuid getgrgid

  root-user : root (bytes "UID " ++ decimal id) ≡ some (name_reply getpwuid [] (some id))
  unfolding execute_root_command root_reply strcmp_eq bytes isspace toupper
  root-user =
      rw
        (
          request-parsed 85 (73 ∷ 68 ∷ []) id (refl, (refl, (refl, tt))) (omega arith),
          scan_unsigned-decimal id small,
        )
        refl

  root-group : root (bytes "GID " ++ decimal id) ≡ some (name_reply getgrgid [] (some id))
  unfolding execute_root_command root_reply strcmp_eq bytes isspace toupper
  root-group =
      rw
        (
          request-parsed 71 (73 ∷ 68 ∷ []) id (refl, (refl, (refl, tt))) (omega arith),
          scan_unsigned-decimal id small,
        )
        refl

  -- A request fits the buffer that it is written to and the parent's buffer.
  whole :
      (word : Bytes) (size : ℕ)
      → length word ≤ 4
      → 24 < size
      → take 1023 (snprintf size (word ++ decimal id)) ≡ word ++ decimal id
  whole word size short room =
      let fits : length (word ++ decimal id) ≤ 24 =
        omega (arith, length-append word (decimal id), length-decimal id) in
      rw (take_all (size - 1) (word ++ decimal id) (omega (arith, fits)))
        (take_all 1023 (word ++ decimal id) (omega (arith, fits)))

  answered :
      (word reply : Bytes) (size : ℕ)
      → length word ≤ 4
      → 24 < size
      → root (word ++ decimal id) ≡ some reply
      → ask_custom_command root size [] (snprintf size (word ++ decimal id))
        ≡ ok (ipc_reply_cb size reply)
  unfolding ask_custom_command
  answered word reply size short room reached =
      let given : (size == 0) ≡ false = ground arith in
      rw (given, whole word size short room, reached) refl

  -- A child that has no input left from earlier exchanges and asks the parent for a number gets the
  -- name that the user database has under that number, or the text "unknown" if it has none, cut to
  -- the child's buffer: for numbers of 32 bits, names without zero bytes, and a buffer of 25 to 4096
  -- bytes, if the parent has the memory to parse the question. The exchange ends, and what the buffer
  -- did not hold of the name and its terminator is left for the next exchange.
  pub ask_root-name :
      (size : ℕ)
      → 24 < size
      → size ≤ 4096
      → IsText (name_or_unknown (getpwuid id))
      → IsText (name_or_unknown (getgrgid id))
      → (ask_root_for_username root id size []
          ≡ ok (
            take (size - 1) (name_or_unknown (getpwuid id)),
            rest_of_name size (name_or_unknown (getpwuid id)),
          ))
        × (ask_root_for_groupname root id size []
            ≡ ok (
              take (size - 1) (name_or_unknown (getgrgid id)),
              rest_of_name size (name_or_unknown (getgrgid id)),
            ))
  unfolding ask_root_for_username ask_root_for_groupname bytes
  ask_root-name size room small user group = (
    answered (bytes "UID ") _ size (omega arith) room root-user
        ∙ ap ok (ipc_reply_cb-name size (name_or_unknown (getpwuid id)) small user),
    answered (bytes "GID ") _ size (omega arith) room root-group
        ∙ ap ok (ipc_reply_cb-name size (name_or_unknown (getgrgid id)) small group),
  )

-- A name that fits the buffer with its terminator leaves nothing.
drop_all : (n : ℕ) (s : Bytes) → length s ≤ n → drop n s ≡ []
drop_all zero [] fits = refl
drop_all (suc n) [] fits = refl
drop_all zero (c ∷ s) fits = absurd (omega arith)
drop_all (suc n) (c ∷ s) fits = drop_all n s (omega arith)

pub rest_of_name-short :
    (size : ℕ) (name : Bytes)
    → length name + 1 < size
    → length name < max_arg_len
    → rest_of_name size name ≡ []
unfolding rest_of_name
rest_of_name-short size name fits short =
    rw (take_all 4095 name (omega arith))
      (drop_all (size - 1) (name ++ 0 ∷ []) (omega (arith, length-append name (0 ∷ []))))
