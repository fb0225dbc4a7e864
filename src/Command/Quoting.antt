-- ===== src/Command/Quoting.antt =====
-- Quotes and backslashes in the arguments of `parse_text_command`: a client writes an argument in
-- quotes, with a backslash before each quote and each backslash.
use mathlib.Core.List.{append_assoc}
use cftp_server.Base.{
  ℕ, zero, suc, ◌+◌, ◌-◌, ◌≤◌, ◌<◌, ◌≡◌, refl, ap, ◌∙◌, Bool, true, false, ◌||◌, List, [], ◌∷◌,
  ◌++◌, map, Bytes, arith, length, length-append, ◌≤◌, isspace, toupper, skip_spaces, ◌==◌,
  if◌then◌else◌, All, inl, inr, Bool-cases,
}
use cftp_server.Command.{
  max_args, max_arg_len, push, read_command, read_arg, read_next, read_args, parse_text_command,
}

unfoldable pub escape_byte : ℕ → Bytes
escape_byte c = if c == b'"' || c == b'\\' then b'\\' ∷ c ∷ [] else c ∷ []

unfoldable pub escape : Bytes → Bytes
unfolding escape_byte
escape [] = []
escape (c ∷ s) = escape_byte c ++ escape s

-- An argument in quotes.
unfoldable pub quote : Bytes → Bytes
unfolding escape
quote a = b'"' ∷ (escape a ++ b'"' ∷ [])

-- Each argument behind a space.
unfoldable pub render_args : List Bytes → Bytes
unfolding quote
render_args [] = []
render_args (a ∷ as') = 32 ∷ (quote a ++ render_args as')

-- The text ends, or goes on with a space.
abbrev pub ends_word : Bytes → Bool
ends_word [] = true
ends_word (c ∷ s) = isspace c

ends_word-render_args : (as' : List Bytes) → ends_word (render_args as') ≡ true
unfolding render_args isspace
ends_word-render_args [] = refl
ends_word-render_args (a ∷ as') = refl

pub read_arg_stop :
    (room c : ℕ) (s : Bytes)
    → isspace c ≡ true
    → read_arg (suc room) false false (c ∷ s) ≡ ([], c ∷ s)
unfolding read_arg isspace
read_arg_stop room c s h = ground arith

read_arg_plain :
    (room c : ℕ) (s : Bytes)
    → (c == b'"' || c == b'\\') ≡ false
    → read_arg (suc room) true false (c ∷ s) ≡ push c (read_arg room true false s)
unfolding read_arg
read_arg_plain room c s h = ground arith

read_arg_pair :
    (room c : ℕ) (s : Bytes)
    → read_arg (suc room) true false (b'\\' ∷ c ∷ s) ≡ push c (read_arg room true false s)
unfolding read_arg
read_arg_pair room c s = refl

read_arg-escape_byte :
    (room c : ℕ) (s : Bytes)
    → read_arg (suc room) true false (escape_byte c ++ s) ≡ push c (read_arg room true false s)
unfolding escape_byte
read_arg-escape_byte room c s = elim (Bool-cases (c == b'"' || c == b'\\')) [
  | inl special ↦ rw special (read_arg_pair room c s)
  | inr plain ↦ rw plain (read_arg_plain room c s plain)
]

read_arg_close :
    (room : ℕ) (rest : Bytes)
    → ends_word rest ≡ true
    → read_arg (suc room) true false (b'"' ∷ rest) ≡ ([], rest)
unfolding read_arg
read_arg_close room [] e = refl
read_arg_close room (c ∷ rest) e = read_arg_stop room c rest e

-- The closing quote needs room for one byte more.
read_arg-escape :
    (a rest : Bytes) (room : ℕ)
    → length a < room
    → ends_word rest ≡ true
    → read_arg room true false (escape a ++ b'"' ∷ rest) ≡ (a, rest)
unfolding escape
read_arg-escape a rest zero h e = absurd (omega arith)
read_arg-escape [] rest (suc room) h e = read_arg_close room rest e
read_arg-escape (c ∷ a) rest (suc room) h e =
    rw (append_assoc, read_arg-escape_byte room c, read_arg-escape a rest room (omega arith) e)

read_arg_open :
    (room : ℕ) (s : Bytes)
    → read_arg (suc room) false false (b'"' ∷ s) ≡ read_arg (suc room) true false s
unfolding read_arg
read_arg_open room s = refl

read_arg-quote :
    (a rest : Bytes)
    → length a + 1 < max_arg_len
    → ends_word rest ≡ true
    → read_arg (max_arg_len - 1) false false (b'"' ∷ (escape a ++ b'"' ∷ rest)) ≡ (a, rest)
read_arg-quote a rest h e =
    read_arg_open 4094 (escape a ++ b'"' ∷ rest) ∙ read_arg-escape a rest 4095 (omega arith) e

skip_spaces_idem : (s : Bytes) → skip_spaces (skip_spaces s) ≡ skip_spaces s
unfolding skip_spaces
skip_spaces_idem [] = refl
skip_spaces_idem (c ∷ s) = ground (arith, skip_spaces_idem s)

pub read_args_skip :
    (malloc : ℕ → Bool) (n : ℕ) (s : Bytes)
    → read_args malloc n (skip_spaces s) ≡ read_args malloc n s
unfolding read_args
read_args_skip malloc zero s = refl
read_args_skip malloc (suc n) s =
    ap (read_next (malloc n) (read_args malloc n)) (skip_spaces_idem s)

pub read_next-eq :
    (later : Bytes → List Bytes) (c : ℕ) (s arg rest : Bytes)
    → read_arg (max_arg_len - 1) false false (c ∷ s) ≡ (arg, rest)
    → read_next true later (c ∷ s) ≡ arg ∷ later (skip_spaces rest)
unfolding read_next
read_next-eq later c s arg rest e = ap (λ (r : Bytes × Bytes). r.0 ∷ later (skip_spaces r.1)) e

skip_quote : (s : Bytes) → skip_spaces (32 ∷ b'"' ∷ s) ≡ b'"' ∷ s
unfolding skip_spaces isspace
skip_quote s = refl

-- Arguments that are put in quotes come back as they were.
read_args-render_args :
    (as' : List Bytes) (n : ℕ)
    → length as' ≤ n
    → All (λ a. length a + 1 < max_arg_len) as'
    → read_args (λ _. true) n (render_args as') ≡ as'
unfolding read_args render_args
read_args-render_args [] zero few short = refl
read_args-render_args [] (suc n) few short = unfold skip_spaces read_next in refl
read_args-render_args (a ∷ as') zero few short = absurd (omega arith)
read_args-render_args (a ∷ as') (suc n) few short =
    rw (skip_quote, append_assoc)
      (read_next-eq (read_args (λ _. true) n) b'"' (escape a ++ b'"' ∷ render_args as') a
          (render_args as') (read_arg-quote a (render_args as') short.0 (ends_word-render_args as'))
        ∙ ap (λ (l : List Bytes). a ∷ l)
            (read_args_skip (λ _. true) n (render_args as')
              ∙ read_args-render_args as' n (omega arith) short.1))

pub read_command-word :
    (w rest : Bytes) (room : ℕ)
    → All (λ c. isspace c ≡ false) w
    → length w ≤ room
    → ends_word rest ≡ true
    → read_command room (w ++ rest) ≡ (map toupper w, rest)
unfolding read_command
read_command-word [] rest zero clean fits e = refl
read_command-word [] [] (suc room) clean fits e = refl
read_command-word [] (c ∷ rest) (suc room) clean fits e = rw e
read_command-word (c ∷ w) rest zero clean fits e = absurd (omega arith)
read_command-word (c ∷ w) rest (suc room) clean fits e =
    rw (clean.0, read_command-word w rest room clean.1 (omega arith) e)

pub skip_word : (c : ℕ) (s : Bytes) → isspace c ≡ false → skip_spaces (c ∷ s) ≡ c ∷ s
unfolding skip_spaces
skip_word c s h = rw h

-- A line that is a word without spaces and then arguments in quotes, each behind a space, is
-- parsed to the word in upper case and exactly those arguments: for a word of at most 4095 bytes,
-- at most 256 arguments of at most 4094 bytes, and memory for each.
pub parse_text_command-render_args :
    (c : ℕ) (w : Bytes) (args : List Bytes)
    → All (λ b. isspace b ≡ false) (c ∷ w)
    → length (c ∷ w) < max_arg_len
    → length args ≤ max_args
    → All (λ a. length a + 1 < max_arg_len) args
    → parse_text_command (λ _. true) ((c ∷ w) ++ render_args args)
      ≡ record { command = map toupper (c ∷ w); args = args }
unfolding parse_text_command
parse_text_command-render_args c w args clean fits few short =
    let e =
      read_command-word (c ∷ w) (render_args args) 4095 clean (omega arith)
        (ends_word-render_args args) in
    rw (
      skip_word c (w ++ render_args args) clean.0,
      e,
      read_args_skip,
      read_args-render_args args max_args few short,
    )

length-escape : (a : Bytes) → length a ≤ length (escape a)
unfolding escape escape_byte
length-escape [] = omega arith
length-escape (c ∷ a) = elim (Bool-cases (c == b'"' || c == b'\\')) [
  | inl special ↦ rw special (omega (arith, length-escape a))
  | inr plain ↦ rw plain (omega (arith, length-escape a))
]

-- A line is longer than its argument.
pub length-render_args : (a : Bytes) → length a + 3 ≤ length (render_args (a ∷ []))
unfolding render_args quote
length-render_args a =
    rw (length-append (escape a ++ b'"' ∷ []) [], length-append (escape a) (b'"' ∷ []))
      (omega (arith, length-escape a))
