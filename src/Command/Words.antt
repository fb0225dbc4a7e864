-- ===== src/Command/Words.antt =====
-- Command lines without quotes: `parse_text_command` of src/engine/command_parser.c on a word and
-- plain arguments, each behind one space.
use cftp_server.Base.{
  ℕ, zero, suc, ◌≤◌, ◌<◌, ◌≡◌, refl, ap, ◌∙◌, Bool, true, false, not, ◌||◌, List, [], ◌∷◌, ◌++◌,
  map, Bytes, arith, length, isspace, toupper, skip_spaces, ◌==◌, All,
}
use cftp_server.Command.{
  max_args, max_arg_len, push, read_arg, read_next, read_args, parse_text_command,
}
use cftp_server.Command.Quoting.{
  ends_word, read_args_skip, read_next-eq, skip_word, read_command-word, read_arg_stop,
}

-- A byte that stands for itself outside quotes.
abbrev pub is_plain : ℕ → Bool
is_plain c = not (isspace c || c == b'"' || c == b'\\')

-- A plain argument is not empty.
abbrev pub IsWord : Bytes → Type 0
IsWord [] = ⊥
IsWord (c ∷ a) = All (λ b. is_plain b ≡ true) (c ∷ a)

-- Each argument behind a space.
unfoldable pub render_words : List Bytes → Bytes
render_words [] = []
render_words (a ∷ as') = 32 ∷ (a ++ render_words as')

ends_word-render_words : (as' : List Bytes) → ends_word (render_words as') ≡ true
unfolding render_words isspace
ends_word-render_words [] = refl
ends_word-render_words (a ∷ as') = refl

read_arg_step :
    (room c : ℕ) (s : Bytes)
    → is_plain c ≡ true
    → read_arg (suc room) false false (c ∷ s) ≡ push c (read_arg room false false s)
unfolding read_arg
read_arg_step room c s h = ground arith

read_arg-word :
    (a rest : Bytes) (room : ℕ)
    → All (λ b. is_plain b ≡ true) a
    → length a ≤ room
    → ends_word rest ≡ true
    → read_arg room false false (a ++ rest) ≡ (a, rest)
read_arg-word [] rest zero plain fits e = unfold read_arg in refl
read_arg-word [] [] (suc room) plain fits e = unfold read_arg in refl
read_arg-word [] (c ∷ rest) (suc room) plain fits e = read_arg_stop room c rest e
read_arg-word (c ∷ a) rest zero plain fits e = absurd (omega arith)
read_arg-word (c ∷ a) rest (suc room) plain fits e =
    rw (read_arg_step room c (a ++ rest) plain.0, read_arg-word a rest room plain.1 (omega arith) e)

plain_space : (c : ℕ) → is_plain c ≡ true → isspace c ≡ false
plain_space c h = ground arith

skip_space : (s : Bytes) → skip_spaces (32 ∷ s) ≡ skip_spaces s
unfolding skip_spaces isspace
skip_space s = refl

skip_blank : (c : ℕ) (s : Bytes) → isspace c ≡ false → skip_spaces (32 ∷ c ∷ s) ≡ c ∷ s
skip_blank c s h = skip_space (c ∷ s) ∙ skip_word c s h

read_args-render_words :
    (as' : List Bytes) (n : ℕ)
    → length as' ≤ n
    → All IsWord as'
    → All (λ a. length a < max_arg_len) as'
    → read_args (λ _. true) n (render_words as') ≡ as'
unfolding read_args render_words
read_args-render_words [] zero few plain short = refl
read_args-render_words [] (suc n) few plain short = unfold skip_spaces read_next in refl
read_args-render_words (a ∷ as') zero few plain short = absurd (omega arith)
read_args-render_words ([] ∷ as') (suc n) few plain short = elim (plain.0) [ ]
read_args-render_words ((c ∷ a) ∷ as') (suc n) few plain short =
    rw (skip_blank c (a ++ render_words as') (plain_space c plain.0.0)) (
      read_next-eq (read_args (λ _. true) n) c (a ++ render_words as') (c ∷ a) (render_words as') (
        read_arg-word (c ∷ a) (render_words as') 4095 plain.0 (omega (arith, short.0))
          (ends_word-render_words as'))
      ∙ ap (λ (l : List Bytes). (c ∷ a) ∷ l)
          (read_args_skip (λ _. true) n (render_words as')
            ∙ read_args-render_words as' n (omega arith) plain.1 short.1))

-- A line that is a word and then plain arguments, each behind one space, is parsed to the word in
-- upper case and exactly those arguments: for a word of at most 4095 bytes without spaces, at most
-- 256 arguments of at most 4095 bytes, and memory for each.
pub parse_text_command-render_words :
    (c : ℕ) (w : Bytes) (args : List Bytes)
    → All (λ b. isspace b ≡ false) (c ∷ w)
    → length (c ∷ w) < max_arg_len
    → length args ≤ max_args
    → All IsWord args
    → All (λ a. length a < max_arg_len) args
    → parse_text_command (λ _. true) ((c ∷ w) ++ render_words args)
      ≡ record { command = map toupper (c ∷ w); args = args }
unfolding parse_text_command
parse_text_command-render_words c w args clean fits few plain short =
    let e =
      read_command-word (c ∷ w) (render_words args) 4095 clean (omega arith)
        (ends_word-render_words args) in
    rw (
      skip_word c (w ++ render_words args) clean.0,
      e,
      read_args_skip,
      read_args-render_words args max_args few plain short,
    )
