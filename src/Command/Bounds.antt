-- ===== src/Command/Bounds.antt =====
-- The buffers of `parse_text_command` in src/engine/command_parser.c.
use cftp_server.Base.{
  ℕ, zero, suc, ◌-◌, ◌≤◌, ◌<◌, Bool, true, false, not, List, [], ◌∷◌, Bytes, arith, length,
  skip_spaces, All,
}
use cftp_server.Command.{
  max_args, max_arg_len, read_command, read_arg, read_args, read_next, parse_text_command,
}

length-read_command : (room : ℕ) (s : Bytes) → length (read_command room s).0 ≤ room
unfolding read_command
length-read_command zero s = omega arith
length-read_command (suc room) [] = omega arith
length-read_command (suc room) (c ∷ s) = ground (arith, length-read_command room s)

length-read_arg : (room : ℕ) (q e : Bool) (s : Bytes) → length (read_arg room q e s).0 ≤ room
unfolding read_arg
length-read_arg zero q e s = omega arith
length-read_arg (suc room) q e [] = omega arith
length-read_arg (suc room) q true (c ∷ s) = omega (arith, length-read_arg room q false s)
length-read_arg (suc room) q false (c ∷ s) = ground (
  arith,
  length-read_arg (suc room) (not q) false s,
  length-read_arg (suc room) q true s,
  length-read_arg room q false s,
)

-- Every argument fits its buffer with its terminator, and there are at most `n` arguments.
abbrev pub Fits : ℕ → List Bytes → Type 0
Fits n args = (length args ≤ n) × All (λ a. length a < max_arg_len) args

read_next-Fits :
    (got : Bool) (n : ℕ) (later : Bytes → List Bytes) (s : Bytes)
    → ((s' : Bytes) → Fits n (later s'))
    → Fits (suc n) (read_next got later s)
unfolding read_next
read_next-Fits got n later [] fits = (omega arith, tt)
read_next-Fits false n later (c ∷ s) fits = (omega arith, tt)
read_next-Fits true n later (c ∷ s) fits =
    let r = read_arg (max_arg_len - 1) false false (c ∷ s) in
    let (few, fit) = fits (skip_spaces r.1) in
    (omega arith, (omega (arith, length-read_arg (max_arg_len - 1) false false (c ∷ s)), fit))

read_args-Fits : (malloc : ℕ → Bool) (n : ℕ) (s : Bytes) → Fits n (read_args malloc n s)
unfolding read_args
read_args-Fits malloc zero s = (omega arith, tt)
read_args-Fits malloc (suc n) s =
    read_next-Fits (malloc n) n (read_args malloc n) (skip_spaces s) (read_args-Fits malloc n)

-- Whatever the input, the command word and each argument fit their buffers with the terminator,
-- and there are no more arguments than the array holds.
pub parse_text_command-Fits :
    (malloc : ℕ → Bool) (input : Bytes)
    → (length (parse_text_command malloc input).command < max_arg_len)
      × Fits max_args (parse_text_command malloc input).args
unfolding parse_text_command
parse_text_command-Fits malloc input =
    let r = read_command (max_arg_len - 1) (skip_spaces input) in
    (
      omega (arith, length-read_command (max_arg_len - 1) (skip_spaces input)),
      read_args-Fits malloc max_args (skip_spaces r.1),
    )
