-- ===== src/Command.antt =====
-- The command line of src/engine/command_parser.c: `parse_text_command` and its limits from
-- command_parser.h. A text is a C string, so it holds no zero byte.
pub mod Bounds
pub mod Quoting
pub mod Words
use cftp_server.Base.{
  ℕ, zero, suc, ◌-◌, Bool, true, false, not, ◌&&◌, List, [], ◌∷◌, Bytes, length, isspace, toupper,
  skip_spaces, ◌==◌, if◌then◌else◌,
}

abbrev pub max_args : ℕ
max_args = 256

abbrev pub max_arg_len : ℕ
max_arg_len = 4096

-- `cftp_command_t`; `argc` is the number of arguments.
pub record Command : Type 0 where
  pub command : Bytes
  pub args : List Bytes

abbrev pub argc : Command → ℕ
argc c = length c.args

abbrev pub push : ℕ → Bytes × Bytes → Bytes × Bytes
push c r = (c ∷ r.0, r.1)

-- The loop over the command word; the number is the room left in its buffer.
unfoldable pub read_command : ℕ → Bytes → Bytes × Bytes
read_command zero s = ([], s)
read_command (suc room) [] = ([], [])
read_command (suc room) (c ∷ s) =
    if isspace c then ([], c ∷ s) else push (toupper c) (read_command room s)

abbrev pub is_nil : Bytes → Bool
is_nil [] = true
is_nil (c ∷ s) = false

-- The loop over one argument: the room left in its buffer, whether it is in quotes, and whether
-- the byte in front was the backslash of an escaped pair, which `input += 2` passes at once.
unfoldable pub read_arg : ℕ → Bool → Bool → Bytes → Bytes × Bytes
read_arg zero q escaped s = ([], s)
read_arg (suc room) q escaped [] = ([], [])
read_arg (suc room) q true (c ∷ s) = push c (read_arg room q false s)
read_arg (suc room) q false (c ∷ s) = elim (c == b'"') [
  | true ↦ read_arg (suc room) (not q) false s
  | false ↦ elim (not q && isspace c) [
    | true ↦ ([], c ∷ s)
    | false ↦ elim (c == b'\\' && not (is_nil s)) [
      | true ↦ read_arg (suc room) q true s
      | false ↦ push c (read_arg room q false s)
    ]
  ]
]

-- One round of the loop over the arguments, at an input without leading spaces; `later` is the
-- rest of the loop. An end of the input or a failed allocation ends it.
unfoldable pub read_next : Bool → (Bytes → List Bytes) → Bytes → List Bytes
read_next got later [] = []
read_next false later (c ∷ s) = []
read_next true later (c ∷ s) =
    let (arg, rest) = read_arg (max_arg_len - 1) false false (c ∷ s) in
    arg ∷ later (skip_spaces rest)

-- The loop over the arguments. The number is the room left in `args`; `malloc` says for each
-- whether the buffer of that argument is allocated.
unfoldable pub read_args : (ℕ → Bool) → ℕ → Bytes → List Bytes
unfolding read_next
read_args malloc zero s = []
read_args malloc (suc n) s = read_next (malloc n) (read_args malloc n) (skip_spaces s)

unfoldable pub parse_text_command : (ℕ → Bool) → Bytes → Command
parse_text_command malloc input =
    let (word, rest) = read_command (max_arg_len - 1) (skip_spaces input) in
    record { command = word; args = read_args malloc max_args (skip_spaces rest) }
