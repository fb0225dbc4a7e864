-- ===== src/Ipc.antt =====
-- The exchange over the socket pair: a client process asks the parent for the name of a user or of
-- a group (src/ipc/interprocess_handler.c), and the parent answers (`execute_root_command` of
-- src/engine/command_parser.c). The user database is a parameter: `getpwuid` and `getgrgid` give
-- the name under a number.
pub mod Names
use cftp_server.Base.{
  ℕ, ◌-◌, ◌*◌, ◌%◌, ◌^◌, Bool, true, false, not, Option, none, some, List, [], ◌∷◌, ◌++◌, Bytes,
  bytes, snprintf, c_string, strcmp_eq, isdigit, skip_spaces, take, drop, ltb, ◌==◌, if◌then◌else◌,
}
use cftp_server.Decimal.{decimal, read_digits}
use cftp_server.Faults.{Run, ok, fault, out_of_fuel}
use cftp_server.Command.{Command, parse_text_command, max_arg_len}

-- `sscanf` with `%u`: the number is read as `strtoul` does, in 64 bits, and stored in 32 bits.
unfoldable pub scan_magnitude : Bool → Bytes → Option ℕ
scan_magnitude minus [] = none
scan_magnitude minus (c ∷ s) =
    let n = (read_digits 0 (c ∷ s)).0 in
    if not (isdigit c)
    then none
    else if ltb (2 ^ 64 - 1) n
    then some ((2 ^ 64 - 1) % 2 ^ 32)
    else some ((if minus then (2 ^ 64 - n) % 2 ^ 64 else n) % 2 ^ 32)

unfoldable pub scan_sign : Bytes → Option ℕ
unfolding scan_magnitude
scan_sign [] = none
scan_sign (c ∷ s) =
    if c == b'-'
    then scan_magnitude true s
    else if c == b'+'
    then scan_magnitude false s
    else scan_magnitude false (c ∷ s)

unfoldable pub scan_unsigned : Bytes → Option ℕ
unfolding scan_sign
scan_unsigned s = scan_sign (skip_spaces s)

-- The name that the parent sends, with its terminator.
abbrev pub name_or_unknown : Option Bytes → Bytes
name_or_unknown none = bytes "unknown"
name_or_unknown (some name) = name

abbrev pub name_reply : (ℕ → Option Bytes) → Bytes → Option ℕ → Bytes
name_reply lookup invalid none = invalid
name_reply lookup invalid (some id) = snprintf max_arg_len (name_or_unknown (lookup id)) ++ 0 ∷ []

-- The answer to a word with its arguments. To any other word with one argument there is none.
unfoldable pub root_reply :
    (ℕ → Option Bytes) → (ℕ → Option Bytes) → Bytes → List Bytes → Option Bytes
root_reply getpwuid getgrgid word (a ∷ []) =
    if strcmp_eq word (bytes "UID")
    then some (name_reply getpwuid (bytes "500 Invalid UID format\r\n") (scan_unsigned a))
    else if strcmp_eq word (bytes "GID")
    then some (name_reply getgrgid (bytes "500 Invalid GID format\r\n") (scan_unsigned a))
    else none
root_reply getpwuid getgrgid word _ = some (bytes "500 Invalid UID format\r\n")

unfoldable pub execute_root_command :
    (ℕ → Bool) → (ℕ → Option Bytes) → (ℕ → Option Bytes) → Bytes → Option Bytes
execute_root_command malloc getpwuid getgrgid input =
    let cmd = parse_text_command malloc input in root_reply getpwuid getgrgid cmd.command cmd.args

-- `ipc_reply_cb`: what the input of the child's bufferevent gives to the buffer, as a C string, and
-- what stays in the input for the next exchange.
unfoldable pub ipc_reply_cb : ℕ → Bytes → Bytes × Bytes
ipc_reply_cb buffer_size input =
    (c_string (take (buffer_size - 1) input), drop (buffer_size - 1) input)

-- `on_read` of src/core/connection.c in the parent reads 1023 bytes at most.
abbrev pub on_read_parent : (Bytes → Option Bytes) → Bytes → Option Bytes
on_read_parent root request = root (take 1023 request)

-- The event loop of the exchange ends when a reply comes, in one piece, behind what earlier
-- exchanges left in the input; without a reply it does not end, since what was left calls nothing.
-- The result is the buffer and what is left now.
unfoldable pub ask_custom_command : (Bytes → Option Bytes) → ℕ → Bytes → Bytes → Run (Bytes × Bytes)
ask_custom_command root buffer_size left buffer =
    if buffer_size == 0 then ok (buffer, left) else elim (on_read_parent root buffer) [
      | none ↦ fault out_of_fuel
      | some reply ↦ ok (ipc_reply_cb buffer_size (left ++ reply))
    ]

unfoldable pub ask_root_for_username : (Bytes → Option Bytes) → ℕ → ℕ → Bytes → Run (Bytes × Bytes)
ask_root_for_username root uid buffer_size left =
    ask_custom_command root buffer_size left (snprintf buffer_size (bytes "UID " ++ decimal uid))

unfoldable pub ask_root_for_groupname : (Bytes → Option Bytes) → ℕ → ℕ → Bytes → Run (Bytes × Bytes)
ask_root_for_groupname root gid buffer_size left =
    ask_custom_command root buffer_size left (snprintf buffer_size (bytes "GID " ++ decimal gid))
