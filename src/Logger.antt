-- ===== src/Logger.antt =====
-- src/core/logger.c: `print_log`, which puts a message together in one buffer on the stack.
pub mod Stores
pub mod Buffer
pub mod Levels
use cftp_server.Base.{
  ℕ, zero, suc, ◌+◌, ◌-◌, Bool, true, false, ◌||◌, Option, none, some, List, [], ◌∷◌, ◌++◌, Bytes,
  bytes, snprintf, c_string, length, take, drop, replicate, last_slash, leb, if◌then◌else◌,
}
use cftp_server.Decimal.{decimal}
use cftp_server.Faults.{Run, ok, fault, out_of_range, ◌>>=◌}

-- `enum logtype`
pub data LogType : Type 0 where
  err_level inf_level wrn_level dbg_level prn_level : LogType

abbrev esc : ℕ
esc = 27

unfoldable pub get_log_str : LogType → Bytes
get_log_str err_level = esc ∷ bytes "[1;31mERROR"
get_log_str inf_level = esc ∷ bytes "[32mINFO"
get_log_str wrn_level = esc ∷ bytes "[1;33mWARNING"
get_log_str dbg_level = esc ∷ bytes "[1;36mDEBUG"
get_log_str prn_level = esc ∷ bytes "[37m"

-- KNRM
unfoldable pub knrm : Bytes
knrm = esc ∷ bytes "[1;0m"

-- LOGGER_HALF_BUFFER, NORMAL_LEN, TRUNC_LOG_LEN and the size of `message1`
abbrev pub half_buffer : ℕ
half_buffer = 256

abbrev pub normal_len : ℕ
normal_len = 8

abbrev pub trunc_log_len : ℕ
trunc_log_len = 43

abbrev pub message_size : ℕ
message_size = 520

unfoldable pub trunc_log_warn : Bytes
trunc_log_warn = bytes "... [.. Log truncated due to too much length]"

-- The name of the file without its directories.
abbrev base_from : Bytes → Option ℕ → Bytes
base_from path none = path
base_from path (some i) = drop (i + 1) path

unfoldable pub basename : Bytes → Bytes
basename path = base_from path (last_slash path)

-- The text before the message.
unfoldable pub log_prefix : LogType → Bytes → Bytes → ℕ → Bytes → Bytes
unfolding get_log_str basename
log_prefix prn_level time source_file line function_name =
    bytes "[" ++ time ++ bytes "] " ++ get_log_str prn_level
log_prefix type time source_file line function_name =
    bytes "["
    ++ time
    ++ bytes "] "
    ++ get_log_str type
    ++ bytes ": "
    ++ basename source_file
    ++ bytes ":"
    ++ decimal line
    ++ bytes ": "
    ++ function_name
    ++ bytes ": "

-- A write of a text with its terminator into the buffer.
unfoldable pub store : ℕ → Bytes → Bytes → Run Bytes
store offset text buffer =
    if leb (offset + length text + 1) (length buffer)
    then ok (take offset buffer ++ text ++ 0 ∷ drop (offset + length text + 1) buffer)
    else fault out_of_range

-- The mark of a message that is too long, and the new length of the message.
unfoldable pub mark_truncated : ℕ → ℕ → Bytes → Run (ℕ × Bytes)
unfolding store
mark_truncated res1 res2 buffer =
    if leb half_buffer (res1 + 1) || leb half_buffer (res2 + 1)
    then (do
      marked ← store (res1 + half_buffer - trunc_log_len) trunc_log_warn buffer
      ok (half_buffer + length trunc_log_warn, marked))
    else ok (res2, buffer)

-- The texts of the prefix and of the message, each cut to half of the buffer.
unfoldable pub store_texts : Bytes → Bytes → Run Bytes
unfolding store
store_texts prefix message = do
  first ← store 0 (snprintf half_buffer prefix) (replicate message_size 0)
  store (length prefix) (snprintf half_buffer message) first

-- The whole buffer. `snprintf` gives the lengths of the texts before they are cut.
unfoldable pub fill_message : Bytes → Bytes → Run Bytes
unfolding store_texts store mark_truncated
fill_message prefix message = do
  second ← store_texts prefix message
  (res2, third) ← mark_truncated (length prefix) (length message) second
  store (length prefix + res2) (snprintf normal_len knrm) third

-- What is given to the function that prints, and `none` if the level is not enabled.
unfoldable pub print_log :
    (LogType → Bool) → LogType → Bytes → Bytes → ℕ → Bytes → Bytes → Run (Option Bytes)
unfolding fill_message log_prefix
print_log enabled type time source_file line function_name message =
    if enabled type
    then (do
      buffer ← fill_message (log_prefix type time source_file line function_name) message
      ok (some (c_string buffer)))
    else ok none
