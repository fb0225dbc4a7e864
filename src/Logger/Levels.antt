-- ===== src/Logger/Levels.antt =====
-- Which levels are printed: the masks of src/core/logger.c and the macro LOGM of src/core/error.h.
use cftp_server.Base.{
  ℕ, ◌+◌, ◌/◌, ◌%◌, ◌≡◌, refl, Bool, true, false, Option, none, Bytes, ◌==◌, if◌then◌else◌,
}
use cftp_server.Faults.{Run, ok}
use cftp_server.Logger.{LogType, err_level, inf_level, wrn_level, dbg_level, prn_level, print_log}

abbrev pub level_bit : LogType → ℕ
level_bit err_level = 1
level_bit inf_level = 2
level_bit wrn_level = 4
level_bit dbg_level = 8
level_bit prn_level = 16

-- A level has one bit, and so `mask & level` is a test of that bit.
abbrev pub has_level : ℕ → LogType → Bool
has_level mask type = mask / level_bit type % 2 == 1

-- The variable `enabled_logs` of the macros.
abbrev pub enabled_logs : ℕ
enabled_logs = 15

-- The mask that `initialize_logger` stores; the flag says whether DEBUG is defined.
unfoldable pub initialize_logger : Bool → ℕ
initialize_logger debug =
    let levels = level_bit inf_level + level_bit wrn_level + level_bit err_level in
    if debug then levels + level_bit dbg_level else levels

-- ERROR, INFO, WARN, DEBG and PRINT: the macro tests its own mask, and `print_log` that of the
-- logger.
unfoldable pub logm : Bool → LogType → Bytes → Bytes → ℕ → Bytes → Bytes → Run (Option Bytes)
logm debug type time source_file line function_name message =
    if has_level enabled_logs type
    then print_log (has_level (initialize_logger debug)) type time source_file line function_name
        message
    else ok none

-- What the two masks come to.
abbrev pub printed : Bool → LogType → Bool
printed debug err_level = true
printed debug inf_level = true
printed debug wrn_level = true
printed debug dbg_level = debug
printed debug prn_level = false

-- Errors, warnings and infos are printed by the macros as `print_log` does with every level
-- enabled, debug messages only in a build for it, and the level of PRINT never.
pub logm_lem :
    (debug : Bool) (type : LogType) (time source_file : Bytes) (line : ℕ)
    (function_name message : Bytes)
    → logm debug type time source_file line function_name message ≡ (
        if printed debug type
        then print_log (λ _. true) type time source_file line function_name message
        else ok none)
unfolding logm initialize_logger print_log
logm_lem true err_level time source_file line function_name message = refl
logm_lem false err_level time source_file line function_name message = refl
logm_lem true inf_level time source_file line function_name message = refl
logm_lem false inf_level time source_file line function_name message = refl
logm_lem true wrn_level time source_file line function_name message = refl
logm_lem false wrn_level time source_file line function_name message = refl
logm_lem true dbg_level time source_file line function_name message = refl
logm_lem false dbg_level time source_file line function_name message = refl
logm_lem debug prn_level time source_file line function_name message = refl
