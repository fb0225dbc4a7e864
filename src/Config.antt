-- ===== src/Config.antt =====
-- src/config_manager/config_manager.c: reading the configuration file. The directives are lines
-- `key=value`; the model starts from the text of the file, if it could be opened.
pub mod Sane
pub mod Seed
pub mod Lines
pub mod Printing
use cftp_server.Base.{
  ℕ, zero, suc, ◌+◌, ◌-◌, ◌^◌, Bool, true, false, not, ◌&&◌, ◌||◌, Option, none, some, List, [],
  ◌∷◌, ◌++◌, Bytes, bytes, snprintf, strcmp_eq, isspace, isdigit, tolower, skip_spaces, ltb, leb,
  ◌==◌, if◌then◌else◌,
}
use cftp_server.Decimal.{read_digits}

-- `configurations_t`. Only values of at least 0 are ever stored.
pub record Configurations : Type 0 where
  pub max_connections : ℕ
  pub connection_accept_timeout : ℕ
  pub data_connection_accept_timeout : ℕ
  pub port : ℕ
  pub passive_port_start : ℕ
  pub passive_port_end : ℕ
  pub server_name : Bytes
  pub ssl_cert_file : Bytes
  pub ssl_key_file : Bytes

abbrev pub default_configurations : Configurations
default_configurations = record {
  max_connections = 10000;
  connection_accept_timeout = 60;
  data_connection_accept_timeout = 9;
  port = 21;
  passive_port_start = 40000;
  passive_port_end = 41000;
  server_name = bytes "Harkirat's FTP Server";
  ssl_cert_file = bytes "/etc/ssl/certs/cftp_server.crt";
  ssl_key_file = bytes "/etc/ssl/private/cftp_server.key";
}

abbrev pub is_nil : Bytes → Bool
is_nil [] = true
is_nil (c ∷ s) = false

-- The loop from the end: the trailing spaces are cut off.
unfoldable pub trim_right_inplace : Bytes → Bytes
trim_right_inplace [] = []
trim_right_inplace (c ∷ s) =
    let rest = trim_right_inplace s in if is_nil rest && isspace c then [] else c ∷ rest

unfoldable pub trim_inplace : Bytes → Bytes
trim_inplace s = trim_right_inplace (skip_spaces s)

unfoldable pub equals_icase : Bytes → Bytes → Bool
equals_icase [] [] = true
equals_icase [] (d ∷ b) = false
equals_icase (c ∷ a) [] = false
equals_icase (c ∷ a) (d ∷ b) = tolower c == tolower d && equals_icase a b

-- `INT_MAX`
abbrev pub int_max : ℕ
int_max = 2 ^ 31 - 1

-- An `int` that was read: a value of at least 0, or a negative one, which every caller refuses.
pub data ParsedInt : Type 0 where
  natural : ℕ → ParsedInt
  negative : ℕ → ParsedInt

-- The digits behind the sign; the flag says that the sign is a minus. A number outside of the
-- range of `int`, and anything but spaces behind it, is refused.
unfoldable pub parse_magnitude : Bool → Bytes → Option ParsedInt
parse_magnitude minus [] = none
parse_magnitude minus (c ∷ s) =
    let (n, rest) = read_digits 0 (c ∷ s) in
    if not (isdigit c) || not (is_nil (skip_spaces rest))
    then none
    else if minus
    then (if leb n (int_max + 1) then some (if n == 0 then natural 0 else negative n) else none)
    else (if leb n int_max then some (natural n) else none)

-- The sign that `strtol` reads.
unfoldable pub parse_sign : Bytes → Option ParsedInt
unfolding parse_magnitude
parse_sign [] = none
parse_sign (c ∷ s) =
    if c == b'-'
    then parse_magnitude true s
    else if c == b'+'
    then parse_magnitude false s
    else parse_magnitude false (c ∷ s)

unfoldable pub parse_int : Bytes → Option ParsedInt
parse_int v = parse_sign (skip_spaces v)

-- The value if it is in the range, and otherwise the value that was there.
unfoldable pub int_in : ℕ → ℕ → Bytes → ℕ → ℕ
int_in lo hi v old = elim (parse_int v) [
  | none ↦ old
  | some i ↦ elim i [ natural n ↦ if leb lo n && leb n hi then n else old | negative n ↦ old ]
]

-- `snprintf` into a buffer, and the trailing spaces cut off.
abbrev pub text_in : ℕ → Bytes → Bytes
text_in size v = trim_right_inplace (snprintf size v)

unfoldable pub assign_kv : Configurations → Bytes → Bytes → Configurations
assign_kv cfg k v =
    if equals_icase k (bytes "max_connections")
    then record cfg { max_connections = int_in 1 int_max v cfg.max_connections }
    else if equals_icase k (bytes "connection_accept_timeout")
    then record cfg { connection_accept_timeout = int_in 0 int_max v cfg.connection_accept_timeout }
    else if equals_icase k (bytes "data_connection_accept_timeout")
    then record cfg {
      data_connection_accept_timeout = int_in 0 int_max v cfg.data_connection_accept_timeout;
    }
    else if equals_icase k (bytes "passive_port_start")
    then record cfg { passive_port_start = int_in 1024 65535 v cfg.passive_port_start }
    else if equals_icase k (bytes "passive_port_end")
    then record cfg { passive_port_end = int_in 1024 65535 v cfg.passive_port_end }
    else if equals_icase k (bytes "port")
    then record cfg { port = int_in 20 65535 v cfg.port }
    else if equals_icase k (bytes "server_name")
    then record cfg { server_name = text_in 256 v }
    else if equals_icase k (bytes "ssl_cert_file")
    then record cfg { ssl_cert_file = text_in 4096 v }
    else if equals_icase k (bytes "ssl_key_file")
    then record cfg { ssl_key_file = text_in 4096 v }
    else cfg

-- The two ports in order.
unfoldable pub post_validate : Configurations → Configurations
post_validate cfg =
    let start = if ltb cfg.passive_port_start 1 then 1 else cfg.passive_port_start in
    let end = if ltb 65535 cfg.passive_port_end then 65535 else cfg.passive_port_end in
    if ltb end start
    then record cfg { passive_port_start = end; passive_port_end = start }
    else record cfg { passive_port_start = start; passive_port_end = end }

-- `fgets` with a buffer of 256 bytes: the text in pieces that end with a line feed or have 255
-- bytes. The number is the room left in the piece, the accumulator the piece so far.
unfoldable pub fgets_lines : ℕ → Bytes → Bytes → List Bytes
fgets_lines room piece [] = elim piece [ [] ↦ [] | c ∷ p ↦ (c ∷ p) ∷ [] ]
fgets_lines room piece (c ∷ s) =
    let full = leb room 1 || c == 10 in
    let later =
      fgets_lines (if full then 255 else room - 1) (if full then [] else piece ++ c ∷ []) s in
    if full then (piece ++ c ∷ []) ∷ later else later

-- The line up to the first `=`, and what stands behind it.
unfoldable pub split_eq : Bytes → Option (Bytes × Bytes)
split_eq [] = none
split_eq (c ∷ s) =
    let later = split_eq s in
    if c == b'=' then some ([], s) else elim later [ none ↦ none | some (k, v) ↦ some (c ∷ k, v) ]

-- The body of the loop behind the tests for an empty line and a comment.
unfoldable pub process_entry : Configurations → Option (Bytes × Bytes) → Configurations
process_entry cfg none = cfg
process_entry cfg (some (k, v)) =
    let key = trim_inplace k in if is_nil key then cfg else assign_kv cfg key (trim_inplace v)

unfoldable pub process_trimmed : Configurations → Bytes → Configurations
unfolding process_entry
process_trimmed cfg [] = cfg
process_trimmed cfg (c ∷ s) = if c == b'#' then cfg else process_entry cfg (split_eq (c ∷ s))

unfoldable pub process_line : Configurations → Bytes → Configurations
unfolding process_trimmed
process_line cfg line = process_trimmed cfg (trim_inplace line)

unfoldable pub process_lines : Configurations → List Bytes → Configurations
process_lines cfg [] = cfg
process_lines cfg (line ∷ lines) = process_lines (process_line cfg line) lines

-- The text of the file, or `none` if it cannot be opened.
unfoldable pub read_configurations : Option Bytes → Configurations
read_configurations none = default_configurations
read_configurations (some text) =
    post_validate (process_lines default_configurations (fgets_lines 255 [] text))
