-- ===== src/Actions/Listing.antt =====
-- LIST and NLST: src/actions/list.c.
pub mod Lines
use cftp_server.Base.{
  ℕ, zero, suc, ◌+◌, ◌-◌, ◌*◌, ◌/◌, ◌%◌, ◌^◌, Bool, true, false, not, ◌&&◌, ◌||◌, Option, none,
  some, List, [], ◌∷◌, ◌++◌, Bytes, bytes, snprintf, length, replicate, ltb, leb, ◌==◌,
  if◌then◌else◌,
}
use cftp_server.Decimal.{decimal}
use cftp_server.Faults.{Run, ok, fault, null_pointer, ◌>>=◌}
use cftp_server.Command.{Command}
use cftp_server.Connection.{
  Session, close_data_connection_on_writecb, close_on_list, list_tls_connected, close_on_write,
}
use cftp_server.Control.{reply}
use cftp_server.Security.{is_path_safe}
use cftp_server.System.{System, Stat}
use cftp_server.Ipc.{execute_root_command, ask_root_for_username, ask_root_for_groupname}
use cftp_server.Actions.Session.{matches}
use cftp_server.Actions.Files.{path_max}
use cftp_server.Actions.Delete.{join, is_dots}

-- `list_flags_t`
pub record ListFlags : Type 0 where
  pub all : Bool
  pub human : Bool
  pub recursive : Bool
  pub path : Option Bytes

list_flag : Bytes → ListFlags → Option ListFlags
list_flag a flags =
    if matches a (bytes "-a")
    then some (record flags { all = true })
    else if matches a (bytes "-h")
    then some (record flags { human = true })
    else if matches a (bytes "-R")
    then some (record flags { recursive = true })
    else elim (flags.path) [ none ↦ some (record flags { path = some a }) | some _ ↦ none ]

list_flags : List Bytes → ListFlags → Option ListFlags
list_flags [] flags = some flags
list_flags (a ∷ rest) flags = elim (list_flag a flags) [
  | none ↦ none
  | some flags' ↦ list_flags rest flags'
]

unfoldable pub parse_list_flags : Command → Option ListFlags
unfolding list_flags list_flag
parse_list_flags cmd =
    list_flags cmd.args (record { all = false; human = false; recursive = false; path = none })

-- `perms`, from the kind of the file and the nine low bits of the mode.
perm_bit : ℕ → ℕ → ℕ → ℕ
perm_bit mode shift letter = if mode / 2 ^ shift % 2 == 1 then letter else b'-'

unfoldable pub permissions : Stat → Bytes
unfolding perm_bit
permissions st =
    (if st.is_dir then b'd' else if st.is_link then b'l' else b'-')
    ∷ perm_bit st.mode 8 b'r'
    ∷ perm_bit st.mode 7 b'w'
    ∷ perm_bit st.mode 6 b'x'
    ∷ perm_bit st.mode 5 b'r'
    ∷ perm_bit st.mode 4 b'w'
    ∷ perm_bit st.mode 3 b'x'
    ∷ perm_bit st.mode 2 b'r'
    ∷ perm_bit st.mode 1 b'w'
    ∷ perm_bit st.mode 0 b'x'
    ∷ []

-- The loop of `human_readable_size`: how often the size is divided by 1024, five times at most.
-- The quotients are exact in a `double` for sizes below 2 ^ 53.
unfoldable pub size_unit : ℕ → ℕ → ℕ → ℕ
size_unit zero size unit = unit
size_unit (suc rounds) size unit =
    let next = size_unit rounds size (unit + 1) in
    if leb (1024 ^ (unit + 1)) size then next else unit

abbrev unit_letter : ℕ → ℕ
unit_letter u =
    if u == 0
    then b'B'
    else if u == 1
    then b'K'
    else if u == 2
    then b'M'
    else if u == 3
    then b'G'
    else if u == 4
    then b'T'
    else b'P'

-- Tenths of `size / divisor`, rounded to the nearest and at a tie to the even one, as `%.1f` does.
unfoldable pub tenths : ℕ → ℕ → ℕ
tenths size divisor =
    let q = size * 10 / divisor in
    let r = size * 10 % divisor in
    if ltb divisor (r * 2) || (divisor == r * 2 && q % 2 == 1) then q + 1 else q

unfoldable pub human_readable_size : ℕ → Bytes
unfolding size_unit tenths
human_readable_size size =
    let unit = size_unit 5 size 0 in
    let t = tenths size (1024 ^ unit) in
    snprintf 32 (decimal (t / 10) ++ b'.' ∷ (decimal (t % 10) ++ unit_letter unit ∷ []))

-- `%*s` and `%-*s`
abbrev pad_left : ℕ → Bytes → Bytes
pad_left width s = replicate (width - length s) 32 ++ s

abbrev pad_right : ℕ → Bytes → Bytes
pad_right width s = s ++ replicate (width - length s) 32

abbrev pub is_hidden : Bytes → Bool
is_hidden [] = false
is_hidden (c ∷ s) = c == b'.'

-- The text of one line of a long listing, in a buffer of PATH_MAX bytes.
unfoldable pub unix_list_entry : Bytes → Bytes → Bytes → Bytes → Stat → Bool → Bytes
unix_list_entry user group time name st human =
    let size =
      if human then human_readable_size st.size else snprintf 32 (pad_left 8 (decimal st.size)) in
    let blank : Bytes = 32 ∷ [] in
    snprintf path_max (
      permissions st
      ++ blank
      ++ pad_left 2 (decimal st.nlink)
      ++ blank
      ++ pad_right 8 user
      ++ blank
      ++ pad_right 8 group
      ++ blank
      ++ pad_left 10 size
      ++ blank
      ++ time
      ++ blank
      ++ name
      ++ 13 ∷ 10 ∷ [])

module _ (sys : System) where
  open sys use {World, lstat, entries, localtime_text, getpwuid, getgrgid}

  -- The parent process, at the other end of the socket pair.
  abbrev pub parent : Bytes → Option Bytes
  parent = execute_root_command (λ _. true) getpwuid getgrgid

  -- The parent is asked for the names of the user and the group; the buffers for them have 256
  -- bytes. `left` is what earlier exchanges left in the input, and the result has what is left now.
  unfoldable pub format_unix_list_entry : Bytes → Stat → Bool → Bytes → Run (Bytes × Bytes)
  format_unix_list_entry name st human left = do
    user ← ask_root_for_username parent st.uid 256 left
    group ← ask_root_for_groupname parent st.gid 256 user.1
    ok (
      unix_list_entry user.0 group.0 (snprintf 32 (localtime_text st.mtime)) name st human,
      group.1,
    )

  -- The line of one entry, which is . or .. or has the status that `lstat` gave; nothing for an
  -- entry that is skipped.
  unfoldable pub list_entry :
      Bool → Option Stat → Bool → Bool → Bool → Bytes → Bytes → Run (Bytes × Bytes)
  list_entry true status description hidden human name left = ok ([], left)
  list_entry false none description hidden human name left = ok ([], left)
  list_entry false (some st) description hidden human name left =
      if not hidden && is_hidden name
      then ok ([], left)
      else if description
      then format_unix_list_entry name st human left
      else ok (snprintf path_max (name ++ 13 ∷ 10 ∷ []), left)

  unfoldable pub list_line :
      World → Bytes → Bool → Bool → Bool → Bytes → Bytes → Run (Bytes × Bytes)
  unfolding list_entry
  list_line w path description hidden human name left =
      list_entry (is_dots name) (lstat w (join path name)) description hidden human name left

  -- The loop over the entries, whose lines are collected in one buffer.
  unfoldable pub list_lines :
      World → Bytes → Bool → Bool → Bool → List Bytes → Bytes → Run (Bytes × Bytes)
  list_lines w path description hidden human [] left = ok ([], left)
  list_lines w path description hidden human (name ∷ names) left = do
    line ← list_line w path description hidden human name left
    lines ← list_lines w path description hidden human names line.1
    ok (line.0 ++ lines.0, lines.1)

  -- The input of the exchange with the parent, after a listing.
  abbrev pub keep_input : Bytes → Session World → Session World
  keep_input left s = record s { conn = record s.conn { interprocess_input = left } }

  -- An empty listing is answered at once; another is written to the data connection.
  unfoldable pub send_listing : Bytes → Session World → Session World
  send_listing [] s = reply 226 "Directory send OK" (record s {
    conn = record s.conn {
      control_write_cb = some close_data_connection_on_writecb;
      data_tls_event_connected_cb = some close_on_write;
    };
  })
  send_listing (c ∷ out) s = record s {
    conn = record s.conn {
      data_write_cb = some close_on_list;
      data_sent = (c ∷ out) ∷ s.conn.data_sent;
    };
  }

  -- The directory is opened anew, without a test.
  unfoldable pub send_list_command_output :
      Bytes → Bool → Bool → Bool → Session World → Run (Session World)
  unfolding send_listing
  send_list_command_output path description hidden human s = elim (entries s.world path) [
    | none ↦ fault null_pointer
    | some names ↦ do
      out ← list_lines s.world path description hidden human names s.conn.interprocess_input
      ok (send_listing out.0 (keep_input out.1 s))
  ]

  -- A refusal after which the data connection is to be closed.
  unfoldable pub refuse_list : ℕ → Session World → Session World
  refuse_list status s =
      let s' : Session World = record s {
        conn = record s.conn { control_write_cb = some close_data_connection_on_writecb };
      } in
      if status == 501
      then reply 501 "Failed to parse parameters" s'
      else reply 550 "Invalid path" s'

  abbrev pub list_path : Option Bytes → Bytes
  list_path none = bytes "."
  list_path (some []) = bytes "."
  list_path (some (c ∷ p)) = snprintf path_max (c ∷ p)

  -- The directory is there: a listing over TLS waits for the handshake of the data connection.
  unfoldable pub start_listing : ListFlags → Bytes → Bool → Session World → Run (Session World)
  start_listing flags path description s =
      if s.conn.data_tls_required
      then ok (
          reply 150 "Here comes the directory listings" (record s {
            conn = record s.conn {
              path = path;
              description = description;
              hidden = flags.all;
              data_tls_event_connected_cb = some list_tls_connected;
              human = flags.human;
            };
          }))
      else send_list_command_output path description flags.all flags.human
          (reply 150 "Here comes the directory listings" s)

  unfoldable pub list_with : ListFlags → Bool → Session World → Run (Session World)
  unfolding start_listing refuse_list
  list_with flags description s = elim (s.conn.data_bev) [
    | none ↦ ok (reply 425 "Cannot open data connection" s)
    | some _ ↦
        let path = list_path flags.path in
        if not (is_path_safe path) then ok (refuse_list 550 s) else elim (entries s.world path) [
          | none ↦ ok (refuse_list 550 s)
          | some _ ↦ start_listing flags path description s
        ]
  ]

  unfoldable pub handle_list_command : Command → Bool → Session World → Run (Session World)
  unfolding list_with refuse_list
  handle_list_command cmd description s = elim (parse_list_flags cmd) [
    | none ↦ ok (refuse_list 501 s)
    | some flags ↦ list_with flags description s
  ]

  -- `tls_on_bev_event_connected`
  unfoldable pub on_list_tls_connected : Session World → Run (Session World)
  on_list_tls_connected s =
      send_list_command_output s.conn.path s.conn.description s.conn.hidden s.conn.human s

  unfoldable pub close_on_listcb : Session World → Session World
  close_on_listcb s = reply 226 "Directory send OK" (record s {
    conn = record s.conn { control_write_cb = some close_data_connection_on_writecb };
  })
