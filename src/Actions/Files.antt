-- ===== src/Actions/Files.antt =====
-- The actions of src/actions/command_actions.c on files and directories: SIZE, MDTM, MKD, RMD,
-- CWD and PWD.
use cftp_server.Base.{
  ℕ, ◌+◌, Bool, true, false, not, Option, none, some, [], ◌∷◌, ◌++◌, Bytes, bytes, snprintf, length,
  ◌==◌, if◌then◌else◌,
}
use cftp_server.Decimal.{decimal}
use cftp_server.Command.{Command}
use cftp_server.Connection.{Session}
use cftp_server.Control.{send_control_message, write_text_response, reply}
use cftp_server.Security.{is_path_safe}
use cftp_server.System.{System, Stat}
use cftp_server.Actions.Session.{only_arg}

-- PATH_MAX
abbrev pub path_max : ℕ
path_max = 4096

abbrev pub is_directory : Option Stat → Bool
is_directory none = false
is_directory (some st) = st.is_dir

abbrev pub exists : Option Stat → Bool
exists none = false
exists (some st) = true

abbrev pub say : {W : Type 0} → ℕ → Bytes → Session W → Session W
say status text s = record s { conn = send_control_message s.conn status text }

abbrev pub write_text : {W : Type 0} → Bytes → Session W → Session W
write_text text s = record s { conn = write_text_response s.conn text }

module _ (sys : System) where
  open sys use {World, stat, chdir, mkdir, rmdir, getcwd, gmtime_text}

  -- A file that exists and is no directory.
  abbrev regular : Option Stat → Option Stat
  regular none = none
  regular (some st) = if st.is_dir then none else some st

  answer_size : Option Stat → Session World → Session World
  answer_size none s = reply 550 "File not found" s
  answer_size (some st) s = say 213 (snprintf 4096 (decimal st.size)) s

  size_with : Option Bytes → Session World → Session World
  unfolding answer_size
  size_with none s = reply 501 "File path not provided" s
  size_with (some path) s =
      if not (is_path_safe path)
      then reply 550 "Invalid path" s
      else answer_size (regular (stat s.world path)) s

  unfoldable pub cftp_size_authenticated_action : Command → Session World → Session World
  unfolding size_with
  cftp_size_authenticated_action cmd s = size_with (only_arg cmd) s

  -- `handle_mdtm_command`; `buf` has 64 bytes
  unfoldable pub handle_mdtm_command : Option Stat → Session World → Session World
  handle_mdtm_command none s = reply 550 "Failed to get modification time" s
  handle_mdtm_command (some st) s = say 213 (snprintf 64 (gmtime_text st.mtime)) s

  mdtm_with : Option Bytes → Session World → Session World
  unfolding handle_mdtm_command
  mdtm_with none s = reply 501 "Invalid syntax in parameters" s
  mdtm_with (some path) s = handle_mdtm_command (regular (stat s.world path)) s

  unfoldable pub cftp_mdtm_authenticated_action : Command → Session World → Session World
  unfolding mdtm_with
  cftp_mdtm_authenticated_action cmd s = mdtm_with (only_arg cmd) s

  mkd_with : Option Bytes → Session World → Session World
  mkd_with none s = reply 501 "Invalid syntax in parameters" s
  mkd_with (some path) s =
      if not (is_path_safe path)
      then reply 553 "File name not allowed" s
      else if exists (stat s.world path)
      then reply 550 "Directory already exists" s
      else let (done, world') = mkdir s.world path in
        let s' : Session World = record s { world = world' } in
        if done
        then reply 257 "Make directory successful" s'
        else reply 550 "Failed to create directory." s'

  unfoldable pub cftp_mkd_authenticated_action : Command → Session World → Session World
  unfolding mkd_with
  cftp_mkd_authenticated_action cmd s = mkd_with (only_arg cmd) s

  rmd_with : Option Bytes → Session World → Session World
  rmd_with none s = reply 501 "Invalid syntax in parameters" s
  rmd_with (some path) s =
      if not (is_path_safe path)
      then reply 553 "File name not allowed" s
      else if not (is_directory (stat s.world path))
      then reply 550 "Directory not found" s
      else let (done, world') = rmdir s.world path in
        let s' : Session World = record s { world = world' } in
        if done
        then reply 250 "Remove directory successful" s'
        else reply 550 "Failed to remove directory. Ensure it's empty." s'

  unfoldable pub cftp_rmd_authenticated_action : Command → Session World → Session World
  unfolding rmd_with
  cftp_rmd_authenticated_action cmd s = rmd_with (only_arg cmd) s

  -- The path is copied to a buffer of PATH_MAX bytes before it is used.
  unfoldable pub handle_cwd_command : Bytes → Session World → Session World
  handle_cwd_command [] s = write_text (bytes "550 Missing path.\r\n") s
  handle_cwd_command (c ∷ cs) s =
      let target = snprintf path_max (c ∷ cs) in
      if not (is_path_safe (c ∷ cs))
      then reply 550 "Invalid path" s
      else if not (is_directory (stat s.world target))
      then write_text (bytes "550 Not a directory.\r\n") s
      else let (done, world') = chdir s.world target in
        let s' : Session World = record s { world = world' } in
        if done
        then write_text (bytes "250 Directory successfully changed.\r\n") s'
        else write_text (bytes "550 Failed to change directory.\r\n") s'

  cwd_with : Option Bytes → Session World → Session World
  unfolding handle_cwd_command
  cwd_with none s = reply 501 "Invalid syntax in parameters" s
  cwd_with (some path) s =
      if length path == 0 then reply 501 "Path not provided" s else handle_cwd_command path s

  unfoldable pub cftp_cwd_authenticated_action : Command → Session World → Session World
  unfolding cwd_with
  cftp_cwd_authenticated_action cmd s = cwd_with (only_arg cmd) s

  pwd_with : Option Bytes → Session World → Session World
  pwd_with none s = reply 550 "Failed to get current directory" s
  pwd_with (some cwd) s =
      say 257 (snprintf (path_max + 32) (34 ∷ (cwd ++ bytes "\" is current directory"))) s

  unfoldable pub cftp_pwd_authenticated_action : Session World → Session World
  unfolding pwd_with
  cftp_pwd_authenticated_action s = pwd_with (getcwd s.world) s
