-- ===== src/Actions/Login.antt =====
-- USER and PASS of src/actions/command_actions.c, over src/security/auth.c.
pub mod Password
use cftp_server.Base.{
  ℕ, Bool, true, false, not, ◌&&◌, Option, none, some, List, [], ◌∷◌, ◌++◌, String, Bytes, bytes,
  snprintf, take, strncmp_eq, strcmp_eq, is_some, if◌then◌else◌,
}
use cftp_server.Faults.{Run, ok, fault, null_pointer, ◌>>=◌}
use cftp_server.Command.{Command}
use cftp_server.Connection.{Connection, Session, ControlCallback, disable_connection_cb, free_timer}
use cftp_server.Control.{reply}
use cftp_server.System.{System, Passwd}
use cftp_server.Actions.Session.{only_arg}

-- `strncpy(connection->username, username, 256)`
abbrev pub username_size : ℕ
username_size = 256

-- A message about a user, in a buffer of 256 bytes.
abbrev pub about_user : String → Bytes → String → Bytes
about_user before name after = snprintf 256 (bytes before ++ (name ++ bytes after))

module _ (sys : System) where
  open sys use {World, getpwnam, getspnam, crypt, chroot, chdir, setgid, setuid}

  -- A name that begins with "root" is refused before it is looked up.
  unfoldable pub user_exists : Bytes → Session World → Bool × Session World
  user_exists name s =
      if not (strncmp_eq 4 name (bytes "root")) && is_some (getpwnam s.world name)
      then (true, record s { conn = record s.conn { username = take username_size name } })
      else (false, s)

  user_with : Option Bytes → Session World → Session World
  user_with none s =
      reply 501 "Invalid syntax in parameters"
        (record s { conn = record s.conn { control_write_cb = some disable_connection_cb } })
  user_with (some name) s =
      let (found, s') = user_exists name s in
      if found then reply 331 "User name okay, need password" s' else reply 530 "User not found" s'

  unfoldable pub cftp_user_authenticated : Command → Session World → Session World
  unfolding user_with
  cftp_user_authenticated cmd s = user_with (only_arg cmd) s

  -- The result of `authenticate_and_switch_user`, with the error buffer and the system after it.
  pub record Login : Type 0 where
    pub success : Bool
    pub message : Bytes
    pub after : World

  unfoldable pub refuse : String → Bytes → String → World → Login
  refuse before name after w = record {
    success = false;
    message = about_user before name after;
    after = w;
  }

  -- The group, and if that is set, the user.
  unfoldable pub set_ids : Passwd → World → Bool × World
  set_ids pw w =
      let (group_set, w') = setgid w pw.pw_gid in
      if group_set then setuid w' pw.pw_uid else (false, w')

  -- The password is right: the jail, the working directory, and the identity.
  unfoldable pub switch_user : Bytes → Passwd → World → Login
  unfolding refuse set_ids
  switch_user name pw w =
      let (jailed, w₁) = chroot w pw.pw_dir in
      let (moved, w₂) = chdir w₁ (bytes "/") in
      let (switched, w₃) = set_ids pw w₂ in
      if not jailed
      then refuse "530 chroot failed for '" name "'\r\n" w₁
      else if not moved
      then refuse "530 chdir failed for '" name "'\r\n" w₂
      else if not switched
      then refuse "530 permission denied for '" name "'\r\n" w₃
      else record {
        success = true;
        message = about_user "230 User '" name "' authenticated successfully\r\n";
        after = w₃;
      }

  -- `crypt` returns a null pointer for a setting that it does not know, and `strcmp` reads it.
  unfoldable pub check_password : Bytes → Bytes → Bytes → Passwd → World → Run Login
  unfolding switch_user
  check_password name password stored pw w = elim (crypt password stored) [
    | none ↦ fault null_pointer
    | some encrypted ↦ ok (
        if strcmp_eq encrypted stored
        then switch_user name pw w
        else refuse "530 Incorrect password for user '" name "'\r\n" w)
  ]

  unfoldable pub authenticate_and_switch_user : Bytes → Bytes → World → Run Login
  unfolding check_password
  authenticate_and_switch_user name password w = elim (getpwnam w name) [
    | none ↦ ok (refuse "530 User '" name "' not found\r\n" w)
    | some pw ↦ elim (getspnam w name) [
      | none ↦ ok (refuse "530 User '" name "' not found\r\n" w)
      | some stored ↦ check_password name password stored pw w
    ]
  ]

  -- The session is marked, and the login timer freed.
  unfoldable pub admit : Session World → Run (Session World)
  admit s = do c ← free_timer (record s.conn { authenticated = true }); ok (record s { conn = c })

  unfoldable pub pass_result : Login → Session World → Run (Session World)
  unfolding admit
  pass_result login s =
      let s' : Session World = record {
        conn = record s.conn { error_buf = login.message };
        world = login.after;
      } in
      if login.success
      then admit (reply 230 "User logged in" s')
      else ok (reply 530 "Invalid credentials" s')

  unfoldable pub pass_with : Option Bytes → Session World → Run (Session World)
  unfolding pass_result
  pass_with none s = ok (
      reply 501 "Invalid syntax in parameters"
        (record s { conn = record s.conn { control_write_cb = some disable_connection_cb } }))
  pass_with (some password) s = do
    login ← authenticate_and_switch_user s.conn.username password s.world
    pass_result login s

  unfoldable pub cftp_pass_authenticated : Command → Session World → Run (Session World)
  unfolding pass_with
  cftp_pass_authenticated cmd s = pass_with (only_arg cmd) s
