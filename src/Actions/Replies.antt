-- ===== src/Actions/Replies.antt =====
-- The answers of the actions on the control connection.
pub mod Listing
pub mod Login
pub mod Transfer
use cftp_server.Base.{◌≡◌, refl, true, [], ◌∷◌, bytes, Bytes, arith, strncmp_eq}
use cftp_server.Decimal.{decimal, decimal_upto}
use cftp_server.Status.{ftp_status_codes, is_one_of, is_status}
use cftp_server.Command.{Command}
use cftp_server.Connection.{Session}
use cftp_server.Control.{reply, response_text, upgrade_to_tls}
use cftp_server.Control.Replies.{
  Said, is_reply, begins_with, send_control_message-Said, reply-Said, write_text_response-Said,
  send_text-Said,
}
use cftp_server.Data.{close_data_connection, reset_data}
use cftp_server.System.{System}
use cftp_server.Actions.Session.{
  cftp_auth_action, cftp_prot_action, cftp_feat_action, cftp_type_authenticated_action,
  cftp_abor_authenticated_action,
}
use cftp_server.Actions.Files.{
  cftp_size_authenticated_action, cftp_mdtm_authenticated_action, handle_mdtm_command,
  cftp_mkd_authenticated_action, cftp_rmd_authenticated_action, cftp_cwd_authenticated_action,
  handle_cwd_command, cftp_pwd_authenticated_action,
}

-- Every message of a session is a reply.
abbrev pub SaidIn : {W : Type 0} → Session W → Type 0
SaidIn s = Said s.conn.sent

-- The answers that are written as they stand.
missing_path : is_reply (bytes "550 Missing path.\r\n") ≡ true
unfolding is_reply begins_with ftp_status_codes decimal decimal_upto strncmp_eq bytes
missing_path = refl

not_a_directory : is_reply (bytes "550 Not a directory.\r\n") ≡ true
unfolding is_reply begins_with ftp_status_codes decimal decimal_upto strncmp_eq bytes
not_a_directory = refl

directory_changed : is_reply (bytes "250 Directory successfully changed.\r\n") ≡ true
unfolding is_reply begins_with ftp_status_codes decimal decimal_upto strncmp_eq bytes
directory_changed = refl

not_changed : is_reply (bytes "550 Failed to change directory.\r\n") ≡ true
unfolding is_reply begins_with ftp_status_codes decimal decimal_upto strncmp_eq bytes
not_changed = refl

module _ {W : Type 0} where
  pub auth-Said : (cmd : Command) (s : Session W) → SaidIn s → SaidIn (cftp_auth_action cmd s)
  unfolding cftp_auth_action upgrade_to_tls is_status is_one_of ftp_status_codes
  auth-Said cmd s said = grind (arith, reply-Said, send_control_message-Said)

  pub prot-Said : (cmd : Command) (s : Session W) → SaidIn s → SaidIn (cftp_prot_action cmd s)
  unfolding cftp_prot_action is_status is_one_of ftp_status_codes
  prot-Said cmd s said = grind (arith, reply-Said)

  pub type-Said :
      (cmd : Command) (s : Session W) → SaidIn s → SaidIn (cftp_type_authenticated_action cmd s)
  unfolding cftp_type_authenticated_action is_status is_one_of ftp_status_codes
  type-Said cmd s said = grind (arith, reply-Said)

  pub abor-Said : (s : Session W) → SaidIn s → SaidIn (cftp_abor_authenticated_action s)
  unfolding cftp_abor_authenticated_action is_status is_one_of ftp_status_codes
      close_data_connection reset_data
  abor-Said s said = grind (arith, reply-Said)

  pub feat-Said : (s : Session W) → SaidIn s → SaidIn (cftp_feat_action s)
  unfolding cftp_feat_action reply is_reply begins_with ftp_status_codes decimal decimal_upto
      strncmp_eq bytes response_text
  feat-Said s said = send_text-Said s.conn _ refl said

module _ (sys : System) where
  open sys use {World}

  pub size-Said :
      (cmd : Command) (s : Session World)
      → SaidIn s
      → SaidIn (cftp_size_authenticated_action sys cmd s)
  unfolding cftp_size_authenticated_action is_status is_one_of ftp_status_codes
  size-Said cmd s said = grind (arith, reply-Said, send_control_message-Said)

  pub mdtm-Said :
      (cmd : Command) (s : Session World)
      → SaidIn s
      → SaidIn (cftp_mdtm_authenticated_action sys cmd s)
  unfolding cftp_mdtm_authenticated_action handle_mdtm_command is_status is_one_of ftp_status_codes
  mdtm-Said cmd s said = grind (arith, reply-Said, send_control_message-Said)

  pub mkd-Said :
      (cmd : Command) (s : Session World)
      → SaidIn s
      → SaidIn (cftp_mkd_authenticated_action sys cmd s)
  unfolding cftp_mkd_authenticated_action is_status is_one_of ftp_status_codes
  mkd-Said cmd s said = grind (arith, reply-Said)

  pub rmd-Said :
      (cmd : Command) (s : Session World)
      → SaidIn s
      → SaidIn (cftp_rmd_authenticated_action sys cmd s)
  unfolding cftp_rmd_authenticated_action is_status is_one_of ftp_status_codes
  rmd-Said cmd s said = grind (arith, reply-Said)

  handle_cwd-Said :
      (path : Bytes) (s : Session World) → SaidIn s → SaidIn (handle_cwd_command sys path s)
  unfolding handle_cwd_command is_status is_one_of ftp_status_codes
  handle_cwd-Said [] s said = grind (arith, reply-Said, write_text_response-Said, missing_path)
  handle_cwd-Said (c ∷ path) s said =
      grind (
        arith, reply-Said, write_text_response-Said, not_a_directory, directory_changed,
        not_changed,
      )

  pub cwd-Said :
      (cmd : Command) (s : Session World)
      → SaidIn s
      → SaidIn (cftp_cwd_authenticated_action sys cmd s)
  unfolding cftp_cwd_authenticated_action is_status is_one_of ftp_status_codes
  cwd-Said cmd s said = grind (arith, reply-Said, handle_cwd-Said)

  pub pwd-Said : (s : Session World) → SaidIn s → SaidIn (cftp_pwd_authenticated_action sys s)
  unfolding cftp_pwd_authenticated_action is_status is_one_of ftp_status_codes
  pwd-Said s said = grind (arith, reply-Said, send_control_message-Said)
