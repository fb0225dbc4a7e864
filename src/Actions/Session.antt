-- ===== src/Actions/Session.antt =====
-- The actions of src/actions/command_actions.c that only answer or set a mode of the session.
use cftp_server.Base.{
  Bool, true, Option, none, some, List, [], ◌∷◌, Bytes, bytes, strncmp_eq, ◌==◌, if◌then◌else◌,
}
use cftp_server.Command.{Command}
use cftp_server.Connection.{Session, close_data_connection_on_writecb, ascii, binary}
use cftp_server.Control.{reply, upgrade_to_tls}
use cftp_server.Data.{close_data_connection}

-- `IF_MATCHES`: `strncmp` up to MAX_COMMAND_LENGTH
unfoldable pub matches : Bytes → Bytes → Bool
matches input expected = strncmp_eq 4096 input expected

-- The test `cmd->argc != 1` and `cmd->args[0]`.
abbrev pub only_arg : Command → Option Bytes
only_arg c = only c.args
  where
    only : List Bytes → Option Bytes
    only [] = none
    only (a ∷ []) = some a
    only (a ∷ b ∷ rest) = none

module _ {W : Type 0} where
  unfoldable pub cftp_syst_action : Session W → Session W
  cftp_syst_action s = reply 215 "UNIX Type: L8" s

  unfoldable pub cftp_quit_action : Session W → Session W
  cftp_quit_action s = reply 221 "Goodbye" s

  unfoldable pub auth_with : Option Bytes → Session W → Session W
  auth_with none s = reply 501 "File path not provided" s
  auth_with (some a) s =
      if matches a (bytes "TLS")
      then record s { conn = upgrade_to_tls s.conn }
      else reply 501 "Invalid parameter" s

  unfoldable pub cftp_auth_action : Command → Session W → Session W
  unfolding auth_with
  cftp_auth_action cmd s = auth_with (only_arg cmd) s

  unfoldable pub cftp_pbsz_action : Session W → Session W
  cftp_pbsz_action s = reply 200 "PBSZ=0" s

  unfoldable pub prot_with : Option Bytes → Session W → Session W
  prot_with none s = reply 501 "File path not provided" s
  prot_with (some a) s =
      if matches a (bytes "P")
      then reply 200 "PROT now Private"
          (record s { conn = record s.conn { data_tls_required = true } })
      else reply 502 "Unsupported PROT level" s

  unfoldable pub cftp_prot_action : Command → Session W → Session W
  unfolding prot_with
  cftp_prot_action cmd s = prot_with (only_arg cmd) s

  unfoldable pub cftp_noop_action : Session W → Session W
  cftp_noop_action s = reply 200 "NOOP command successful" s

  unfoldable pub cftp_feat_action : Session W → Session W
  cftp_feat_action s =
      reply 0 "211-Features:\r\n EPSV\r\n PASV\r\n AUTH\r\n SIZE\r\n MDTM\r\n MLSD\r\n211 End" s

  -- The text of the arguments is only logged.
  unfoldable pub cftp_invalid_action : Session W → Session W
  cftp_invalid_action s = reply 502 "Unknown command" s

  unfoldable pub cftp_non_authenticated : Session W → Session W
  cftp_non_authenticated s = reply 530 "Not logged in" s

  unfoldable pub cftp_authenticated : Session W → Session W
  cftp_authenticated s = reply 230 "Already logged in" s

  unfoldable pub type_with : Option Bytes → Session W → Session W
  type_with none s = reply 501 "File path not provided" s
  type_with (some a) s =
      if matches a (bytes "I")
      then reply 200 "Type set to I" (record s { conn = record s.conn { transfer_mode = binary } })
      else if matches a (bytes "A")
      then reply 200 "Type set to A" (record s { conn = record s.conn { transfer_mode = ascii } })
      else reply 504 "Unsupported type" s

  unfoldable pub cftp_type_authenticated_action : Command → Session W → Session W
  unfolding type_with
  cftp_type_authenticated_action cmd s = type_with (only_arg cmd) s

  unfoldable pub cftp_abor_authenticated_action : Session W → Session W
  cftp_abor_authenticated_action s =
      if s.conn.data_active == 0
      then reply 226 "No transfer in progress" (record s {
        conn = record s.conn { control_write_cb = some close_data_connection_on_writecb };
      })
      else reply 451 "closed data connection; tansfer aborted"
          (record s { conn = close_data_connection s.conn })
