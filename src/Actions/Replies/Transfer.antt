-- ===== src/Actions/Replies/Transfer.antt =====
-- The answers of RETR and STOR.
use cftp_server.Base.{arith}
use cftp_server.Status.{ftp_status_codes, is_one_of, is_status}
use cftp_server.Faults.{Gives}
use cftp_server.Command.{Command}
use cftp_server.Connection.{Session}
use cftp_server.Control.Replies.{reply-Said}
use cftp_server.System.{System}
use cftp_server.Actions.Replies.{SaidIn}
use cftp_server.Actions.Transfer.{
  cftp_retr_authenticated_action, cftp_send_file, ftp_send_file_with_evbuffer, ftp_send_file_plain,
  on_send_next_chunk, send_read, take_chunk, cftp_stor_authenticated_action,
  cftp_recv_file_with_evbuffer,
}

module _ (sys : System) where
  open sys use {World}

  pub next_chunk-Said : (s : Session World) → SaidIn s → Gives SaidIn (on_send_next_chunk sys s)
  unfolding on_send_next_chunk send_read take_chunk
  next_chunk-Said s said = grind arith

  pub retr-Said :
      (cmd : Command) (s : Session World)
      → SaidIn s
      → Gives SaidIn (cftp_retr_authenticated_action sys cmd s)
  unfolding cftp_retr_authenticated_action cftp_send_file ftp_send_file_with_evbuffer
      ftp_send_file_plain is_status is_one_of ftp_status_codes
  retr-Said cmd s said = grind (arith, reply-Said, next_chunk-Said)

  pub stor-Said :
      (cmd : Command) (s : Session World)
      → SaidIn s
      → SaidIn (cftp_stor_authenticated_action sys cmd s)
  unfolding cftp_stor_authenticated_action cftp_recv_file_with_evbuffer is_status is_one_of
      ftp_status_codes
  stor-Said cmd s said = grind (arith, reply-Said)
