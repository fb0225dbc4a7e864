-- ===== src/Engine/Frame.antt =====
-- What the commands leave alone: all but the login and the passive commands keep the timers.
use cftp_server.Base.{ℕ, ◌≡◌, inl, inr, Bool, true, false, [], ◌∷◌, Bytes, arith, Option-cases}
use cftp_server.Faults.{Keeps}
use cftp_server.Command.{Command}
use cftp_server.Connection.{Session}
use cftp_server.Control.{
  reply, write_text_response, send_control_message, bufferevent_write, upgrade_to_tls,
}
use cftp_server.Data.{PortRange, close_data_connection, reset_data}
use cftp_server.System.{System}
use cftp_server.Actions.Frame.{KeptFrom, handle_list_command-Keeps, handle_dele_command-Keeps}
use cftp_server.Actions.Session.{
  only_arg, cftp_syst_action, cftp_quit_action, cftp_auth_action, cftp_pbsz_action,
  cftp_prot_action, cftp_noop_action, cftp_feat_action, cftp_non_authenticated, cftp_authenticated,
  cftp_type_authenticated_action, cftp_abor_authenticated_action,
}
use cftp_server.Actions.Files.{
  cftp_size_authenticated_action, cftp_mdtm_authenticated_action, handle_mdtm_command,
  cftp_mkd_authenticated_action, cftp_rmd_authenticated_action, cftp_cwd_authenticated_action,
  handle_cwd_command, cftp_pwd_authenticated_action,
}
use cftp_server.Actions.Transfer.{
  cftp_retr_authenticated_action, cftp_send_file, ftp_send_file_with_evbuffer, ftp_send_file_plain,
  on_send_next_chunk, send_read, take_chunk, cftp_stor_authenticated_action,
  cftp_recv_file_with_evbuffer,
}
use cftp_server.Actions.Login.{cftp_user_authenticated, user_exists}
use cftp_server.Engine.{Action, run_action}

-- Every other action but the login leaves the timers alone.
abbrev pub is_frame : Action → Bool
is_frame Action.pass = false
is_frame Action.epsv = false
is_frame Action.pasv = false
is_frame _ = true

module _ (sys : System) where
  open sys use {World}

  mdtm-KeptFrom :
      (cmd : Command) (s : Session World)
      → KeptFrom sys s (cftp_mdtm_authenticated_action sys cmd s)
  unfolding cftp_mdtm_authenticated_action handle_mdtm_command reply send_control_message
      bufferevent_write
  mdtm-KeptFrom cmd s = ground arith

  handle_cwd-KeptFrom :
      (path : Bytes) (s : Session World) → KeptFrom sys s (handle_cwd_command sys path s)
  unfolding handle_cwd_command write_text_response reply send_control_message bufferevent_write
  handle_cwd-KeptFrom [] s = ground arith
  handle_cwd-KeptFrom (c ∷ path) s = ground arith

  cwd-KeptFrom :
      (cmd : Command) (s : Session World) → KeptFrom sys s (cftp_cwd_authenticated_action sys cmd s)
  unfolding cftp_cwd_authenticated_action reply send_control_message bufferevent_write
  cwd-KeptFrom cmd s = elim (Option-cases (only_arg cmd)) [
    | inl missing ↦ rw missing (ground arith)
    | inr (path, given) ↦ rw given (ground (arith, handle_cwd-KeptFrom path s))
  ]

  pub run_action-KeptFrom :
      (fuel : ℕ) (range : PortRange) (a : Action) (cmd : Command) (s : Session World)
      → is_frame a ≡ true
      → Keeps (KeptFrom sys s) (run_action sys fuel range a cmd s)
  unfolding run_action cftp_syst_action cftp_quit_action cftp_auth_action cftp_pbsz_action
      cftp_prot_action cftp_noop_action cftp_feat_action cftp_non_authenticated upgrade_to_tls reply
      send_control_message bufferevent_write
  run_action-KeptFrom fuel range Action.nlst cmd s f = handle_list_command-Keeps sys cmd false s
  run_action-KeptFrom fuel range Action.list cmd s f = handle_list_command-Keeps sys cmd true s
  run_action-KeptFrom fuel range Action.dele cmd s f = handle_dele_command-Keeps sys fuel cmd s
  run_action-KeptFrom fuel range Action.pass cmd s f = absurd cc
  run_action-KeptFrom fuel range Action.epsv cmd s f = absurd cc
  run_action-KeptFrom fuel range Action.pasv cmd s f = absurd cc
  run_action-KeptFrom fuel range Action.retr cmd s f =
      unfold cftp_retr_authenticated_action cftp_send_file ftp_send_file_with_evbuffer
        ftp_send_file_plain on_send_next_chunk send_read take_chunk in
      ground arith
  run_action-KeptFrom fuel range Action.syst cmd s f = ground arith
  run_action-KeptFrom fuel range Action.quit cmd s f = ground arith
  run_action-KeptFrom fuel range Action.auth cmd s f = ground arith
  run_action-KeptFrom fuel range Action.pbsz cmd s f = ground arith
  run_action-KeptFrom fuel range Action.prot cmd s f = ground arith
  run_action-KeptFrom fuel range Action.noop cmd s f = ground arith
  run_action-KeptFrom fuel range Action.feat cmd s f = ground arith
  run_action-KeptFrom fuel range Action.type cmd s f =
      unfold cftp_type_authenticated_action in ground arith
  run_action-KeptFrom fuel range Action.size cmd s f =
      unfold cftp_size_authenticated_action in ground arith
  run_action-KeptFrom fuel range Action.stor cmd s f =
      unfold cftp_stor_authenticated_action cftp_recv_file_with_evbuffer in ground arith
  run_action-KeptFrom fuel range Action.mdtm cmd s f = mdtm-KeptFrom cmd s
  run_action-KeptFrom fuel range Action.cwd cmd s f = cwd-KeptFrom cmd s
  run_action-KeptFrom fuel range Action.pwd cmd s f =
      unfold cftp_pwd_authenticated_action in ground arith
  run_action-KeptFrom fuel range Action.abor cmd s f =
      unfold cftp_abor_authenticated_action close_data_connection reset_data in ground arith
  run_action-KeptFrom fuel range Action.mkd cmd s f =
      unfold cftp_mkd_authenticated_action in ground arith
  run_action-KeptFrom fuel range Action.rmd cmd s f =
      unfold cftp_rmd_authenticated_action in ground arith
  run_action-KeptFrom fuel range Action.non_authenticated cmd s f = ground arith
  run_action-KeptFrom fuel range Action.authenticated cmd s f =
      unfold cftp_authenticated in ground arith
  run_action-KeptFrom fuel range Action.user cmd s f =
      unfold cftp_user_authenticated user_exists in ground arith
