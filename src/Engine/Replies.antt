-- ===== src/Engine/Replies.antt =====
-- The answers of a command line on the control connection.
use cftp_server.Base.{ℕ, refl, Bool, true, false, Option, none, some, Bytes, arith, if◌then◌else◌}
use cftp_server.Status.{ftp_status_codes, is_one_of, is_status}
use cftp_server.Faults.{Run, ok, fault, Keeps, >>=-Keeps, Gives, Keeps-Gives, >>=-Gives}
use cftp_server.Command.{Command, parse_text_command}
use cftp_server.Connection.{Connection, Session, start_timer}
use cftp_server.Control.Replies.{Said, reply-Said, send_control_message-Said}
use cftp_server.Data.{PortRange, data_connection_listener_config, open_listener, find_port}
use cftp_server.System.{System}
use cftp_server.Hashmap.{get_ptr_to_value_by_key}
use cftp_server.Actions.Frame.{Anything}
use cftp_server.Actions.Replies.{
  SaidIn, auth-Said, prot-Said, type-Said, abor-Said, feat-Said, size-Said, mdtm-Said, mkd-Said,
  rmd-Said, cwd-Said, pwd-Said,
}
use cftp_server.Actions.Session.{
  only_arg, cftp_syst_action, cftp_quit_action, cftp_pbsz_action, cftp_noop_action,
  cftp_non_authenticated, cftp_authenticated, cftp_invalid_action,
}
use cftp_server.Actions.Delete.{handle_dele_command, parse_dele_params}
use cftp_server.Actions.Login.{cftp_pass_authenticated}
use cftp_server.Engine.{
  Action, CommandCb, Registry, run_action, passive_action, dispatch, execute_ftp_command,
}
use cftp_server.Engine.Memory.{find_port-Keeps}
use cftp_server.Actions.Replies.Listing.{list-Said, dele_with-Said}
use cftp_server.Actions.Replies.Login.{pass_with-Said, user-Said}
use cftp_server.Actions.Replies.Transfer.{retr-Said, stor-Said}

anything : {A : Type 0} (r : Run A) → Gives Anything r
anything (ok a) = tt
anything (fault why) = tt

module _ (sys : System) where
  open sys use {World, can_bind, getsockname}

  open_listener-Said :
      (extended : Bool) (address : ℕ) (found : Option ℕ) (c : Connection)
      → Said c.sent
      → Said (open_listener extended address found c).sent
  unfolding open_listener start_timer is_status is_one_of ftp_status_codes
  open_listener-Said extended address none c said = send_control_message-Said c 425 _ refl said
  open_listener-Said true address (some port) c said = grind (arith, send_control_message-Said)
  open_listener-Said false address (some port) c said = grind (arith, send_control_message-Said)

  listener_config-Said :
      (fuel : ℕ) (range : PortRange) (can : ℕ → Bool) (address : Option ℕ) (extended : Bool)
      (c : Connection)
      → Said c.sent
      → Keeps (λ d. Said d.sent) (data_connection_listener_config fuel range can address extended c)
  unfolding data_connection_listener_config is_status is_one_of ftp_status_codes
  listener_config-Said fuel range can none extended c said =
      send_control_message-Said (record c { pasv_listener = none }) 425 _ refl said
  listener_config-Said fuel range can (some address) extended c said =
      >>=-Keeps Anything (λ d. Said d.sent) (find_port can fuel range.end range.start) _
        (find_port-Keeps sys can fuel range.end range.start)
        (λ found _.
          open_listener-Said extended address found (record c { pasv_listener = none }) said)

  pub passive_action-Said :
      (fuel : ℕ) (range : PortRange) (extended : Bool) (s : Session World)
      → SaidIn s
      → Keeps SaidIn (passive_action sys fuel range extended s)
  unfolding passive_action
  passive_action-Said fuel range extended s said =
      >>=-Keeps (λ d. Said d.sent) SaidIn
        (data_connection_listener_config fuel range (can_bind s.world) (getsockname s.world)
          extended s.conn)
        _
        (listener_config-Said fuel range (can_bind s.world) (getsockname s.world) extended s.conn
          said)
        (λ c said'. said')

  run_action-Said :
      (fuel : ℕ) (range : PortRange) (a : Action) (cmd : Command) (s : Session World)
      → SaidIn s
      → Gives SaidIn (run_action sys fuel range a cmd s)
  unfolding run_action cftp_syst_action cftp_quit_action cftp_pbsz_action cftp_noop_action
      cftp_non_authenticated cftp_authenticated cftp_pass_authenticated handle_dele_command
      is_status is_one_of ftp_status_codes
  run_action-Said fuel range Action.syst cmd s said = reply-Said 215 _ s refl said
  run_action-Said fuel range Action.quit cmd s said = reply-Said 221 _ s refl said
  run_action-Said fuel range Action.auth cmd s said = auth-Said cmd s said
  run_action-Said fuel range Action.pbsz cmd s said = reply-Said 200 _ s refl said
  run_action-Said fuel range Action.prot cmd s said = prot-Said cmd s said
  run_action-Said fuel range Action.noop cmd s said = reply-Said 200 _ s refl said
  run_action-Said fuel range Action.feat cmd s said = feat-Said s said
  run_action-Said fuel range Action.type cmd s said = type-Said cmd s said
  run_action-Said fuel range Action.epsv cmd s said =
      Keeps-Gives SaidIn _ (passive_action-Said fuel range true s said)
  run_action-Said fuel range Action.pasv cmd s said =
      Keeps-Gives SaidIn _ (passive_action-Said fuel range false s said)
  run_action-Said fuel range Action.nlst cmd s said =
      Keeps-Gives SaidIn _ (list-Said sys cmd false s said)
  run_action-Said fuel range Action.list cmd s said =
      Keeps-Gives SaidIn _ (list-Said sys cmd true s said)
  run_action-Said fuel range Action.size cmd s said = size-Said sys cmd s said
  run_action-Said fuel range Action.retr cmd s said = retr-Said sys cmd s said
  run_action-Said fuel range Action.stor cmd s said = stor-Said sys cmd s said
  run_action-Said fuel range Action.mdtm cmd s said = mdtm-Said sys cmd s said
  run_action-Said fuel range Action.cwd cmd s said = cwd-Said sys cmd s said
  run_action-Said fuel range Action.pwd cmd s said = pwd-Said sys s said
  run_action-Said fuel range Action.abor cmd s said = abor-Said s said
  run_action-Said fuel range Action.mkd cmd s said = mkd-Said sys cmd s said
  run_action-Said fuel range Action.rmd cmd s said = rmd-Said sys cmd s said
  run_action-Said fuel range Action.dele cmd s said =
      Keeps-Gives SaidIn _ (dele_with-Said sys fuel (parse_dele_params cmd) s said)
  run_action-Said fuel range Action.non_authenticated cmd s said = reply-Said 530 _ s refl said
  run_action-Said fuel range Action.authenticated cmd s said = reply-Said 230 _ s refl said
  run_action-Said fuel range Action.user cmd s said = user-Said sys cmd s said
  run_action-Said fuel range Action.pass cmd s said = pass_with-Said sys (only_arg cmd) s said

  dispatch-Said :
      (fuel : ℕ) (range : PortRange) (found : Option CommandCb) (cmd : Command) (s : Session World)
      → SaidIn s
      → Gives SaidIn (dispatch sys fuel range found cmd s)
  unfolding dispatch cftp_invalid_action is_status is_one_of ftp_status_codes
  dispatch-Said fuel range none cmd s said = reply-Said 502 _ s refl said
  dispatch-Said fuel range (some cb) cmd s said =
      run_action-Said fuel range
        (if s.conn.authenticated then cb.authenticated_cb else cb.non_authenticated_cb) cmd s said

  -- Whatever the registry, a command line is answered by replies only.
  pub execute_ftp_command-Said :
      (malloc : ℕ → Bool) (fuel : ℕ) (range : PortRange) (r : Registry) (input : Bytes)
      (s : Session World)
      → SaidIn s
      → Gives SaidIn (execute_ftp_command sys malloc fuel range r input s)
  unfolding execute_ftp_command
  execute_ftp_command-Said malloc fuel range r input s said =
      let cmd = parse_text_command malloc input in
      >>=-Gives Anything SaidIn (get_ptr_to_value_by_key r (some cmd.command)) _
        (anything (get_ptr_to_value_by_key r (some cmd.command)))
        (λ found _. dispatch-Said fuel range found cmd s said)
