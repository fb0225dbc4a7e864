-- ===== src/Events/Replies.antt =====
-- The control connection over the events of a process.
use cftp_server.Base.{
  ℕ, ◌+◌, Bool, true, false, ◌||◌, Option, none, some, [], ◌∷◌, Bytes, arith, take, if◌then◌else◌,
  leb, ◌==◌,
}
use cftp_server.Status.{ftp_status_codes, is_one_of, is_status}
use cftp_server.Faults.{Run, ok, Keeps-Gives, Gives, >>=-Gives, Gives-ok, option-Gives}
use cftp_server.Connection.{
  Connection, Session, DataCallback, terminate_process_on_timeout, kill_listener_on_timeout,
}
use cftp_server.Control.{disable_connection, terminate_process}
use cftp_server.Control.Replies.{Said, reply-Said, send_control_message-Said}
use cftp_server.Data.{
  PortRange, close_data_connection, reset_data, data_connection_accept_cb, kill_listener,
}
use cftp_server.System.{System}
use cftp_server.Actions.Replies.{SaidIn}
use cftp_server.Actions.Transfer.{
  on_download_completion, complete_download, write_input, on_stor_read_cb, on_eof_event_cb,
  on_stor_tls_connected,
}
use cftp_server.Actions.Listing.{close_on_listcb, on_list_tls_connected}
use cftp_server.Engine.{Registry}
use cftp_server.Engine.Replies.{execute_ftp_command-Said}
use cftp_server.Actions.Frame.{Anything, write_input-Keeps}
use cftp_server.Actions.Replies.Listing.{send_list_command_output-Said}
use cftp_server.Actions.Replies.Login.{free_timer-Said}
use cftp_server.Actions.Replies.Transfer.{next_chunk-Said}
use cftp_server.Events.{
  Event, session_step, control_read, control_written, control_event, data_accepted, data_read,
  data_written, data_event, timer, on_write, on_event, run_timer, run_control_callback, input_size,
  DataEvent, data_connection_event_cb, on_connected, run_if_set, run_data_callback,
}
use cftp_server.Events.Memory.{Lived, begun, next}

close-Said : (c : Connection) → Said c.sent → Said (close_data_connection c).sent
unfolding close_data_connection reset_data
close-Said c said = grind arith

on_write-Said : (c : Connection) → Said c.sent → Said (on_write c).sent
unfolding on_write run_control_callback disable_connection
on_write-Said c said = grind (arith, close-Said)

on_event-Said : (ended : Bool) (c : Connection) → Said c.sent → Said (on_event ended c).sent
unfolding on_event disable_connection
on_event-Said ended c said = grind arith

terminate_process-Said : (c : Connection) → Said c.sent → Said (terminate_process c).sent
unfolding terminate_process is_status is_one_of ftp_status_codes
terminate_process-Said c said = grind (arith, send_control_message-Said)

kill_listener-Said : (c : Connection) → Said c.sent → Said (kill_listener c).sent
unfolding kill_listener
kill_listener-Said c said = grind arith

accept-Said :
    (made : Bool) (ip : Bytes) (fd : ℕ) (c : Connection)
    → Said c.sent
    → Gives (λ d. Said d.sent) (data_connection_accept_cb made ip fd c)
unfolding data_connection_accept_cb
accept-Said made ip fd c said = grind (arith, free_timer-Said)

module _ (sys : System) where
  open sys use {World}

  on_stor_read-Said :
      (input : Bytes) (s : Session World) → SaidIn s → Gives SaidIn (on_stor_read_cb sys input s)
  unfolding on_stor_read_cb
  on_stor_read-Said [] s said = said
  on_stor_read-Said (b ∷ input) s said = option-Gives SaidIn s.conn.upload_fd _ _ tt (λ fd.
      >>=-Gives Anything SaidIn (write_input sys s.world fd (b ∷ input)) _
        (Keeps-Gives Anything _ (write_input-Keeps sys s.world fd (b ∷ input))) (λ w _. said))

  on_eof_event-Said :
      (input : Bytes) (s : Session World) → SaidIn s → Gives SaidIn (on_eof_event_cb sys input s)
  unfolding on_eof_event_cb is_status is_one_of ftp_status_codes
  on_eof_event-Said input s said = option-Gives SaidIn s.conn.data_bev _ _ said (λ bev.
      option-Gives SaidIn s.conn.upload_fd _ _ (grind (arith, reply-Said)) (λ fd.
        >>=-Gives Anything SaidIn (write_input sys s.world fd input) _
          (Keeps-Gives Anything _ (write_input-Keeps sys s.world fd input))
          (λ w _. grind (arith, reply-Said))))

  run_data_callback-Said :
      (cb : DataCallback) (drained : Bool) (input : Bytes) (s : Session World)
      → SaidIn s
      → Gives SaidIn (run_data_callback sys cb drained input s)
  unfolding run_data_callback is_status is_one_of ftp_status_codes
  run_data_callback-Said DataCallback.send_next_chunk drained input s said =
      next_chunk-Said sys s said
  run_data_callback-Said DataCallback.download_completion drained input s said =
      unfold on_download_completion complete_download in grind (arith, reply-Said)
  run_data_callback-Said DataCallback.close_on_retr drained input s said =
      unfold complete_download in grind (arith, reply-Said)
  run_data_callback-Said DataCallback.close_on_list drained input s said =
      unfold close_on_listcb in grind (arith, reply-Said)
  run_data_callback-Said DataCallback.on_stor_read drained input s said =
      on_stor_read-Said input s said
  run_data_callback-Said DataCallback.stor_eof drained input s said = on_eof_event-Said input s said
  run_data_callback-Said DataCallback.stor_tls_connected drained input s said =
      unfold on_stor_tls_connected in said
  run_data_callback-Said DataCallback.list_tls_connected drained input s said =
      unfold on_list_tls_connected in
      Keeps-Gives SaidIn _ (
        send_list_command_output-Said sys s.conn.path s.conn.description s.conn.hidden s.conn.human
          s said)
  run_data_callback-Said DataCallback.close_on_write drained input s said = close-Said s.conn said

  run_if_set-Said :
      (cb : Option DataCallback) (drained : Bool) (input : Bytes) (s : Session World)
      → SaidIn s
      → Gives SaidIn (run_if_set sys cb drained input s)
  unfolding run_if_set
  run_if_set-Said none drained input s said = said
  run_if_set-Said (some cb) drained input s said = run_data_callback-Said cb drained input s said

  if-Gives :
      (b : Bool) (x y : Run (Session World))
      → Gives SaidIn x
      → Gives SaidIn y
      → Gives SaidIn (if b then x else y)
  if-Gives true x y h k = h
  if-Gives false x y h k = k

  on_connected-Said :
      (input : Bytes) (s : Session World) → SaidIn s → Gives SaidIn (on_connected sys input s)
  unfolding on_connected
  on_connected-Said input s said =
      let s' : Session World = record s {
        conn = record s.conn { data_active = s.conn.data_active + 1 };
      } in
      if-Gives s.conn.data_tls_required _ _
        (run_if_set-Said s.conn.data_tls_event_connected_cb true input s' said) said

  last-Said :
      (ended : Bool) (s : Session World)
      → SaidIn s
      → SaidIn (if ended then record s { conn = close_data_connection s.conn } else s)
  last-Said true s said = close-Said s.conn said
  last-Said false s said = said

  data_connection_event_cb-Said :
      (e : DataEvent) (input : Bytes) (s : Session World)
      → SaidIn s
      → Gives SaidIn (data_connection_event_cb sys e input s)
  unfolding data_connection_event_cb
  data_connection_event_cb-Said e input s said =
      >>=-Gives SaidIn SaidIn (if e.connected then on_connected sys input s else ok s) _
        (if-Gives e.connected _ _ (on_connected-Said input s said) said)
        (λ s₁ said₁.
          >>=-Gives SaidIn SaidIn
            (if e.eof then run_if_set sys s₁.conn.data_eof_event_cb true input s₁ else ok s₁) _
            (if-Gives e.eof _ _ (run_if_set-Said s₁.conn.data_eof_event_cb true input s₁ said₁)
              said₁)
            (λ s₂ said₂. last-Said (e.eof || e.error || e.timeout) s₂ said₂))

  module _ (malloc : ℕ → Bool) (fuel : ℕ) (range : PortRange) (registry : Registry) where
    session_step-Said :
        (e : Event) (s : Session World)
        → SaidIn s
        → Gives SaidIn (session_step sys malloc fuel range registry e s)
    unfolding session_step run_timer
    session_step-Said (control_read input) s said =
        execute_ftp_command-Said sys malloc fuel range registry (take input_size input) s said
    session_step-Said control_written s said = on_write-Said s.conn said
    session_step-Said (control_event ended) s said = on_event-Said ended s.conn said
    session_step-Said (timer terminate_process_on_timeout) s said =
        terminate_process-Said s.conn said
    session_step-Said (timer kill_listener_on_timeout) s said = kill_listener-Said s.conn said
    session_step-Said (data_accepted made ip fd) s said =
        option-Gives SaidIn s.conn.pasv_listener _ _ said (λ port.
          >>=-Gives (λ d. Said d.sent) SaidIn (data_connection_accept_cb made ip fd s.conn) _
            (accept-Said made ip fd s.conn said) (λ c kept. kept))
    session_step-Said (data_read input) s said =
        option-Gives SaidIn s.conn.data_bev _ _ said
          (λ fd. run_if_set-Said s.conn.data_read_cb true input s said)
    session_step-Said (data_written queued) s said =
        option-Gives SaidIn s.conn.data_bev _ _ said (λ fd.
          if-Gives (leb queued s.conn.data_low_mark) _ _
            (run_if_set-Said s.conn.data_write_cb (queued == 0) [] s said) said)
    session_step-Said (data_event e input) s said =
        option-Gives SaidIn s.conn.data_bev _ _ said
          (λ fd. data_connection_event_cb-Said e input s said)

    -- An invariant of all runs.
    pub Lived-Said :
        {s s' : Session World} → SaidIn s → Lived sys malloc fuel range registry s s' → SaidIn s'
    Lived-Said said begun = said
    Lived-Said said (next before e h) =
        Gives-ok SaidIn _ (session_step-Said e _ (Lived-Said said before)) h
