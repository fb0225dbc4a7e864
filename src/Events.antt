-- ===== src/Events.antt =====
-- What libevent calls in the process of a client: the events of the control connection
-- (src/engine/control_handler.c, `on_read` of src/core/connection.c), those of the data connection
-- (src/engine/data_handler.c), and the timers.
pub mod BeforeLogin
pub mod Closing
pub mod Memory
pub mod Replies
pub mod Login
pub mod Lines
pub mod Passive
pub mod Upload
pub mod Download
use cftp_server.Base.{
  ℕ, ◌+◌, Bool, true, false, ◌||◌, Option, none, some, List, [], ◌∷◌, Bytes, take, if◌then◌else◌,
  leb, ◌==◌,
}
use cftp_server.Faults.{Run, ok, fault, ◌>>=◌}
use cftp_server.Connection.{
  Connection, Session, ControlCallback, close_data_connection_on_writecb, disable_connection_cb,
  DataCallback, send_next_chunk, download_completion, close_on_retr, close_on_list, on_stor_read,
  stor_eof, stor_tls_connected, list_tls_connected, close_on_write, TimerCallback,
  terminate_process_on_timeout, kill_listener_on_timeout,
}
use cftp_server.Control.{disable_connection, terminate_process}
use cftp_server.System.{System}
use cftp_server.Data.{PortRange, close_data_connection, data_connection_accept_cb, kill_listener}
use cftp_server.Actions.Listing.{close_on_listcb, on_list_tls_connected}
use cftp_server.Actions.Transfer.{
  on_send_next_chunk, on_download_completion, complete_download, on_stor_read_cb, on_eof_event_cb,
  on_stor_tls_connected,
}
use cftp_server.Engine.{Registry, execute_ftp_command}

unfoldable pub run_control_callback : ControlCallback → Connection → Connection
run_control_callback close_data_connection_on_writecb c = close_data_connection c
run_control_callback disable_connection_cb c = disable_connection c

-- `on_write` of control_handler.c
unfoldable pub on_write : Connection → Connection
on_write c = record (elim (c.control_write_cb) [ none ↦ c | some cb ↦ run_control_callback cb c ]) {
  control_write_cb = none;
}

-- `on_event` of control_handler.c; the flag is BEV_EVENT_EOF or BEV_EVENT_ERROR without
-- BEV_EVENT_CONNECTED.
unfoldable pub on_event : Bool → Connection → Connection
on_event ended c = if ended then disable_connection c else c

unfoldable pub run_timer : TimerCallback → Connection → Connection
run_timer terminate_process_on_timeout c = terminate_process c
run_timer kill_listener_on_timeout c = kill_listener c

-- The flags of an event of the data connection.
pub record DataEvent : Type 0 where
  pub connected : Bool
  pub timeout : Bool
  pub error : Bool
  pub eof : Bool

-- `char input[1024]`, the last byte of which stays zero
abbrev pub input_size : ℕ
input_size = 1023

-- An event of the process. What a callback finds in its buffers comes with the event: the input
-- as bytes, and how many bytes are still in the output.
pub data Event : Type 0 where
  control_read : Bytes → Event
  control_written : Event
  control_event : Bool → Event
  data_accepted : Bool → Bytes → ℕ → Event
  data_read : Bytes → Event
  data_written : ℕ → Event
  data_event : DataEvent → Bytes → Event
  timer : TimerCallback → Event

module _ (sys : System) where
  open sys use {World}

  -- A call through a callback of the data connection.
  unfoldable pub run_data_callback :
      DataCallback → Bool → Bytes → Session World → Run (Session World)
  run_data_callback send_next_chunk drained input s = on_send_next_chunk sys s
  run_data_callback download_completion drained input s = ok (on_download_completion sys drained s)
  run_data_callback close_on_retr drained input s = ok (complete_download sys s)
  run_data_callback close_on_list drained input s = ok (close_on_listcb sys s)
  run_data_callback on_stor_read drained input s = on_stor_read_cb sys input s
  run_data_callback stor_eof drained input s = on_eof_event_cb sys input s
  run_data_callback stor_tls_connected drained input s = ok (on_stor_tls_connected sys s)
  run_data_callback list_tls_connected drained input s = on_list_tls_connected sys s
  run_data_callback close_on_write drained input s =
      ok (record s { conn = close_data_connection s.conn })

  unfoldable pub run_if_set :
      Option DataCallback → Bool → Bytes → Session World → Run (Session World)
  run_if_set none drained input s = ok s
  run_if_set (some cb) drained input s = run_data_callback cb drained input s

  -- BEV_EVENT_CONNECTED: the handshake of the data connection is done.
  unfoldable pub on_connected : Bytes → Session World → Run (Session World)
  unfolding run_if_set
  on_connected input s =
      let c = record s.conn { data_active = s.conn.data_active + 1 } in
      if c.data_tls_required
      then run_if_set c.data_tls_event_connected_cb true input (record s { conn = c })
      else ok (record s { conn = c })

  unfoldable pub data_connection_event_cb : DataEvent → Bytes → Session World → Run (Session World)
  unfolding on_connected run_if_set
  data_connection_event_cb e input s = do
    s₁ ← if e.connected then on_connected input s else ok s
    s₂ ← if e.eof then run_if_set s₁.conn.data_eof_event_cb true input s₁ else ok s₁
    ok (
        if e.eof || e.error || e.timeout
        then record s₂ { conn = close_data_connection s₂.conn }
        else s₂)

  module _ (malloc : ℕ → Bool) (fuel : ℕ) (range : PortRange) (registry : Registry) where
    -- One event. An event of the listener or of the data connection needs the object it is of, and
    -- a write event of the data connection comes only when the output is at its low mark or below.
    unfoldable pub session_step : Event → Session World → Run (Session World)
    session_step (control_read input) s =
        execute_ftp_command sys malloc fuel range registry (take input_size input) s
    session_step control_written s = ok (record s { conn = on_write s.conn })
    session_step (control_event ended) s = ok (record s { conn = on_event ended s.conn })
    session_step (timer cb) s = ok (record s { conn = run_timer cb s.conn })
    session_step (data_accepted made ip fd) s = elim (s.conn.pasv_listener) [
      | none ↦ ok s
      | some _ ↦ do c ← data_connection_accept_cb made ip fd s.conn; ok (record s { conn = c })
    ]
    session_step (data_read input) s = elim (s.conn.data_bev) [
      | none ↦ ok s
      | some _ ↦ run_if_set s.conn.data_read_cb true input s
    ]
    session_step (data_written queued) s = elim (s.conn.data_bev) [
      | none ↦ ok s
      | some _ ↦
          if leb queued s.conn.data_low_mark
          then run_if_set s.conn.data_write_cb (queued == 0) [] s
          else ok s
    ]
    session_step (data_event e input) s = elim (s.conn.data_bev) [
      | none ↦ ok s
      | some _ ↦ data_connection_event_cb e input s
    ]

    -- What `event_base_dispatch` runs in the process of a client: one callback after the other, for
    -- events that come before the loop is broken.
    unfoldable pub session_run : List Event → Session World → Run (Session World)
    session_run [] s = ok s
    session_run (e ∷ es) s = do s' ← session_step e s; session_run es s'
