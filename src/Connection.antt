-- ===== src/Connection.antt =====
-- `connection_t` of src/core/connection.h: what one process keeps for its client. A callback
-- pointer is a name of the function, and null is `none`. The fields that no function of the
-- repository reads (uid, gid, control_fd, control_active, description of descriptors) are left out.
use cftp_server.Base.{
  ℕ, ◌+◌, ◌==◌, Bool, true, false, Option, none, some, List, [], ◌∷◌, Bytes, if◌then◌else◌,
}
use cftp_server.Faults.{Run, ok, fault, use_after_free, null_pointer}

pub data TransferMode : Type 0 where
  ascii binary ebcdic : TransferMode

-- `control_write_cb`
pub data ControlCallback : Type 0 where
  close_data_connection_on_writecb disable_connection_cb : ControlCallback

-- The functions that the callbacks of the data connection point to.
pub data DataCallback : Type 0 where
  send_next_chunk download_completion close_on_retr close_on_list : DataCallback
  on_stor_read stor_eof stor_tls_connected list_tls_connected close_on_write : DataCallback

pub data TimerCallback : Type 0 where
  terminate_process_on_timeout kill_listener_on_timeout : TimerCallback

-- The channel that a control message is written to.
pub data Channel : Type 0 where
  plaintext tls : Channel

-- `file_stream_t`, without the buffer
pub record FileStream : Type 0 where
  pub fd : Option ℕ
  pub offset : ℕ
  pub filesize : ℕ

pub record Connection : Type 0 where
  pub username : Bytes
  pub transfer_mode : TransferMode
  pub control_write_cb : Option ControlCallback
  pub source_ip : Bytes
  pub authenticated : Bool
  pub error_buf : Bytes
  pub data_port : ℕ
  pub data_active : ℕ
  pub upgraded_to_tls : Bool
  pub data_tls_required : Bool
  pub data_read_cb : Option DataCallback
  pub data_write_cb : Option DataCallback
  pub data_tls_event_connected_cb : Option DataCallback
  pub data_eof_event_cb : Option DataCallback
  pub data_stream : Option FileStream
  pub path : Bytes
  pub description : Bool
  pub hidden : Bool
  pub human : Bool
  -- the bufferevent of the control connection
  pub bev : Option Channel
  -- what is left in the input of `interprocess_bev`
  pub interprocess_input : Bytes
  -- the port of the passive listener
  pub pasv_listener : Option ℕ
  -- the descriptor of the data connection's bufferevent
  pub data_bev : Option ℕ
  -- the low mark of its output: a write event comes when the output has at most so many bytes
  pub data_low_mark : ℕ
  pub upload_fd : Option ℕ
  -- the timer that `timeout_event` points to, and the timers that are allocated
  pub timeout_event : Option ℕ
  pub timers : List (ℕ × TimerCallback)
  pub next_timer : ℕ
  -- what was written to the control and to the data connection, the latest first
  pub sent : List (Channel × Bytes)
  pub data_sent : List Bytes
  -- `event_base_loopbreak` was called
  pub stopped : Bool

-- The session of one client: its connection and the operating system.
pub record Session (W : Type 0) : Type 0 where
  pub conn : Connection
  pub world : W

abbrev pub has_timer : ℕ → List (ℕ × TimerCallback) → Bool
has_timer t [] = false
has_timer t ((i, cb) ∷ ts) = if i == t then true else has_timer t ts

abbrev pub drop_timer : ℕ → List (ℕ × TimerCallback) → List (ℕ × TimerCallback)
drop_timer t [] = []
drop_timer t ((i, cb) ∷ ts) = if i == t then ts else (i, cb) ∷ drop_timer t ts

-- `connection->timeout_event = evtimer_new(...); evtimer_add(...)`
unfoldable pub start_timer : TimerCallback → Connection → Connection
start_timer cb c = record c {
  timeout_event = some c.next_timer;
  timers = (c.next_timer, cb) ∷ c.timers;
  next_timer = c.next_timer + 1;
}

-- `evtimer_del(connection->timeout_event); event_free(connection->timeout_event)`. The pointer
-- keeps its value.
unfoldable pub free_timer : Connection → Run Connection
free_timer c = elim (c.timeout_event) [
  | none ↦ fault null_pointer
  | some t ↦
      if has_timer t c.timers
      then ok (record c { timers = drop_timer t c.timers })
      else fault use_after_free
]
