-- ===== src/Process.antt =====
-- The process of one client from its start: the child's part of `control_connection_accept_cb` in
-- src/core/connection.c, and `start_control_connection_loop` of src/engine/control_handler.c.
pub mod Start
pub mod Memory
pub mod Replies
use cftp_server.Base.{
  ℕ, Bool, true, false, Option, none, some, List, [], ◌∷◌, Bytes, bytes, if◌then◌else◌,
}
use cftp_server.Faults.{Run, ok, ◌>>=◌}
use cftp_server.Connection.{Connection, ascii, plaintext, terminate_process_on_timeout, start_timer}
use cftp_server.Control.{send_control_message}
use cftp_server.Engine.{Registry, StartMemory, initialize_execution_engine}

-- The address of a client with the text that `inet_ntop` gives for it.
pub data SockAddr : Type 0 where
  inet inet6 : Bytes → SockAddr
  other_family : SockAddr

-- The text is left as it is for another family.
unfoldable pub fill_source_ip : SockAddr → Bytes → Bytes
fill_source_ip (inet text) ip_str = text
fill_source_ip (inet6 text) ip_str = text
fill_source_ip other_family ip_str = ip_str

-- `calloc(1, sizeof(connection_t))`: descriptors are 0, pointers are null.
abbrev pub calloc_connection : Connection
calloc_connection = record {
  username = [];
  transfer_mode = ascii;
  control_write_cb = none;
  source_ip = [];
  authenticated = false;
  error_buf = [];
  data_port = 0;
  data_active = 0;
  upgraded_to_tls = false;
  data_tls_required = false;
  data_read_cb = none;
  data_write_cb = none;
  data_tls_event_connected_cb = none;
  data_eof_event_cb = none;
  data_stream = none;
  path = [];
  description = false;
  hidden = false;
  human = false;
  bev = none;
  pasv_listener = none;
  data_bev = none;
  data_low_mark = 0;
  upload_fd = some 0;
  timeout_event = none;
  timers = [];
  next_timer = 0;
  sent = [];
  data_sent = [];
  interprocess_input = [];
  stopped = false;
}

unfoldable pub accept_child : SockAddr → Connection
accept_child addr = record calloc_connection {
  source_ip = fill_source_ip addr calloc_connection.source_ip;
}

-- The bufferevent, the timer of the login and the greeting.
unfoldable pub greet : Connection → Connection
greet c =
    send_control_message
      (start_timer terminate_process_on_timeout (record c { bev = some plaintext })) 220
      (bytes "Welcome to CFTP Server")

-- Up to the start of the event loop. `made` says whether the bufferevent is made; without it the
-- function returns before anything is registered. A process that ends in the registration is `none`.
unfoldable pub start_control_connection_loop :
    StartMemory → Bool → Connection → Run (Option (Registry × Connection))
start_control_connection_loop mem false c = ok (some (none, c))
start_control_connection_loop mem true c = do
  started ← initialize_execution_engine mem
  elim started [ none ↦ ok none | some registry ↦ ok (some (registry, greet c)) ]
