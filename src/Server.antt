-- ===== src/Server.antt =====
-- The parent process: the port range of src/core/server_state.c, the limit on connections of
-- `control_connection_accept_cb` in src/core/connection.c, and the count of connections that
-- src/ipc/interprocess_handler.c keeps.
pub mod Limit
pub mod Start
pub mod Main
pub mod Family
pub mod Reaping
pub mod Inheritance
pub mod KillSwitch
use cftp_server.Base.{
  ℕ, ◌+◌, ◌-◌, ◌%◌, ◌^◌, Bool, true, false, not, ◌||◌, List, [], ◌∷◌, Bytes, snprintf, ltb, leb,
  if◌then◌else◌,
}
use cftp_server.Config.{Configurations}
use cftp_server.Data.{PortRange}

-- `connections_init_pasv_range`; the ends are stored as `uint16_t`.
unfoldable pub connections_init_pasv_range : ℕ → ℕ → PortRange
connections_init_pasv_range first last =
    let low = if ltb last first then last else first in
    let high = if ltb last first then first else last in
    let start = if ltb low 1 then 1 else low in
    let end = if ltb 65535 high then 65535 else high in
    record { start = start % 2 ^ 16; end = end % 2 ^ 16; count = end - start + 1 }

pub record ServerState : Type 0 where
  pub config : Configurations
  pub pasv_range : PortRange
  pub current_connections : ℕ
  pub server_version : Bytes

-- What `init_server_state` stores.
unfoldable pub initial_state : Bytes → Configurations → ServerState
initial_state version config = record {
  config = config;
  pasv_range = connections_init_pasv_range config.passive_port_start config.passive_port_end;
  current_connections = 0;
  server_version = snprintf 64 version;
}

-- `register_interprocess_fd_on_server`: the count is a `uint32_t`.
unfoldable pub register_on_server : Bool → ServerState → ServerState
register_on_server made s =
    if made then record s { current_connections = (s.current_connections + 1) % 2 ^ 32 } else s

-- `control_connection_accept_cb` in the parent. The flags say whether the socket pair and the
-- bufferevent of the pair are made; the result says whether a process was started.
unfoldable pub control_connection_accept_cb : Bool → Bool → ServerState → Bool × ServerState
control_connection_accept_cb paired made s =
    if leb s.config.max_connections s.current_connections || not paired
    then (false, s)
    else (true, register_on_server made s)

-- `event_cb` of the bufferevent to a child, at its end or at an error. It is registered with a
-- null context in the parent, and returns at once for that; otherwise it adds to the count.
unfoldable pub event_cb : Bool → Bool → ServerState → ServerState
event_cb context ended s =
    if not context
    then s
    else if ended
    then record s { current_connections = (s.current_connections + 1) % 2 ^ 32 }
    else s

-- What happens at the parent process: a client connects, or the pair to a child is closed.
pub data ServerEvent : Type 0 where
  connect : Bool → Bool → ServerEvent
  child_gone : ServerEvent

unfoldable pub server_step : ServerEvent → ServerState → Bool × ServerState
server_step (connect paired made) s = control_connection_accept_cb paired made s
server_step child_gone s = (false, event_cb false true s)

abbrev pub one_if : Bool → ℕ
one_if true = 1
one_if false = 0

-- How many clients a run of events lets in, and the state after it.
unfoldable pub server_run : List ServerEvent → ServerState → ℕ × ServerState
server_run [] s = (0, s)
server_run (e ∷ es) s =
    let (entered, s') = server_step e s in
    let (more, s'') = server_run es s' in (one_if entered + more, s'')
