-- ===== src/Server/Limit.antt =====
-- The limit on connections over the life of a server, and the state that it starts in.
use cftp_server.Base.{◌+◌, ◌^◌, ◌≤◌, ◌<◌, ◌≡◌, ap, true, List, [], ◌∷◌, Option, Bytes, arith}
use cftp_server.Config.{Configurations, read_configurations}
use cftp_server.Config.Sane.{read_configurations-IsSane}
use cftp_server.Server.{
  ServerState, ServerEvent, connect, child_gone, server_step, server_run, one_if, event_cb,
  control_connection_accept_cb, register_on_server, initial_state, connections_init_pasv_range,
}

-- Every bufferevent to a child is made.
abbrev pub AllMade : List ServerEvent → Type 0
AllMade [] = Unit
AllMade (connect paired made ∷ es) = (made ≡ true) × AllMade es
AllMade (child_gone ∷ es) = AllMade es

abbrev IsWithin : ServerState → Type 0
IsWithin s =
    (s.current_connections ≤ s.config.max_connections) × (s.config.max_connections < 2 ^ 32)

server_step-count :
    (e : ServerEvent) (s : ServerState)
    → IsWithin s
    → AllMade (e ∷ [])
    → (IsWithin (server_step e s).1)
      × ((server_step e s).1.config ≡ s.config)
      × ((server_step e s).1.current_connections
          ≡ s.current_connections + one_if (server_step e s).0)
unfolding server_step control_connection_accept_cb register_on_server event_cb
server_step-count (connect paired made) s w all = ground arith
server_step-count child_gone s w all = ground arith

-- Over any run of connections and ended children, with every bufferevent made, the count at the
-- end is the count at the start and all the clients let in: so a server lets in at most as many
-- clients in its whole life as it may have at one time.
pub server_run-total :
    (es : List ServerEvent) (s : ServerState)
    → s.current_connections ≤ s.config.max_connections
    → s.config.max_connections < 2 ^ 32
    → AllMade es
    → ((server_run es s).1.current_connections ≡ s.current_connections + (server_run es s).0)
      × (s.current_connections + (server_run es s).0 ≤ s.config.max_connections)
unfolding server_run
server_run-total [] s w small all = omega arith
server_run-total (connect paired made ∷ es) s w small all =
    let (within, same, count) = server_step-count (connect paired made) s (w, small) (all.0, tt) in
    let later =
      server_run-total es (server_step (connect paired made) s).1 within.0 within.1 all.1 in
    omega (arith, ap (λ (c : Configurations). c.max_connections) same)
server_run-total (child_gone ∷ es) s w small all =
    let (within, same, count) = server_step-count child_gone s (w, small) tt in
    let later = server_run-total es (server_step child_gone s).1 within.0 within.1 all in
    omega (arith, ap (λ (c : Configurations). c.max_connections) same)

-- The server starts with the limit of its configuration, which is positive and below 2 ^ 31, and
-- with a range of passive ports in order: whatever the file says, its first port is at least 1024,
-- its last at most 65535, and the count is their number.
pub initial_state-range :
    (version : Bytes) (file : Option Bytes)
    → let s = initial_state version (read_configurations file) in
      (s.current_connections < s.config.max_connections)
      × (s.config.max_connections < 2 ^ 32)
      × (1024 ≤ s.pasv_range.start)
      × (s.pasv_range.start ≤ s.pasv_range.end)
      × (s.pasv_range.end ≤ 65535)
      × (s.pasv_range.count + s.pasv_range.start ≡ s.pasv_range.end + 1)
unfolding initial_state connections_init_pasv_range
initial_state-range version file =
    let (r, ordered) = read_configurations-IsSane file in ground arith
