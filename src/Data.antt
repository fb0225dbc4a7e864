-- ===== src/Data.antt =====
-- src/engine/data_handler.c: the passive listener, the data connection and its end.
pub mod Ports
pub mod Timers
pub mod Source
use cftp_server.Base.{
  ℕ, zero, suc, ◌+◌, ◌/◌, ◌%◌, ◌^◌, Bool, true, false, not, Option, none, some, List, [], ◌∷◌, ◌++◌,
  Bytes, bytes, snprintf, strncmp_eq, leb, ◌==◌, if◌then◌else◌,
}
use cftp_server.Decimal.{decimal}
use cftp_server.Faults.{Run, ok, fault, out_of_fuel, ◌>>=◌}
use cftp_server.System.{System}
use cftp_server.Connection.{
  Connection, Session, DataCallback, TimerCallback, kill_listener_on_timeout, start_timer,
  free_timer,
}
use cftp_server.Control.{send_control_message, reply}

-- `pasv_port_range_t` of src/core/server_state.h; the ports are `uint16_t`.
pub record PortRange : Type 0 where
  pub start : ℕ
  pub end : ℕ
  pub count : ℕ

-- The fields that both ways out of `close_data_connection` reset.
unfoldable pub reset_data : Connection → Connection
reset_data c = record c {
  data_bev = none;
  data_tls_event_connected_cb = none;
  data_eof_event_cb = none;
  data_read_cb = none;
  data_write_cb = none;
  data_active = 0;
  upload_fd = none;
}

unfoldable pub close_data_connection : Connection → Connection
unfolding reset_data
close_data_connection c = elim (c.data_bev) [
  | none ↦ reset_data c
  | some fd ↦ record (reset_data c) { data_stream = none }
]

-- `sizeof(INET6_ADDRSTRLEN)` is the size of an `int`.
abbrev pub compared_length : ℕ
compared_length = 4

-- A client has connected to the passive listener, from the address `ip` and on the descriptor
-- `fd`. `made` says whether the bufferevent is made.
unfoldable pub data_connection_accept_cb : Bool → Bytes → ℕ → Connection → Run Connection
data_connection_accept_cb made ip fd c =
    if not (strncmp_eq compared_length c.source_ip ip)
    then ok c
    else (if made
        then free_timer (record c {
          data_active = if c.data_tls_required then 0 else 1;
          pasv_listener = none;
          data_bev = some fd;
          data_low_mark = 0;
        })
        else ok (record c { data_active = 0; pasv_listener = none; data_bev = none }))

-- The loop over the ports of the range: the first port that can be bound. The counter is a
-- `uint16_t`.
unfoldable pub find_port : (ℕ → Bool) → ℕ → ℕ → ℕ → Run (Option ℕ)
find_port can_bind zero end port = fault out_of_fuel
find_port can_bind (suc fuel) end port =
    let later = find_port can_bind fuel end ((port + 1) % 2 ^ 16) in
    if leb port end then (if can_bind port then ok (some port) else later) else ok none

-- The answer to EPSV and to PASV.
unfoldable pub passive_response : Bool → ℕ → ℕ → Bytes
passive_response true address port =
    snprintf 256 (bytes "Entering Extended Passive Mode (|||" ++ decimal port ++ bytes "|)")
passive_response false address port =
    let comma = bytes "," in
    snprintf 256 (
      bytes "Entering Passive Mode. "
      ++ decimal (address / 2 ^ 24 % 256)
      ++ comma
      ++ decimal (address / 2 ^ 16 % 256)
      ++ comma
      ++ decimal (address / 2 ^ 8 % 256)
      ++ comma
      ++ decimal (address % 256)
      ++ comma
      ++ decimal (port / 256)
      ++ comma
      ++ decimal (port % 256))

abbrev pub passive_status : Bool → ℕ
passive_status true = 229
passive_status false = 227

-- What follows the search for a port. The port that was tried last stays in `data_port`, which
-- nothing reads; the model writes it where a port was found.
unfoldable pub open_listener : Bool → ℕ → Option ℕ → Connection → Connection
open_listener extended address none c =
    send_control_message c 425 (bytes "Can't open passive connection")
open_listener extended address (some port) c =
    send_control_message
      (start_timer kill_listener_on_timeout
        (record c { pasv_listener = some port; data_port = port }))
      (passive_status extended) (passive_response extended address port)

unfoldable pub data_connection_listener_config :
    ℕ → PortRange → (ℕ → Bool) → Option ℕ → Bool → Connection → Run Connection
unfolding open_listener
data_connection_listener_config fuel range can_bind none extended c = ok (
    send_control_message (record c { pasv_listener = none }) 425
      (bytes "Can't open passive connection"))
data_connection_listener_config fuel range can_bind (some address) extended c = do
  found ← find_port can_bind fuel range.end range.start
  ok (open_listener extended address found (record c { pasv_listener = none }))

-- A timer for the listener has fired.
unfoldable pub kill_listener : Connection → Connection
kill_listener c = elim (c.pasv_listener) [
  | none ↦ c
  | some port ↦ record c { pasv_listener = none }
]
