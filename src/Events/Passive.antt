-- ===== src/Events/Passive.antt =====
-- EPSV and PASV with the client that then connects: from the command line to the data connection.
use cftp_server.Base.{ℕ, ◌≡◌, Bool, true, false, none, some, [], ◌++◌, Bytes, bytes}
use cftp_server.Faults.{Run}
use cftp_server.Command.Quoting.{render_args}
use cftp_server.Connection.{Connection, Session}
use cftp_server.Control.{send_control_message}
use cftp_server.Data.{PortRange, open_listener, passive_status, passive_response}
use cftp_server.Data.Ports.{IsFirst}
use cftp_server.System.{System}
use cftp_server.Engine.{Registry}
use cftp_server.Engine.Registry.{Answers}
use cftp_server.Events.{Event, session_step}

-- EPSV or PASV
abbrev pub passive_word : Bool → Bytes
passive_word true = bytes "EPSV"
passive_word false = bytes "PASV"

abbrev pub passive_line : Bool → Bytes
passive_line extended = passive_word extended ++ render_args []

module _ (sys : System) where
  open sys use {World, can_bind, getsockname}

  -- With a port to listen on, the listener is opened there.
  listening : Bool → ℕ → ℕ → Session World → Session World
  listening extended address port s = record s {
    conn = open_listener extended address (some port) (record s.conn { pasv_listener = none });
  }

  module _ (fuel : ℕ) (range : PortRange) (r : Registry) (answers : Answers r) where
    abbrev step : Event → Session World → Run (Session World)
    step = session_step sys (λ _. true) fuel range r

    -- What a client has after the line and the connection: the data connection is open, the port is
    -- the first of the range that was free, the timers and the system are as before, and the one
    -- answer told the port.
    pub record Opened (extended : Bool) (address fd : ℕ) (s s' : Session World) : Type 0 where
      pub port : ℕ
      pub first : IsFirst (can_bind s.world) range.start range.end (some port)
      pub opened : s'.conn.data_bev ≡ some fd
      pub closed : s'.conn.pasv_listener ≡ none
      pub timers : s'.conn.timers ≡ s.conn.timers
      pub login : s'.conn.authenticated ≡ true
      pub same_world : s'.world ≡ s.world
      pub told :
          s'.conn.sent
          ≡ (send_control_message s.conn
              (passive_status extended)
              (passive_response extended address port)).sent
