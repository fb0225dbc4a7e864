-- ===== src/Process/Replies.antt =====
-- What the process of a client writes to its control connection, from its start.
use mathlib.Core.Path.{subst}
use cftp_server.Base.{ℕ, ◌≡◌, refl, Bool, true, Option, none, some, All}
use mathlib.Core.Option.{some-injective}
use cftp_server.Faults.{Run, ok, ok_injective, >>=-eq-ok}
use cftp_server.Status.{ftp_status_codes, is_one_of, is_status}
use cftp_server.Connection.{Connection, Session, start_timer}
use cftp_server.Control.Replies.{Said, is_reply, send_control_message-Said}
use cftp_server.Data.{PortRange}
use cftp_server.System.{System}
use cftp_server.Engine.{Registry, StartMemory, initialize_execution_engine}
use cftp_server.Events.Memory.{Lived}
use cftp_server.Events.Replies.{Lived-Said}
use cftp_server.Process.{SockAddr, accept_child, greet, start_control_connection_loop}

greet-Said : (addr : SockAddr) → Said (greet (accept_child addr)).sent
unfolding greet accept_child start_timer is_status is_one_of ftp_status_codes Said
greet-Said addr = send_control_message-Said _ 220 _ refl tt

start-Said :
    (mem : StartMemory) (addr : SockAddr) (r : Registry × Connection)
    → start_control_connection_loop mem true (accept_child addr) ≡ ok (some r)
    → Said r.1.sent
unfolding start_control_connection_loop
start-Said mem addr r run =
    let (made, built, rest) = >>=-eq-ok _ (initialize_execution_engine mem) run in
    by_registry made rest
  where
    by_registry :
        (made : Option Registry)
        → elim made as (λ _. Run (Option (Registry × Connection))) [
          | none ↦ ok none
          | some registry ↦ ok (some (registry, greet (accept_child addr)))
        ]
          ≡ ok (some r)
        → Said r.1.sent
    by_registry none e = absurd cc
    by_registry (some registry) e =
        subst (λ (x : Registry × Connection). Said x.1.sent) (some-injective _ _ (ok_injective e))
          (greet-Said addr)

-- From the start of the process of a client, with its bufferevent made, for any
-- client, on any system and after any events,
-- before and after the login, every message on the control connection is a reply of at most 255
-- bytes that begins with one of the status codes of the protocol and a blank or a dash.
pub start-only_replies :
    (sys : System) (mem : StartMemory) (malloc : ℕ → Bool) (fuel : ℕ) (range : PortRange)
    (addr : SockAddr) (w : sys.World) (r : Registry × Connection) (s : Session sys.World)
    → start_control_connection_loop mem true (accept_child addr) ≡ ok (some r)
    → Lived sys malloc fuel range r.0 (record { conn = r.1; world = w }) s
    → All (λ m. is_reply m.1 ≡ true) s.conn.sent
unfolding Said
start-only_replies sys mem malloc fuel range addr w r s run lived =
    Lived-Said sys malloc fuel range r.0 (start-Said mem addr r run) lived
