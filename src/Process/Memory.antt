-- ===== src/Process/Memory.antt =====
-- Freed timers in the process of a client.
use cftp_server.Base.{ℕ, ◌≡◌, ◌≢◌, refl, Bool, true, some}
use cftp_server.Faults.{ok, fault, use_after_free, Keeps-use_after_free}
use cftp_server.Connection.{Connection, Session}
use cftp_server.Data.{PortRange}
use cftp_server.System.{System}
use cftp_server.Engine.{Registry, StartMemory}
use cftp_server.Engine.Memory.{Live, TimersSafe, Safe}
use cftp_server.Events.{Event, session_step}
use cftp_server.Events.Memory.{Lived, Lived-Safe, session_step-Keeps}
use cftp_server.Process.{SockAddr, accept_child, start_control_connection_loop}
use cftp_server.Process.Start.{Started, begins-Started}

Started-TimersSafe : (r : Registry × Connection) → Started r → TimersSafe r.1
Started-TimersSafe r started =
    let live : Live r.1 = (0, started.armed, rw started.timer refl) in
    record {
      login = λ out. live;
      waiting = λ p open'. live;
      closed = λ out. started.quiet.listener;
    }

-- From the start of the process of a client, with its bufferevent made, for any
-- client and on any system, after any events,
-- before and after the login, no event reads or frees a timer that was freed before.
pub start-never_use_after_free :
    (sys : System) (mem : StartMemory) (malloc : ℕ → Bool) (fuel : ℕ) (range : PortRange)
    (addr : SockAddr) (w : sys.World) (r : Registry × Connection) (s : Session sys.World)
    → start_control_connection_loop mem true (accept_child addr) ≡ ok (some r)
    → Lived sys malloc fuel range r.0 (record { conn = r.1; world = w }) s
    → (e : Event) → session_step sys malloc fuel range r.0 e s ≢ fault use_after_free
start-never_use_after_free sys mem malloc fuel range addr w r s run lived e =
    let started = begins-Started mem addr r run in
    Keeps-use_after_free (Safe sys) (session_step sys malloc fuel range r.0 e s) (
      session_step-Keeps sys malloc fuel range r.0 started.answers e s
        (Lived-Safe sys malloc fuel range r.0 started.answers (Started-TimersSafe r started) lived))
