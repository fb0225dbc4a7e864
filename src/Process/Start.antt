-- ===== src/Process/Start.antt =====
-- The process of a client from its start to its login.
use cftp_server.Base.{ℕ, ◌≡◌, refl, Bool, true, false, Option, none, some, [], ◌∷◌, arith}
use mathlib.Core.Path.{subst}
use mathlib.Core.Option.{some-injective}
use cftp_server.Faults.{Run, ok, ok_injective, >>=-eq-ok}
use cftp_server.Connection.{Connection, Session, start_timer, terminate_process_on_timeout}
use cftp_server.Control.{send_control_message, bufferevent_write}
use cftp_server.Data.{PortRange}
use cftp_server.System.{System}
use cftp_server.Engine.{Registry, StartMemory, plenty, initialize_execution_engine}
use cftp_server.Engine.Registry.{Answers, initialize_execution_engine-Answers}
use cftp_server.Engine.Outcome.{registered-Answers}
use cftp_server.Events.BeforeLogin.{IsQuiet, Reached, Reached-IsQuiet}
use cftp_server.Process.{SockAddr, accept_child, greet, start_control_connection_loop}

greet-IsQuiet : (addr : SockAddr) → IsQuiet (greet (accept_child addr))
unfolding greet accept_child start_timer send_control_message bufferevent_write
greet-IsQuiet addr = record {
  listener = refl;
  data_bev = refl;
  upload = λ fd h. ground arith;
  data_sent = refl;
}

-- How a process starts: the registry answers as the table of commands says, and the connection has
-- no data side, is not logged in, and has the timer of the login.
pub record Started (r : Registry × Connection) : Type 0 where
  pub answers : Answers r.0
  pub quiet : IsQuiet r.1
  pub out : r.1.authenticated ≡ false
  pub timer : r.1.timers ≡ (0, terminate_process_on_timeout) ∷ []
  pub armed : r.1.timeout_event ≡ some 0

greeted :
    (addr : SockAddr) (registry : Registry)
    → Answers registry
    → Started (registry, greet (accept_child addr))
greeted addr registry answers = record {
  answers = answers;
  quiet = greet-IsQuiet addr;
  out = unfold greet accept_child start_timer send_control_message bufferevent_write in refl;
  timer = unfold greet accept_child start_timer send_control_message bufferevent_write in refl;
  armed = unfold greet accept_child start_timer send_control_message bufferevent_write in refl;
}

-- If the allocations succeed and the bufferevent of the control connection is made, then for any
-- client the process starts without a fault, and in such a state.
pub start-Started :
    (addr : SockAddr)
    → (r : Registry × Connection) × (start_control_connection_loop plenty true (accept_child addr)
        ≡ ok (some r))
      × Started r
unfolding start_control_connection_loop
start-Started addr =
    let (r, run, answers) = initialize_execution_engine-Answers in
    ((r, greet (accept_child addr)), rw run refl, greeted addr r answers)

-- Whichever allocations succeed: a process that starts without a fault and does not end starts so.
pub begins-Started :
    (mem : StartMemory) (addr : SockAddr) (r : Registry × Connection)
    → start_control_connection_loop mem true (accept_child addr) ≡ ok (some r)
    → Started r
unfolding start_control_connection_loop
begins-Started mem addr r run =
    let (made, built, rest) = >>=-eq-ok _ (initialize_execution_engine mem) run in
    by_registry made built rest
  where
    by_registry :
        (made : Option Registry)
        → initialize_execution_engine mem ≡ ok made
        → elim made as (λ _. Run (Option (Registry × Connection))) [
          | none ↦ ok none
          | some registry ↦ ok (some (registry, greet (accept_child addr)))
        ]
          ≡ ok (some r)
        → Started r
    by_registry none built e = absurd cc
    by_registry (some registry) built e =
        subst Started (some-injective _ _ (ok_injective e))
          (greeted addr registry (registered-Answers mem registry built))

-- The process that starts for a client, with its bufferevent made, on any system: over any events up to the login, that of
-- the login included, no listener and no data connection is opened, no upload begins and nothing
-- is sent over a data connection.
pub start-IsQuiet :
    (sys : System) (mem : StartMemory) (malloc : ℕ → Bool) (fuel : ℕ) (range : PortRange)
    (addr : SockAddr) (w : sys.World) (r : Registry × Connection) (s' : Session sys.World)
    → start_control_connection_loop mem true (accept_child addr) ≡ ok (some r)
    → Reached sys malloc fuel range r.0 (record { conn = r.1; world = w }) s'
    → IsQuiet s'.conn
start-IsQuiet sys mem malloc fuel range addr w r s' run reached =
    let started = begins-Started mem addr r run in
    Reached-IsQuiet sys malloc fuel range r.0 started.answers (record { conn = r.1; world = w }) s'
      started.quiet reached
