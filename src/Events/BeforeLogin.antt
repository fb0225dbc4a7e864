-- ===== src/Events/BeforeLogin.antt =====
-- What a client can reach before it has logged in, over any events.
use cftp_server.Base.{ℕ, ◌≡◌, refl, sym, ◌∙◌, Bool, false, Option, none, some, [], arith, take}
use cftp_server.Faults.{Run, ok, ok_injective}
use mathlib.Core.Path.{subst}
use cftp_server.Connection.{
  Connection, Session, terminate_process_on_timeout, kill_listener_on_timeout,
}
use cftp_server.Control.{
  disable_connection, terminate_process, send_control_message, bufferevent_write,
}
use cftp_server.Data.{PortRange, close_data_connection, reset_data, kill_listener}
use cftp_server.System.{System}
use cftp_server.Engine.{Registry}
use cftp_server.Engine.Registry.{Answers}
use cftp_server.Engine.Access.{execute_ftp_command-Guarded}
use cftp_server.Events.{
  Event, session_step, control_read, control_written, control_event, data_accepted, data_read,
  data_written, data_event, timer, on_write, on_event, run_timer, run_control_callback, input_size,
}

-- No listener, no data connection, no file of an upload (`calloc` leaves the descriptor 0 behind),
-- and nothing sent over a data connection.
pub record IsQuiet (c : Connection) : Type 0 where
  pub listener : c.pasv_listener ≡ none
  pub data_bev : c.data_bev ≡ none
  pub upload : (fd : ℕ) → c.upload_fd ≡ some fd → fd ≡ 0
  pub data_sent : c.data_sent ≡ []

absent_object :
    {A : Type 0} (o : Option ℕ) (x y : Run A) → o ≡ none → (elim o [ none ↦ x | some _ ↦ y ]) ≡ x
absent_object none x y h = refl
absent_object (some p) x y h = cc

on_write-IsQuiet : (c : Connection) → IsQuiet c → IsQuiet (on_write c)
unfolding on_write run_control_callback close_data_connection reset_data disable_connection
on_write-IsQuiet c q = ground arith

on_event-IsQuiet : (ended : Bool) (c : Connection) → IsQuiet c → IsQuiet (on_event ended c)
unfolding on_event disable_connection
on_event-IsQuiet ended c q = ground arith

terminate_process-IsQuiet : (c : Connection) → IsQuiet c → IsQuiet (terminate_process c)
unfolding terminate_process send_control_message bufferevent_write
terminate_process-IsQuiet c q = ground arith

kill_listener-IsQuiet : (c : Connection) → IsQuiet c → IsQuiet (kill_listener c)
unfolding kill_listener
kill_listener-IsQuiet c q = ground arith

module _ (sys : System) (malloc : ℕ → Bool) (fuel : ℕ) (range : PortRange)
    (registry : Registry) where
  open sys use {World}

  -- The sessions that are reached from one by events at sessions that have not logged in. The
  -- last event may be the login.
  pub data Reached (s : Session World) : Session World → Type 0 where
    begun : Reached s s
    next :
        {s' s'' : Session World}
        → Reached s s'
        → s'.conn.authenticated ≡ false
        → (e : Event) → session_step sys malloc fuel range registry e s' ≡ ok s''
        → Reached s s''

  quiet : {s s' : Session World} → ok s ≡ ok s' → IsQuiet s.conn → IsQuiet s'.conn
  quiet h q = subst (λ (t : Session World). IsQuiet t.conn) (ok_injective h) q

  session_step-IsQuiet :
      Answers registry
      → (e : Event) (s s' : Session World) → s.conn.authenticated ≡ false
      → IsQuiet s.conn
      → session_step sys malloc fuel range registry e s ≡ ok s'
      → IsQuiet s'.conn
  unfolding session_step run_timer
  session_step-IsQuiet answers (control_read input) s s' out q h =
      let kept =
        (execute_ftp_command-Guarded sys malloc fuel range registry (take input_size input) s s'
          answers out h).0 in
      record {
        listener = kept.listener ∙ q.listener;
        data_bev = kept.data_bev ∙ q.data_bev;
        upload = λ fd h. q.upload fd (sym kept.upload ∙ h);
        data_sent = kept.data_sent ∙ q.data_sent;
      }
  session_step-IsQuiet answers control_written s s' out q h = quiet h (on_write-IsQuiet s.conn q)
  session_step-IsQuiet answers (control_event ended) s s' out q h =
      quiet h (on_event-IsQuiet ended s.conn q)
  session_step-IsQuiet answers (timer terminate_process_on_timeout) s s' out q h =
      quiet h (terminate_process-IsQuiet s.conn q)
  session_step-IsQuiet answers (timer kill_listener_on_timeout) s s' out q h =
      quiet h (kill_listener-IsQuiet s.conn q)
  session_step-IsQuiet answers (data_accepted made ip fd) s s' out q h =
      quiet (sym (absent_object s.conn.pasv_listener (ok s) _ q.listener) ∙ h) q
  session_step-IsQuiet answers (data_read input) s s' out q h =
      quiet (sym (absent_object s.conn.data_bev (ok s) _ q.data_bev) ∙ h) q
  session_step-IsQuiet answers (data_written queued) s s' out q h =
      quiet (sym (absent_object s.conn.data_bev (ok s) _ q.data_bev) ∙ h) q
  session_step-IsQuiet answers (data_event e input) s s' out q h =
      quiet (sym (absent_object s.conn.data_bev (ok s) _ q.data_bev) ∙ h) q

  -- From a session without a data side, with a registry that answers as the table of commands
  -- says, no sequence of events up to the login, that of the login included, opens a listener or a
  -- data connection, begins an upload or sends data.
  pub Reached-IsQuiet :
      Answers registry → (s s' : Session World) → IsQuiet s.conn → Reached s s' → IsQuiet s'.conn
  Reached-IsQuiet answers s s' q begun = q
  Reached-IsQuiet answers s s' q (next before out e h) =
      session_step-IsQuiet answers e _ s' out (Reached-IsQuiet answers s _ q before) h
