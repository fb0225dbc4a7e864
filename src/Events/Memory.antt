-- ===== src/Events/Memory.antt =====
-- No event of a session uses a timer that was freed.
use cftp_server.Base.{
  ℕ, ◌+◌, ◌≡◌, refl, sym, ◌∙◌, inl, inr, Bool, true, false, ◌||◌, not, Option, none, some, [], ◌∷◌,
  Bytes, arith, take, strncmp_eq, Bool-cases, if◌then◌else◌, leb, ◌==◌,
}
use cftp_server.Faults.{ok, Keeps, >>=-Keeps, Keeps-mono, Keeps-ok, if-Keeps, option-Keeps}
use cftp_server.Connection.{
  Connection, Session, free_timer, DataCallback, terminate_process_on_timeout,
  kill_listener_on_timeout,
}
use cftp_server.Control.{
  disable_connection, terminate_process, reply, send_control_message, bufferevent_write,
}
use cftp_server.Data.{
  PortRange, close_data_connection, reset_data, data_connection_accept_cb, kill_listener,
  compared_length,
}
use cftp_server.System.{System}
use cftp_server.Actions.Frame.{
  Anything, write_input-Keeps, Kept, Kept-refl, Kept-trans, KeptFrom, close_data_connection-Kept,
  send_list_command_output-Keeps,
}
use cftp_server.Actions.Transfer.{
  on_send_next_chunk, send_read, take_chunk, on_download_completion, complete_download, write_input,
  on_stor_read_cb, on_eof_event_cb, on_stor_tls_connected,
}
use cftp_server.Actions.Listing.{close_on_listcb, on_list_tls_connected}
use cftp_server.Engine.{Registry}
use cftp_server.Engine.Registry.{Answers}
use cftp_server.Engine.Memory.{
  TimersSafe, TimersSafe-Kept, Freed, free_timer-Keeps, Safe, Safe-KeptFrom,
  execute_ftp_command-Keeps,
}
use cftp_server.Events.{
  Event, session_step, control_read, control_written, control_event, data_accepted, data_read,
  data_written, data_event, timer, on_write, on_event, run_timer, run_control_callback, input_size,
  DataEvent, data_connection_event_cb, on_connected, run_if_set, run_data_callback,
}

on_write-Kept : (c : Connection) → Kept c (on_write c)
unfolding on_write run_control_callback close_data_connection reset_data disable_connection
on_write-Kept c = ground arith

on_event-Kept : (ended : Bool) (c : Connection) → Kept c (on_event ended c)
unfolding on_event disable_connection
on_event-Kept ended c = ground arith

terminate_process-Kept : (c : Connection) → Kept c (terminate_process c)
unfolding terminate_process send_control_message bufferevent_write
terminate_process-Kept c = ground arith

killed :
    (c : Connection) (o : Option ℕ)
    → TimersSafe c
    → TimersSafe (elim o [ none ↦ c | some port ↦ record c { pasv_listener = none } ])
killed c none safe = safe
killed c (some port) safe = record {
  login = λ out. safe.login out;
  waiting = λ p open'. absurd cc;
  closed = λ out. refl;
}

kill_listener-TimersSafe : (c : Connection) → TimersSafe c → TimersSafe (kill_listener c)
unfolding kill_listener
kill_listener-TimersSafe c safe = killed c c.pasv_listener safe

-- After the login, without a listener, no timer is needed.
closed-TimersSafe :
    (d : Connection) → d.pasv_listener ≡ none → d.authenticated ≡ true → TimersSafe d
closed-TimersSafe d shut inside = record {
  login = λ out. (let h = sym inside ∙ out in absurd cc);
  waiting = λ p open'. (let h = sym shut ∙ open' in absurd cc);
  closed = λ out. shut;
}

listening-inside :
    (c : Connection) (port : ℕ)
    → TimersSafe c
    → c.pasv_listener ≡ some port
    → c.authenticated ≡ true
listening-inside c port safe open' = elim (Bool-cases c.authenticated) [
  | inl inside ↦ inside
  | inr out ↦ (let h = sym (safe.closed out) ∙ open' in absurd cc)
]

-- A client comes to the listener, which was opened with a timer.
accept-Keeps :
    (made : Bool) (ip : Bytes) (fd port : ℕ) (c : Connection)
    → c.pasv_listener ≡ some port
    → TimersSafe c
    → Keeps TimersSafe (data_connection_accept_cb made ip fd c)
unfolding data_connection_accept_cb
accept-Keeps made ip fd port c open' safe =
    if-Keeps TimersSafe (not (strncmp_eq compared_length c.source_ip ip)) _ _ safe (
      if-Keeps TimersSafe made _ _
        (Keeps-mono (Freed _) TimersSafe (free_timer _)
          (λ d freed.
            closed-TimersSafe d freed.listener (freed.login ∙ listening-inside c port safe open'))
          (free_timer-Keeps _ (safe.waiting port open')))
        (closed-TimersSafe _ refl (listening-inside c port safe open')))

module _ (sys : System) where
  open sys use {World}

  run_data_callback-Keeps :
      (cb : DataCallback) (drained : Bool) (input : Bytes) (s : Session World)
      → Keeps (KeptFrom sys s) (run_data_callback sys cb drained input s)
  unfolding run_data_callback reply send_control_message bufferevent_write
  run_data_callback-Keeps DataCallback.send_next_chunk drained input s =
      unfold on_send_next_chunk send_read take_chunk in ground arith
  run_data_callback-Keeps DataCallback.download_completion drained input s =
      unfold on_download_completion complete_download in ground arith
  run_data_callback-Keeps DataCallback.close_on_retr drained input s =
      unfold complete_download in ground arith
  run_data_callback-Keeps DataCallback.close_on_list drained input s =
      unfold close_on_listcb in ground arith
  run_data_callback-Keeps DataCallback.on_stor_read drained [] s =
      unfold on_stor_read_cb in Kept-refl s.conn
  run_data_callback-Keeps DataCallback.on_stor_read drained (b ∷ input) s =
      unfold on_stor_read_cb in
      option-Keeps (KeptFrom sys s) s.conn.upload_fd _ _ tt (λ fd _.
        >>=-Keeps Anything (KeptFrom sys s) (write_input sys s.world fd (b ∷ input)) _
          (write_input-Keeps sys s.world fd (b ∷ input)) (λ w _. Kept-refl s.conn))
  run_data_callback-Keeps DataCallback.stor_eof drained input s =
      unfold on_eof_event_cb in
      option-Keeps (KeptFrom sys s) s.conn.data_bev _ _ (Kept-refl s.conn) (λ bev _.
        option-Keeps (KeptFrom sys s) s.conn.upload_fd _ _ (ground arith) (λ fd _.
          >>=-Keeps Anything (KeptFrom sys s) (write_input sys s.world fd input) _
            (write_input-Keeps sys s.world fd input) (λ w _. ground arith)))
  run_data_callback-Keeps DataCallback.stor_tls_connected drained input s =
      unfold on_stor_tls_connected in ground arith
  run_data_callback-Keeps DataCallback.list_tls_connected drained input s =
      unfold on_list_tls_connected in
      send_list_command_output-Keeps sys s.conn.path s.conn.description s.conn.hidden s.conn.human s
  run_data_callback-Keeps DataCallback.close_on_write drained input s =
      close_data_connection-Kept s.conn

  run_if_set-Keeps :
      (cb : Option DataCallback) (drained : Bool) (input : Bytes) (s : Session World)
      → Keeps (KeptFrom sys s) (run_if_set sys cb drained input s)
  unfolding run_if_set
  run_if_set-Keeps none drained input s = Kept-refl s.conn
  run_if_set-Keeps (some cb) drained input s = run_data_callback-Keeps cb drained input s

  on_connected-Keeps :
      (input : Bytes) (s : Session World) → Keeps (KeptFrom sys s) (on_connected sys input s)
  unfolding on_connected
  on_connected-Keeps input s =
      let s' : Session World = record s {
        conn = record s.conn { data_active = s.conn.data_active + 1 };
      } in
      if-Keeps (KeptFrom sys s) s.conn.data_tls_required _ _
        (Keeps-mono (KeptFrom sys s') (KeptFrom sys s) _
          (λ t k. Kept-trans s.conn s'.conn t.conn (ground arith) k)
          (run_if_set-Keeps s.conn.data_tls_event_connected_cb true input s'))
        (ground arith)

  last-Keeps :
      (ended : Bool) (s : Session World)
      → KeptFrom sys s (if ended then record s { conn = close_data_connection s.conn } else s)
  last-Keeps true s = close_data_connection-Kept s.conn
  last-Keeps false s = Kept-refl s.conn

  data_connection_event_cb-Keeps :
      (e : DataEvent) (input : Bytes) (s : Session World)
      → Keeps (KeptFrom sys s) (data_connection_event_cb sys e input s)
  unfolding data_connection_event_cb
  data_connection_event_cb-Keeps e input s =
      >>=-Keeps (KeptFrom sys s) (KeptFrom sys s)
        (if e.connected then on_connected sys input s else ok s) _
        (if-Keeps (KeptFrom sys s) e.connected _ _ (on_connected-Keeps input s) (Kept-refl s.conn))
        (λ s₁ k₁.
          >>=-Keeps (KeptFrom sys s₁) (KeptFrom sys s)
            (if e.eof then run_if_set sys s₁.conn.data_eof_event_cb true input s₁ else ok s₁) _
            (if-Keeps (KeptFrom sys s₁) e.eof _ _
              (run_if_set-Keeps s₁.conn.data_eof_event_cb true input s₁) (Kept-refl s₁.conn))
            (λ s₂ k₂.
              Kept-trans s.conn s₁.conn _ k₁
                (Kept-trans s₁.conn s₂.conn _ k₂ (last-Keeps (e.eof || e.error || e.timeout) s₂))))

  module _ (malloc : ℕ → Bool) (fuel : ℕ) (range : PortRange) (registry : Registry)
      (answers : Answers registry) where
    -- One event keeps the timers safe.
    pub session_step-Keeps :
        (e : Event) (s : Session World)
        → Safe sys s
        → Keeps (Safe sys) (session_step sys malloc fuel range registry e s)
    unfolding session_step run_timer
    session_step-Keeps (control_read input) s safe =
        execute_ftp_command-Keeps sys malloc fuel range registry (take input_size input) s answers
          safe
    session_step-Keeps control_written s safe = TimersSafe-Kept s.conn _ safe (on_write-Kept s.conn)
    session_step-Keeps (control_event ended) s safe =
        TimersSafe-Kept s.conn _ safe (on_event-Kept ended s.conn)
    session_step-Keeps (timer terminate_process_on_timeout) s safe =
        TimersSafe-Kept s.conn _ safe (terminate_process-Kept s.conn)
    session_step-Keeps (timer kill_listener_on_timeout) s safe =
        kill_listener-TimersSafe s.conn safe
    session_step-Keeps (data_accepted made ip fd) s safe =
        option-Keeps (Safe sys) s.conn.pasv_listener _ _ safe (λ port open'.
          >>=-Keeps TimersSafe (Safe sys) (data_connection_accept_cb made ip fd s.conn) _
            (accept-Keeps made ip fd port s.conn open' safe) (λ c kept. kept))
    session_step-Keeps (data_read input) s safe =
        option-Keeps (Safe sys) s.conn.data_bev _ _ safe
          (λ fd _. Safe-KeptFrom sys s _ safe (run_if_set-Keeps s.conn.data_read_cb true input s))
    session_step-Keeps (data_written queued) s safe =
        option-Keeps (Safe sys) s.conn.data_bev _ _ safe (λ fd _.
          if-Keeps (Safe sys) (leb queued s.conn.data_low_mark) _ _
            (Safe-KeptFrom sys s _ safe (run_if_set-Keeps s.conn.data_write_cb (queued == 0) [] s))
            safe)
    session_step-Keeps (data_event e input) s safe =
        option-Keeps (Safe sys) s.conn.data_bev _ _ safe
          (λ fd _. Safe-KeptFrom sys s _ safe (data_connection_event_cb-Keeps e input s))

  module _ (malloc : ℕ → Bool) (fuel : ℕ) (range : PortRange) (registry : Registry) where
    -- The sessions that are reached from one by any events, before and after the login.
    pub data Lived (s : Session World) : Session World → Type 0 where
      begun : Lived s s
      next :
          {s' s'' : Session World}
          → Lived s s'
          → (e : Event) → session_step sys malloc fuel range registry e s' ≡ ok s''
          → Lived s s''

    pub Lived-Safe :
        {s s' : Session World} → Answers registry → Safe sys s → Lived s s' → Safe sys s'
    Lived-Safe answers safe begun = safe
    Lived-Safe answers safe (next before e h) =
        Keeps-ok (Safe sys) _
          (session_step-Keeps malloc fuel range registry answers e _
            (Lived-Safe answers safe before))
          h
