-- ===== src/Engine/Memory.antt =====
-- The timers of a session under its command lines.
use cftp_server.Base.{
  ℕ, zero, suc, leb, ◌≡◌, refl, sym, ◌∙◌, inl, inr, Bool, true, false, ◌&&◌, Option, none, some,
  Bytes, arith, All, all, all_lem, Bool-cases, ==_iff, if◌then◌else◌,
}
use cftp_server.Faults.{Run, Keeps, >>=-Keeps, Keeps-mono, if-Keeps, option-Keeps}
use cftp_server.Command.{Command, parse_text_command}
use cftp_server.Connection.{Connection, Session, has_timer, start_timer, free_timer}
use cftp_server.Control.{reply, send_control_message, bufferevent_write}
use cftp_server.Data.{PortRange, data_connection_listener_config, open_listener, find_port}
use cftp_server.System.{System}
use cftp_server.Actions.Frame.{Kept, KeptFrom, Anything}
use cftp_server.Actions.Session.{only_arg, cftp_invalid_action}
use cftp_server.Actions.Login.{
  Login, cftp_pass_authenticated, pass_with, pass_result, admit, authenticate_and_switch_user,
  check_password,
}
use cftp_server.Engine.{
  Action, CommandCb, Registry, command_actions, run_action, passive_action, dispatch,
  execute_ftp_command,
}
use cftp_server.Engine.Frame.{is_frame, run_action-KeptFrom}
use cftp_server.Engine.Registry.{Answers}
use cftp_server.Engine.Guard.{is_open}
use cftp_server.Engine.Access.{find_entry}

-- `timeout_event` points to a timer that is not freed.
abbrev pub Live : Connection → Type 0
Live c = (t : ℕ) × (c.timeout_event ≡ some t) × (has_timer t c.timers ≡ true)

-- Before the login and while a listener waits the timer is there, and before the login there is no
-- listener.
pub record TimersSafe (c : Connection) : Type 0 where
  pub login : c.authenticated ≡ false → Live c
  pub waiting : (p : ℕ) → c.pasv_listener ≡ some p → Live c
  pub closed : c.authenticated ≡ false → c.pasv_listener ≡ none

Live-Kept : (c d : Connection) → Kept c d → Live c → Live d
Live-Kept c d k (t, points, there) = (t, k.event ∙ points, rw k.timers there)

pub TimersSafe-Kept : (c d : Connection) → TimersSafe c → Kept c d → TimersSafe d
TimersSafe-Kept c d safe k = record {
  login = λ out. Live-Kept c d k (safe.login (sym k.login ∙ out));
  waiting = λ p open'. Live-Kept c d k (safe.waiting p (sym k.listener ∙ open'));
  closed = λ out. k.listener ∙ safe.closed (sym k.login ∙ out);
}

-- Only the timer that the pointer names is freed.
pub record Freed (c d : Connection) : Type 0 where
  pub login : d.authenticated ≡ c.authenticated
  pub listener : d.pasv_listener ≡ c.pasv_listener

pub free_timer-Keeps : (c : Connection) → Live c → Keeps (Freed c) (free_timer c)
unfolding free_timer
free_timer-Keeps c (t, points, there) = ground arith

abbrev pub is_inside : Action → Bool
is_inside Action.pass = false
is_inside _ = true

-- The callbacks fit the two states of the login.
suits : CommandCb → Bool
suits cb = is_inside cb.authenticated_cb && is_open cb.non_authenticated_cb

suits-chosen :
    (cb : CommandCb) (b : Bool)
    → suits cb ≡ true
    → (b ≡ true → is_inside (if b then cb.authenticated_cb else cb.non_authenticated_cb) ≡ true)
      × (b ≡ false → is_open (if b then cb.authenticated_cb else cb.non_authenticated_cb) ≡ true)
unfolding suits
suits-chosen cb true good = ((λ h. ground arith), (λ h. absurd cc))
suits-chosen cb false good = ((λ h. absurd cc), (λ h. ground arith))

All-suits : All (λ e. suits e.1 ≡ true) command_actions
unfolding suits command_actions all
All-suits = all_lem (λ e. suits e.1) command_actions refl

module _ (sys : System) where
  open sys use {World, can_bind, getsockname, getpwnam, getspnam, crypt}

  abbrev pub Safe : Session World → Type 0
  Safe s = TimersSafe s.conn

  pub Safe-KeptFrom :
      (s : Session World) (r : Run (Session World))
      → Safe s
      → Keeps (KeptFrom sys s) r
      → Keeps Safe r
  Safe-KeptFrom s r safe k =
      Keeps-mono (KeptFrom sys s) Safe r (λ s'. TimersSafe-Kept s.conn s'.conn safe) k

  -- After the login a listener comes with its timer.
  open_listener-TimersSafe :
      (extended : Bool) (address : ℕ) (found : Option ℕ) (c : Connection)
      → c.authenticated ≡ true
      → TimersSafe (open_listener extended address found (record c { pasv_listener = none }))
  unfolding open_listener send_control_message bufferevent_write start_timer
  open_listener-TimersSafe extended address none c inside = record {
    login = λ out. absurd cc;
    waiting = λ p open'. absurd cc;
    closed = λ out. refl;
  }
  open_listener-TimersSafe extended address (some port) c inside =
      let own = (==_iff c.next_timer c.next_timer).1 refl in
      record {
        login = λ out. absurd cc;
        waiting = λ p open'. (c.next_timer, refl, rw own refl);
        closed = λ out. absurd cc;
      }

  pub find_port-Keeps :
      (can : ℕ → Bool) (fuel end port : ℕ) → Keeps Anything (find_port can fuel end port)
  unfolding find_port
  find_port-Keeps can zero end port = tt
  find_port-Keeps can (suc fuel) end port =
      if-Keeps Anything (leb port end) _ _
        (if-Keeps Anything (can port) _ _ tt (find_port-Keeps can fuel end _)) tt

  listener_config-TimersSafe :
      (fuel : ℕ) (range : PortRange) (can : ℕ → Bool) (address : Option ℕ) (extended : Bool)
      (c : Connection)
      → c.authenticated ≡ true
      → Keeps TimersSafe (data_connection_listener_config fuel range can address extended c)
  unfolding data_connection_listener_config send_control_message bufferevent_write
  listener_config-TimersSafe fuel range can none extended c inside = record {
    login = λ out. absurd cc;
    waiting = λ p open'. absurd cc;
    closed = λ out. refl;
  }
  listener_config-TimersSafe fuel range can (some address) extended c inside =
      >>=-Keeps Anything TimersSafe (find_port can fuel range.end range.start) _
        (find_port-Keeps can fuel range.end range.start)
        (λ found _. open_listener-TimersSafe extended address found c inside)

  passive_action-Keeps :
      (fuel : ℕ) (range : PortRange) (extended : Bool) (s : Session World)
      → s.conn.authenticated ≡ true
      → Keeps Safe (passive_action sys fuel range extended s)
  unfolding passive_action
  passive_action-Keeps fuel range extended s inside =
      >>=-Keeps TimersSafe Safe
        (data_connection_listener_config fuel range (can_bind s.world) (getsockname s.world)
          extended s.conn)
        _
        (listener_config-TimersSafe fuel range (can_bind s.world) (getsockname s.world) extended
          s.conn inside)
        (λ c safe. safe)

  pass_result-Keeps :
      (login : Login sys) (s : Session World)
      → s.conn.authenticated ≡ false
      → Safe s
      → Keeps Safe (pass_result sys login s)
  unfolding pass_result admit reply send_control_message bufferevent_write
  pass_result-Keeps login s out safe =
      if-Keeps Safe login.success _ _
        (>>=-Keeps (Freed _) Safe (free_timer _) _ (free_timer-Keeps _ (safe.login out)) (λ c freed.
          record {
            login = λ outside. absurd (ground arith);
            waiting = λ p open'. absurd (let none_open = safe.closed out in ground arith);
            closed = λ outside. absurd (ground arith);
          }))
        (TimersSafe-Kept s.conn _ safe (ground arith))

  pub authenticate-Keeps :
      (name password : Bytes) (w : World)
      → Keeps Anything (authenticate_and_switch_user sys name password w)
  unfolding authenticate_and_switch_user check_password
  authenticate-Keeps name password w = option-Keeps Anything (getpwnam w name) _ _ tt (λ pw _.
      option-Keeps Anything (getspnam w name) _ _ tt
        (λ stored _. option-Keeps Anything (crypt password stored) _ _ tt (λ encrypted _. tt)))

  pass_with-Keeps :
      (given : Option Bytes) (s : Session World)
      → s.conn.authenticated ≡ false
      → Safe s
      → Keeps Safe (pass_with sys given s)
  unfolding pass_with reply send_control_message bufferevent_write
  pass_with-Keeps none s out safe = TimersSafe-Kept s.conn _ safe (ground arith)
  pass_with-Keeps (some password) s out safe =
      >>=-Keeps Anything Safe (authenticate_and_switch_user sys s.conn.username password s.world) _
        (authenticate-Keeps s.conn.username password s.world)
        (λ login _. pass_result-Keeps login s out safe)

  -- The action that the table gives for the state of the login.
  abbrev Fits : Session World → Action → Type 0
  Fits s a =
      (s.conn.authenticated ≡ true → is_inside a ≡ true)
      × (s.conn.authenticated ≡ false → is_open a ≡ true)

  framed :
      (fuel : ℕ) (range : PortRange) (a : Action) (cmd : Command) (s : Session World)
      → is_frame a ≡ true
      → Safe s
      → Keeps Safe (run_action sys fuel range a cmd s)
  framed fuel range a cmd s f safe =
      Safe-KeptFrom s (run_action sys fuel range a cmd s) safe
        (run_action-KeptFrom sys fuel range a cmd s f)

  run_passive :
      (fuel : ℕ) (range : PortRange) (extended : Bool) (s : Session World)
      → (s.conn.authenticated ≡ false → false ≡ true)
      → Keeps Safe (passive_action sys fuel range extended s)
  run_passive fuel range extended s shut = elim (Bool-cases s.conn.authenticated) [
    | inl inside ↦ passive_action-Keeps fuel range extended s inside
    | inr out ↦ (let h = shut out in absurd cc)
  ]

  run_pass :
      (cmd : Command) (s : Session World)
      → (s.conn.authenticated ≡ true → false ≡ true)
      → Safe s
      → Keeps Safe (cftp_pass_authenticated sys cmd s)
  unfolding cftp_pass_authenticated
  run_pass cmd s shut safe = elim (Bool-cases s.conn.authenticated) [
    | inl inside ↦ (let h = shut inside in absurd cc)
    | inr out ↦ pass_with-Keeps (only_arg cmd) s out safe
  ]

  run_action-Keeps :
      (fuel : ℕ) (range : PortRange) (a : Action) (cmd : Command) (s : Session World)
      → Fits s a
      → Safe s
      → Keeps Safe (run_action sys fuel range a cmd s)
  unfolding run_action
  run_action-Keeps fuel range Action.pass cmd s fits safe = run_pass cmd s fits.0 safe
  run_action-Keeps fuel range Action.epsv cmd s fits safe = run_passive fuel range true s fits.1
  run_action-Keeps fuel range Action.pasv cmd s fits safe = run_passive fuel range false s fits.1
  run_action-Keeps fuel range a cmd s fits safe = framed fuel range a cmd s refl safe

  dispatch-Keeps :
      (fuel : ℕ) (range : PortRange) (cb : CommandCb) (cmd : Command) (s : Session World)
      → suits cb ≡ true
      → Safe s
      → Keeps Safe (dispatch sys fuel range (some cb) cmd s)
  unfolding dispatch
  dispatch-Keeps fuel range cb cmd s good safe =
      run_action-Keeps fuel range
        (if s.conn.authenticated then cb.authenticated_cb else cb.non_authenticated_cb) cmd s
        (suits-chosen cb s.conn.authenticated good) safe

  invalid-KeptFrom : (s : Session World) → KeptFrom sys s (cftp_invalid_action s)
  unfolding cftp_invalid_action reply send_control_message bufferevent_write
  invalid-KeptFrom s = ground arith

  -- A command line keeps the timers safe and uses none that is freed, for a registry that answers
  -- as the table of commands says.
  pub execute_ftp_command-Keeps :
      (malloc : ℕ → Bool) (fuel : ℕ) (range : PortRange) (r : Registry) (input : Bytes)
      (s : Session World)
      → Answers r
      → Safe s
      → Keeps Safe (execute_ftp_command sys malloc fuel range r input s)
  unfolding execute_ftp_command dispatch
  execute_ftp_command-Keeps malloc fuel range r input s answers safe =
      let word = (parse_text_command malloc input).command in
      elim (find_entry r (λ cb. suits cb ≡ true) command_actions word answers.known All-suits) [
        | inl miss ↦
            rw (answers.unknown word miss) (TimersSafe-Kept s.conn _ safe (invalid-KeptFrom s))
        | inr (cb, found, good) ↦
            rw found (dispatch-Keeps fuel range cb (parse_text_command malloc input) s good safe)
      ]
