-- ===== src/Events/Lines.antt =====
-- A command line with one argument, from the read event of the control connection to the dispatch.
use cftp_server.Base.{
  ℕ, ◌+◌, ◌≤◌, ◌<◌, ◌≡◌, refl, ap, Bool, true, List, some, [], ◌∷◌, ◌++◌, Bytes, arith, length,
  length-append, take_all, if◌then◌else◌,
}
use cftp_server.Faults.{Run, ok, ◌>>=◌}
use cftp_server.Command.{Command, parse_text_command, max_arg_len}
use cftp_server.Command.Quoting.{render_args, length-render_args}
use cftp_server.Connection.{Session}
use cftp_server.Data.{PortRange}
use cftp_server.System.{System}
use cftp_server.Hashmap.{get_ptr_to_value_by_key}
use cftp_server.Engine.{
  Action, Registry, CommandCb, diff, dispatch, run_action, execute_ftp_command,
}
use cftp_server.Events.{Event, session_step, session_run, control_read, input_size}

-- A line that fits the input has an argument that fits its buffer.
pub fits_arg :
    (word a : Bytes)
    → length (word ++ render_args (a ∷ [])) ≤ input_size
    → length a + 1 < max_arg_len
fits_arg word a fits =
    omega (arith, length-append word (render_args (a ∷ [])), length-render_args a)

module _ (sys : System) (fuel : ℕ) (range : PortRange) (r : Registry) where
  open sys use {World}

  -- A line that comes whole is dispatched.
  pub read_line :
      (line : Bytes) (cmd : Command) (cb : CommandCb) (s : Session World)
      → length line ≤ input_size
      → parse_text_command (λ _. true) line ≡ cmd
      → get_ptr_to_value_by_key r (some cmd.command) ≡ ok (some cb)
      → session_step sys (λ _. true) fuel range r (control_read line) s
        ≡ dispatch sys fuel range (some cb) cmd s
  unfolding session_step execute_ftp_command
  read_line line cmd cb s fits parse found = rw (take_all input_size line fits, parse, found) refl

  -- After the login the first of the two callbacks is called.
  pub inside :
      (a b : Action) (cmd : Command) (s : Session World)
      → s.conn.authenticated ≡ true
      → dispatch sys fuel range (some (diff a b)) cmd s ≡ run_action sys fuel range a cmd s
  unfolding dispatch
  inside a b cmd s within =
      ap (λ (in' : Bool). run_action sys fuel range (if in' then a else b) cmd s) within

  -- A run whose first step is known.
  pub session_run-step :
      (malloc : ℕ → Bool) (e : Event) (es : List Event) (s s' : Session World)
      → session_step sys malloc fuel range r e s ≡ ok s'
      → session_run sys malloc fuel range r (e ∷ es) s ≡ session_run sys malloc fuel range r es s'
  unfolding session_run
  session_run-step malloc e es s s' h =
      ap (λ (x : Run (Session World)). x >>= session_run sys malloc fuel range r es) h
