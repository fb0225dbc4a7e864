-- ===== src/Tests/Sessions.antt =====
-- Command lines, the login, and the data connection.
use cftp_server.Base.{
  ℕ, ◌+◌, ◌<◌, ◌≤◌, ◌≡◌, ◌≢◌, refl, Bool, true, false, none, some, [], ◌∷◌, ◌++◌, map, Bytes, bytes,
  arith, length, take, toupper, isspace, strcmp_eq, strncmp_eq,
}
use cftp_server.Decimal.{decimal}
use cftp_server.Faults.{ok, ◌>>=◌, fault, out_of_fuel, Returns}
use cftp_server.Command.{parse_text_command, max_args, max_arg_len}
use cftp_server.Command.Bounds.{Fits, parse_text_command-Fits}
use cftp_server.Command.Quoting.{
  render_args, quote, escape, escape_byte, parse_text_command-render_args,
}
use cftp_server.Connection.{Session, plaintext, free_timer}
use cftp_server.Control.{send_control_message, reply, crlf, bufferevent_write}
use cftp_server.Control.Framing.{send_control_message-framing}
use cftp_server.Data.{find_port, data_connection_accept_cb}
use cftp_server.Data.Ports.{IsFirst, find_port-IsFirst, find_port_wraps}
use cftp_server.Data.Source.{data_connection_accept_cb-source}
use cftp_server.Hashmap.{get_ptr_to_value_by_key}
use cftp_server.Actions.Session.{only_arg}
use cftp_server.Actions.Login.{Login, authenticate_and_switch_user, cftp_pass_authenticated}
use cftp_server.Actions.Login.Password.{Admitted, authenticate-Admitted}
use cftp_server.Engine.{
  execute_ftp_command, dispatch, run_action, Registry, command_actions, diff, authenticated, pass,
}
use cftp_server.Engine.Registry.{Answers, initialize_execution_engine-Answers}
use cftp_server.Engine.Guard.{Guarded}
use cftp_server.Engine.Access.{execute_ftp_command-Guarded, login_needs_password}
use cftp_server.Events.{session_step, control_read, input_size}
use cftp_server.Events.Login.{user_line, pass_line, user_and_pass-login}
use cftp_server.Tests.Fixture.{small_system, fresh, began, passive_ports}

abbrev always : ℕ → Bool
always n = true

abbrev password : Bytes
password = 112 ∷ 119 ∷ []

-- PASS "pw"
line : Bytes
line = (80 ∷ 65 ∷ 83 ∷ 83 ∷ []) ++ render_args (password ∷ [])

parse_text_command-render_args_example :
    parse_text_command always ((80 ∷ 65 ∷ 83 ∷ 83 ∷ []) ++ render_args (password ∷ []))
    ≡ record { command = map toupper (80 ∷ 65 ∷ 83 ∷ 83 ∷ []); args = password ∷ [] }
unfolding isspace
parse_text_command-render_args_example =
    parse_text_command-render_args 80 (65 ∷ 83 ∷ 83 ∷ []) (password ∷ [])
      (refl, (refl, (refl, (refl, tt)))) (omega arith) (omega arith) (omega arith, tt)

parsed : parse_text_command always line ≡ record { command = bytes "PASS"; args = password ∷ [] }
unfolding line toupper isspace bytes
parsed =
    parse_text_command-render_args 80 (65 ∷ 83 ∷ 83 ∷ []) (password ∷ [])
      (refl, (refl, (refl, (refl, tt)))) (omega arith) (omega arith) (omega arith, tt)

parse_text_command-Fits_example :
    (length (parse_text_command always line).command < max_arg_len)
    × Fits max_args (parse_text_command always line).args
parse_text_command-Fits_example = parse_text_command-Fits always line

registry : Registry
registry = initialize_execution_engine-Answers.0

answers : Answers registry
unfolding registry
answers = initialize_execution_engine-Answers.2

known : get_ptr_to_value_by_key registry (some (bytes "PASS")) ≡ ok (some (diff authenticated pass))
unfolding command_actions
known = answers.known.1.1.1.1.1.1.1.1.1.1.1.1.1.1.1.1.1.1.1.1.1.1.1.0

-- The password is accepted.
dispatched :
    Returns
      (dispatch small_system 10 passive_ports
        (some (diff authenticated pass))
        (record { command = bytes "PASS"; args = password ∷ [] })
        began)
      (λ s'. s'.conn.authenticated ≡ true)
unfolding dispatch run_action cftp_pass_authenticated authenticate_and_switch_user strcmp_eq reply
    send_control_message bufferevent_write free_timer
dispatched = (_, refl, refl)

logged_in :
    Returns
      (execute_ftp_command small_system always 10 passive_ports registry line began)
      (λ s'. s'.conn.authenticated ≡ true)
unfolding execute_ftp_command
logged_in = (dispatched.0, rw (parsed, known) dispatched.1, dispatched.2)

execute_ftp_command-Guarded_example :
    Guarded small_system (parse_text_command always line) began logged_in.0
execute_ftp_command-Guarded_example =
    execute_ftp_command-Guarded small_system always 10 passive_ports registry line began logged_in.0
      answers refl logged_in.1

login_needs_password_example :
    (password : Bytes) × (login : Login small_system) × (only_arg (parse_text_command always line)
      ≡ some password)
    × Admitted small_system fresh.username password 0 login
    × (logged_in.0.world ≡ login.after)
login_needs_password_example =
    login_needs_password small_system always 10 passive_ports registry line began logged_in.0
      answers refl logged_in.1 logged_in.2

accepted :
    Returns
      (authenticate_and_switch_user small_system fresh.username password 0)
      (λ l. l.success ≡ true)
unfolding authenticate_and_switch_user strcmp_eq
accepted = (_, refl, refl)

authenticate-Admitted_example : Admitted small_system fresh.username password 0 accepted.0
authenticate-Admitted_example =
    authenticate-Admitted small_system fresh.username password 0 accepted.0 accepted.1 accepted.2

send_control_message-framing_example :
    (length (decimal 200 ++ 32 ∷ 79 ∷ 75 ∷ []) + 2 ≤ 255
      → (send_control_message fresh 200 (79 ∷ 75 ∷ [])).sent
        ≡ (plaintext, (decimal 200 ++ 32 ∷ 79 ∷ 75 ∷ []) ++ crlf) ∷ [])
    × (255 ≤ length (decimal 200 ++ 32 ∷ 79 ∷ 75 ∷ [])
        → (send_control_message fresh 200 (79 ∷ 75 ∷ [])).sent
          ≡ (plaintext, take 255 (decimal 200 ++ 32 ∷ 79 ∷ 75 ∷ [])) ∷ [])
send_control_message-framing_example =
    send_control_message-framing fresh plaintext 200 (79 ∷ 75 ∷ []) refl (omega arith)

find_port-IsFirst_example :
    Returns (find_port (λ q. false) 10 40002 40000) (IsFirst (λ q. false) 40000 40002)
find_port-IsFirst_example =
    find_port-IsFirst (λ q. false) 10 40002 40000 (omega arith) (omega arith) (omega arith)

find_port_wraps_example : find_port (λ q. false) 1000000 65535 65000 ≡ fault out_of_fuel
find_port_wraps_example = find_port_wraps (λ q. false) 1000000 65000 (omega arith) (λ q h. refl)

abbrev other_ip : Bytes
other_ip = 49 ∷ 46 ∷ 50 ∷ 46 ∷ 57 ∷ []

data_connection_accept_cb-source_example :
    (take 4 fresh.source_ip ≢ take 4 other_ip
      → data_connection_accept_cb true other_ip 9 fresh ≡ ok fresh)
    × ((other : Bytes)
        → take 4 other ≡ take 4 other_ip
        → data_connection_accept_cb true other 9 fresh
          ≡ data_connection_accept_cb true other_ip 9 fresh)
    × (take 4 fresh.source_ip ≡ take 4 other_ip
        → data_connection_accept_cb true other_ip 9 fresh
          ≡ free_timer (record fresh {
            data_active = 1;
            pasv_listener = none;
            data_bev = some 9;
            data_low_mark = 0;
          }))
data_connection_accept_cb-source_example = data_connection_accept_cb-source true other_ip 9 fresh

admitted : Admitted small_system fresh.username password 0 accepted.0
admitted =
    authenticate-Admitted small_system fresh.username password 0 accepted.0 accepted.1 accepted.2

lines_fit :
    (length (user_line fresh.username) ≤ input_size) × (length (pass_line password) ≤ input_size)
unfolding bytes render_args quote escape escape_byte
lines_fit = (omega arith, omega arith)

user_and_pass-login_example :
    Returns
      (session_step small_system
          (λ _. true)
          10
          passive_ports
          registry
          (control_read (user_line fresh.username))
          began
        >>= session_step small_system
            (λ _. true)
            10
            passive_ports
            registry
            (control_read (pass_line password)))
      (λ s'. (s'.conn.authenticated ≡ true) × (s'.world ≡ accepted.0.after))
unfolding strncmp_eq bytes
user_and_pass-login_example =
    user_and_pass-login small_system 10 passive_ports registry answers fresh.username password
      accepted.0 began refl (0, refl, refl) refl (omega arith) lines_fit.0 lines_fit.1 admitted
