-- ===== src/Events/Login.antt =====
-- A client with the right password gets in: the lines USER and PASS, from the text to the mark of
-- the login.
use cftp_server.Base.{
  ℕ, ◌+◌, ◌≤◌, ◌<◌, ◌≡◌, refl, ap, ◌∙◌, Bool, true, false, some, [], ◌∷◌, ◌++◌, Bytes, bytes, arith,
  length, take_all, isspace, toupper, strncmp_eq, strcmp_eq_refl, if◌then◌else◌,
}
use cftp_server.Faults.{ok, ◌>>=◌, Returns}
use cftp_server.Command.{Command, parse_text_command, max_arg_len}
use cftp_server.Command.Quoting.{render_args, parse_text_command-render_args}
use cftp_server.Connection.{Session, free_timer, drop_timer}
use cftp_server.Control.{reply, send_control_message, bufferevent_write}
use cftp_server.Data.{PortRange}
use cftp_server.System.{System, Passwd}
use cftp_server.Hashmap.{get_ptr_to_value_by_key}
use cftp_server.Actions.Login.{
  Login, authenticate_and_switch_user, check_password, switch_user, user_exists,
  cftp_user_authenticated, cftp_pass_authenticated, pass_result, admit,
}
use cftp_server.Actions.Login.Password.{Switched, Admitted, authenticate-check}
use cftp_server.Engine.{
  Action, Registry, command_actions, diff, authenticated, user, pass, dispatch, run_action,
}
use cftp_server.Engine.Registry.{Answers}
use cftp_server.Engine.Memory.{Live}
use cftp_server.Events.{session_step, control_read, input_size}
use cftp_server.Events.Lines.{fits_arg, read_line}

abbrev pub user_line : Bytes → Bytes
user_line name = bytes "USER" ++ render_args (name ∷ [])

abbrev pub pass_line : Bytes → Bytes
pass_line password = bytes "PASS" ++ render_args (password ∷ [])

parse_user :
    (name : Bytes)
    → length name + 1 < max_arg_len
    → parse_text_command (λ _. true) (user_line name)
      ≡ record { command = bytes "USER"; args = name ∷ [] }
unfolding bytes isspace toupper
parse_user name short =
    parse_text_command-render_args 85 (83 ∷ 69 ∷ 82 ∷ []) (name ∷ [])
      (refl, (refl, (refl, (refl, tt)))) (omega arith) (omega arith) (short, tt)

parse_pass :
    (password : Bytes)
    → length password + 1 < max_arg_len
    → parse_text_command (λ _. true) (pass_line password)
      ≡ record { command = bytes "PASS"; args = password ∷ [] }
unfolding bytes isspace toupper
parse_pass password short =
    parse_text_command-render_args 80 (65 ∷ 83 ∷ 83 ∷ []) (password ∷ [])
      (refl, (refl, (refl, (refl, tt)))) (omega arith) (omega arith) (short, tt)

known_pass :
    {r : Registry}
    → Answers r
    → get_ptr_to_value_by_key r (some (bytes "PASS")) ≡ ok (some (diff authenticated pass))
unfolding command_actions
known_pass answers = answers.known.1.1.1.1.1.1.1.1.1.1.1.1.1.1.1.1.1.1.1.1.1.1.1.0

known_user :
    {r : Registry}
    → Answers r
    → get_ptr_to_value_by_key r (some (bytes "USER")) ≡ ok (some (diff authenticated user))
unfolding command_actions
known_user answers = answers.known.1.1.1.1.1.1.1.1.1.1.1.1.1.1.1.1.1.1.1.1.1.1.0

module _ (sys : System) where
  open sys use {World, getpwnam}

  switch_user-success :
      (name : Bytes) (pw : Passwd) (w after : World)
      → Switched sys pw w after
      → ((switch_user sys name pw w).success ≡ true) × ((switch_user sys name pw w).after ≡ after)
  unfolding switch_user
  switch_user-success name pw w after sw =
      rw (sw.jailed, sw.moved, sw.group_set, sw.user_set) (refl, refl)

  -- The evidence is enough for the authentication.
  authenticate-success :
      (name password : Bytes) (w : World) (login : Login sys)
      → Admitted sys name password w login
      → Returns
          (authenticate_and_switch_user sys name password w)
          (λ l. (l.success ≡ true) × (l.after ≡ login.after))
  unfolding check_password
  authenticate-success name password w login a = (
    switch_user sys name a.user w,
    authenticate-check sys name password a.stored a.user w a.known a.shadow
        ∙ rw (check_password, a.right, strcmp_eq_refl a.stored) refl,
    switch_user-success name a.user w login.after a.switched,
  )

  module _ (fuel : ℕ) (range : PortRange) (r : Registry) (answers : Answers r) where
    outside :
        (a b : Action) (cmd : Command) (s : Session World)
        → s.conn.authenticated ≡ false
        → dispatch sys fuel range (some (diff a b)) cmd s ≡ run_action sys fuel range b cmd s
    unfolding dispatch
    outside a b cmd s out =
        ap (λ (inside : Bool). run_action sys fuel range (if inside then a else b) cmd s) out

    asked : Bytes → Session World → Session World
    asked name s =
        reply 331 "User name okay, need password"
          (record s { conn = record s.conn { username = name } })

    asked-Live : (name : Bytes) (s : Session World) → Live s.conn → Live (asked name s).conn
    unfolding asked reply send_control_message bufferevent_write
    asked-Live name s live = live

    asked-out :
        (name : Bytes) (s : Session World)
        → s.conn.authenticated ≡ false
        → (asked name s).conn.authenticated ≡ false
    unfolding asked reply send_control_message bufferevent_write
    asked-out name s out = out

    asked-Admitted :
        (name password : Bytes) (login : Login sys) (s : Session World)
        → Admitted sys name password s.world login
        → Admitted sys (asked name s).conn.username password (asked name s).world login
    unfolding asked reply send_control_message bufferevent_write
    asked-Admitted name password login s a = a

    user_run :
        (name : Bytes) (pw : Passwd) (s : Session World)
        → strncmp_eq 4 name (bytes "root") ≡ false
        → length name < 256
        → getpwnam s.world name ≡ some pw
        → run_action sys fuel range user (record { command = bytes "USER"; args = name ∷ [] }) s
          ≡ ok (asked name s)
    unfolding run_action cftp_user_authenticated user_exists asked
    user_run name pw s other fits known = rw (other, known, take_all 256 name (omega arith)) refl

    admitted :
        (login : Login sys) (s : Session World)
        → login.success ≡ true
        → Live s.conn
        → Returns
            (pass_result sys login s)
            (λ s'. (s'.conn.authenticated ≡ true) × (s'.world ≡ login.after))
    unfolding pass_result admit free_timer reply send_control_message bufferevent_write
    admitted login s success (t, points, there) =
        let c = (reply 230 "User logged in" s).conn in
        (
          record {
            conn = record c {
              error_buf = login.message;
              authenticated = true;
              timers = drop_timer t s.conn.timers;
            };
            world = login.after;
          },
          rw (success, points, there) refl,
          (refl, refl),
        )

    pass_step :
        (password : Bytes) (login : Login sys) (s : Session World)
        → Live s.conn
        → Admitted sys s.conn.username password s.world login
        → Returns
            (cftp_pass_authenticated sys
              (record { command = bytes "PASS"; args = password ∷ [] })
              s)
            (λ s'. (s'.conn.authenticated ≡ true) × (s'.world ≡ login.after))
    unfolding cftp_pass_authenticated
    pass_step password login s live a =
        let (l, ran, (success, after)) =
          authenticate-success s.conn.username password s.world login a in
        let (s', run, (inside, same)) = admitted l s success live in
        (s', rw ran run, (inside, same ∙ after))

    -- A client that is not logged in, and whose timer is there, sends the name of a user, of less
    -- than 256 bytes and not beginning with root, and then the password that the database has;
    -- both lines fit the buffer for the input, the registry answers as the table of commands says,
    -- and the calls of the system succeed for this user. Then it is logged in, and the system is
    -- the one that these calls leave.
    pub user_and_pass-login :
        (name password : Bytes) (login : Login sys) (s : Session World)
        → s.conn.authenticated ≡ false
        → Live s.conn
        → strncmp_eq 4 name (bytes "root") ≡ false
        → length name < 256
        → length (user_line name) ≤ input_size
        → length (pass_line password) ≤ input_size
        → Admitted sys name password s.world login
        → Returns
            (session_step sys (λ _. true) fuel range r (control_read (user_line name)) s
              >>= session_step sys (λ _. true) fuel range r (control_read (pass_line password)))
            (λ s'. (s'.conn.authenticated ≡ true) × (s'.world ≡ login.after))
    user_and_pass-login name password login s out live other short fits fits' a =
        let e =
          read_line sys fuel range r (user_line name) _ _ s fits
            (parse_user name (fits_arg (bytes "USER") name fits)) (known_user answers)
          ∙ outside authenticated user _ s out
          ∙ user_run name a.user s other short a.known in
        let (s', run, inside) =
          pass_step password login (asked name s) (asked-Live name s live)
            (asked-Admitted name password login s a) in
        let e' =
          read_line sys fuel range r (pass_line password) _ _ (asked name s) fits'
            (parse_pass password (fits_arg (bytes "PASS") password fits')) (known_pass answers)
          ∙ outside authenticated pass _ (asked name s) (asked-out name s out) in
        (s', rw (e, e') (unfold run_action in run), inside)
