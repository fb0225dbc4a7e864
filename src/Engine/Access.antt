-- ===== src/Engine/Access.antt =====
-- What the whole path of a command line, from the text to the action, allows before the login.
use mathlib.Core.Path.{subst}
use cftp_server.Base.{
  ℕ, ◌≡◌, refl, ap, sym, ◌∙◌, ◌⊎◌, inl, inr, Bool, true, false, some, List, [], ◌∷◌, String, Bytes,
  bytes, arith, strcmp_eq, strcmp_eq_iff, All, all, all_lem, Bool-cases, if◌then◌else◌,
}
use cftp_server.Faults.{ok, ok_injective}
use cftp_server.Command.{Command, parse_text_command}
use cftp_server.Connection.{Session}
use cftp_server.Control.{reply, send_control_message, bufferevent_write}
use cftp_server.System.{System}
use cftp_server.Data.{PortRange}
use cftp_server.Hashmap.{get_ptr_to_value_by_key}
use cftp_server.Actions.Session.{cftp_invalid_action, only_arg}
use cftp_server.Actions.Login.{Login}
use cftp_server.Actions.Login.Password.{Admitted, authenticate-Admitted}
use cftp_server.Engine.{
  CommandCb, command_actions, Registry, run_action, dispatch, execute_ftp_command,
}
use cftp_server.Engine.Registry.{Answers}
use cftp_server.Engine.Guard.{is_open, Guarded, run_action-Guarded}

-- The entries of a list that the registry knows, and a word: the word is none of their names, or
-- the registry answers it with one of the entries.
pub find_entry :
    (r : Registry) (P : CommandCb → Type 0) (l : List (String × CommandCb)) (q : Bytes)
    → All (λ e. get_ptr_to_value_by_key r (some (bytes e.0)) ≡ ok (some e.1)) l
    → All (λ e. P e.1) l
    → All (λ e. strcmp_eq (bytes e.0) q ≡ false) l
      ⊎ ((cb : CommandCb) × (get_ptr_to_value_by_key r (some q) ≡ ok (some cb)) × P cb)
find_entry r P [] q known good = inl tt
find_entry r P ((name, cb) ∷ l) q known good = elim (Bool-cases (strcmp_eq (bytes name) q)) [
  | inl same ↦ let e = (strcmp_eq_iff (bytes name) q).0 same in inr (cb, rw (← e) known.0, good.0)
  | inr other ↦ elim (find_entry r P l q known.1 good.1) [
    | inl none_there ↦ inl (other, none_there)
    | inr found ↦ inr found
  ]
]

IsOpen : CommandCb → Type 0
IsOpen cb = is_open cb.non_authenticated_cb ≡ true

All-IsOpen : All (λ e. IsOpen e.1) command_actions
unfolding IsOpen command_actions all
All-IsOpen = all_lem (λ e. is_open e.1.non_authenticated_cb) command_actions refl

module _ (sys : System) where
  open sys use {World}

  invalid-Guarded : (cmd : Command) (s : Session World) → Guarded sys cmd s (cftp_invalid_action s)
  unfolding cftp_invalid_action reply send_control_message bufferevent_write
  invalid-Guarded cmd s = ground arith

  dispatch-Guarded :
      (fuel : ℕ) (range : PortRange) (cb : CommandCb) (cmd : Command) (s s' : Session World)
      → IsOpen cb
      → s.conn.authenticated ≡ false
      → dispatch sys fuel range (some cb) cmd s ≡ ok s'
      → Guarded sys cmd s s'
  unfolding dispatch IsOpen
  dispatch-Guarded fuel range cb cmd s s' open' out h =
      run_action-Guarded sys fuel range cb.non_authenticated_cb cmd s s' open' out (
        ap
          (λ (b : Bool).
            run_action sys fuel range (if b then cb.authenticated_cb else cb.non_authenticated_cb)
              cmd s)
          (sym out)
        ∙ h)

  module _ (malloc : ℕ → Bool) (fuel : ℕ) (range : PortRange) (r : Registry) (input : Bytes)
      (s s' : Session World) (answers : Answers r) (out : s.conn.authenticated ≡ false)
      (h : execute_ftp_command sys malloc fuel range r input s ≡ ok s') where
    -- Before the login, with a registry that answers as the table of commands says, no command line
    -- touches the data side of the connection, and every command line either leaves the system and
    -- the mark of the login as they are, or is an attempt to log in under the name of the session
    -- with the one argument of the line as the password, whose system and mark are those of the
    -- authentication.
    pub execute_ftp_command-Guarded : Guarded sys (parse_text_command malloc input) s s'
    unfolding execute_ftp_command dispatch
    execute_ftp_command-Guarded =
        let word = (parse_text_command malloc input).command in
        elim (find_entry r IsOpen command_actions word answers.known All-IsOpen) [
          | inl miss ↦
              let run = rw (answers.unknown word miss) at h in
              subst (Guarded sys (parse_text_command malloc input) s) (ok_injective run)
                (invalid-Guarded (parse_text_command malloc input) s)
          | inr (cb, found, open') ↦
              dispatch-Guarded fuel range cb (parse_text_command malloc input) s s' open' out
                (rw found at h)
        ]

    -- A command line that logs the session in has one argument, and there is the evidence that this
    -- argument, all of it, is the right password for the name of the session; the system afterwards
    -- is the one that this authentication leaves.
    pub login_needs_password :
        s'.conn.authenticated ≡ true
        → (password : Bytes) × (login : Login sys) × (only_arg (parse_text_command malloc input)
            ≡ some password)
          × Admitted sys s.conn.username password s.world login
          × (s'.world ≡ login.after)
    login_needs_password inside = elim (execute_ftp_command-Guarded.1) [
      | inl (same, mark) ↦ absurd (ground arith)
      | inr a ↦ (
        a.password,
        a.login,
        a.given,
        authenticate-Admitted sys s.conn.username a.password s.world a.login a.ran
            (sym a.mark ∙ inside),
        a.world,
      )
    ]
