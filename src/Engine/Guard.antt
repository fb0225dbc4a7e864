-- ===== src/Engine/Guard.antt =====
-- What a client can do before it has logged in.
use mathlib.Core.Path.{subst}
use cftp_server.Base.{ℕ, ◌≡◌, ◌⊎◌, inl, inr, Bool, true, false, some, Bytes, arith, Option-cases}
use cftp_server.Faults.{ok, >>=-eq-ok, ok_injective}
use cftp_server.Command.{Command}
use cftp_server.Connection.{Connection, Session, free_timer}
use cftp_server.Control.{reply, send_control_message, bufferevent_write, upgrade_to_tls}
use cftp_server.System.{System}
use cftp_server.Data.{PortRange}
use cftp_server.Actions.Session.{
  cftp_syst_action, cftp_quit_action, cftp_auth_action, cftp_pbsz_action, cftp_prot_action,
  cftp_noop_action, cftp_feat_action, cftp_non_authenticated, only_arg,
}
use cftp_server.Actions.Login.{
  Login, cftp_user_authenticated, cftp_pass_authenticated, user_exists,
  authenticate_and_switch_user, pass_with, pass_result,
}
use cftp_server.Engine.{Action, run_action}

-- The actions that are open before the login.
abbrev pub is_open : Action → Bool
is_open Action.syst = true
is_open Action.quit = true
is_open Action.auth = true
is_open Action.pbsz = true
is_open Action.prot = true
is_open Action.noop = true
is_open Action.feat = true
is_open Action.non_authenticated = true
is_open Action.user = true
is_open Action.pass = true
is_open _ = false

module _ (sys : System) where
  open sys use {World}

  -- The connection keeps its data side: nothing is opened, listed, sent or received.
  pub record DataKept (c d : Connection) : Type 0 where
    pub listener : d.pasv_listener ≡ c.pasv_listener
    pub data_bev : d.data_bev ≡ c.data_bev
    pub data_sent : d.data_sent ≡ c.data_sent
    pub upload : d.upload_fd ≡ c.upload_fd

  -- An attempt to log in: a command whose one argument is the password; the system and the mark are
  -- those of the authentication with it.
  pub record Attempt (cmd : Command) (s s' : Session World) : Type 0 where
    pub password : Bytes
    pub login : Login sys
    pub given : only_arg cmd ≡ some password
    pub ran : authenticate_and_switch_user sys s.conn.username password s.world ≡ ok login
    pub world : s'.world ≡ login.after
    pub mark : s'.conn.authenticated ≡ login.success

  abbrev pub Guarded : Command → Session World → Session World → Type 0
  Guarded cmd s s' =
      DataKept s.conn s'.conn
      × (((s'.world ≡ s.world) × (s'.conn.authenticated ≡ s.conn.authenticated)) ⊎ Attempt cmd s s')

  user-Guarded :
      (cmd : Command) (s : Session World) → Guarded cmd s (cftp_user_authenticated sys cmd s)
  unfolding cftp_user_authenticated user_exists reply send_control_message bufferevent_write
  user-Guarded cmd s = ground arith

  pass_result-Guarded :
      (cmd : Command) (password : Bytes) (login : Login sys) (s s' : Session World)
      → only_arg cmd ≡ some password
      → s.conn.authenticated ≡ false
      → authenticate_and_switch_user sys s.conn.username password s.world ≡ ok login
      → pass_result sys login s ≡ ok s'
      → Guarded cmd s s'
  unfolding pass_result reply send_control_message bufferevent_write free_timer
  pass_result-Guarded cmd password login s s' given out ran h = (
    ground arith,
    inr (record {
      password = password;
      login = login;
      given = given;
      ran = ran;
      world = ground arith;
      mark = ground arith;
    }),
  )

  pass-Guarded :
      (cmd : Command) (s s' : Session World)
      → s.conn.authenticated ≡ false
      → cftp_pass_authenticated sys cmd s ≡ ok s'
      → Guarded cmd s s'
  unfolding cftp_pass_authenticated reply send_control_message bufferevent_write
  pass-Guarded cmd s s' out h = elim (Option-cases (only_arg cmd)) [
    | inl none_given ↦ ground arith
    | inr (password, given) ↦
        let h' : pass_with sys (some password) s ≡ ok s' = rw given at h in
        let (login, ran, rest) =
          >>=-eq-ok (λ login. pass_result sys login s)
            (authenticate_and_switch_user sys s.conn.username password s.world) h' in
        pass_result-Guarded cmd password login s s' given out ran rest
  ]

  pub run_action-Guarded :
      (fuel : ℕ) (range : PortRange) (a : Action) (cmd : Command) (s s' : Session World)
      → is_open a ≡ true
      → s.conn.authenticated ≡ false
      → run_action sys fuel range a cmd s ≡ ok s'
      → Guarded cmd s s'
  unfolding run_action cftp_syst_action cftp_quit_action cftp_auth_action cftp_pbsz_action
      cftp_prot_action cftp_noop_action cftp_feat_action cftp_non_authenticated upgrade_to_tls reply
      send_control_message bufferevent_write
  run_action-Guarded fuel range Action.user cmd s s' open' out h =
      subst (Guarded cmd s) (ok_injective h) (user-Guarded cmd s)
  run_action-Guarded fuel range Action.pass cmd s s' open' out h = pass-Guarded cmd s s' out h
  run_action-Guarded fuel range Action.syst cmd s s' open' out h = ground arith
  run_action-Guarded fuel range Action.auth cmd s s' open' out h = ground arith
  run_action-Guarded fuel range Action.prot cmd s s' open' out h = ground arith
  run_action-Guarded fuel range _ cmd s s' open' out h = ground arith
