-- ===== src/Actions/Replies/Login.antt =====
-- The answers of USER and PASS.
use cftp_server.Base.{refl, inl, inr, true, Option, none, some, Bytes, arith, Bool-cases}
use cftp_server.Status.{ftp_status_codes, is_one_of, is_status}
use cftp_server.Faults.{Gives, Keeps-Gives, >>=-Gives}
use cftp_server.Command.{Command}
use cftp_server.Connection.{Connection, Session, free_timer}
use cftp_server.Control.{reply}
use cftp_server.Control.Replies.{Said, reply-Said}
use cftp_server.System.{System}
use cftp_server.Actions.Frame.{Anything}
use cftp_server.Actions.Replies.{SaidIn}
use cftp_server.Actions.Login.{
  Login, cftp_user_authenticated, user_exists, pass_with, pass_result, admit,
  authenticate_and_switch_user,
}
use cftp_server.Engine.Memory.{authenticate-Keeps}

pub free_timer-Said : (c : Connection) → Said c.sent → Gives (λ d. Said d.sent) (free_timer c)
unfolding free_timer
free_timer-Said c said = ground arith

module _ (sys : System) where
  open sys use {World}

  admit-Said : (s : Session World) → SaidIn s → Gives SaidIn (admit sys s)
  unfolding admit
  admit-Said s said =
      >>=-Gives (λ c. Said c.sent) SaidIn (free_timer (record s.conn { authenticated = true })) _
        (free_timer-Said (record s.conn { authenticated = true }) said) (λ c said'. said')

  pass_result-Said :
      (login : Login sys) (s : Session World) → SaidIn s → Gives SaidIn (pass_result sys login s)
  unfolding pass_result is_status is_one_of ftp_status_codes
  pass_result-Said login s said =
      let s' : Session World = record {
        conn = record s.conn { error_buf = login.message };
        world = login.after;
      } in
      elim (Bool-cases login.success) [
        | inl success ↦
            rw success (admit-Said (reply 230 "User logged in" s') (reply-Said 230 _ s' refl said))
        | inr failure ↦ rw failure (reply-Said 530 _ s' refl said)
      ]

  pub pass_with-Said :
      (given : Option Bytes) (s : Session World) → SaidIn s → Gives SaidIn (pass_with sys given s)
  unfolding pass_with is_status is_one_of ftp_status_codes
  pass_with-Said none s said = grind (arith, reply-Said)
  pass_with-Said (some password) s said =
      >>=-Gives Anything SaidIn (authenticate_and_switch_user sys s.conn.username password s.world)
        _ (Keeps-Gives Anything _ (authenticate-Keeps sys s.conn.username password s.world))
        (λ login _. pass_result-Said login s said)

  pub user-Said :
      (cmd : Command) (s : Session World) → SaidIn s → SaidIn (cftp_user_authenticated sys cmd s)
  unfolding cftp_user_authenticated user_exists is_status is_one_of ftp_status_codes
  user-Said cmd s said = grind (arith, reply-Said)
