-- ===== src/Data/Timers.antt =====
-- The timers of the passive listener.
use cftp_server.Base.{ℕ, ◌≡◌, refl, ◌∙◌, Bool, true, none, some, Bytes, take, ==_iff, if◌then◌else◌}
use cftp_server.Faults.{ok, Returns}
use cftp_server.Connection.{Connection, start_timer, free_timer}
use cftp_server.Control.{send_control_message, bufferevent_write}
use cftp_server.Data.{open_listener, data_connection_accept_cb}
use cftp_server.Data.Source.{data_connection_accept_cb-source}

-- What a client has at the end of a passive exchange on the connection `c`, whose listener `l` has:
-- the data connection is open, the timers are those that `c` had, and nothing more was answered.
pub record Accepted (c l : Connection) (fd : ℕ) (d : Connection) : Type 0 where
  pub opened : d.data_bev ≡ some fd
  pub closed : d.pasv_listener ≡ none
  pub timers : d.timers ≡ c.timers
  pub login : d.authenticated ≡ c.authenticated
  pub told : d.sent ≡ l.sent

-- The connection after both.
accepted : Connection → Bool → ℕ → ℕ → ℕ → Connection
accepted c extended address port fd =
    let d = open_listener extended address (some port) c in
    record d {
      data_active = if d.data_tls_required then 0 else 1;
      pasv_listener = none;
      data_bev = some fd;
      data_low_mark = 0;
      timers = c.timers;
    }

near :
    (c : Connection) (extended : Bool) (address port : ℕ) (ip : Bytes)
    → take 4 c.source_ip ≡ take 4 ip
    → take 4 (open_listener extended address (some port) c).source_ip ≡ take 4 ip
unfolding open_listener start_timer send_control_message bufferevent_write
near c extended address port ip same = same

free_timer-start :
    (c : Connection) (extended : Bool) (address port fd : ℕ)
    → let d = open_listener extended address (some port) c in
      (free_timer (record d {
        data_active = if d.data_tls_required then 0 else 1;
        pasv_listener = none;
        data_bev = some fd;
        data_low_mark = 0;
      })
        ≡ ok (accepted c extended address port fd))
      × Accepted c d fd (accepted c extended address port fd)
unfolding open_listener start_timer free_timer send_control_message bufferevent_write accepted
free_timer-start c extended address port fd =
    let own = (==_iff c.next_timer c.next_timer).1 refl in
    (rw own refl, record { opened = refl; closed = refl; timers = refl; login = refl; told = refl })

-- A listener that was opened on any connection, and then a client from the address of the control
-- connection: the data connection opens without a fault, and exactly the timer of this listener
-- is freed. A timer of an earlier listener is still there.
pub open_listener-Accepted :
    (c : Connection) (extended : Bool) (address port fd : ℕ) (ip : Bytes)
    → take 4 c.source_ip ≡ take 4 ip
    → Returns
        (data_connection_accept_cb true ip fd (open_listener extended address (some port) c))
        (Accepted c (open_listener extended address (some port) c) fd)
open_listener-Accepted c extended address port fd ip same =
    let d = open_listener extended address (some port) c in
    let (run, opened) = free_timer-start c extended address port fd in
    (
      accepted c extended address port fd,
      (data_connection_accept_cb-source true ip fd d).2 (near c extended address port ip same)
          ∙ run,
      opened,
    )
