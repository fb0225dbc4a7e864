-- ===== src/Events/Closing.antt =====
-- The end of a transfer: the events that close the data connection.
use cftp_server.Base.{
  ℕ, ◌≡◌, refl, ◌∙◌, ap, true, false, ◌||◌, none, some, Bytes, arith, if◌then◌else◌,
}
use cftp_server.Faults.{Run, ok, ◌>>=◌, >>=-eq-ok, ok_injective, Returns}
use mathlib.Core.Path.{subst}
use cftp_server.Connection.{Connection, Session, stor_eof}
use cftp_server.Control.{reply, send_control_message, bufferevent_write}
use cftp_server.Data.{close_data_connection, reset_data}
use cftp_server.System.{System}
use cftp_server.Actions.Transfer.{complete_download, on_eof_event_cb, write_input}
use cftp_server.Actions.Listing.{close_on_listcb}
use cftp_server.Events.{
  DataEvent, data_connection_event_cb, on_write, run_control_callback, run_if_set,
  run_data_callback, on_connected,
}

-- The data connection is gone, and none of its callbacks is left.
pub record IsClosed (c : Connection) : Type 0 where
  pub data_bev : c.data_bev ≡ none
  pub active : c.data_active ≡ 0
  pub upload : c.upload_fd ≡ none
  pub read_cb : c.data_read_cb ≡ none
  pub write_cb : c.data_write_cb ≡ none
  pub connected_cb : c.data_tls_event_connected_cb ≡ none
  pub eof_cb : c.data_eof_event_cb ≡ none

close_data_connection-IsClosed : (c : Connection) → IsClosed (close_data_connection c)
unfolding close_data_connection reset_data
close_data_connection-IsClosed c = ground arith

module _ (sys : System) where
  open sys use {World, fsync, close}

  -- Whatever callbacks an event of the data connection runs, after the end of the input, an error
  -- or a timeout the data connection is closed.
  pub data_connection_event_cb-IsClosed :
      (e : DataEvent) (input : Bytes) (s s' : Session World)
      → data_connection_event_cb sys e input s ≡ ok s'
      → (e.eof || e.error || e.timeout) ≡ true
      → IsClosed s'.conn
  unfolding data_connection_event_cb
  data_connection_event_cb-IsClosed e input s s' h ended =
      let finish : Session World → Run (Session World) = λ t. ok (
        if e.eof || e.error || e.timeout
        then record t { conn = close_data_connection t.conn }
        else t) in
      let (s₁, first, rest) =
        >>=-eq-ok {A = Session World} {B = Session World}
          (λ t.
            (if e.eof then run_if_set sys t.conn.data_eof_event_cb true input t else ok t)
            >>= finish)
          (if e.connected then on_connected sys input s else ok s) h in
      let (s₂, second, last) =
        >>=-eq-ok finish
          (if e.eof then run_if_set sys s₁.conn.data_eof_event_cb true input s₁ else ok s₁) rest in
      let same : ok (record s₂ { conn = close_data_connection s₂.conn }) ≡ ok s' =
        rw ended at last in
      subst (λ (t : Session World). IsClosed t.conn) (ok_injective same)
        (close_data_connection-IsClosed s₂.conn)

  -- A download and a plain listing end alike: one answer is sent, and the write event of the
  -- control connection that follows closes the data connection and sends nothing more.
  pub completed-IsClosed :
      (s : Session World)
      → IsClosed (on_write (complete_download sys s).conn)
        × IsClosed (on_write (close_on_listcb sys s).conn)
        × ((on_write (complete_download sys s).conn).sent
            ≡ (reply 226 "Transfer complete" s).conn.sent)
        × ((on_write (close_on_listcb sys s).conn).sent
            ≡ (reply 226 "Directory send OK" s).conn.sent)
  unfolding complete_download close_on_listcb on_write run_control_callback close_data_connection
      reset_data reply send_control_message bufferevent_write
  completed-IsClosed s = ground arith

  -- What the end of an upload leaves, when the rest of its data was written.
  pub record Uploaded (fd : ℕ) (w : World) (s s' : Session World) : Type 0 where
    pub stored : s'.world ≡ close (fsync w fd) fd
    pub closed : IsClosed s'.conn
    pub told : s'.conn.sent ≡ (reply 226 "Transfer complete" s).conn.sent

  -- The session after the callback of an upload.
  answered : ℕ → World → Session World → Session World
  answered fd w s =
      reply 226 "Transfer complete"
        (record { conn = record s.conn { upload_fd = none }; world = close (fsync w fd) fd })

  on_eof_event_cb-answered :
      (s : Session World) (bev fd : ℕ) (input : Bytes) (w : World)
      → s.conn.data_bev ≡ some bev
      → s.conn.upload_fd ≡ some fd
      → write_input sys s.world fd input ≡ ok w
      → on_eof_event_cb sys input s ≡ ok (answered fd w s)
  unfolding on_eof_event_cb answered
  on_eof_event_cb-answered s bev fd input w there file goes = rw (there, file, goes) refl

  sent-close_data_connection : (c : Connection) → (close_data_connection c).sent ≡ c.sent
  unfolding close_data_connection reset_data
  sent-close_data_connection c = ground arith

  run_if_set-answered :
      (s : Session World) (bev fd : ℕ) (input : Bytes) (w : World)
      → s.conn.data_bev ≡ some bev
      → s.conn.upload_fd ≡ some fd
      → s.conn.data_eof_event_cb ≡ some stor_eof
      → write_input sys s.world fd input ≡ ok w
      → run_if_set sys s.conn.data_eof_event_cb true input s ≡ ok (answered fd w s)
  unfolding run_if_set run_data_callback
  run_if_set-answered s bev fd input w there file eof goes =
      ap (λ o. run_if_set sys o true input s) eof
      ∙ on_eof_event_cb-answered s bev fd input w there file goes

  -- When the client ends an upload and the rest of its data goes through to the file, the file is
  -- flushed and closed, the completion is answered, and the data connection is closed.
  pub data_connection_event_cb-Uploaded :
      (s : Session World) (bev fd : ℕ) (input : Bytes) (w : World)
      → s.conn.data_bev ≡ some bev
      → s.conn.upload_fd ≡ some fd
      → s.conn.data_eof_event_cb ≡ some stor_eof
      → write_input sys s.world fd input ≡ ok w
      → Returns
          (data_connection_event_cb sys
            (record { connected = false; timeout = false; error = false; eof = true })
            input
            s)
          (Uploaded fd w s)
  unfolding data_connection_event_cb answered reply send_control_message bufferevent_write
  data_connection_event_cb-Uploaded s bev fd input w there file eof goes =
      let after = answered fd w s in
      let finish : Session World → Run (Session World) =
        λ t. ok (record t { conn = close_data_connection t.conn }) in
      (
        record after { conn = close_data_connection after.conn },
        ap (λ (r : Run (Session World)). r >>= finish)
            (run_if_set-answered s bev fd input w there file eof goes),
        record {
          stored = refl;
          closed = close_data_connection-IsClosed after.conn;
          told = sent-close_data_connection after.conn;
        },
      )
