-- ===== src/Events/Upload/Whole.antt =====
-- A whole upload: from the command line STOR over the data that comes in pieces to its end.
use cftp_server.Base.{
  ℕ, ◌+◌, ◌≤◌, ◌≡◌, refl, ap, ◌∙◌, Bool, true, false, Option, none, some, List, [], ◌∷◌, ◌++◌,
  Bytes, bytes, length, if◌then◌else◌,
}
use cftp_server.Faults.{Run, ok, ◌>>=◌, Returns}
use cftp_server.Connection.{Session, on_stor_read, stor_tls_connected}
use cftp_server.Control.{reply, send_control_message, bufferevent_write}
use cftp_server.Data.{PortRange}
use cftp_server.System.{System}
use cftp_server.System.Files.{Files}
use cftp_server.Actions.Transfer.{on_stor_tls_connected}
use cftp_server.Engine.{Registry, stor, non_authenticated, run_action}
use cftp_server.Engine.Registry.{Answers}
use cftp_server.Events.{
  session_step, control_read, data_event, input_size, run_if_set, run_data_callback, on_connected,
  data_connection_event_cb,
}
use cftp_server.Events.Closing.{IsClosed}
use cftp_server.Events.Lines.{fits_arg, read_line, inside, session_run-step}
use cftp_server.Events.Upload.{
  stor_line, handshake_done, pieces_events, upload_events, joined, parse_stor, known_stor, promised,
  stor-promised, write_pieces, write_pieces-content, receive, run, step,
}

module _ (sys : System) where
  open sys use {World, open_write, close, fsync}

  module _ (fuel : ℕ) (range : PortRange) (r : Registry) where
    -- The handshake of the data connection.
    shaken : Session World → Session World
    shaken s = record s {
      conn = record s.conn {
        data_active = s.conn.data_active + 1;
        data_read_cb = some on_stor_read;
      };
    }

    shake :
        (bev : ℕ) (s : Session World)
        → s.conn.data_bev ≡ some bev
        → s.conn.data_tls_required ≡ true
        → s.conn.data_tls_event_connected_cb ≡ some stor_tls_connected
        → step sys fuel range r (data_event handshake_done []) s ≡ ok (shaken s)
    unfolding session_step data_connection_event_cb on_connected run_if_set run_data_callback
        on_stor_tls_connected shaken
    shake bev s there protected cb =
        let s₁ : Session World = record s {
          conn = record s.conn { data_active = s.conn.data_active + 1 };
        } in
        let close_if : Session World → Run (Session World) = λ t. ok t in
        ap
          (λ (o : Option ℕ). elim o [
            | none ↦ ok s
            | some _ ↦ data_connection_event_cb sys handshake_done [] s
          ])
          there
        ∙ ap
            (λ (b : Bool).
              (if b then run_if_set sys s.conn.data_tls_event_connected_cb true [] s₁ else ok s₁)
              >>= close_if)
            protected
        ∙ ap (λ o. run_if_set sys o true [] s₁ >>= close_if) cb

    module _ (files : Files sys) where
      -- What a whole upload leaves: the file, the closed connection and the two answers.
      pub record Stored (path text : Bytes) (s s' : Session World) : Type 0 where
        pub stored : files.content s'.world path ≡ text
        pub closed : IsClosed s'.conn
        pub told :
            s'.conn.sent ≡ (reply 226 "Transfer complete" (reply 150 "Read to receive" s)).conn.sent

      all_written :
          (path : Bytes) (fd : ℕ) (w w₀ w₁ w' : World) (pieces : List Bytes) (rest : Bytes)
          → open_write w₀ path ≡ (some fd, w)
          → write_pieces sys w fd pieces rest ≡ ok w₁
          → w' ≡ close (fsync w₁ fd) fd
          → files.content w' path ≡ joined pieces rest
      all_written path fd w w₀ w₁ w' pieces rest opens goes left =
          let (writing, empty) = files.opened_empty w₀ w path fd opens in
          ap (λ x. files.content x path) left
          ∙ files.flushed w₁ path fd
          ∙ write_pieces-content sys files w w₁ path fd pieces rest writing goes
          ∙ ap (λ x. x ++ joined pieces rest) empty

      finish :
          (path : Bytes) (bev fd : ℕ) (w w₁ : World) (pieces : List Bytes) (rest : Bytes)
          (protected : Bool) (s : Session World)
          → s.conn.data_bev ≡ some bev
          → s.conn.data_tls_required ≡ protected
          → open_write s.world path ≡ (some fd, w)
          → write_pieces sys w fd pieces rest ≡ ok w₁
          → Returns
              (run sys fuel range r
                (upload_events protected pieces rest)
                (promised sys protected fd w s))
              (Stored path (joined pieces rest) s)
      unfolding promised shaken reply send_control_message bufferevent_write
      finish path bev fd w w₁ pieces rest false s there plain opens goes =
          let (s', ran, done) =
            receive sys fuel range r fd pieces rest w₁ (promised sys false fd w s)
              (record { bev = bev; opened = there; upload = refl; eof_cb = refl; read_cb = refl })
              goes in
          (
            s',
            ran,
            record {
              stored = all_written path fd w s.world w₁ s'.world pieces rest opens goes done.stored;
              closed = done.closed;
              told = done.told;
            },
          )
      finish path bev fd w w₁ pieces rest true s there protected opens goes =
          let (s', ran, done) =
            receive sys fuel range r fd pieces rest w₁ (shaken (promised sys true fd w s))
              (record { bev = bev; opened = there; upload = refl; eof_cb = refl; read_cb = refl })
              goes in
          let shaken_first =
            session_run-step sys fuel range r (λ _. true) (data_event handshake_done [])
              (pieces_events pieces rest) (promised sys true fd w s)
              (shaken (promised sys true fd w s))
              (shake bev (promised sys true fd w s) there protected refl) in
          (
            s',
            shaken_first ∙ ran,
            record {
              stored = all_written path fd w s.world w₁ s'.world pieces rest opens goes done.stored;
              closed = done.closed;
              told = done.told;
            },
          )

      -- A client that is logged in and has a data connection sends STOR with the path of a file,
      -- in a line that fits the input, and the file opens. If the writes of the data, piece by piece,
      -- go through, then the data that comes in any pieces, after the handshake on a protected
      -- connection, up to the end of the input, is the content of the file at last; the two answers
      -- are sent, and the data connection is closed. The registry answers as the table of commands
      -- says, and the system keeps files as documented.
      pub stor-Stored :
          (path : Bytes) (bev fd : ℕ) (w w₁ : World) (pieces : List Bytes) (rest : Bytes)
          (s : Session World)
          → Answers r
          → s.conn.authenticated ≡ true
          → s.conn.data_bev ≡ some bev
          → length (stor_line path) ≤ input_size
          → open_write s.world path ≡ (some fd, w)
          → write_pieces sys w fd pieces rest ≡ ok w₁
          → Returns
              (run sys fuel range r
                (control_read (stor_line path) ∷ upload_events s.conn.data_tls_required pieces rest)
                s)
              (Stored path (joined pieces rest) s)
      unfolding run_action
      stor-Stored path bev fd w w₁ pieces rest s answers within there fits opens goes =
          let protected = s.conn.data_tls_required in
          let (s', ran, done) =
            finish path bev fd w w₁ pieces rest protected s there refl opens goes in
          let line =
            read_line sys fuel range r (stor_line path) _ _ s fits
              (parse_stor path (fits_arg (bytes "STOR") path fits)) (known_stor answers)
            ∙ inside sys fuel range r stor non_authenticated _ s within
            ∙ ap ok (stor-promised sys path bev fd w s there opens) in
          (
            s',
            session_run-step sys fuel range r (λ _. true) (control_read (stor_line path))
                  (upload_events protected pieces rest) s (promised sys protected fd w s) line
                ∙ ran,
            done,
          )
