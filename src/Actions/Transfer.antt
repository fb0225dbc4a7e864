-- ===== src/Actions/Transfer.antt =====
-- RETR and STOR: src/actions/retr.c and stor.c, with the callbacks of their data connections.
use cftp_server.Base.{ℕ, ◌+◌, Bool, Option, none, some, [], ◌∷◌, Bytes, length, ◌==◌, if◌then◌else◌}
use cftp_server.Faults.{Run, ok, fault, null_pointer, out_of_fuel, ◌>>=◌}
use cftp_server.Command.{Command}
use cftp_server.Connection.{
  Session, FileStream, close_data_connection_on_writecb, send_next_chunk, download_completion,
  close_on_retr, on_stor_read, stor_eof, stor_tls_connected,
}
use cftp_server.Control.{reply}
use cftp_server.System.{System}
use cftp_server.Actions.Session.{only_arg}

-- FILE_CHUNK_SIZE
abbrev pub file_chunk_size : ℕ
file_chunk_size = 0x4000000

-- `bufferevent_setwatermark(connection->data_bev, EV_WRITE, 128 * 1024, 0)`
abbrev pub low_mark : ℕ
low_mark = 0x20000

module _ (sys : System) where
  open sys use {World, open_read, open_write, fstat, read, add_file, write, close, fsync}

  -- `fs->offset + n == fs->filesize`, where `n` is the result of `read`.
  abbrev reaches_end : FileStream → Option Bytes → Bool
  reaches_end fs none = fs.offset == fs.filesize + 1
  reaches_end fs (some chunk) = fs.offset + length chunk == fs.filesize

  -- An error or the end of the file closes the file; what was read is written and counted.
  unfoldable pub take_chunk : FileStream → Option Bytes → Session World → Session World
  take_chunk fs none s = record s {
    conn = record s.conn { data_stream = some (record fs { fd = none }) };
    world = elim (fs.fd) [ none ↦ s.world | some fd ↦ close s.world fd ];
  }
  take_chunk fs (some []) s = record s {
    conn = record s.conn { data_stream = some (record fs { fd = none }) };
    world = elim (fs.fd) [ none ↦ s.world | some fd ↦ close s.world fd ];
  }
  take_chunk fs (some (b ∷ chunk)) s = record s {
    conn = record s.conn {
      data_sent = (b ∷ chunk) ∷ s.conn.data_sent;
      data_stream = some (record fs { offset = fs.offset + length (b ∷ chunk) });
    };
  }

  -- A read from the descriptor -1 is an error.
  abbrev pub read_stream : FileStream → World → Option Bytes × World
  read_stream fs w = elim (fs.fd) [ none ↦ (none, w) | some fd ↦ read w fd file_chunk_size ]

  -- What `send_next_chunk` does with the result of `read`.
  unfoldable pub send_read : FileStream → Option Bytes → World → Session World → Session World
  unfolding take_chunk
  send_read fs got w s = take_chunk fs got (record {
    conn = record s.conn {
      data_write_cb = if reaches_end fs got then some close_on_retr else s.conn.data_write_cb;
    };
    world = w;
  })

  unfoldable pub on_send_next_chunk : Session World → Run (Session World)
  unfolding send_read
  on_send_next_chunk s = elim (s.conn.data_stream) [
    | none ↦ fault null_pointer
    | some fs ↦ (let (got, w) = read_stream fs s.world in ok (send_read fs got w s))
  ]

  unfoldable pub ftp_send_file_with_evbuffer : Bytes → Session World → Run (Session World)
  ftp_send_file_with_evbuffer path s =
      let (opened, w) = open_read s.world path in
      let s' : Session World = record s { world = w } in
      elim (opened) [
        | none ↦ ok s'
        | some fd ↦ elim (fstat w fd) [
          | none ↦ ok (record s { world = close w fd })
          | some st ↦
              let c = (reply 150 "Sending file" s').conn in
              on_send_next_chunk (record {
                conn = record c {
                  data_stream = some (record { fd = some fd; offset = 0; filesize = st.size });
                  data_write_cb = some send_next_chunk;
                  data_low_mark = low_mark;
                };
                world = w;
              })
        ]
      ]

  unfoldable pub ftp_send_file_plain : Bytes → Session World → Session World
  ftp_send_file_plain path s =
      let (opened, w) = open_read s.world path in
      elim (opened) [
        | none ↦ reply 550 "Failed to open file" (record s { world = w })
        | some fd ↦ elim (fstat w fd) [
          | none ↦ reply 550 "Failed to open file" (record s { world = close w fd })
          | some st ↦
              let c = (reply 150 "Sending file" (record s { world = w })).conn in
              let (sent, w') = add_file w fd st.size in
              record {
                conn = record c {
                  data_write_cb = some download_completion;
                  data_sent = sent ∷ c.data_sent;
                };
                world = w';
              }
        ]
      ]

  -- Without a data connection both ways return at once, and nothing is answered.
  unfoldable pub cftp_send_file : Bytes → Session World → Run (Session World)
  cftp_send_file path s = elim (s.conn.data_bev) [
    | none ↦ ok s
    | some _ ↦
        if s.conn.data_tls_required
        then ftp_send_file_with_evbuffer path s
        else ok (ftp_send_file_plain path s)
  ]

  retr_with : Option Bytes → Session World → Run (Session World)
  retr_with none s = ok (reply 501 "File path not provided" s)
  retr_with (some path) s = cftp_send_file path s

  unfoldable pub cftp_retr_authenticated_action : Command → Session World → Run (Session World)
  unfolding retr_with
  cftp_retr_authenticated_action cmd s = retr_with (only_arg cmd) s

  -- The end of a download: the control connection answers, and then closes the data connection.
  unfoldable pub complete_download : Session World → Session World
  complete_download s = reply 226 "Transfer complete" (record s {
    conn = record s.conn { control_write_cb = some close_data_connection_on_writecb };
  })

  -- `download_completion_on_plain_connection_cb`; the flag says whether the output is empty.
  unfoldable pub on_download_completion : Bool → Session World → Session World
  unfolding complete_download
  on_download_completion drained s = if drained then complete_download s else s

  unfoldable pub cftp_recv_file_with_evbuffer : Bytes → Session World → Session World
  cftp_recv_file_with_evbuffer path s = elim (s.conn.data_bev) [
    | none ↦ reply 425 "Cannot open data connection" s
    | some _ ↦
        let (opened, w) = open_write s.world path in
        elim (opened) [
          | none ↦ reply 550 "Failed to open file for writing" (record {
            conn = record s.conn { control_write_cb = some close_data_connection_on_writecb };
            world = w;
          })
          | some fd ↦
              let c = record s.conn { upload_fd = some fd; data_eof_event_cb = some stor_eof } in
              reply 150 "Read to receive" (record {
                conn =
                    if c.data_tls_required
                    then record c { data_tls_event_connected_cb = some stor_tls_connected }
                    else record c { data_read_cb = some on_stor_read };
                world = w;
              })
        ]
  ]

  stor_with : Option Bytes → Session World → Session World
  stor_with none s = reply 501 "File path not provided" s
  stor_with (some path) s = cftp_recv_file_with_evbuffer path s

  unfoldable pub cftp_stor_authenticated_action : Command → Session World → Session World
  unfolding stor_with
  cftp_stor_authenticated_action cmd s = stor_with (only_arg cmd) s

  -- `tls_on_bev_event_connected` of stor.c
  unfoldable pub on_stor_tls_connected : Session World → Session World
  on_stor_tls_connected s = record s { conn = record s.conn { data_read_cb = some on_stor_read } }

  -- The loop that writes the input to an open file until the input is empty. The result of a call is
  -- not tested: while the calls fail the loop does not end.
  unfoldable pub write_input : World → ℕ → Bytes → Run World
  write_input w fd [] = ok w
  write_input w fd (b ∷ input) = elim (write w fd (b ∷ input)) [
    | none ↦ fault out_of_fuel
    | some w' ↦ ok w'
  ]

  -- Without a file the loop does not end.
  unfoldable pub on_stor_read_cb : Bytes → Session World → Run (Session World)
  on_stor_read_cb [] s = ok s
  on_stor_read_cb (b ∷ input) s = elim (s.conn.upload_fd) [
    | none ↦ fault out_of_fuel
    | some fd ↦ do w ← write_input s.world fd (b ∷ input); ok (record s { world = w })
  ]

  -- `on_eof_event_cb`, with what is left of the input.
  unfoldable pub on_eof_event_cb : Bytes → Session World → Run (Session World)
  on_eof_event_cb input s = elim (s.conn.data_bev) [
    | none ↦ ok s
    | some _ ↦ elim (s.conn.upload_fd) [
      | none ↦ ok (reply 452 "An error occurred" s)
      | some fd ↦ do
        w ← write_input s.world fd input
        ok (
            reply 226 "Transfer complete"
              (record { conn = record s.conn { upload_fd = none }; world = close (fsync w fd) fd }))
    ]
  ]
