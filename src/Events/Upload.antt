-- ===== src/Events/Upload.antt =====
-- An upload: the answer to STOR, and the data that comes in pieces up to its end.
pub mod Whole
use mathlib.Core.List.{append-nil, append_assoc}
use cftp_server.Base.{
  ℕ, ◌+◌, ◌≤◌, ◌<◌, ◌≡◌, refl, sym, ap, ◌∙◌, inl, inr, Bool, true, false, Option, none, some, List,
  [], ◌∷◌, ◌++◌, Bytes, bytes, arith, length, isspace, toupper, Bool-cases, if◌then◌else◌,
}
use mathlib.Core.Path.{subst}
use cftp_server.Faults.{Run, ok, fault, out_of_fuel, ◌>>=◌, >>=-eq-ok, ok_injective, Returns}
use cftp_server.Command.{Command, parse_text_command, max_arg_len}
use cftp_server.Command.Quoting.{render_args, parse_text_command-render_args}
use cftp_server.Connection.{Connection, Session, stor_eof, on_stor_read, stor_tls_connected}
use cftp_server.Control.{reply, send_control_message, bufferevent_write}
use cftp_server.Data.{PortRange}
use cftp_server.System.{System}
use cftp_server.System.Files.{Files}
use cftp_server.Hashmap.{get_ptr_to_value_by_key}
use cftp_server.Actions.Transfer.{
  cftp_stor_authenticated_action, cftp_recv_file_with_evbuffer, on_stor_read_cb,
  on_stor_tls_connected, write_input,
}
use cftp_server.Engine.{Registry, command_actions, diff, stor, non_authenticated, run_action}
use cftp_server.Engine.Registry.{Answers}
use cftp_server.Events.{
  Event, DataEvent, session_step, session_run, control_read, data_read, data_event, input_size,
  run_if_set, run_data_callback, on_connected, data_connection_event_cb,
}
use cftp_server.Events.Closing.{IsClosed, Uploaded, data_connection_event_cb-Uploaded}
use cftp_server.Events.Lines.{fits_arg, read_line, inside, session_run-step}

abbrev pub stor_line : Bytes → Bytes
stor_line path = bytes "STOR" ++ render_args (path ∷ [])

abbrev pub handshake_done : DataEvent
handshake_done = record { connected = true; timeout = false; error = false; eof = false }

abbrev pub end_of_input : DataEvent
end_of_input = record { connected = false; timeout = false; error = false; eof = true }

-- The data in pieces, and what is left in the buffer when the client closes its end.
abbrev pub pieces_events : List Bytes → Bytes → List Event
pieces_events [] rest = data_event end_of_input rest ∷ []
pieces_events (piece ∷ pieces) rest = data_read piece ∷ pieces_events pieces rest

-- On a protected connection the handshake comes first.
abbrev pub upload_events : Bool → List Bytes → Bytes → List Event
upload_events true pieces rest = data_event handshake_done [] ∷ pieces_events pieces rest
upload_events false pieces rest = pieces_events pieces rest

-- What the client sent.
abbrev pub joined : List Bytes → Bytes → Bytes
joined [] rest = rest
joined (piece ∷ pieces) rest = piece ++ joined pieces rest

parse_stor :
    (path : Bytes)
    → length path + 1 < max_arg_len
    → parse_text_command (λ _. true) (stor_line path)
      ≡ record { command = bytes "STOR"; args = path ∷ [] }
unfolding bytes isspace toupper
parse_stor path short =
    parse_text_command-render_args 83 (84 ∷ 79 ∷ 82 ∷ []) (path ∷ [])
      (refl, (refl, (refl, (refl, tt)))) (omega arith) (omega arith) (short, tt)

known_stor :
    {r : Registry}
    → Answers r
    → get_ptr_to_value_by_key r (some (bytes "STOR")) ≡ ok (some (diff stor non_authenticated))
unfolding command_actions
known_stor answers = answers.known.1.1.1.1.1.1.1.1.1.1.1.1.1.1.0

module _ (sys : System) where
  open sys use {World, open_write, close, fsync, write}

  -- An upload is under way.
  record Receiving (fd : ℕ) (s : Session World) : Type 0 where
    bev : ℕ
    opened : s.conn.data_bev ≡ some bev
    upload : s.conn.upload_fd ≡ some fd
    eof_cb : s.conn.data_eof_event_cb ≡ some stor_eof
    read_cb : s.conn.data_read_cb ≡ some on_stor_read

  -- The session after STOR was answered, on a protected connection or on another.
  promised : Bool → ℕ → World → Session World → Session World
  promised protected fd w s =
      let c = record s.conn { upload_fd = some fd; data_eof_event_cb = some stor_eof } in
      reply 150 "Read to receive" (record {
        conn =
            if protected
            then record c { data_tls_event_connected_cb = some stor_tls_connected }
            else record c { data_read_cb = some on_stor_read };
        world = w;
      })

  stor-promised :
      (path : Bytes) (bev fd : ℕ) (w : World) (s : Session World)
      → s.conn.data_bev ≡ some bev
      → open_write s.world path ≡ (some fd, w)
      → cftp_stor_authenticated_action sys (record { command = bytes "STOR"; args = path ∷ [] }) s
        ≡ promised s.conn.data_tls_required fd w s
  unfolding cftp_stor_authenticated_action cftp_recv_file_with_evbuffer promised
  stor-promised path bev fd w s there opens = simp (cftp_recv_file_with_evbuffer, there, opens)

  -- The writes of the data of an upload, piece by piece.
  unfoldable pub write_pieces : World → ℕ → List Bytes → Bytes → Run World
  write_pieces w fd [] rest = write_input sys w fd rest
  write_pieces w fd (piece ∷ pieces) rest = do
    w' ← write_input sys w fd piece
    write_pieces w' fd pieces rest

  module _ (files : Files sys) where
    write_input-content :
        (w w' : World) (path : Bytes) (fd : ℕ) (text : Bytes)
        → files.IsWriting w fd path
        → write_input sys w fd text ≡ ok w'
        → files.IsWriting w' fd path × (files.content w' path ≡ files.content w path ++ text)
    unfolding write_input
    write_input-content w w' path fd [] h goes =
        subst (λ x. files.IsWriting x fd path × (files.content x path ≡ files.content w path ++ []))
          (ok_injective goes) (h, sym (append-nil (files.content w path)))
    write_input-content w w' path fd (b ∷ text) h goes =
        files.written w w' path fd (b ∷ text) h (through (write w fd (b ∷ text)) goes)
      where
        through :
            (o : Option World)
            → elim o as (λ _. Run World) [ none ↦ fault out_of_fuel | some x ↦ ok x ] ≡ ok w'
            → o ≡ some w'
        through none e = absurd cc
        through (some x) e = ap some (ok_injective e)

    write_pieces-content :
        (w w' : World) (path : Bytes) (fd : ℕ) (pieces : List Bytes) (rest : Bytes)
        → files.IsWriting w fd path
        → write_pieces w fd pieces rest ≡ ok w'
        → files.content w' path ≡ files.content w path ++ joined pieces rest
    unfolding write_pieces
    write_pieces-content w w' path fd [] rest h goes =
        (write_input-content w w' path fd rest h goes).1
    write_pieces-content w w' path fd (piece ∷ pieces) rest h goes =
        let (w₁, first, later) =
          >>=-eq-ok (λ x. write_pieces x fd pieces rest) (write_input sys w fd piece) goes in
        let (writing, now) = write_input-content w w₁ path fd piece h first in
        write_pieces-content w₁ w' path fd pieces rest writing later
        ∙ ap (λ (x : Bytes). x ++ joined pieces rest) now
        ∙ append_assoc (files.content w path) piece (joined pieces rest)

  module _ (fuel : ℕ) (range : PortRange) (r : Registry) where
    abbrev run : List Event → Session World → Run (Session World)
    run = session_run sys (λ _. true) fuel range r

    abbrev step : Event → Session World → Run (Session World)
    step = session_step sys (λ _. true) fuel range r

    runs_on_stor_read :
        (fd : ℕ) (piece : Bytes) (s : Session World)
        → Receiving fd s
        → step (data_read piece) s ≡ on_stor_read_cb sys piece s
    unfolding session_step run_if_set run_data_callback
    runs_on_stor_read fd piece s h =
        ap
          (λ (o : Option ℕ). elim o [
            | none ↦ ok s
            | some _ ↦ run_if_set sys s.conn.data_read_cb true piece s
          ])
          h.opened
        ∙ ap (λ cb. run_if_set sys cb true piece s) h.read_cb

    read_piece :
        (fd : ℕ) (piece : Bytes) (w : World) (s : Session World)
        → Receiving fd s
        → write_input sys s.world fd piece ≡ ok w
        → step (data_read piece) s ≡ ok (record s { world = w })
    unfolding on_stor_read_cb
    read_piece fd [] w s h goes =
        runs_on_stor_read fd [] s h
        ∙ ap (λ x. ok (record s { world = x })) (ok_injective (unfold write_input in goes))
    read_piece fd (b ∷ piece) w s h goes =
        runs_on_stor_read fd (b ∷ piece) s h ∙ simp (on_stor_read_cb, h.upload, goes)

    end_upload :
        (fd : ℕ) (rest : Bytes) (s : Session World)
        → Receiving fd s
        → step (data_event end_of_input rest) s ≡ data_connection_event_cb sys end_of_input rest s
    unfolding session_step
    end_upload fd rest s h = rw h.opened refl

    receive :
        (fd : ℕ) (pieces : List Bytes) (rest : Bytes) (w : World) (s : Session World)
        → Receiving fd s
        → write_pieces s.world fd pieces rest ≡ ok w
        → Returns (run (pieces_events pieces rest) s) (Uploaded sys fd w s)
    unfolding write_pieces session_run reply
    receive fd [] rest w s h goes =
        let (s', ran, done) =
          data_connection_event_cb-Uploaded sys s h.bev fd rest w h.opened h.upload h.eof_cb goes in
        (s', rw (end_upload fd rest s h, ran) refl, done)
    receive fd (piece ∷ pieces) rest w s h goes =
        let (w₁, first, later) =
          >>=-eq-ok (λ x. write_pieces x fd pieces rest) (write_input sys s.world fd piece) goes in
        let s₁ : Session World = record s { world = w₁ } in
        let still : Receiving fd s₁ = record {
          bev = h.bev;
          opened = h.opened;
          upload = h.upload;
          eof_cb = h.eof_cb;
          read_cb = h.read_cb;
        } in
        let (s', ran, done) = receive fd pieces rest w s₁ still later in
        (
          s',
          rw (read_piece fd piece w₁ s h first) ran,
          record { stored = done.stored; closed = done.closed; told = done.told },
        )
