-- ===== src/Events/Download.antt =====
-- A whole download: from the command line RETR over the parts of the file, each read when the
-- output of the data connection has gone, to the end.
pub mod Rest
pub mod Whole
use mathlib.Core.List.{append-nil, append_assoc}
use mathlib.Core.Path.{subst}
use cftp_server.Base.{
  ℕ, zero, suc, ◌+◌, ◌-◌, ◌*◌, ◌≤◌, ◌<◌, ◌≡◌, refl, sym, ap, ◌∙◌, inl, inr, Bool, true, false,
  Option, none, some, List, [], ◌∷◌, ◌++◌, String, snprintf, Bytes, bytes, arith, length,
  length-append, length-take, length-drop, take, drop, take-drop, take_all, Bool-cases, ==_iff,
  ◌==◌, if◌then◌else◌,
}
use cftp_server.Faults.{Run, ok, fault, null_pointer, ◌>>=◌, Returns}
use cftp_server.Command.{Command}
use cftp_server.Command.Quoting.{render_args}
use cftp_server.Connection.{
  Channel, Connection, DataCallback, Session, FileStream, send_next_chunk, close_on_retr,
  download_completion,
}
use cftp_server.Control.{
  max_response_buffer_length, response_text, reply, send_control_message, bufferevent_write,
}
use cftp_server.Data.{PortRange, close_data_connection, reset_data}
use cftp_server.System.{System, Stat}
use cftp_server.System.Files.{Files}
use cftp_server.Actions.Transfer.{
  cftp_retr_authenticated_action, cftp_send_file, ftp_send_file_with_evbuffer, ftp_send_file_plain,
  on_send_next_chunk, on_download_completion, complete_download, take_chunk, send_read, read_stream,
  file_chunk_size,
}
use cftp_server.Engine.{Registry, run_action}
use cftp_server.Events.{
  Event, session_step, session_run, control_read, control_written, data_written, input_size,
  run_if_set, run_data_callback, run_control_callback, on_write,
}
use cftp_server.Events.Closing.{IsClosed, completed-IsClosed}
use cftp_server.Events.Lines.{fits_arg, read_line, inside, session_run-step}

abbrev pub retr_line : Bytes → Bytes
retr_line path = bytes "RETR" ++ render_args (path ∷ [])

-- So many write events of the data connection, with so many bytes still in its output at each, the
-- last with `queued 0`, and then the write event of the control connection.
abbrev pub download_events : (ℕ → ℕ) → ℕ → List Event
download_events queued zero = control_written ∷ []
download_events queued (suc n) = data_written (queued n) ∷ download_events queued n

-- What was handed to the output of the data connection, the latest last.
abbrev pub received : List Bytes → Bytes
received [] = []
received (piece ∷ pieces) = received pieces ++ piece

-- Nothing is left behind a part that is empty.
drop-nil : (n : ℕ) (xs : Bytes) → 0 < n → take n xs ≡ [] → drop n xs ≡ []
drop-nil zero xs h e = absurd (omega arith)
drop-nil (suc n) [] h e = refl
drop-nil (suc n) (x ∷ xs) h e = absurd cc

module _ (sys : System) (files : Files sys) where
  open sys use {World, open_read, fstat, read, add_file}

  -- What the next callback of a download finds: the whole file was handed over, or the stream stands
  -- where so much of the file is left.
  data Stage (fd : ℕ) (rest : Bytes) (s : Session World) : Type 0 where
    complete : rest ≡ [] → s.conn.data_write_cb ≡ some close_on_retr → Stage fd rest s
    more :
        (offset : ℕ)
        → 0 < length rest
        → files.IsReading s.world fd
        → files.left s.world fd ≡ rest
        → s.conn.data_write_cb ≡ some send_next_chunk
        → s.conn.data_stream
          ≡ some (record { fd = some fd; offset = offset; filesize = offset + length rest })
        → Stage fd rest s

  -- A part of a file was handed over.
  record PartSent (fd : ℕ) (part later : Bytes) (s s' : Session World) : Type 0 where
    pub stage : Stage fd later s'
    pub opened : s'.conn.data_bev ≡ s.conn.data_bev
    pub low : s'.conn.data_low_mark ≡ s.conn.data_low_mark
    pub gone : received s'.conn.data_sent ≡ received s.conn.data_sent ++ part
    pub quiet : (s'.conn.sent ≡ s.conn.sent) × (s'.conn.bev ≡ s.conn.bev)

  chosen :
      (x y : Option DataCallback) (b c : Bool) → b ≡ c → (if b then x else y) ≡ (if c then x else y)
  chosen x y b c e = ap (λ (d : Bool). if d then x else y) e

  send_read-PartSent :
      (fd offset : ℕ) (part later : Bytes) (w : World) (s : Session World)
      → files.IsReading w fd
      → files.left w fd ≡ later
      → (part ≡ [] → later ≡ [])
      → s.conn.data_write_cb ≡ some send_next_chunk
      → PartSent fd part later s (
          send_read sys
            (record { fd = some fd; offset = offset; filesize = offset + length (part ++ later) })
            (some part)
            w
            s)
  unfolding send_read take_chunk
  send_read-PartSent fd offset [] later w s reads left last cb =
      let none_left = last refl in
      let ends : (offset + 0 == offset + length later) ≡ true =
        (==_iff (offset + 0) (offset + length later)).1 (rw none_left refl) in
      record {
        stage = complete none_left (chosen (some close_on_retr) s.conn.data_write_cb _ true ends);
        opened = refl;
        low = refl;
        gone = sym (append-nil (received s.conn.data_sent));
        quiet = (refl, refl);
      }
  send_read-PartSent fd offset (b ∷ part) [] w s reads left last cb =
      let ends : (offset + suc (length part) == offset + suc (length (part ++ []))) ≡ true =
        (==_iff (offset + suc (length part)) (offset + suc (length (part ++ [])))).1
          (omega (arith, length-append part [])) in
      record {
        stage = complete refl (chosen (some close_on_retr) s.conn.data_write_cb _ true ends);
        opened = refl;
        low = refl;
        gone = refl;
        quiet = (refl, refl);
      }
  send_read-PartSent fd offset (b ∷ part) (c ∷ later) w s reads left last cb =
      let longer = length-append part (c ∷ later) in
      let goes_on : (offset + suc (length part) == offset + suc (length (part ++ c ∷ later)))
          ≡ false =
        ground (arith, longer) in
      let further : offset + suc (length (part ++ c ∷ later))
          ≡ offset + suc (length part) + suc (length later) =
        omega (arith, longer) in
      record {
        stage =
            more (offset + suc (length part)) (omega arith) reads left
              (chosen (some close_on_retr) s.conn.data_write_cb _ false goes_on ∙ cb)
              (ap
                (λ z.
                  some (record { fd = some fd; offset = offset + suc (length part); filesize = z }))
                further);
        opened = refl;
        low = refl;
        gone = refl;
        quiet = (refl, refl);
      }

  -- One call of `send_next_chunk`, from where the stream stands.
  on_send_next_chunk-PartSent :
      (fd offset : ℕ) (rest : Bytes) (s : Session World)
      → files.IsReading s.world fd
      → files.left s.world fd ≡ rest
      → s.conn.data_write_cb ≡ some send_next_chunk
      → s.conn.data_stream
        ≡ some (record { fd = some fd; offset = offset; filesize = offset + length rest })
      → Returns
          (on_send_next_chunk sys s)
          (PartSent fd (take file_chunk_size rest) (drop file_chunk_size rest) s)
  unfolding on_send_next_chunk
  on_send_next_chunk-PartSent fd offset rest s reads left cb stream =
      let part = take file_chunk_size rest in
      let later = drop file_chunk_size rest in
      let (got, after, reads') = files.taken s.world fd file_chunk_size reads in
      let w = (read s.world fd file_chunk_size).1 in
      let whole = sym (take-drop file_chunk_size rest) in
      let fs : FileStream = record {
        fd = some fd;
        offset = offset;
        filesize = offset + length (part ++ later);
      } in
      let stream' : s.conn.data_stream ≡ some fs =
        stream
        ∙ ap
            (λ (x : Bytes).
              some (record { fd = some fd; offset = offset; filesize = offset + length x }))
            whole in
      (
        send_read sys fs (some part) w s,
        ap
              (λ (o : Option FileStream). elim o [
                | none ↦ fault null_pointer
                | some f ↦ (let (g, w') = read_stream sys f s.world in ok (send_read sys f g w' s))
              ])
              stream'
            ∙ ap (λ g. ok (send_read sys fs g w s))
                (got ∙ ap (λ x. some (take file_chunk_size x)) left),
        send_read-PartSent fd offset part later w s reads'
            (after ∙ ap (λ x. drop file_chunk_size x) left)
            (drop-nil file_chunk_size rest (omega arith)) cb,
      )
