-- ===== src/Events/Download/Rest.antt =====
-- A download from any stage to its end: the callbacks for the rest of the file, and the answer.
use mathlib.Core.List.{append-nil, append_assoc}
use cftp_server.Base.{
  ℕ, zero, suc, ◌≤◌, ◌≡◌, refl, sym, ap, ◌∙◌, true, Option, none, some, List, [], ◌∷◌, ◌++◌, String,
  snprintf, Bytes, bytes, arith, length, length-drop, take, drop, take-drop, leb, ◌==◌, Bool,
  if◌then◌else◌,
}
use cftp_server.Faults.{Run, ok, Returns}
use cftp_server.Connection.{Channel, DataCallback, Session, send_next_chunk, close_on_retr}
use cftp_server.Control.{
  max_response_buffer_length, response_text, reply, send_control_message, bufferevent_write,
}
use cftp_server.Data.{PortRange, close_data_connection, reset_data}
use cftp_server.System.{System}
use cftp_server.System.Files.{Files}
use cftp_server.Actions.Transfer.{complete_download, file_chunk_size}
use cftp_server.Engine.{Registry}
use cftp_server.Events.{
  Event, session_step, session_run, control_written, data_written, run_if_set, run_data_callback,
  run_control_callback, on_write,
}
use cftp_server.Events.Closing.{IsClosed, completed-IsClosed}
use cftp_server.Events.Lines.{session_run-step}
use cftp_server.Events.Download.{
  download_events, received, Stage, complete, more, on_send_next_chunk-PartSent,
}

module _ (sys : System) (files : Files sys) where
  open sys use {World}

  pub same_answer :
      (status : ℕ) (text : String) (s s' : Session World)
      → (s'.conn.sent ≡ s.conn.sent) × (s'.conn.bev ≡ s.conn.bev)
      → (reply status text s').conn.sent ≡ (reply status text s).conn.sent
  unfolding reply send_control_message bufferevent_write
  same_answer status text s s' (sent, bev) =
      let out = snprintf max_response_buffer_length (response_text status (bytes text)) in
      ap
        (λ (o : Option Channel). elim o [
          | none ↦ s'.conn.sent
          | some ch ↦ (ch, out) ∷ s'.conn.sent
        ])
        bev
      ∙ ap (λ (l : List (Channel × Bytes)). elim s.conn.bev [ none ↦ l | some ch ↦ (ch, out) ∷ l ])
          sent

  -- What a download leaves: the text was handed to the data connection, which is closed, and the
  -- end was answered.
  pub record Delivered (text : Bytes) (s s' : Session World) : Type 0 where
    pub gone : received s'.conn.data_sent ≡ received s.conn.data_sent ++ text
    pub closed : IsClosed s'.conn
    pub told : s'.conn.sent ≡ (reply 226 "Transfer complete" s).conn.sent

  -- The end of a download, with the write event of the control connection.
  pub ended : Session World → Session World
  ended s = record (complete_download sys s) { conn = on_write (complete_download sys s).conn }

  data_sent-ended : (s : Session World) → (ended s).conn.data_sent ≡ s.conn.data_sent
  unfolding ended on_write run_control_callback complete_download close_data_connection reset_data
      reply send_control_message bufferevent_write
  data_sent-ended s = ground arith

  pub ended-Delivered : (s : Session World) → Delivered [] s (ended s)
  unfolding ended
  ended-Delivered s =
      let (closed, _, told, _) = completed-IsClosed sys s in
      record {
        gone = ap received (data_sent-ended s) ∙ sym (append-nil (received s.conn.data_sent));
        closed = closed;
        told = told;
      }

  module _ (fuel : ℕ) (range : PortRange) (r : Registry) where
    abbrev pub run : List Event → Session World → Run (Session World)
    run = session_run sys (λ _. true) fuel range r

    abbrev step : Event → Session World → Run (Session World)
    step = session_step sys (λ _. true) fuel range r

    pub drained :
        (bev queued : ℕ) (cb : DataCallback) (s : Session World)
        → s.conn.data_bev ≡ some bev
        → s.conn.data_write_cb ≡ some cb
        → queued ≤ s.conn.data_low_mark
        → step (data_written queued) s ≡ run_data_callback sys cb (queued == 0) [] s
    unfolding session_step run_if_set
    drained bev queued cb s there set low =
        let comes : leb queued s.conn.data_low_mark ≡ true = ground arith in
        ap
          (λ (o : Option ℕ). elim o [
            | none ↦ ok s
            | some _ ↦
                if leb queued s.conn.data_low_mark
                then run_if_set sys s.conn.data_write_cb (queued == 0) [] s
                else ok s
          ])
          there
        ∙ ap
            (λ (b : Bool).
              if b then run_if_set sys s.conn.data_write_cb (queued == 0) [] s else ok s)
            comes
        ∙ ap (λ o. run_if_set sys o (queued == 0) [] s) set

    pub end_run :
        (s : Session World) → run (control_written ∷ []) (complete_download sys s) ≡ ok (ended s)
    unfolding session_run session_step ended
    end_run s = refl

    -- From any stage, the file is handed over to its end, with at most one callback for each byte,
    -- however many bytes up to the low mark each of them finds in the output.
    pub send_on :
        (queued : ℕ → ℕ) (n fd bev : ℕ) (rest : Bytes) (s : Session World)
        → ((i : ℕ) → queued i ≤ s.conn.data_low_mark)
        → length rest ≤ n
        → s.conn.data_bev ≡ some bev
        → Stage sys files fd rest s
        → (k : ℕ) × (k ≤ n) × Returns (run (download_events queued (suc k)) s) (Delivered rest s)
    unfolding run_data_callback
    send_on queued n fd bev rest s low short there (complete nothing cb) = (
      0,
      omega arith,
      (
        ended s,
        session_run-step sys fuel range r (λ _. true) (data_written (queued 0))
              (control_written ∷ []) s (complete_download sys s)
              (drained bev (queued 0) close_on_retr s there cb (low 0))
            ∙ end_run s,
        rw nothing (ended-Delivered s),
      ),
    )
    send_on queued zero fd bev rest s low short there (more offset some_left reads left cb stream) =
        absurd (omega arith)
    send_on queued (suc n) fd bev rest s low short there
          (more offset some_left reads left cb stream) =
        let part = take file_chunk_size rest in
        let later = drop file_chunk_size rest in
        let (s₁, ran₁, out) =
          on_send_next_chunk-PartSent sys files fd offset rest s reads left cb stream in
        let shorter : length later ≤ n = omega (arith, length-drop file_chunk_size rest) in
        let (k, few, (s', ran, done)) =
          send_on queued n fd bev later s₁ (λ i. rw out.low (low i)) shorter (out.opened ∙ there)
            out.stage in
        (
          suc k,
          omega arith,
          (
            s',
            session_run-step sys fuel range r (λ _. true) (data_written (queued (suc k)))
                  (download_events queued (suc k)) s s₁
                  (drained bev (queued (suc k)) send_next_chunk s there cb (low (suc k)) ∙ ran₁)
                ∙ ran,
            record {
              gone =
                  done.gone
                  ∙ ap (λ x. x ++ later) out.gone
                  ∙ append_assoc (received s.conn.data_sent) part later
                  ∙ ap (λ x. received s.conn.data_sent ++ x) (take-drop file_chunk_size rest);
              closed = done.closed;
              told = done.told ∙ same_answer 226 "Transfer complete" s s₁ out.quiet;
            },
          ),
        )
