-- ===== src/Events/Download/Whole.antt =====
-- A download from the command line RETR to its end, on a protected connection and on another.
use cftp_server.Base.{ℕ, suc, ◌≤◌, ◌≡◌, Bool, if◌then◌else◌, some, ◌∷◌, ◌++◌, Bytes, length}
use cftp_server.Faults.{Run, ok, Returns}
use cftp_server.Connection.{Session, send_next_chunk, download_completion}
use cftp_server.Control.{reply}
use cftp_server.Data.{PortRange}
use cftp_server.System.{System}
use cftp_server.System.Files.{Files}
use cftp_server.Actions.Transfer.{low_mark}
use cftp_server.Engine.{Registry}
use cftp_server.Events.Closing.{IsClosed}
use cftp_server.Events.Download.{download_events, received}
use cftp_server.Events.Download.Rest.{run}

module _ (sys : System) (files : Files sys) where
  open sys use {World, open_read, fstat, add_file}

  module _ (fuel : ℕ) (range : PortRange) (r : Registry) where
    -- The session before the first part, on a protected connection.
    streaming : ℕ → World → ℕ → Session World → Session World
    streaming fd w size s = record {
      conn = record (reply 150 "Sending file" (record s { world = w })).conn {
        data_stream = some (record { fd = some fd; offset = 0; filesize = size });
        data_write_cb = some send_next_chunk;
        data_low_mark = low_mark;
      };
      world = w;
    }

    -- The session after RETR on a connection that is not protected.
    queued : ℕ → World → ℕ → Session World → Session World
    queued fd w size s =
        let c = (reply 150 "Sending file" (record s { world = w })).conn in
        let (sent, w') = add_file w fd size in
        record {
          conn = record c {
            data_write_cb = some download_completion;
            data_sent = sent ∷ c.data_sent;
          };
          world = w';
        }

    -- What a whole download leaves: the text was handed to the output of the data connection, which
    -- is closed, and both answers were sent.
    pub record Downloaded (text : Bytes) (s s' : Session World) : Type 0 where
      pub gone : received s'.conn.data_sent ≡ received s.conn.data_sent ++ text
      pub closed : IsClosed s'.conn
      pub told :
          s'.conn.sent ≡ (reply 226 "Transfer complete" (reply 150 "Sending file" s)).conn.sent

    -- What may be in the output at a write event.
    abbrev pub most_queued : Bool → ℕ
    most_queued protected = if protected then low_mark else 0

    -- The run from the end of the action: it ends within so many callbacks, with the text handed
    -- over.
    Goes : (ℕ → ℕ) → Bytes → Session World → Run (Session World) → Type 0
    Goes waits text s started =
        (s₁ : Session World) × (started ≡ ok s₁)
        × ((k : ℕ) × (k ≤ length text)
            × Returns (run sys files fuel range r (download_events waits (suc k)) s₁)
                (Downloaded text s))
