-- ===== src/Tests/Transfers.antt =====
-- Events of a session: before the login, and at the end of an upload.
use cftp_server.Base.{ℕ, ◌≡◌, refl, Bool, true, false, some, [], ◌∷◌}
use cftp_server.Faults.{Returns}
use cftp_server.Connection.{Session, stor_eof}
use cftp_server.Control.{reply}
use cftp_server.Actions.Transfer.{complete_download}
use cftp_server.Actions.Listing.{close_on_listcb}
use cftp_server.Events.{DataEvent, data_connection_event_cb, on_write}
use cftp_server.Events.Closing.{
  IsClosed, Uploaded, data_connection_event_cb-IsClosed, completed-IsClosed,
  data_connection_event_cb-Uploaded,
}
use cftp_server.Actions.Transfer.{write_input, complete_download}
use cftp_server.Tests.Fixture.{small_system, fresh}

abbrev always : ℕ → Bool
always n = true

-- An upload to the descriptor 7, on the data connection 9.
abbrev uploading : Session ℕ
uploading = record {
  conn = record fresh { data_bev = some 9; upload_fd = some 7; data_eof_event_cb = some stor_eof };
  world = 0;
}

abbrev end_of_input : DataEvent
end_of_input = record { connected = false; timeout = false; error = false; eof = true }

uploaded :
    Returns
      (data_connection_event_cb small_system end_of_input (65 ∷ 66 ∷ []) uploading)
      (Uploaded small_system 7 1 uploading)
unfolding write_input
uploaded =
    data_connection_event_cb-Uploaded small_system uploading 9 7 (65 ∷ 66 ∷ []) 1 refl refl refl
      refl

data_connection_event_cb-IsClosed_example : IsClosed uploaded.0.conn
data_connection_event_cb-IsClosed_example =
    data_connection_event_cb-IsClosed small_system end_of_input (65 ∷ 66 ∷ []) uploading uploaded.0
      uploaded.1 refl

completed-IsClosed_example :
    IsClosed (on_write (complete_download small_system uploading).conn)
    × IsClosed (on_write (close_on_listcb small_system uploading).conn)
    × ((on_write (complete_download small_system uploading).conn).sent
        ≡ (reply 226 "Transfer complete" uploading).conn.sent)
    × ((on_write (close_on_listcb small_system uploading).conn).sent
        ≡ (reply 226 "Directory send OK" uploading).conn.sent)
completed-IsClosed_example = completed-IsClosed small_system uploading
