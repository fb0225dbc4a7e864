-- ===== src/Control.antt =====
-- src/engine/control_handler.c: messages on the control connection, the upgrade to TLS, and the
-- events of the control connection; with the callbacks of src/core/connection.c that they run.
pub mod Framing
pub mod Replies
use cftp_server.Base.{
  ℕ, suc, ◌+◌, Bool, true, false, Option, none, some, List, [], ◌∷◌, ◌++◌, String, Bytes, bytes,
  snprintf, ◌==◌, if◌then◌else◌,
}
use cftp_server.Decimal.{decimal}
use cftp_server.Connection.{
  Connection, Session, ControlCallback, close_data_connection_on_writecb, disable_connection_cb,
  Channel, plaintext, tls,
}

-- MAX_RESPONSE_BUFFER_LENGTH
abbrev pub max_response_buffer_length : ℕ
max_response_buffer_length = 0x100

abbrev pub crlf : Bytes
crlf = 13 ∷ 10 ∷ []

-- The text that `send_control_message` formats, before it is cut to the buffer.
unfoldable pub response_text : ℕ → Bytes → Bytes
response_text status text =
    if status == 0 then text ++ crlf else decimal status ++ 32 ∷ (text ++ crlf)

-- `bufferevent_write` on the control connection
unfoldable pub bufferevent_write : Connection → Bytes → Connection
bufferevent_write c text = record c {
  sent = elim (c.bev) [ none ↦ c.sent | some channel ↦ (channel, text) ∷ c.sent ];
}

unfoldable pub send_control_message : Connection → ℕ → Bytes → Connection
send_control_message c status text =
    bufferevent_write c (snprintf max_response_buffer_length (response_text status text))

-- The deprecated way to answer, without the status and the limit.
unfoldable pub write_text_response : Connection → Bytes → Connection
write_text_response c text = bufferevent_write c text

-- A reply whose text is a literal of the source.
unfoldable pub reply : {W : Type 0} → ℕ → String → Session W → Session W
reply status text s = record s { conn = send_control_message s.conn status (bytes text) }

-- The new bufferevent is the TLS filter over the old one.
unfoldable pub upgrade_to_tls : Connection → Connection
upgrade_to_tls c = record (send_control_message c 234 (bytes "AUTH TLS Success")) {
  bev = some tls;
  upgraded_to_tls = true;
}

-- `disable_connection_cb` of src/core/connection.c; the freed bufferevent is not used again.
unfoldable pub disable_connection : Connection → Connection
disable_connection c = record c { bev = none; stopped = true }

unfoldable pub terminate_process : Connection → Connection
terminate_process c =
    send_control_message (record c { control_write_cb = some disable_connection_cb }) 421
      (bytes "Control connection timed out !")
