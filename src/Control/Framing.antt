-- ===== src/Control/Framing.antt =====
-- What `send_control_message` puts on the control connection.
use mathlib.Core.List.{append_assoc}
use cftp_server.Base.{
  ℕ, zero, suc, ◌+◌, ◌≤◌, ◌≡◌, ◌≢◌, refl, ap, ◌∙◌, some, [], ◌∷◌, ◌++◌, Bytes, arith, length,
  length-append, Bool-cases, inl, inr, take, take_all, ◌==◌,
}
use cftp_server.Decimal.{decimal}
use cftp_server.Connection.{Connection, Channel}
use cftp_server.Control.{send_control_message, bufferevent_write, response_text, crlf}

take-append : (n : ℕ) (xs ys : Bytes) → n ≤ length xs → take n (xs ++ ys) ≡ take n xs
take-append zero xs ys h = refl
take-append (suc n) [] ys h = absurd (omega arith)
take-append (suc n) (x ∷ xs) ys h = ap (λ zs. x ∷ zs) (take-append n xs ys (omega arith))

response_text-coded :
    (status : ℕ) (text : Bytes)
    → status ≢ 0
    → response_text status text ≡ (decimal status ++ 32 ∷ text) ++ crlf
unfolding response_text
response_text-coded status text coded = elim (Bool-cases (status == 0)) [
  | inl same ↦ absurd (ground arith)
  | inr other ↦ rw (other, append_assoc) refl
]

sent-bufferevent_write :
    (c : Connection) (channel : Channel) (text : Bytes)
    → c.bev ≡ some channel
    → (bufferevent_write c text).sent ≡ (channel, text) ∷ c.sent
unfolding bufferevent_write
sent-bufferevent_write c channel text there = rw there refl

-- One message, in terms of the text before its line end.
sent-send_control_message :
    (c : Connection) (channel : Channel) (status : ℕ) (text : Bytes)
    → c.bev ≡ some channel
    → status ≢ 0
    → (send_control_message c status text).sent
      ≡ (channel, take 255 ((decimal status ++ 32 ∷ text) ++ crlf)) ∷ c.sent
unfolding send_control_message
sent-send_control_message c channel status text there coded =
    sent-bufferevent_write c channel (take 255 (response_text status text)) there
    ∙ ap (λ (t : Bytes). (channel, take 255 t) ∷ c.sent) (response_text-coded status text coded)

-- With a control connection and a status that is not 0, one message is written, to the channel
-- that is current: the status, a blank, the text and CRLF, if these fit in 255 bytes; but if the
-- status, the blank and the text alone have at least 255 bytes, then what is written is their first
-- 255 bytes, and no line end is.
pub send_control_message-framing :
    (c : Connection) (channel : Channel) (status : ℕ) (text : Bytes)
    → c.bev ≡ some channel
    → status ≢ 0
    → (length (decimal status ++ 32 ∷ text) + 2 ≤ 255
        → (send_control_message c status text).sent
          ≡ (channel, (decimal status ++ 32 ∷ text) ++ crlf) ∷ c.sent)
      × (255 ≤ length (decimal status ++ 32 ∷ text)
          → (send_control_message c status text).sent
            ≡ (channel, take 255 (decimal status ++ 32 ∷ text)) ∷ c.sent)
send_control_message-framing c channel status text there coded =
    let line = decimal status ++ 32 ∷ text in
    let written = sent-send_control_message c channel status text there coded in
    let message = λ (t : Bytes). (channel, t) ∷ c.sent in
    (
      λ short.
          written
          ∙ ap message (take_all 255 (line ++ crlf) (omega (arith, length-append line crlf))),
      λ long. written ∙ ap message (take-append 255 line crlf long),
    )
