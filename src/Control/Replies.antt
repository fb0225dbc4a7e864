-- ===== src/Control/Replies.antt =====
-- Which texts are replies of the protocol: a code of src/engine/ftp_status_codes.h, then a blank or,
-- for an answer of several lines, a dash; and what `send_control_message` writes.
use cftp_server.Base.{
  ℕ, ◌≤◌, ◌≡◌, refl, sym, ap, ◌∙◌, Bool, true, false, ◌&&◌, ◌||◌, List, [], ◌∷◌, ◌++◌, String,
  Bytes, bytes, arith, All, all, all_lem, Bool-cases, inl, inr, ==_iff, leb, ◌==◌, snprintf, take,
  drop, length, length-take, strncmp_eq, strncmp_eq_iff,
}
use cftp_server.Decimal.{decimal, decimal_upto}
use cftp_server.Connection.{Connection, Session, Channel}
use cftp_server.Status.{ftp_status_codes, is_one_of, is_status}
use cftp_server.Control.{
  reply, send_control_message, write_text_response, bufferevent_write, response_text,
  max_response_buffer_length, crlf,
}

-- A text begins with one of the codes.
unfoldable pub begins_with : List (String × ℕ) → Bytes → Bool
begins_with [] m = false
begins_with ((name, code) ∷ codes) m = strncmp_eq 3 m (decimal code) || begins_with codes m

abbrev pub is_separator : Bytes → Bool
is_separator [] = false
is_separator (c ∷ m) = c == 32 || c == 45

unfoldable pub is_reply : Bytes → Bool
is_reply m = leb (length m) 255 && (begins_with ftp_status_codes m && is_separator (drop 3 m))

-- Every message is a reply.
unfoldable pub Said : List (Channel × Bytes) → Type 0
Said sent = All (λ m. is_reply m.1 ≡ true) sent

-- What a status of three digits looks like on the line.
shape :
    (d rest : Bytes)
    → length d ≡ 3
    → (take 3 (take 255 (d ++ 32 ∷ rest)) ≡ take 3 d)
      × (is_separator (drop 3 (take 255 (d ++ 32 ∷ rest))) ≡ true)
shape [] rest h = absurd (omega arith)
shape (a ∷ []) rest h = absurd (omega arith)
shape (a ∷ b ∷ []) rest h = absurd (omega arith)
shape (a ∷ b ∷ c ∷ []) rest h = (refl, refl)
shape (a ∷ b ∷ c ∷ d ∷ ds) rest h = absurd (omega arith)

begins_with-code :
    (codes : List (String × ℕ)) (status : ℕ) (rest : Bytes)
    → All (λ e. (length (decimal e.1) == 3) ≡ true) codes
    → is_one_of codes status ≡ true
    → (begins_with codes (take 255 (decimal status ++ 32 ∷ rest)) ≡ true)
      × (length (decimal status) ≡ 3)
unfolding begins_with is_one_of
begins_with-code [] status rest wide h = absurd cc
begins_with-code ((name, code) ∷ codes) status rest wide h = elim (Bool-cases (code == status)) [
  | inl equal ↦
      let same = (==_iff code status).0 equal in
      let three : length (decimal status) ≡ 3 =
        rw (← same) ((==_iff (length (decimal code)) 3).0 wide.0) in
      let begins : strncmp_eq 3 (take 255 (decimal status ++ 32 ∷ rest)) (decimal code) ≡ true =
        (strncmp_eq_iff 3 (take 255 (decimal status ++ 32 ∷ rest)) (decimal code)).1
          ((shape (decimal status) rest three).0 ∙ ap (λ n. take 3 (decimal n)) (sym same)) in
      (rw begins refl, three)
  | inr other ↦
      let there : is_one_of codes status ≡ true = ground arith in
      let (begins, three) = begins_with-code codes status rest wide.1 there in (ground arith, three)
]

codes_wide : All (λ e. (length (decimal e.1) == 3) ≡ true) ftp_status_codes
unfolding ftp_status_codes decimal decimal_upto all
codes_wide = all_lem (λ e. length (decimal e.1) == 3) ftp_status_codes refl

length-decimal_zero : length (decimal 0) ≡ 1
unfolding decimal decimal_upto
length-decimal_zero = refl

not_zero : (status : ℕ) → length (decimal status) ≡ 3 → (status == 0) ≡ false
not_zero status three = elim (Bool-cases (status == 0)) [
  | inl equal ↦
      let one : length (decimal status) ≡ 1 =
        ap (λ n. length (decimal n)) ((==_iff status 0).0 equal) ∙ length-decimal_zero in
      absurd (omega arith)
  | inr other ↦ other
]

leb-take : (n : ℕ) (xs : Bytes) → leb (length (take n xs)) n ≡ true
leb-take n xs = let short : length (take n xs) ≤ n = omega (arith, length-take n xs) in ground arith

response-is_reply :
    (status : ℕ) (text : Bytes)
    → is_status status ≡ true
    → is_reply (snprintf max_response_buffer_length (response_text status text)) ≡ true
unfolding is_reply is_status response_text
response-is_reply status text good =
    let (begins, three) = begins_with-code ftp_status_codes status (text ++ crlf) codes_wide good in
    let separated = (shape (decimal status) (text ++ crlf) three).1 in
    let short = leb-take 255 (decimal status ++ 32 ∷ (text ++ crlf)) in
    rw (not_zero status three, short, begins, separated) refl

bufferevent_write-Said :
    (c : Connection) (text : Bytes)
    → is_reply text ≡ true
    → Said c.sent
    → Said (bufferevent_write c text).sent
unfolding bufferevent_write Said
bufferevent_write-Said c text good said = ground arith

pub send_control_message-Said :
    (c : Connection) (status : ℕ) (text : Bytes)
    → is_status status ≡ true
    → Said c.sent
    → Said (send_control_message c status text).sent
unfolding send_control_message
send_control_message-Said c status text good said =
    bufferevent_write-Said c _ (response-is_reply status text good) said

pub reply-Said :
    {W : Type 0} (status : ℕ) (text : String) (s : Session W)
    → is_status status ≡ true
    → Said s.conn.sent
    → Said (reply status text s).conn.sent
unfolding reply
reply-Said status text s good said = send_control_message-Said s.conn status (bytes text) good said

pub write_text_response-Said :
    (c : Connection) (text : Bytes)
    → is_reply text ≡ true
    → Said c.sent
    → Said (write_text_response c text).sent
unfolding write_text_response
write_text_response-Said c text good said = bufferevent_write-Said c text good said

-- The list of features carries its code in the text.
pub send_text-Said :
    (c : Connection) (text : Bytes)
    → is_reply (snprintf max_response_buffer_length (response_text 0 text)) ≡ true
    → Said c.sent
    → Said (send_control_message c 0 text).sent
unfolding send_control_message
send_text-Said c text good said = bufferevent_write-Said c _ good said
