-- ===== src/Config/Printing.antt =====
-- A configuration that is written as a file and read again.
use cftp_server.Base.{
  ℕ, ◌-◌, ◌≤◌, ◌<◌, ◌≡◌, refl, ap, sym, ◌∙◌, Bool, true, false, not, ◌&&◌, ◌||◌, some, List, [],
  ◌∷◌, Bytes, bytes, arith, length, take_all, isspace, isdigit, skip_spaces, tolower, leb, ltb,
  ◌==◌, All, all, all-not, Bool-cases, inl, inr,
}
use mathlib.Core.List.{append-nil}
use cftp_server.Decimal.{
  decimal, read_digits, decimal-cons, decimal-isdigit, length-decimal, read_digits-decimal,
}
use cftp_server.Config.{
  Configurations, default_configurations, equals_icase, int_max, natural, parse_magnitude,
  parse_sign, parse_int, int_in, text_in, assign_kv, post_validate, read_configurations,
}
use cftp_server.Config.Sane.{InRange}
use cftp_server.Config.Lines.{
  render, IsKey, IsValue, IsEntry, not_space, trim_right-word, skip_first, assign_all,
  process-render,
}

-- The nine settings as a file.
pub settings : Configurations → List (Bytes × Bytes)
settings cfg =
    (bytes "max_connections", decimal cfg.max_connections)
    ∷ (bytes "connection_accept_timeout", decimal cfg.connection_accept_timeout)
    ∷ (bytes "data_connection_accept_timeout", decimal cfg.data_connection_accept_timeout)
    ∷ (bytes "port", decimal cfg.port)
    ∷ (bytes "passive_port_start", decimal cfg.passive_port_start)
    ∷ (bytes "passive_port_end", decimal cfg.passive_port_end)
    ∷ (bytes "server_name", cfg.server_name)
    ∷ (bytes "ssl_cert_file", cfg.ssl_cert_file)
    ∷ (bytes "ssl_key_file", cfg.ssl_key_file)
    ∷ []

digit_char :
    (c : ℕ)
    → isdigit c ≡ true
    → ((isspace c || c == b'=') ≡ false)
      × ((c == b'-') ≡ false)
      × ((c == b'+') ≡ false)
      × ((c == 10) ≡ false)
unfolding isdigit isspace
digit_char c h = ground arith

digits-plain :
    (s : Bytes) → All (λ c. isdigit c ≡ true) s → All (λ b. (isspace b || b == b'=') ≡ false) s
digits-plain [] h = tt
digits-plain (c ∷ s) h = ((digit_char c h.0).0, digits-plain s h.1)

plain-one_line :
    (s : Bytes) → All (λ b. (isspace b || b == b'=') ≡ false) s → All (λ c. (c == 10) ≡ false) s
plain-one_line [] h = tt
plain-one_line (c ∷ s) h = ((not_space c h.0).2, plain-one_line s h.1)

skip_spaces-decimal : (n : ℕ) → skip_spaces (decimal n) ≡ decimal n
skip_spaces-decimal n =
    let (c, r, e, d) = decimal-cons n in rw e (skip_first c r (not_space c (digit_char c d).0).0)

decimal-IsValue : (n : ℕ) → IsValue (decimal n)
decimal-IsValue n =
    let plain = digits-plain (decimal n) (decimal-isdigit n) in
    record {
      begins = skip_spaces-decimal n;
      ends = trim_right-word (decimal n) plain;
      one_line = plain-one_line (decimal n) plain;
    }

parse_magnitude-digits :
    (n c : ℕ) (r : Bytes)
    → isdigit c ≡ true
    → n ≤ int_max
    → read_digits 0 (c ∷ r) ≡ (n, [])
    → parse_magnitude false (c ∷ r) ≡ some (natural n)
unfolding parse_magnitude
parse_magnitude-digits n c r d fits e =
    let room : leb n int_max ≡ true = ground arith in
    rw (parse_magnitude, e, d, room) (unfold skip_spaces in refl)

parse_int-decimal : (n : ℕ) → n ≤ int_max → parse_int (decimal n) ≡ some (natural n)
unfolding parse_int parse_sign
parse_int-decimal n fits =
    let (c, r, e, d) = decimal-cons n in
    let signs = digit_char c d in
    let digits : read_digits 0 (c ∷ r) ≡ (n, []) =
      ap (read_digits 0) (sym e ∙ sym (append-nil (decimal n)))
      ∙ read_digits-decimal n [] (omega arith) refl in
    rw (parse_int, skip_spaces-decimal n, e, parse_sign, signs.1, signs.2)
      (parse_magnitude-digits n c r d fits digits)

int_in-decimal :
    (lo hi n old : ℕ) → lo ≤ n → n ≤ hi → hi ≤ int_max → int_in lo hi (decimal n) old ≡ n
unfolding int_in
int_in-decimal lo hi n old low high fits =
    let a : leb lo n ≡ true = ground arith in
    let b : leb n hi ≡ true = ground arith in
    rw (int_in, parse_int-decimal n (omega arith), a, b) refl

text_in-eq : (size : ℕ) (v : Bytes) → IsValue v → length v < size → text_in size v ≡ v
text_in-eq size v value fits = rw (take_all (size - 1) v (omega arith)) value.ends

-- The settings in their ranges, the ports in order, and texts that fit a line.
pub record IsPrintable (cfg : Configurations) : Type 0 where
  pub in_range : InRange cfg
  pub order : cfg.passive_port_start ≤ cfg.passive_port_end
  pub name : IsValue cfg.server_name
  pub cert : IsValue cfg.ssl_cert_file
  pub key : IsValue cfg.ssl_key_file
  pub name_fits : length cfg.server_name ≤ 240
  pub cert_fits : length cfg.ssl_cert_file ≤ 240
  pub key_fits : length cfg.ssl_key_file ≤ 240

assign_all-settings :
    (cfg : Configurations)
    → IsPrintable cfg
    → assign_all default_configurations (settings cfg) ≡ cfg
unfolding assign_all settings assign_kv equals_icase tolower bytes
assign_all-settings cfg p =
    let r = p.in_range in
    rw
      (
        int_in-decimal 1 int_max cfg.max_connections 10000 r.some_connections r.connections
            (omega arith),
        int_in-decimal 0 int_max cfg.connection_accept_timeout 60 (omega arith) r.accept_timeout
            (omega arith),
        int_in-decimal 0 int_max cfg.data_connection_accept_timeout 9 (omega arith) r.data_timeout
            (omega arith),
        int_in-decimal 20 65535 cfg.port 21 r.port_low r.port_high (omega arith),
        int_in-decimal 1024 65535 cfg.passive_port_start 40000 r.start_low r.start_high
            (omega arith),
        int_in-decimal 1024 65535 cfg.passive_port_end 41000 r.end_low r.end_high (omega arith),
        text_in-eq 256 cfg.server_name p.name r.name,
        text_in-eq 4096 cfg.ssl_cert_file p.cert r.cert,
        text_in-eq 4096 cfg.ssl_key_file p.key r.key,
      )
      refl

is_key : Bytes → Bool
is_key [] = false
is_key (c ∷ k) = not (c == b'#') && all (λ b. not (isspace b || b == b'=')) (c ∷ k)

is_key-IsKey : (k : Bytes) → is_key k ≡ true → IsKey k
unfolding is_key IsKey
is_key-IsKey [] h = absurd cc
is_key-IsKey (c ∷ k) h = elim (Bool-cases (c == b'#')) [
  | inl comment ↦ (let h' = rw comment at h in absurd cc)
  | inr first ↦ (first, all-not (λ b. isspace b || b == b'=') (c ∷ k) (rw first at h))
]

number-IsEntry : (k : Bytes) (n : ℕ) → is_key k ≡ true → length k < 220 → IsEntry (k, decimal n)
number-IsEntry k n key short = record {
  key = is_key-IsKey k key;
  value = decimal-IsValue n;
  fits = omega (arith, length-decimal n);
}

text-IsEntry :
    (k v : Bytes) → is_key k ≡ true → length k < 14 → IsValue v → length v ≤ 240 → IsEntry (k, v)
text-IsEntry k v key short value fits = record {
  key = is_key-IsKey k key;
  value = value;
  fits = omega arith;
}

settings-IsEntry : (cfg : Configurations) → IsPrintable cfg → All IsEntry (settings cfg)
unfolding settings is_key bytes all isspace
settings-IsEntry cfg p = (
  number-IsEntry (bytes "max_connections") cfg.max_connections refl (omega arith),
  (
    number-IsEntry (bytes "connection_accept_timeout") cfg.connection_accept_timeout refl
        (omega arith),
    (
      number-IsEntry (bytes "data_connection_accept_timeout") cfg.data_connection_accept_timeout
          refl (omega arith),
      (
        number-IsEntry (bytes "port") cfg.port refl (omega arith),
        (
          number-IsEntry (bytes "passive_port_start") cfg.passive_port_start refl (omega arith),
          (
            number-IsEntry (bytes "passive_port_end") cfg.passive_port_end refl (omega arith),
            (
              text-IsEntry (bytes "server_name") cfg.server_name refl (omega arith) p.name
                  p.name_fits,
              (
                text-IsEntry (bytes "ssl_cert_file") cfg.ssl_cert_file refl (omega arith) p.cert
                    p.cert_fits,
                (
                  text-IsEntry (bytes "ssl_key_file") cfg.ssl_key_file refl (omega arith) p.key
                      p.key_fits,
                  tt,
                ),
              ),
            ),
          ),
        ),
      ),
    ),
  ),
)

post_validate-same : (cfg : Configurations) → IsPrintable cfg → post_validate cfg ≡ cfg
unfolding post_validate
post_validate-same cfg p =
    let r = p.in_range in
    let low : ltb cfg.passive_port_start 1 ≡ false = ground (arith, r.start_low) in
    let high : ltb 65535 cfg.passive_port_end ≡ false = ground (arith, r.end_high) in
    let order : ltb cfg.passive_port_end cfg.passive_port_start ≡ false = ground (arith, p.order) in
    rw (post_validate, low, high, order) refl

-- A configuration whose numbers are in their ranges, whose passive ports are in order, and whose
-- texts have at most 240 bytes in one line without spaces around them is read back from a file
-- that has a line for each setting.
pub read_configurations-render :
    (cfg : Configurations)
    → IsPrintable cfg
    → read_configurations (some (render (settings cfg))) ≡ cfg
unfolding read_configurations
read_configurations-render cfg p =
    ap post_validate (
      process-render default_configurations (settings cfg) (settings-IsEntry cfg p)
      ∙ assign_all-settings cfg p)
    ∙ post_validate-same cfg p
