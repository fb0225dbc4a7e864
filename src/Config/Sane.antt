-- ===== src/Config/Sane.antt =====
-- The ranges that src/config_manager/config_manager.c holds the settings to.
use cftp_server.Base.{
  ℕ, ◌-◌, ◌≤◌, ◌<◌, Bool, true, false, Option, none, some, List, [], ◌∷◌, Bytes, bytes, arith,
  length, length-take, take, if◌then◌else◌,
}
use cftp_server.Config.{
  Configurations, default_configurations, int_max, int_in, text_in, trim_right_inplace, assign_kv,
  post_validate, process_entry, process_trimmed, process_line, process_lines, read_configurations,
  trim_inplace, split_eq, fgets_lines,
}

-- The ranges that each directive is held to.
pub record InRange (cfg : Configurations) : Type 0 where
  pub some_connections : 1 ≤ cfg.max_connections
  pub connections : cfg.max_connections ≤ int_max
  pub accept_timeout : cfg.connection_accept_timeout ≤ int_max
  pub data_timeout : cfg.data_connection_accept_timeout ≤ int_max
  pub port_low : 20 ≤ cfg.port
  pub port_high : cfg.port ≤ 65535
  pub start_low : 1024 ≤ cfg.passive_port_start
  pub start_high : cfg.passive_port_start ≤ 65535
  pub end_low : 1024 ≤ cfg.passive_port_end
  pub end_high : cfg.passive_port_end ≤ 65535
  pub name : length cfg.server_name < 256
  pub cert : length cfg.ssl_cert_file < 4096
  pub key : length cfg.ssl_key_file < 4096

int_in_bounds :
    (lo hi : ℕ) (v : Bytes) (old : ℕ)
    → lo ≤ old
    → old ≤ hi
    → (lo ≤ int_in lo hi v old) × (int_in lo hi v old ≤ hi)
unfolding int_in
int_in_bounds lo hi v old h k = ground arith

length-trim_right_inplace : (s : Bytes) → length (trim_right_inplace s) ≤ length s
unfolding trim_right_inplace
length-trim_right_inplace [] = omega arith
length-trim_right_inplace (c ∷ s) = ground (arith, length-trim_right_inplace s)

length-text_in : (size : ℕ) (v : Bytes) → 0 < size → length (text_in size v) < size
length-text_in size v h =
    omega (arith, length-trim_right_inplace (take (size - 1) v), length-take (size - 1) v)

InRange-if :
    (b : Bool) {x y : Configurations} → InRange x → InRange y → InRange (if b then x else y)
InRange-if true hx hy = hx
InRange-if false hx hy = hy

assign_kv-InRange : (cfg : Configurations) (k v : Bytes) → InRange cfg → InRange (assign_kv cfg k v)
unfolding assign_kv
assign_kv-InRange cfg k v r =
    let set_max_connections : InRange
        (record cfg { max_connections = int_in 1 int_max v cfg.max_connections }) =
      omega
        (arith, int_in_bounds 1 int_max v cfg.max_connections r.some_connections r.connections) in
    let set_connection_accept_timeout : InRange (record cfg {
      connection_accept_timeout = int_in 0 int_max v cfg.connection_accept_timeout;
    }) =
      omega (
        arith,
        int_in_bounds 0 int_max v cfg.connection_accept_timeout (omega arith) r.accept_timeout,
      ) in
    let set_data_connection_accept_timeout : InRange (record cfg {
      data_connection_accept_timeout = int_in 0 int_max v cfg.data_connection_accept_timeout;
    }) =
      omega (
        arith,
        int_in_bounds 0 int_max v cfg.data_connection_accept_timeout (omega arith) r.data_timeout,
      ) in
    let set_passive_port_start : InRange
        (record cfg { passive_port_start = int_in 1024 65535 v cfg.passive_port_start }) =
      omega (arith, int_in_bounds 1024 65535 v cfg.passive_port_start r.start_low r.start_high) in
    let set_passive_port_end : InRange
        (record cfg { passive_port_end = int_in 1024 65535 v cfg.passive_port_end }) =
      omega (arith, int_in_bounds 1024 65535 v cfg.passive_port_end r.end_low r.end_high) in
    let set_port : InRange (record cfg { port = int_in 20 65535 v cfg.port }) =
      omega (arith, int_in_bounds 20 65535 v cfg.port r.port_low r.port_high) in
    let set_server_name : InRange (record cfg { server_name = text_in 256 v }) =
      omega (arith, length-text_in 256 v (omega arith)) in
    let set_ssl_cert_file : InRange (record cfg { ssl_cert_file = text_in 4096 v }) =
      omega (arith, length-text_in 4096 v (omega arith)) in
    let set_ssl_key_file : InRange (record cfg { ssl_key_file = text_in 4096 v }) =
      omega (arith, length-text_in 4096 v (omega arith)) in
    InRange-if _ set_max_connections (
      InRange-if _ set_connection_accept_timeout (
        InRange-if _ set_data_connection_accept_timeout (
          InRange-if _ set_passive_port_start (
            InRange-if _ set_passive_port_end (
              InRange-if _ set_port (
                InRange-if _ set_server_name
                  (InRange-if _ set_ssl_cert_file (InRange-if _ set_ssl_key_file r))))))))

process_entry-InRange :
    (cfg : Configurations) (e : Option (Bytes × Bytes))
    → InRange cfg
    → InRange (process_entry cfg e)
unfolding process_entry
process_entry-InRange cfg none r = r
process_entry-InRange cfg (some (k, v)) r =
    InRange-if _ r (assign_kv-InRange cfg (trim_inplace k) (trim_inplace v) r)

process_trimmed-InRange :
    (cfg : Configurations) (s : Bytes) → InRange cfg → InRange (process_trimmed cfg s)
unfolding process_trimmed
process_trimmed-InRange cfg [] r = r
process_trimmed-InRange cfg (c ∷ s) r =
    InRange-if _ r (process_entry-InRange cfg (split_eq (c ∷ s)) r)

process_lines-InRange :
    (cfg : Configurations) (lines : List Bytes) → InRange cfg → InRange (process_lines cfg lines)
unfolding process_lines process_line
process_lines-InRange cfg [] r = r
process_lines-InRange cfg (line ∷ lines) r =
    process_lines-InRange (process_line cfg line) lines
      (process_trimmed-InRange cfg (trim_inplace line) r)

-- Every value in its range, and the passive ports in order.
abbrev pub IsSane : Configurations → Type 0
IsSane cfg = InRange cfg × (cfg.passive_port_start ≤ cfg.passive_port_end)

post_validate-IsSane : (cfg : Configurations) → InRange cfg → IsSane (post_validate cfg)
unfolding post_validate
post_validate-IsSane cfg r = ground arith

default-InRange : InRange default_configurations
unfolding bytes
default-InRange = omega arith

-- Whatever stands in the file, and also without a file, the limits, the timeouts, the port and
-- the passive ports are in their ranges, the passive ports are in order, and the texts fit their
-- buffers with the terminator.
pub read_configurations-IsSane : (file : Option Bytes) → IsSane (read_configurations file)
unfolding read_configurations
read_configurations-IsSane none = (default-InRange, omega arith)
read_configurations-IsSane (some text) =
    post_validate-IsSane _ (process_lines-InRange _ (fgets_lines 255 [] text) default-InRange)
