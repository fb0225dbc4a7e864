-- ===== src/Tests/Settings.antt =====
-- A configuration file, one that is written, a server that is full, and a lookup of names.
use cftp_server.Base.{
  ◌+◌, ◌<◌, ◌≤◌, ◌^◌, ◌≡◌, refl, ℕ, Bool, true, none, some, List, [], ◌∷◌, Bytes, bytes, isspace,
  skip_spaces, false, ◌==◌, all, all-not, last_slash, length, ltb, if◌then◌else◌, arith,
}
use cftp_server.Config.{
  Configurations, read_configurations, default_configurations, trim_right_inplace,
}
use cftp_server.Config.Lines.{render, IsValue}
use cftp_server.Config.Printing.{settings, IsPrintable, read_configurations-render}
use cftp_server.Config.Seed.{
  Outcomes, absent, seed_content, unlines, seed_path, seed_default_config_if_missing,
}
use cftp_server.Config.Seed.Seeded.{
  Left, Progresses, seeded_configurations, seed_default_config_if_missing-Left,
}
use cftp_server.Faults.{ok, ◌>>=◌, Returns}
use cftp_server.Decimal.{decimal}
use cftp_server.Logger.{inf_level, log_prefix, get_log_str, basename, print_log}
use cftp_server.Logger.Buffer.{Clean, log_outcome, print_log-outcome}
use cftp_server.Security.Lookup.{get_passwd_from_uid, get_group_from_gid, Tried, get_entries-Tried}
use cftp_server.Config.Sane.{IsSane, read_configurations-IsSane}
use cftp_server.Server.{
  ServerState, control_connection_accept_cb, register_on_server, connect, child_gone, initial_state,
  server_run, ServerEvent,
}
use cftp_server.Server.Limit.{server_run-total, initial_state-range}
use cftp_server.Server.Start.{SetupCalls, main}
use cftp_server.Server.Family.{
  FamilyEvent, client_connects, child_ends, parent_ends, family_run, family_step, accept_client,
  fork_child, alone,
}
use cftp_server.Server.Main.{Outcome, main-Outcome}

-- port=2121
abbrev file : Bytes
file = 112 ∷ 111 ∷ 114 ∷ 116 ∷ 61 ∷ 50 ∷ 49 ∷ 50 ∷ 49 ∷ 10 ∷ []

read_configurations-IsSane_example : IsSane (read_configurations (some file))
read_configurations-IsSane_example = read_configurations-IsSane (some file)

-- One place, and two clients, of which the first leaves.
abbrev one_place : ServerState
one_place = record {
  config = record default_configurations { max_connections = 1 };
  pasv_range = record { start = 40000; end = 41000; count = 1001 };
  current_connections = 0;
  server_version = [];
}

abbrev two_clients : List ServerEvent
two_clients = connect true true ∷ child_gone ∷ connect true true ∷ []

server_run-total_example :
    ((server_run two_clients one_place).1.current_connections
      ≡ 0 + (server_run two_clients one_place).0)
    × (0 + (server_run two_clients one_place).0 ≤ 1)
server_run-total_example =
    server_run-total two_clients one_place (omega arith) (omega arith) (refl, (refl, tt))

-- No file, and every call succeeds; a write takes all.
abbrev all_succeed : Outcomes
all_succeed = record {
  stat_gives = λ path. absent;
  mkstemp_gives = λ template. some template;
  fchmod_succeeds = true;
  write_gives = λ i n. some n;
  fsync_succeeds = true;
  close_succeeds = true;
  rename_succeeds = true;
  unlink_succeeds = true;
  directory_opens = true;
}

all_succeed-Progresses : Progresses all_succeed
all_succeed-Progresses i n k gives some_left = ground arith

content_fits : length seed_content ≤ 1000
unfolding seed_content bytes unlines
content_fits = omega arith

seed_default_config_if_missing-Left_example :
    Returns
      (seed_default_config_if_missing all_succeed 1000 none)
      (Left all_succeed (seed_path none))
    × (read_configurations (some seed_content) ≡ seeded_configurations)
seed_default_config_if_missing-Left_example =
    seed_default_config_if_missing-Left all_succeed 1000 none all_succeed-Progresses content_fits

-- Entries need 3000 bytes, and there is memory for 5000.
abbrev entry_call : ℕ → ℕ → ℕ → ℕ
entry_call id i n = if ltb n 3000 then 34 else 0

abbrev memory : ℕ → Bool
memory n = ltb n 5000

get_entries-Tried_example :
    Tried (entry_call 7) memory (get_passwd_from_uid entry_call memory 7 true)
    × Tried (entry_call 7) memory (get_group_from_gid entry_call memory 7 true)
get_entries-Tried_example = get_entries-Tried entry_call entry_call memory 7

-- [12:00] INFO: a.c:7: f: hi
abbrev noon : Bytes
noon = 49 ∷ 50 ∷ 58 ∷ 48 ∷ 48 ∷ []

abbrev log_text : Bytes
log_text = log_prefix inf_level noon (115 ∷ 47 ∷ 97 ∷ 46 ∷ 99 ∷ []) 7 (102 ∷ [])

log_text-Clean : Clean log_text
unfolding log_prefix get_log_str basename last_slash bytes decimal all
log_text-Clean = all-not (λ c. c == 0) log_text refl

log_text-short : length log_text ≤ 254
unfolding log_prefix get_log_str basename last_slash bytes decimal
log_text-short = omega arith

print_log-outcome_example :
    print_log
      (λ _. true)
      inf_level
      noon
      (115 ∷ 47 ∷ 97 ∷ 46 ∷ 99 ∷ [])
      7
      (102 ∷ [])
      (104 ∷ 105 ∷ [])
    ≡ (log_outcome log_text (104 ∷ 105 ∷ []) >>= λ t. ok (some t))
print_log-outcome_example =
    print_log-outcome (λ _. true) inf_level noon (115 ∷ 47 ∷ 97 ∷ 46 ∷ 99 ∷ []) 7 (102 ∷ [])
      (104 ∷ 105 ∷ []) refl log_text-Clean (refl, (refl, tt)) log_text-short

-- A configuration with texts of one letter.
abbrev small_settings : Configurations
small_settings = record default_configurations {
  server_name = 97 ∷ [];
  ssl_cert_file = 98 ∷ [];
  ssl_key_file = 99 ∷ [];
}

letter : (c : ℕ) → isspace c ≡ false → (c == 10) ≡ false → IsValue (c ∷ [])
unfolding skip_spaces trim_right_inplace
letter c h k = record { begins = rw h refl; ends = rw h refl; one_line = (k, tt) }

small_settings-IsPrintable : IsPrintable small_settings
unfolding isspace
small_settings-IsPrintable = record {
  in_range = record {
    some_connections = omega arith;
    connections = omega arith;
    accept_timeout = omega arith;
    data_timeout = omega arith;
    port_low = omega arith;
    port_high = omega arith;
    start_low = omega arith;
    start_high = omega arith;
    end_low = omega arith;
    end_high = omega arith;
    name = omega arith;
    cert = omega arith;
    key = omega arith;
  };
  order = omega arith;
  name = letter 97 refl refl;
  cert = letter 98 refl refl;
  key = letter 99 refl refl;
  name_fits = omega arith;
  cert_fits = omega arith;
  key_fits = omega arith;
}

read_configurations-render_example :
    read_configurations (some (render (settings small_settings))) ≡ small_settings
read_configurations-render_example =
    read_configurations-render small_settings small_settings-IsPrintable

initial_state-range_example :
    let s = initial_state (49 ∷ []) (read_configurations (some file)) in
    (s.current_connections < s.config.max_connections)
    × (s.config.max_connections < 2 ^ 32)
    × (1024 ≤ s.pasv_range.start)
    × (s.pasv_range.start ≤ s.pasv_range.end)
    × (s.pasv_range.end ≤ 65535)
    × (s.pasv_range.count + s.pasv_range.start ≡ s.pasv_range.end + 1)
initial_state-range_example = initial_state-range (49 ∷ []) (some file)

-- The private key does not load.
abbrev no_key : SetupCalls
no_key = record {
  sigaction_succeeds = true;
  certificate_loads = λ path. true;
  private_key_loads = λ path. false;
  base_is_made = true;
  listener_is_made = λ port. true;
}

main-Outcome_example :
    Outcome no_key
      (read_configurations (some file))
      (main no_key (49 ∷ []) (some file) two_clients [])
main-Outcome_example = main-Outcome no_key (49 ∷ []) (some file) two_clients (refl, (refl, tt))

-- Two clients come, the first one leaves, another one comes, and the parent ends.
abbrev orphans : List FamilyEvent
orphans =
    client_connects true true
    ∷ client_connects true true
    ∷ child_ends 0
    ∷ client_connects true true
    ∷ parent_ends
    ∷ []

abbrev ten_places : ServerState
ten_places = record one_place { config = record default_configurations { max_connections = 10 } }

orphans_left : length (family_run orphans (alone ten_places)).children ≡ 2
unfolding family_run family_step accept_client fork_child control_connection_accept_cb
    register_on_server
orphans_left = refl
