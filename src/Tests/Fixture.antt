-- ===== src/Tests/Fixture.antt =====
-- A system that counts the calls that change it, with one user, and a session that has just begun.
use cftp_server.Base.{ℕ, ◌+◌, true, false, none, some, [], ◌∷◌}
use cftp_server.System.{System, Passwd}
use cftp_server.Connection.{Connection, Session, binary, plaintext, terminate_process_on_timeout}
use cftp_server.Data.{PortRange}

abbrev pub bob : Passwd
bob = record { pw_uid = 1000; pw_gid = 100; pw_dir = 47 ∷ [] }

-- Every path is a directory with no entries; a password is its own encryption.
abbrev pub small_system : System
small_system = record {
  World = ℕ;
  stat = λ w path. some (record {
    is_dir = true;
    is_link = false;
    mode = 493;
    nlink = 1;
    uid = 1000;
    gid = 100;
    size = 0;
    mtime = 0;
  });
  lstat = λ w path. none;
  mkdir = λ w path. (true, w + 1);
  rmdir = λ w path. (true, w + 1);
  unlink = λ w path. (true, w + 1);
  chdir = λ w path. (true, w + 1);
  chroot = λ w path. (true, w + 1);
  setgid = λ w id. (true, w + 1);
  setuid = λ w id. (true, w + 1);
  getcwd = λ w. some (47 ∷ []);
  entries = λ w path. some [];
  open_read = λ w path. (none, w);
  open_write = λ w path. (some 7, w + 1);
  fstat = λ w fd. none;
  read = λ w fd n. (some [], w);
  add_file = λ w fd n. ([], w);
  fsync = λ w fd. w + 1;
  write = λ w fd text. some (w + 1);
  close = λ w fd. w + 1;
  getpwnam = λ w name. some bob;
  getspnam = λ w name. some (112 ∷ 119 ∷ []);
  crypt = λ password setting. some password;
  getsockname = λ w. some 2130706433;
  can_bind = λ w port. true;
  gmtime_text = λ t. [];
  localtime_text = λ t. [];
  getpwuid = λ id. none;
  getgrgid = λ id. none;
}

abbrev pub fresh : Connection
fresh = record {
  username = 98 ∷ 111 ∷ 98 ∷ [];
  transfer_mode = binary;
  control_write_cb = none;
  source_ip = 49 ∷ 46 ∷ 50 ∷ 46 ∷ 51 ∷ [];
  authenticated = false;
  error_buf = [];
  data_port = 0;
  data_active = 0;
  upgraded_to_tls = false;
  data_tls_required = false;
  data_read_cb = none;
  data_write_cb = none;
  data_tls_event_connected_cb = none;
  data_eof_event_cb = none;
  data_stream = none;
  path = [];
  description = false;
  hidden = false;
  human = false;
  bev = some plaintext;
  pasv_listener = none;
  data_bev = none;
  data_low_mark = 0;
  upload_fd = none;
  timeout_event = some 0;
  timers = (0, terminate_process_on_timeout) ∷ [];
  next_timer = 1;
  sent = [];
  data_sent = [];
  interprocess_input = [];
  stopped = false;
}

abbrev pub began : Session ℕ
began = record { conn = fresh; world = 0 }

abbrev pub passive_ports : PortRange
passive_ports = record { start = 40000; end = 41000; count = 1001 }
