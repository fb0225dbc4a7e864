-- ===== src/Tests/Uploads.antt =====
-- A system with one file, and whole transfers on it.
use cftp_server.Base.{
  ◌≤◌, ◌≡◌, refl, sym, ap, ◌∙◌, true, false, none, some, [], ◌∷◌, ◌++◌, Bytes, bytes, arith, length,
  take, drop,
}
use cftp_server.Faults.{Returns, ok}
use mathlib.Core.Option.{some-injective}
use cftp_server.Connection.{Session}
use cftp_server.Command.Quoting.{render_args, quote, escape, escape_byte}
use cftp_server.System.{System, Stat}
use cftp_server.System.Files.{Files}
use cftp_server.Engine.{Registry}
use cftp_server.Engine.Registry.{Answers, initialize_execution_engine-Answers}
use cftp_server.Events.{session_run, control_read, input_size}
use cftp_server.Events.Upload.{stor_line, upload_events, write_pieces}
use cftp_server.Actions.Transfer.{write_input}
use cftp_server.Events.Upload.Whole.{Stored, stor-Stored}
use cftp_server.Events.Download.{retr_line}
use cftp_server.Tests.Fixture.{bob, fresh, passive_ports}

-- The bytes of the file, and those that its descriptor still has to give.
record Disk : Type 0 where
  bytes_stored : Bytes
  bytes_left : Bytes

abbrev disk_stat : Disk → Stat
disk_stat d = record {
  is_dir = false;
  is_link = false;
  mode = 420;
  nlink = 1;
  uid = 1000;
  gid = 100;
  size = length d.bytes_stored;
  mtime = 0;
}

abbrev disk_system : System
disk_system = record {
  World = Disk;
  stat = λ d path. some (disk_stat d);
  lstat = λ d path. some (disk_stat d);
  mkdir = λ d path. (false, d);
  rmdir = λ d path. (false, d);
  unlink = λ d path. (false, d);
  chdir = λ d path. (true, d);
  chroot = λ d path. (true, d);
  setgid = λ d id. (true, d);
  setuid = λ d id. (true, d);
  getcwd = λ d. some (47 ∷ []);
  entries = λ d path. none;
  open_read = λ d path. (some 7, record d { bytes_left = d.bytes_stored });
  open_write = λ d path. (some 7, record d { bytes_stored = [] });
  fstat = λ d fd. some (disk_stat d);
  read = λ d fd n. (some (take n d.bytes_left), record d { bytes_left = drop n d.bytes_left });
  add_file = λ d fd n. (take n d.bytes_left, d);
  fsync = λ d fd. d;
  write = λ d fd text. some (record d { bytes_stored = d.bytes_stored ++ text });
  close = λ d fd. d;
  getpwnam = λ d name. some bob;
  getspnam = λ d name. none;
  crypt = λ password setting. none;
  getsockname = λ d. some 2130706433;
  can_bind = λ d port. true;
  gmtime_text = λ t. [];
  localtime_text = λ t. [];
  getpwuid = λ id. none;
  getgrgid = λ id. none;
}

disk_files : Files disk_system
disk_files = record {
  content = λ d path. d.bytes_stored;
  IsWriting = λ d fd path. Unit;
  IsReading = λ d fd. Unit;
  left = λ d fd. d.bytes_left;
  opened_empty = λ w w' path fd h. (tt, ap (λ x. x.1.bytes_stored) (sym h));
  written = λ w w' path fd text h e. (
    tt,
    ap Disk.bytes_stored
        (sym (some-injective (record w { bytes_stored = w.bytes_stored ++ text }) w' e)),
  );
  flushed = λ w path fd. refl;
  opened_whole = λ w w' path fd h. (
    tt,
    ap (λ x. x.1.bytes_left) (sym h),
    (λ st e.
        ap Stat.size (sym (some-injective (disk_stat w') st e))
        ∙ ap (λ x. length x.1.bytes_stored) (sym h)),
  );
  taken = λ w fd n h. (refl, refl, tt);
  added = λ w fd n h. refl;
}

registry : Registry
registry = initialize_execution_engine-Answers.0

answers : Answers registry
unfolding registry
answers = initialize_execution_engine-Answers.2

-- A client that is logged in and has a protected data connection, and a file "old".
abbrev logged_in : Session Disk
logged_in = record {
  conn = record fresh { authenticated = true; data_bev = some 9; data_tls_required = true };
  world = record { bytes_stored = 111 ∷ 108 ∷ 100 ∷ []; bytes_left = [] };
}

abbrev file_name : Bytes
file_name = 102 ∷ []

fits : (length (stor_line file_name) ≤ input_size) × (length (retr_line file_name) ≤ input_size)
unfolding bytes render_args quote escape escape_byte
fits = (omega arith, omega arith)

all_go_through :
    write_pieces disk_system
      (record { bytes_stored = []; bytes_left = [] })
      7
      ((110 ∷ []) ∷ [] ∷ (101 ∷ []) ∷ [])
      (119 ∷ [])
    ≡ ok (record { bytes_stored = 110 ∷ 101 ∷ 119 ∷ []; bytes_left = [] })
unfolding write_pieces write_input
all_go_through = refl

stor-Stored_example :
    Returns
      (session_run disk_system
        (λ _. true)
        10
        passive_ports
        registry
        (control_read (stor_line file_name)
          ∷ upload_events true ((110 ∷ []) ∷ [] ∷ (101 ∷ []) ∷ []) (119 ∷ []))
        logged_in)
      (Stored disk_system 10 passive_ports registry disk_files file_name
        (110 ∷ 101 ∷ 119 ∷ [])
        logged_in)
stor-Stored_example =
    stor-Stored disk_system 10 passive_ports registry disk_files file_name 9 7
      (record { bytes_stored = []; bytes_left = [] })
      (record { bytes_stored = 110 ∷ 101 ∷ 119 ∷ []; bytes_left = [] })
      ((110 ∷ []) ∷ [] ∷ (101 ∷ []) ∷ []) (119 ∷ []) logged_in answers refl refl fits.0 refl
      all_go_through
