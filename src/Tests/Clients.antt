-- ===== src/Tests/Clients.antt =====
-- Words of a command line, the exchange with the parent, a listing, and the start of a process.
use cftp_server.Base.{
  ℕ, ◌-◌, ◌≡◌, ◌≢◌, refl, true, false, Option, some, none, [], ◌∷◌, ◌++◌, map, Bytes, bytes, arith,
  take, toupper, isspace, All,
}
use cftp_server.Faults.{ok, fault, use_after_free}
use cftp_server.Command.{parse_text_command}
use cftp_server.Command.Words.{render_words, parse_text_command-render_words}
use cftp_server.Connection.{Connection, Session, terminate_process_on_timeout}
use cftp_server.Control.{terminate_process}
use cftp_server.System.{System, Stat}
use cftp_server.Ipc.{
  execute_root_command, name_or_unknown, ask_root_for_username, ask_root_for_groupname,
}
use cftp_server.Ipc.Names.{rest_of_name, ask_root-name}
use cftp_server.Actions.Listing.{send_list_command_output, send_listing, keep_input}
use cftp_server.Actions.Listing.Lines.{IsNamed, listing, send_list_command_output-listing}
use cftp_server.Events.{session_step, run_timer, control_read, timer}
use cftp_server.Events.BeforeLogin.{IsQuiet, begun}
use cftp_server.Process.{SockAddr, inet, accept_child, start_control_connection_loop}
use cftp_server.Control.Replies.{is_reply}
use cftp_server.Process.Replies.{start-only_replies}
use cftp_server.Process.Memory.{start-never_use_after_free}
use cftp_server.Events.Memory.{Lived}
use cftp_server.Engine.{Registry, plenty}
use cftp_server.Engine.Registry.{Answers, initialize_execution_engine-Answers}
use cftp_server.Engine.Outcome.{registered-Answers}
use cftp_server.Process.Start.{Started, start-Started, start-IsQuiet}
use cftp_server.Tests.Fixture.{small_system, began, passive_ports}

-- MKD a b
parse_text_command-render_words_example :
    parse_text_command
      (λ _. true)
      ((77 ∷ 75 ∷ 68 ∷ []) ++ render_words ((97 ∷ []) ∷ (98 ∷ []) ∷ []))
    ≡ record { command = map toupper (77 ∷ 75 ∷ 68 ∷ []); args = (97 ∷ []) ∷ (98 ∷ []) ∷ [] }
unfolding isspace
parse_text_command-render_words_example =
    parse_text_command-render_words 77 (75 ∷ 68 ∷ []) ((97 ∷ []) ∷ (98 ∷ []) ∷ [])
      (refl, (refl, (refl, tt))) (omega arith) (omega arith) ((refl, tt), ((refl, tt), tt))
      (omega arith, (omega arith, tt))

-- Every user is "bob", and no group is known.
abbrev bobs : ℕ → Option Bytes
bobs id = some (98 ∷ 111 ∷ 98 ∷ [])

abbrev nobody : ℕ → Option Bytes
nobody id = none

ask_root-name_example :
    (ask_root_for_username (execute_root_command (λ _. true) bobs nobody) 1000 256 []
      ≡ ok (
        take (256 - 1) (name_or_unknown (bobs 1000)),
        rest_of_name 256 (name_or_unknown (bobs 1000)),
      ))
    × (ask_root_for_groupname (execute_root_command (λ _. true) bobs nobody) 1000 256 []
        ≡ ok (
          take (256 - 1) (name_or_unknown (nobody 1000)),
          rest_of_name 256 (name_or_unknown (nobody 1000)),
        ))
unfolding bytes
ask_root-name_example =
    ask_root-name bobs nobody 1000 (omega arith) 256 (omega arith) (omega arith)
      (refl, (refl, (refl, tt))) (refl, (refl, (refl, (refl, (refl, (refl, (refl, tt)))))))

-- A file in the directory, of the user and the group 1000.
abbrev a_file : Stat
a_file = record {
  is_dir = false;
  is_link = false;
  mode = 420;
  nlink = 1;
  uid = 1000;
  gid = 1000;
  size = 5;
  mtime = 0;
}

abbrev one_file : System
one_file = record small_system {
  lstat = λ w path. some a_file;
  entries = λ w path. some ((97 ∷ []) ∷ []);
  getpwuid = bobs;
}

one_file-IsNamed : IsNamed one_file 0
unfolding bytes
one_file-IsNamed = record {
  uid_fits = λ path st h. ground arith;
  gid_fits = λ path st h. ground arith;
  users = λ id. (refl, (refl, (refl, tt)));
  groups = λ id. (refl, (refl, (refl, (refl, (refl, (refl, (refl, tt)))))));
  short_users = λ id. omega arith;
  short_groups = λ id. omega arith;
}

abbrev there : Session ℕ
there = began

send_list_command_output-listing_example :
    send_list_command_output one_file (46 ∷ []) true false false there
    ≡ ok (
        send_listing one_file
          (listing one_file 0 (46 ∷ []) true false false ((97 ∷ []) ∷ []))
          (keep_input one_file [] there))
send_list_command_output-listing_example =
    send_list_command_output-listing one_file (46 ∷ []) true false false ((97 ∷ []) ∷ []) there
      one_file-IsNamed refl refl

abbrev client : SockAddr
client = inet (49 ∷ 46 ∷ 50 ∷ 46 ∷ 51 ∷ [])

start-Started_example :
    (r : Registry × Connection) × (start_control_connection_loop plenty true (accept_child client)
      ≡ ok (some r))
    × Started r
start-Started_example = start-Started client

start :
    (r : Registry × Connection) × (start_control_connection_loop plenty true (accept_child client)
      ≡ ok (some r))
    × Started r
start = start-Started client

start-IsQuiet_example : IsQuiet start.0.1
start-IsQuiet_example =
    start-IsQuiet small_system plenty (λ _. true) 10 passive_ports client 0 start.0
      (record { conn = start.0.1; world = 0 }) start.1 begun

start-never_use_after_free_example :
    session_step small_system
      (λ _. true)
      10
      passive_ports
      start.0.0
      (control_read (bytes "PASV"))
      (record { conn = start.0.1; world = 0 })
    ≢ fault use_after_free
start-never_use_after_free_example =
    start-never_use_after_free small_system plenty (λ _. true) 10 passive_ports client 0 start.0
      (record { conn = start.0.1; world = 0 }) start.1 Lived.begun (control_read (bytes "PASV"))

-- The timeout of the login is answered.
abbrev timed_out : Session ℕ
timed_out = record { conn = terminate_process start.0.1; world = 0 }

waited :
    Lived small_system
      (λ _. true)
      10
      passive_ports
      start.0.0
      (record { conn = start.0.1; world = 0 })
      timed_out
unfolding session_step run_timer
waited = Lived.next Lived.begun (timer terminate_process_on_timeout) refl

start-only_replies_example : All (λ m. is_reply m.1 ≡ true) timed_out.conn.sent
start-only_replies_example =
    start-only_replies small_system plenty (λ _. true) 10 passive_ports client 0 start.0 timed_out
      start.1 waited

registered-Answers_example : Answers initialize_execution_engine-Answers.0
registered-Answers_example =
    registered-Answers plenty initialize_execution_engine-Answers.0
      initialize_execution_engine-Answers.1
