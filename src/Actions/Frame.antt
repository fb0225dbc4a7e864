-- ===== src/Actions/Frame.antt =====
-- What the actions leave alone: the mark of the login, the listener and the timers.
use cftp_server.Base.{
  ℕ, zero, suc, ◌≡◌, Bool, true, false, not, ◌&&◌, Option, none, some, List, [], ◌∷◌, Bytes, arith,
  if◌then◌else◌,
}
use cftp_server.Faults.{
  Run, ok, fault, null_pointer, Keeps, >>=-Keeps, Keeps-mono, if-Keeps, option-Keeps,
}
use cftp_server.Command.{Command}
use cftp_server.Connection.{Connection, Session}
use cftp_server.Control.{reply, send_control_message, bufferevent_write}
use cftp_server.Data.{close_data_connection, reset_data}
use cftp_server.System.{System, Stat}
use cftp_server.Security.{is_path_safe}
use cftp_server.Ipc.{ask_custom_command, ask_root_for_username, ask_root_for_groupname}
use cftp_server.Actions.Transfer.{write_input}
use cftp_server.Actions.Delete.{
  join, is_dots, handle_dele_command, answer_dele, dele_target, dele_with, parse_dele_params,
  DeleArgs, delete_directory_recursively, delete_entries, delete_one, delete_found, delete_rest,
}
use cftp_server.Actions.Listing.{
  handle_list_command, list_with, start_listing, list_path, parse_list_flags, ListFlags, is_hidden,
  send_list_command_output, list_lines, list_line, list_entry, format_unix_list_entry, send_listing,
  keep_input, refuse_list, parent,
}

-- The login, the listener and the timers of the two connections are the same.
pub record Kept (c d : Connection) : Type 0 where
  pub login : d.authenticated ≡ c.authenticated
  pub listener : d.pasv_listener ≡ c.pasv_listener
  pub event : d.timeout_event ≡ c.timeout_event
  pub timers : d.timers ≡ c.timers

pub Kept-trans : (b c d : Connection) → Kept b c → Kept c d → Kept b d
Kept-trans b c d h k = ground arith

pub Kept-refl : (c : Connection) → Kept c c
Kept-refl c = ground arith

-- Nothing is claimed of a value.
abbrev pub Anything {ℓ} : {A : Type ℓ} → A → Type 0
Anything a = Unit

pub close_data_connection-Kept : (c : Connection) → Kept c (close_data_connection c)
unfolding close_data_connection reset_data
close_data_connection-Kept c = ground arith

module _ (sys : System) where
  open sys use {World, entries, lstat, stat, unlink, write}

  abbrev pub KeptFrom : Session World → Session World → Type 0
  KeptFrom s s' = Kept s.conn s'.conn

  -- The loop of the writes may not end, and frees nothing.
  pub write_input-Keeps :
      (w : World) (fd : ℕ) (input : Bytes) → Keeps Anything (write_input sys w fd input)
  unfolding write_input
  write_input-Keeps w fd [] = tt
  write_input-Keeps w fd (b ∷ input) =
      option-Keeps Anything (write w fd (b ∷ input)) _ _ tt (λ w' _. tt)

  -- The exchange with the parent may wait for ever, and frees nothing.
  ask_custom_command-Keeps :
      (root : Bytes → Option Bytes) (size : ℕ) (left buffer : Bytes)
      → Keeps Anything (ask_custom_command root size left buffer)
  unfolding ask_custom_command
  ask_custom_command-Keeps root size left buffer = ground arith

  format_unix_list_entry-Keeps :
      (name : Bytes) (st : Stat) (human : Bool) (left : Bytes)
      → Keeps Anything (format_unix_list_entry sys name st human left)
  unfolding format_unix_list_entry ask_root_for_username ask_root_for_groupname
  format_unix_list_entry-Keeps name st human left =
      >>=-Keeps Anything Anything (ask_root_for_username (parent sys) st.uid 256 left) _
        (ask_custom_command-Keeps (parent sys) 256 left _)
        (λ user _.
          >>=-Keeps Anything Anything (ask_root_for_groupname (parent sys) st.gid 256 user.1) _
            (ask_custom_command-Keeps (parent sys) 256 user.1 _) (λ group _. tt))

  list_entry-Keeps :
      (dots : Bool) (status : Option Stat) (description hidden human : Bool) (name left : Bytes)
      → Keeps Anything (list_entry sys dots status description hidden human name left)
  unfolding list_entry
  list_entry-Keeps true status description hidden human name left = tt
  list_entry-Keeps false none description hidden human name left = tt
  list_entry-Keeps false (some st) description hidden human name left =
      if-Keeps Anything (not hidden && is_hidden name) _ _ tt
        (if-Keeps Anything description _ _ (format_unix_list_entry-Keeps name st human left) tt)

  pub list_lines-Keeps :
      (w : World) (path : Bytes) (description hidden human : Bool) (names : List Bytes)
      (left : Bytes)
      → Keeps Anything (list_lines sys w path description hidden human names left)
  unfolding list_lines list_line
  list_lines-Keeps w path description hidden human [] left = tt
  list_lines-Keeps w path description hidden human (name ∷ names) left =
      >>=-Keeps Anything Anything
        (list_entry sys (is_dots name) (lstat w (join path name)) description hidden human name
          left)
        _
        (list_entry-Keeps (is_dots name) (lstat w (join path name)) description hidden human name
          left)
        (λ line _.
          >>=-Keeps Anything Anything (list_lines sys w path description hidden human names line.1)
            _ (list_lines-Keeps w path description hidden human names line.1) (λ lines _. tt))

  send_listing-Kept : (out : Bytes) (s : Session World) → KeptFrom s (send_listing sys out s)
  unfolding send_listing reply send_control_message bufferevent_write
  send_listing-Kept [] s = ground arith
  send_listing-Kept (c ∷ out) s = ground arith

  pub send_list_command_output-Keeps :
      (path : Bytes) (description hidden human : Bool) (s : Session World)
      → Keeps (KeptFrom s) (send_list_command_output sys path description hidden human s)
  unfolding send_list_command_output
  send_list_command_output-Keeps path description hidden human s =
      option-Keeps (KeptFrom s) (entries s.world path) (fault null_pointer) _ tt (λ names _.
        >>=-Keeps Anything (KeptFrom s)
          (list_lines sys s.world path description hidden human names s.conn.interprocess_input) _
          (list_lines-Keeps s.world path description hidden human names s.conn.interprocess_input)
          (λ out _.
            Kept-trans s.conn _ _ (ground arith)
              (send_listing-Kept out.0 (keep_input sys out.1 s))))

  refuse_list-Kept : (status : ℕ) (s : Session World) → KeptFrom s (refuse_list sys status s)
  unfolding refuse_list reply send_control_message bufferevent_write
  refuse_list-Kept status s = ground arith

  start_listing-Keeps :
      (flags : ListFlags) (path : Bytes) (description : Bool) (s : Session World)
      → Keeps (KeptFrom s) (start_listing sys flags path description s)
  unfolding start_listing reply send_control_message bufferevent_write
  start_listing-Keeps flags path description s =
      if-Keeps (KeptFrom s) s.conn.data_tls_required _ _ (ground arith) (
        Keeps-mono (KeptFrom (reply 150 "Here comes the directory listings" s)) (KeptFrom s) _
          (λ s' k. ground arith)
          (send_list_command_output-Keeps path description flags.all flags.human
            (reply 150 "Here comes the directory listings" s)))

  list_with-Keeps :
      (flags : ListFlags) (description : Bool) (s : Session World)
      → Keeps (KeptFrom s) (list_with sys flags description s)
  unfolding list_with reply send_control_message bufferevent_write
  list_with-Keeps flags description s =
      option-Keeps (KeptFrom s) s.conn.data_bev _ _ (ground arith) (λ fd _.
        let path = list_path sys flags.path in
        if-Keeps (KeptFrom s) (not (is_path_safe path)) (ok (refuse_list sys 550 s)) _
          (refuse_list-Kept 550 s)
          (option-Keeps (KeptFrom s) (entries s.world path) (ok (refuse_list sys 550 s))
            (λ names. start_listing sys flags path description s) (refuse_list-Kept 550 s)
            (λ names _. start_listing-Keeps flags path description s)))

  pub handle_list_command-Keeps :
      (cmd : Command) (description : Bool) (s : Session World)
      → Keeps (KeptFrom s) (handle_list_command sys cmd description s)
  unfolding handle_list_command
  handle_list_command-Keeps cmd description s =
      option-Keeps (KeptFrom s) (parse_list_flags cmd) _ _ (refuse_list-Kept 501 s)
        (λ flags _. list_with-Keeps flags description s)

  unfoldable pub Deletes : (World → Run (Bool × World)) → Type 0
  Deletes run = (w : World) → Keeps Anything (run w)

  delete_rest-Keeps :
      (rest : World → Run (Bool × World))
      → Deletes rest
      → (r : Bool × World) → Keeps Anything (delete_rest sys rest r)
  unfolding delete_rest Deletes
  delete_rest-Keeps rest h (true, w) = h w
  delete_rest-Keeps rest h (false, w) = tt

  delete_found-Keeps :
      (descend : Bytes → World → Run (Bool × World)) (rest : World → Run (Bool × World))
      (path : Bytes) (found : Option Stat) (w : World)
      → Deletes (descend path)
      → Deletes rest
      → Keeps Anything (delete_found sys descend rest path found w)
  unfolding delete_found Deletes
  delete_found-Keeps descend rest path none w d h = h w
  delete_found-Keeps descend rest path (some st) w d h =
      if-Keeps Anything st.is_dir _ _
        (>>=-Keeps Anything Anything (descend path w) (delete_rest sys rest) (d w)
          (λ r _. delete_rest-Keeps rest h r))
        (h (unlink w path).1)

  delete_one-Keeps :
      (descend : Bytes → World → Run (Bool × World)) (rest : World → Run (Bool × World))
      (path : Bytes) (dots : Bool) (w : World)
      → Deletes (descend path)
      → Deletes rest
      → Keeps Anything (delete_one sys descend rest path dots w)
  unfolding delete_one Deletes
  delete_one-Keeps descend rest path true w d h = h w
  delete_one-Keeps descend rest path false w d h =
      delete_found-Keeps descend rest path (lstat w path) w d h

  delete_entries-Keeps :
      (descend : Bytes → World → Run (Bool × World)) (path : Bytes) (names : List Bytes)
      → ((p : Bytes) → Deletes (descend p))
      → Deletes (delete_entries sys descend path names)
  unfolding delete_entries Deletes
  delete_entries-Keeps descend path [] d w = tt
  delete_entries-Keeps descend path (name ∷ names) d w =
      delete_one-Keeps descend (delete_entries sys descend path names) (join path name)
        (is_dots name) w (d (join path name)) (delete_entries-Keeps descend path names d)

  pub delete_directory_recursively-Keeps :
      (depth : ℕ) (path : Bytes) → Deletes (delete_directory_recursively sys depth path)
  unfolding delete_directory_recursively Deletes
  delete_directory_recursively-Keeps zero path w = tt
  delete_directory_recursively-Keeps (suc depth) path w =
      option-Keeps Anything (entries w path) _ _ tt (λ names _.
        >>=-Keeps Anything Anything
          (delete_entries sys (delete_directory_recursively sys depth) path names w) _
          (delete_entries-Keeps (delete_directory_recursively sys depth) path names
            (delete_directory_recursively-Keeps depth) w)
          (λ r _. if-Keeps Anything r.0 _ _ tt tt))

  answer_dele-Kept :
      (force done : Bool) (s : Session World) (w : World)
      → KeptFrom s (answer_dele sys force done (record s { world = w }))
  unfolding answer_dele reply send_control_message bufferevent_write
  answer_dele-Kept force true s w = ground arith
  answer_dele-Kept true false s w = ground arith
  answer_dele-Kept false false s w = ground arith

  dele_target-Keeps :
      (depth : ℕ) (args : DeleArgs) (target : Bytes) (found : Option Stat) (s : Session World)
      → Keeps (KeptFrom s) (dele_target sys depth args target found s)
  unfolding dele_target reply send_control_message bufferevent_write
  dele_target-Keeps depth args target none s = ground arith
  dele_target-Keeps depth args target (some st) s =
      if-Keeps (KeptFrom s) (st.is_dir && not args.recursive) _ _ (ground arith) (
        >>=-Keeps Anything (KeptFrom s)
          (if st.is_dir
            then delete_directory_recursively sys depth target s.world
            else ok (unlink s.world target))
          _
          (if-Keeps Anything st.is_dir _ _
            (unfold Deletes in delete_directory_recursively-Keeps depth target s.world) tt)
          (λ r _. answer_dele-Kept args.force r.0 s r.1))

  dele_with-Keeps :
      (depth : ℕ) (args : Option (DeleArgs × Bytes)) (s : Session World)
      → Keeps (KeptFrom s) (dele_with sys depth args s)
  unfolding dele_with reply send_control_message bufferevent_write
  dele_with-Keeps depth none s = ground arith
  dele_with-Keeps depth (some (args, target)) s =
      if-Keeps (KeptFrom s) (not (is_path_safe target)) _ _ (ground arith)
        (dele_target-Keeps depth args target (stat s.world target) s)

  pub handle_dele_command-Keeps :
      (depth : ℕ) (cmd : Command) (s : Session World)
      → Keeps (KeptFrom s) (handle_dele_command sys depth cmd s)
  unfolding handle_dele_command
  handle_dele_command-Keeps depth cmd s = dele_with-Keeps depth (parse_dele_params cmd) s
