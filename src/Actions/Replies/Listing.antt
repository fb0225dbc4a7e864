-- ===== src/Actions/Replies/Listing.antt =====
-- The answers of LIST, NLST and DELE.
use cftp_server.Base.{
  ℕ, refl, Bool, true, false, not, ◌&&◌, Option, none, some, [], ◌∷◌, Bytes, arith, if◌then◌else◌,
}
use cftp_server.Status.{ftp_status_codes, is_one_of, is_status}
use cftp_server.Faults.{ok, fault, null_pointer, Keeps, >>=-Keeps, if-Keeps, option-Keeps}
use cftp_server.Command.{Command}
use cftp_server.Connection.{Session, list_tls_connected}
use cftp_server.Control.{reply}
use cftp_server.Control.Replies.{reply-Said}
use cftp_server.System.{System, Stat}
use cftp_server.Security.{is_path_safe}
use cftp_server.Actions.Frame.{
  Anything, list_lines-Keeps, Deletes, delete_directory_recursively-Keeps,
}
use cftp_server.Actions.Replies.{SaidIn}
use cftp_server.Actions.Delete.{
  answer_dele, dele_target, dele_with, DeleArgs, delete_directory_recursively,
}
use cftp_server.Actions.Listing.{
  handle_list_command, list_with, start_listing, list_path, parse_list_flags, ListFlags,
  send_list_command_output, list_lines, send_listing, keep_input, refuse_list,
}

module _ (sys : System) where
  open sys use {World, entries, unlink, stat}

  send_listing-Said : (out : Bytes) (s : Session World) → SaidIn s → SaidIn (send_listing sys out s)
  unfolding send_listing is_status is_one_of ftp_status_codes
  send_listing-Said [] s said = grind (arith, reply-Said)
  send_listing-Said (c ∷ out) s said = said

  pub send_list_command_output-Said :
      (path : Bytes) (description hidden human : Bool) (s : Session World)
      → SaidIn s
      → Keeps SaidIn (send_list_command_output sys path description hidden human s)
  unfolding send_list_command_output
  send_list_command_output-Said path description hidden human s said =
      option-Keeps SaidIn (entries s.world path) (fault null_pointer) _ tt (λ names _.
        >>=-Keeps Anything SaidIn
          (list_lines sys s.world path description hidden human names s.conn.interprocess_input) _
          (list_lines-Keeps sys s.world path description hidden human names
            s.conn.interprocess_input)
          (λ out _. send_listing-Said out.0 (keep_input sys out.1 s) said))

  refuse_list-Said : (status : ℕ) (s : Session World) → SaidIn s → SaidIn (refuse_list sys status s)
  unfolding refuse_list is_status is_one_of ftp_status_codes
  refuse_list-Said status s said = grind (arith, reply-Said)

  ready-Said :
      (s : Session World) → SaidIn s → SaidIn (reply 150 "Here comes the directory listings" s)
  unfolding is_status is_one_of ftp_status_codes
  ready-Said s said = reply-Said 150 "Here comes the directory listings" s refl said

  start_listing-Said :
      (flags : ListFlags) (path : Bytes) (description : Bool) (s : Session World)
      → SaidIn s
      → Keeps SaidIn (start_listing sys flags path description s)
  unfolding start_listing
  start_listing-Said flags path description s said =
      if-Keeps SaidIn s.conn.data_tls_required _ _
        (ready-Said
          (record s {
            conn = record s.conn {
              path = path;
              description = description;
              hidden = flags.all;
              data_tls_event_connected_cb = some list_tls_connected;
              human = flags.human;
            };
          })
          said)
        (send_list_command_output-Said path description flags.all flags.human
          (reply 150 "Here comes the directory listings" s) (ready-Said s said))

  list_with-Said :
      (flags : ListFlags) (description : Bool) (s : Session World)
      → SaidIn s
      → Keeps SaidIn (list_with sys flags description s)
  unfolding list_with is_status is_one_of ftp_status_codes
  list_with-Said flags description s said =
      option-Keeps SaidIn s.conn.data_bev _ _ (grind (arith, reply-Said)) (λ fd _.
        let path = list_path sys flags.path in
        if-Keeps SaidIn (not (is_path_safe path)) (ok (refuse_list sys 550 s)) _
          (refuse_list-Said 550 s said)
          (option-Keeps SaidIn (entries s.world path) (ok (refuse_list sys 550 s))
            (λ names. start_listing sys flags path description s) (refuse_list-Said 550 s said)
            (λ names _. start_listing-Said flags path description s said)))

  pub list-Said :
      (cmd : Command) (description : Bool) (s : Session World)
      → SaidIn s
      → Keeps SaidIn (handle_list_command sys cmd description s)
  unfolding handle_list_command
  list-Said cmd description s said =
      option-Keeps SaidIn (parse_list_flags cmd) _ _ (refuse_list-Said 501 s said)
        (λ flags _. list_with-Said flags description s said)

  answer_dele-Said :
      (force done : Bool) (s : Session World) → SaidIn s → SaidIn (answer_dele sys force done s)
  unfolding answer_dele is_status is_one_of ftp_status_codes
  answer_dele-Said force true s said = grind (arith, reply-Said)
  answer_dele-Said true false s said = grind (arith, reply-Said)
  answer_dele-Said false false s said = grind (arith, reply-Said)

  dele_target-Said :
      (depth : ℕ) (args : DeleArgs) (target : Bytes) (found : Option Stat) (s : Session World)
      → SaidIn s
      → Keeps SaidIn (dele_target sys depth args target found s)
  unfolding dele_target is_status is_one_of ftp_status_codes
  dele_target-Said depth args target none s said = grind (arith, reply-Said)
  dele_target-Said depth args target (some st) s said =
      if-Keeps SaidIn (st.is_dir && not args.recursive) _ _ (grind (arith, reply-Said)) (
        >>=-Keeps Anything SaidIn
          (if st.is_dir
            then delete_directory_recursively sys depth target s.world
            else ok (unlink s.world target))
          _
          (if-Keeps Anything st.is_dir _ _
            (unfold Deletes in delete_directory_recursively-Keeps sys depth target s.world) tt)
          (λ r _. answer_dele-Said args.force r.0 (record s { world = r.1 }) said))

  pub dele_with-Said :
      (depth : ℕ) (args : Option (DeleArgs × Bytes)) (s : Session World)
      → SaidIn s
      → Keeps SaidIn (dele_with sys depth args s)
  unfolding dele_with is_status is_one_of ftp_status_codes
  dele_with-Said depth none s said = grind (arith, reply-Said)
  dele_with-Said depth (some (args, target)) s said =
      if-Keeps SaidIn (not (is_path_safe target)) _ _ (grind (arith, reply-Said))
        (dele_target-Said depth args target (stat s.world target) s said)
