-- ===== src/Engine.antt =====
-- The execution engine: the command table of src/actions/command_actions.h, its registration and
-- the dispatch of src/engine/command_parser.c.
pub mod Registry
pub mod Outcome
pub mod Guard
pub mod Access
pub mod Frame
pub mod Memory
pub mod Replies
use mathlib.Core.Option
use cftp_server.Base.{
  ℕ, Bool, true, false, Option, none, some, List, [], ◌∷◌, String, Bytes, bytes, ◌==◌,
  if◌then◌else◌,
}
use cftp_server.Faults.{Run, ok, fault, null_pointer, ◌>>=◌}
use cftp_server.Hashmap
use cftp_server.Hashmap.{
  Table, Memory as Allocations, enough, create_hash_table, insert_entry, get_ptr_to_value_by_key,
}
use cftp_server.Command.{Command, parse_text_command}
use cftp_server.Connection.{Connection, Session}
use cftp_server.System.{System}
use cftp_server.Data.{PortRange, data_connection_listener_config}
use cftp_server.Actions.Session.{
  cftp_syst_action, cftp_quit_action, cftp_auth_action, cftp_pbsz_action, cftp_prot_action,
  cftp_noop_action, cftp_feat_action, cftp_invalid_action, cftp_non_authenticated,
  cftp_authenticated, cftp_type_authenticated_action, cftp_abor_authenticated_action,
}
use cftp_server.Actions.Files.{
  cftp_size_authenticated_action, cftp_mdtm_authenticated_action, cftp_mkd_authenticated_action,
  cftp_rmd_authenticated_action, cftp_cwd_authenticated_action, cftp_pwd_authenticated_action,
}
use cftp_server.Actions.Delete.{handle_dele_command}
use cftp_server.Actions.Listing.{handle_list_command}
use cftp_server.Actions.Transfer.{cftp_retr_authenticated_action, cftp_stor_authenticated_action}
use cftp_server.Actions.Login.{cftp_user_authenticated, cftp_pass_authenticated}

-- The functions that a `command_execution_cb` points to.
pub data Action : Type 0 where
  syst quit auth pbsz prot noop feat : Action
  type epsv pasv nlst list size retr stor mdtm cwd pwd abor mkd rmd dele : Action
  non_authenticated authenticated user pass : Action

-- `command_cb`, without the connection that it repeats
pub record CommandCb : Type 0 where
  pub authenticated_cb : Action
  pub non_authenticated_cb : Action

-- ADD_COMMAND_WITH_SAME_ACTION, ADD_COMMAND_WITH_DIFF_ACTION
abbrev pub same : Action → CommandCb
same a = record { authenticated_cb = a; non_authenticated_cb = a }

abbrev pub diff : Action → Action → CommandCb
diff a b = record { authenticated_cb = a; non_authenticated_cb = b }

unfoldable pub command_actions : List (String × CommandCb)
command_actions =
    ("SYST", same syst)
    ∷ ("QUIT", same quit)
    ∷ ("AUTH", same auth)
    ∷ ("PBSZ", same pbsz)
    ∷ ("PROT", same prot)
    ∷ ("NOOP", same noop)
    ∷ ("FEAT", same feat)
    ∷ ("TYPE", diff type non_authenticated)
    ∷ ("EPSV", diff epsv non_authenticated)
    ∷ ("PASV", diff pasv non_authenticated)
    ∷ ("NLST", diff nlst non_authenticated)
    ∷ ("LIST", diff list non_authenticated)
    ∷ ("SIZE", diff size non_authenticated)
    ∷ ("RETR", diff retr non_authenticated)
    ∷ ("STOR", diff stor non_authenticated)
    ∷ ("MDTM", diff mdtm non_authenticated)
    ∷ ("CWD", diff cwd non_authenticated)
    ∷ ("PWD", diff pwd non_authenticated)
    ∷ ("ABOR", diff abor non_authenticated)
    ∷ ("MKD", diff mkd non_authenticated)
    ∷ ("RMD", diff rmd non_authenticated)
    ∷ ("DELE", diff dele non_authenticated)
    ∷ ("USER", diff authenticated user)
    ∷ ("PASS", diff authenticated pass)
    ∷ []

abbrev pub Registry : Type 0
Registry = Option (Table CommandCb)

-- Which allocations of the start succeed: those of the table, and for each command that of its
-- callbacks and those of its entry.
pub record StartMemory : Type 0 where
  pub table : Allocations
  pub callbacks : String → Bool
  pub entry : String → Allocations

abbrev pub plenty : StartMemory
plenty = record { table = enough; callbacks = λ _. true; entry = λ _. enough }

-- `register_command`: the object of the callbacks is written without a test of its allocation.
unfoldable pub register_command : StartMemory → String → CommandCb → Registry → Run (ℕ × Registry)
register_command mem name cb registry =
    if mem.callbacks name
    then insert_entry (mem.entry name) registry (some (bytes name)) (some cb)
    else fault null_pointer

-- The loop of `initialize_execution_engine`; a failed registration ends the process with
-- `exit(-1)`, which is `none`.
unfoldable pub register_commands :
    StartMemory → List (String × CommandCb) → Registry → Run (Option Registry)
register_commands mem [] registry = ok (some registry)
register_commands mem ((name, cb) ∷ rest) registry = do
  (result, registry') ← register_command mem name cb registry
  elim (result == 0) [ true ↦ ok none | false ↦ register_commands mem rest registry' ]

unfoldable pub initialize_execution_engine : StartMemory → Run (Option Registry)
initialize_execution_engine mem =
    register_commands mem command_actions (create_hash_table mem.table)

module _ (sys : System) where
  open sys use {World, can_bind, getsockname}

  -- What EPSV and PASV do with the port range of the server.
  unfoldable pub passive_action : ℕ → PortRange → Bool → Session World → Run (Session World)
  passive_action fuel range extended s = do
    c ←
        data_connection_listener_config fuel range (can_bind s.world) (getsockname s.world) extended
          s.conn
    ok (record s { conn = c })

  -- One call through a callback. The fuel is that of the port search and the depth of DELE.
  unfoldable pub run_action : ℕ → PortRange → Action → Command → Session World → Run (Session World)
  run_action fuel range syst cmd s = ok (cftp_syst_action s)
  run_action fuel range quit cmd s = ok (cftp_quit_action s)
  run_action fuel range auth cmd s = ok (cftp_auth_action cmd s)
  run_action fuel range pbsz cmd s = ok (cftp_pbsz_action s)
  run_action fuel range prot cmd s = ok (cftp_prot_action cmd s)
  run_action fuel range noop cmd s = ok (cftp_noop_action s)
  run_action fuel range feat cmd s = ok (cftp_feat_action s)
  run_action fuel range type cmd s = ok (cftp_type_authenticated_action cmd s)
  run_action fuel range epsv cmd s = passive_action fuel range true s
  run_action fuel range pasv cmd s = passive_action fuel range false s
  run_action fuel range nlst cmd s = handle_list_command sys cmd false s
  run_action fuel range list cmd s = handle_list_command sys cmd true s
  run_action fuel range size cmd s = ok (cftp_size_authenticated_action sys cmd s)
  run_action fuel range retr cmd s = cftp_retr_authenticated_action sys cmd s
  run_action fuel range stor cmd s = ok (cftp_stor_authenticated_action sys cmd s)
  run_action fuel range mdtm cmd s = ok (cftp_mdtm_authenticated_action sys cmd s)
  run_action fuel range cwd cmd s = ok (cftp_cwd_authenticated_action sys cmd s)
  run_action fuel range pwd cmd s = ok (cftp_pwd_authenticated_action sys s)
  run_action fuel range abor cmd s = ok (cftp_abor_authenticated_action s)
  run_action fuel range mkd cmd s = ok (cftp_mkd_authenticated_action sys cmd s)
  run_action fuel range rmd cmd s = ok (cftp_rmd_authenticated_action sys cmd s)
  run_action fuel range dele cmd s = handle_dele_command sys fuel cmd s
  run_action fuel range non_authenticated cmd s = ok (cftp_non_authenticated s)
  run_action fuel range authenticated cmd s = ok (cftp_authenticated s)
  run_action fuel range user cmd s = ok (cftp_user_authenticated sys cmd s)
  run_action fuel range pass cmd s = cftp_pass_authenticated sys cmd s

  -- The callback that the registry gives for the session.
  unfoldable pub dispatch :
      ℕ → PortRange → Option CommandCb → Command → Session World → Run (Session World)
  dispatch fuel range none cmd s = ok (cftp_invalid_action s)
  dispatch fuel range (some cb) cmd s =
      run_action fuel range
        (if s.conn.authenticated then cb.authenticated_cb else cb.non_authenticated_cb) cmd s

  unfoldable pub execute_ftp_command :
      (ℕ → Bool) → ℕ → PortRange → Registry → Bytes → Session World → Run (Session World)
  execute_ftp_command malloc fuel range registry input s = do
    let cmd = parse_text_command malloc input
    cb ← get_ptr_to_value_by_key registry (some cmd.command)
    dispatch fuel range cb cmd s
