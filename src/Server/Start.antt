-- ===== src/Server/Start.antt =====
-- The start and the end of the server: `main` of src/engine/main.c, `init_server_state` and
-- `destroy_server_state` of src/core/server_state.c, and `start_server_listener` of
-- src/core/connection.c. The calls of the libraries and of the system are recorded in order, and
-- whether they succeed is a parameter.
use cftp_server.Base.{ℕ, ◌%◌, ◌^◌, Bool, true, false, Option, List, ◌∷◌, Bytes}
use cftp_server.Config.{Configurations, read_configurations}
use cftp_server.Server.{ServerState, ServerEvent, initial_state, server_run}

-- Which calls succeed.
pub record SetupCalls : Type 0 where
  pub sigaction_succeeds : Bool
  pub certificate_loads : Bytes → Bool
  pub private_key_loads : Bytes → Bool
  pub base_is_made : Bool
  pub listener_is_made : ℕ → Bool

pub data SetupCall : Type 0 where
  ssl_library_init ssl_load_error_strings openssl_add_all_algorithms initialize_logger : SetupCall
  sigaction_sigchld ssl_ctx_new event_base_new event_base_dispatch : SetupCall
  ssl_ctx_free event_base_free : SetupCall
  use_certificate_file use_private_key_file : Bytes → SetupCall
  new_bind : ℕ → SetupCall

-- A part of the start, after the calls before it, the latest first: the process has ended with a
-- status, or it goes on.
pub data Progress (A : Type 0) : Type 0 where
  exited : ℕ → List SetupCall → Progress A
  going : A → List SetupCall → Progress A

abbrev pub Setup : Type 0 → Type 0
Setup A = List SetupCall → Progress A

infixl 5 ◌>>=◌ ◌>>◌
abbrev pub ◌>>=◌ : {A B : Type 0} → Setup A → (A → Setup B) → Setup B
◌>>=◌ first next before = elim (first before) [
  | exited status calls ↦ exited status calls
  | going a calls ↦ next a calls
]

abbrev pub ◌>>◌ : {B : Type 0} → Setup (Unit {0}) → Setup B → Setup B
first >> second = first >>= λ _. second

abbrev pub give : {A : Type 0} → A → Setup A
give a calls = going a calls

abbrev pub call : SetupCall → Setup (Unit {0})
call c calls = going tt (c ∷ calls)

-- `exit` with a status, of which the system keeps the last byte, unless the call succeeded.
abbrev pub or_exit : ℕ → Bool → Setup (Unit {0})
or_exit status true calls = going tt calls
or_exit status false calls = exited status calls

-- exit(-1)
abbrev pub minus_one : ℕ
minus_one = 255

module _ (o : SetupCalls) (version : Bytes) where
  unfoldable pub setup_sigchld_handler : Setup (Unit {0})
  setup_sigchld_handler = do call sigaction_sigchld; or_exit 1 o.sigaction_succeeds

  unfoldable pub init_server_state : Configurations → Setup ServerState
  init_server_state config = do
    call ssl_ctx_new
    call (use_certificate_file config.ssl_cert_file)
    or_exit minus_one (o.certificate_loads config.ssl_cert_file)
    call (use_private_key_file config.ssl_key_file)
    or_exit minus_one (o.private_key_loads config.ssl_key_file)
    call event_base_new
    or_exit minus_one o.base_is_made
    give (initial_state version config)

  unfoldable pub start_server_listener : ℕ → Setup (Unit {0})
  start_server_listener port = do
    call (new_bind (port % 2 ^ 16))
    or_exit 1 (o.listener_is_made (port % 2 ^ 16))

  unfoldable pub destroy_server_state : Setup (Unit {0})
  destroy_server_state = do call ssl_ctx_free; call event_base_free

  -- `main`, with the text of the configuration file and the events until the loop ends: the status
  -- it returns, how many clients it let in, and the state at the end.
  unfoldable pub main : Option Bytes → List ServerEvent → Setup (ℕ × ℕ × ServerState)
  unfolding setup_sigchld_handler init_server_state start_server_listener destroy_server_state
  main file events = do
    call ssl_library_init
    call ssl_load_error_strings
    call openssl_add_all_algorithms
    call initialize_logger
    setup_sigchld_handler
    state ← init_server_state (read_configurations file)
    start_server_listener state.config.port
    call event_base_dispatch
    let (clients, state') = server_run events state
    destroy_server_state
    give (0, clients, state')
