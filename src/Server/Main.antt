-- ===== src/Server/Main.antt =====
-- The whole life of the server process, for every outcome of the calls of its start.
use mathlib.Core.Path.{subst}
use cftp_server.Base.{
  ℕ, ◌%◌, ◌^◌, ◌≤◌, ◌≡◌, ◌⊎◌, inl, inr, refl, true, Option, List, [], ◌∷◌, ◌++◌, Bytes, arith, sym,
  take, drop, take-drop, Bool-cases,
}
use cftp_server.Config.{Configurations, read_configurations}
use cftp_server.Server.{ServerState, ServerEvent, initial_state, server_run}
use cftp_server.Server.Limit.{AllMade, server_run-total, initial_state-range}
use cftp_server.Server.Start.{
  SetupCalls, SetupCall, Progress, exited, going, main, ssl_library_init, ssl_load_error_strings,
  openssl_add_all_algorithms, initialize_logger, sigaction_sigchld, ssl_ctx_new, event_base_new,
  event_base_dispatch, ssl_ctx_free, event_base_free, use_certificate_file, use_private_key_file,
  new_bind, setup_sigchld_handler, init_server_state, start_server_listener, destroy_server_state,
}

-- The calls of a server that comes up, the latest first.
abbrev pub startup_calls : Configurations → List SetupCall
startup_calls config =
    new_bind (config.port % 2 ^ 16)
    ∷ event_base_new
    ∷ use_private_key_file config.ssl_key_file
    ∷ use_certificate_file config.ssl_cert_file
    ∷ ssl_ctx_new
    ∷ sigaction_sigchld
    ∷ initialize_logger
    ∷ openssl_add_all_algorithms
    ∷ ssl_load_error_strings
    ∷ ssl_library_init
    ∷ []

pub record AllSucceed (o : SetupCalls) (config : Configurations) : Type 0 where
  pub handler : o.sigaction_succeeds ≡ true
  pub certificate : o.certificate_loads config.ssl_cert_file ≡ true
  pub private_key : o.private_key_loads config.ssl_key_file ≡ true
  pub base : o.base_is_made ≡ true
  pub listener : o.listener_is_made (config.port % 2 ^ 16) ≡ true

-- A server that served: it came up with every call of the start, let in no more clients than the
-- configuration has places, and gave back what it had made.
pub record Served (o : SetupCalls) (config : Configurations) (status clients : ℕ)
    (calls : List SetupCall) : Type 0 where
  pub succeeded : AllSucceed o config
  pub status_zero : status ≡ 0
  pub within : clients ≤ config.max_connections
  pub order : calls ≡ event_base_free ∷ ssl_ctx_free ∷ event_base_dispatch ∷ startup_calls config

-- A server that did not come up: it ended with the status of the call that failed, which was the
-- last one, and so before the dispatch.
pub record Ended (o : SetupCalls) (config : Configurations) (status : ℕ) (calls : List SetupCall)
    : Type 0 where
  pub failed : ¬ AllSucceed o config
  pub status_not_zero : (status ≡ 1) ⊎ (status ≡ 255)
  pub not_served : (later : List SetupCall) × (startup_calls config ≡ later ++ calls)

abbrev pub Outcome : SetupCalls → Configurations → Progress (ℕ × ℕ × ServerState) → Type 0
Outcome o config (exited status calls) = Ended o config status calls
Outcome o config (going (status, clients, state) calls) = Served o config status clients calls

module _ (o : SetupCalls) (version : Bytes) (file : Option Bytes) (events : List ServerEvent) where
  abbrev config : Configurations
  config = read_configurations file

  -- The server stops before the last calls of the start.
  stopped :
      (left status : ℕ)
      → main o version file events [] ≡ exited status (drop left (startup_calls config))
      → (status ≡ 1) ⊎ (status ≡ 255)
      → ¬ AllSucceed o config
      → Outcome o config (main o version file events [])
  stopped left status e which failed = subst (Outcome o config) (sym e) (record {
    failed = failed;
    status_not_zero = which;
    not_served = (take left (startup_calls config), sym (take-drop left (startup_calls config)));
  })

  served :
      AllSucceed o config
      → main o version file events []
        ≡ going
            (
              0,
              (server_run events (initial_state version config)).0,
              (server_run events (initial_state version config)).1,
            )
            (event_base_free ∷ ssl_ctx_free ∷ event_base_dispatch ∷ startup_calls config)
  unfolding main setup_sigchld_handler init_server_state start_server_listener destroy_server_state
      initial_state
  served all = rw (all.handler, all.certificate, all.private_key, all.base, all.listener) refl

  few :
      AllMade events → (server_run events (initial_state version config)).0 ≤ config.max_connections
  unfolding initial_state
  few made =
      let range = initial_state-range version file in
      omega (
        arith,
        (server_run-total events (initial_state version config) (omega (arith, range.0)) range.1
            made).1,
      )

  -- For any outcomes of the calls, any configuration file and any events in which the bufferevents
  -- of the children are made: either the server comes up, with every call of the start made in
  -- order and successful, lets in no more clients than the configuration has places, gives back
  -- what it had made and ends with status 0; or some call fails, and then the server ends at that
  -- call with status 1 or 255, before it serves.
  pub main-Outcome : AllMade events → Outcome o config (main o version file events [])
  unfolding main setup_sigchld_handler init_server_state start_server_listener initial_state
  main-Outcome made = elim (Bool-cases o.sigaction_succeeds) [
    | inr bad ↦ stopped 5 1 (rw bad refl) (inl refl) (λ all. let h = all.handler in cc)
    | inl handler ↦ elim (Bool-cases (o.certificate_loads config.ssl_cert_file)) [
      | inr bad ↦
          stopped 3 255 (rw (handler, bad) refl) (inr refl) (λ all. let h = all.certificate in cc)
      | inl certificate ↦ elim (Bool-cases (o.private_key_loads config.ssl_key_file)) [
        | inr bad ↦
            stopped 2 255 (rw (handler, certificate, bad) refl) (inr refl)
              (λ all. let h = all.private_key in cc)
        | inl private_key ↦ elim (Bool-cases o.base_is_made) [
          | inr bad ↦
              stopped 1 255 (rw (handler, certificate, private_key, bad) refl) (inr refl)
                (λ all. let h = all.base in cc)
          | inl base ↦ elim (Bool-cases (o.listener_is_made (config.port % 2 ^ 16))) [
            | inr bad ↦
                stopped 0 1 (rw (handler, certificate, private_key, base, bad) refl) (inl refl)
                  (λ all. let h = all.listener in cc)
            | inl listener ↦
                let all : AllSucceed o config = record {
                  handler = handler;
                  certificate = certificate;
                  private_key = private_key;
                  base = base;
                  listener = listener;
                } in
                subst (Outcome o config) (sym (served all))
                  (record { succeeded = all; status_zero = refl; within = few made; order = refl })
          ]
        ]
      ]
    ]
  ]
