-- ===== src/Lib.antt =====
-- A model of the FTP server: a parent process that accepts clients up to a limit, and one process
-- for each client, which reads command lines on the control connection, finds the callbacks of the
-- command in a hash table, and runs the one for the state of the login. The actions answer on the
-- control connection, call the operating system, and use a passive data connection.
--
-- Which file models what:
--   Hashmap     src/core/structures/hashmap.c: the chained table. An insertion takes the outcomes
--               of its allocations (Memory). Models says that a table is a finite map.
--   Command     parse_text_command of src/engine/command_parser.c.
--   Engine      the command table of src/actions/command_actions.h, initialize_execution_engine,
--               which takes the outcomes of its allocations (StartMemory), and
--               execute_ftp_command.
--   Actions     src/actions: Session (answers and modes), Files (SIZE, MDTM, MKD, RMD, CWD, PWD),
--               Delete (dele.c), Listing (list.c), Transfer (retr.c, stor.c), Login (USER, PASS and
--               src/security/auth.c); Frame is about what the actions leave alone.
--   Security    src/security/security.c: is_path_safe, and in Lookup the two lookups of names.
--   Ipc         the exchange with the parent over the socket pair: the questions of a child in
--               src/ipc/interprocess_handler.c, and execute_root_command, which answers them.
--   Process     the process of a client up to its event loop: the child's part of
--               control_connection_accept_cb and start_control_connection_loop.
--   Connection  connection_t of src/core/connection.h, with its timers.
--   Control     src/engine/control_handler.c: messages, the upgrade to TLS, the login timeout.
--   Status      src/engine/ftp_status_codes.h. The modules named Replies are about what is a reply
--               and who writes one.
--   Data        src/engine/data_handler.c: the passive listener and the data connection.
--   Events      what libevent calls in the process of a client: on_read, on_write, on_event, the
--               callbacks of the data connection and the timers, as one step function; Upload
--               and Download follow a whole transfer from its command line.
--   Config      src/config_manager/config_manager.c: the configuration file; Seed is the file that
--               is written when there is none.
--   Server      src/core/server_state.c, and the count of connections in the parent; Start is main
--               of src/engine/main.c with what it calls, and Family the processes with the pipes
--               by which a child sees that the parent has gone.
--   System      what the server calls of the operating system: a parameter without laws; Files is
--               what POSIX documents of regular files, which only whole transfers need.
--   Base, Faults, Decimal  shared: C strings as lists of bytes, runs with faults, decimal numbers.
--   Logger      print_log of src/core/logger.c, with its buffer; Levels is which levels are printed.
--   Tests       concrete inputs of the theorems.
--
-- A session is a Connection and a state of the system. What is written to a connection is kept as
-- a list, the latest first; a write event of the data connection says how much of it is still in
-- the output, and comes only at the low mark of the output or below. A read through a null
-- pointer, a use after free, a division by zero and a loop that does not end within its fuel are
-- faults, so that a theorem that code returns is a theorem that it does not do these. Fuel is
-- taken by the search for a passive port, which gets one round more than there are ports, by DELE,
-- where it bounds the depth of the directories, and by the loop that writes the configuration
-- file, which gets as many rounds as the text has bytes; the handler of SIGCHLD needs one round
-- more than there are children that have ended. The lookups of names have the number of tries of
-- the source. The other loops are structural, over the input or a buffer's room (255 bytes of a
-- line of the configuration, 4095 of a word or an argument, 256 arguments). A child that waits for
-- an answer that never comes is a fault too, and so is an upload whose writes never go through.
-- The answer of the parent comes in one piece, and the parent has the memory to parse the
-- question.
--
-- Not modelled: what OpenSSL and libevent do, and the registration of the socket pair in a child,
-- which is calls of libevent; hexdump and get_random_unused_port, which nothing calls.
pub mod Base
pub mod Faults
pub mod Decimal
pub mod Hashmap
pub mod Command
pub mod Config
pub mod System
pub mod Connection
pub mod Control
pub mod Data
pub mod Security
pub mod Actions
pub mod Engine
pub mod Server
pub mod Tests
pub mod Ipc
pub mod Logger
pub mod Events
pub mod Process
pub mod Status
