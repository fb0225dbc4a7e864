-- ===== src/System.antt =====
-- The operating system as the server calls it: the calls of POSIX, the user database and the
-- sockets, over a state of their own that the process cannot see. None of this is under src/, so
-- it is a parameter of the model, and the model asks no law of it.
pub mod Files
use cftp_server.Base.{ℕ, Bool, Option, List, Bytes}

-- What the code reads of `struct stat`. The mode is the word of permission bits.
pub record Stat : Type 0 where
  pub is_dir : Bool
  pub is_link : Bool
  pub mode : ℕ
  pub nlink : ℕ
  pub uid : ℕ
  pub gid : ℕ
  pub size : ℕ
  pub mtime : ℕ

-- What the code reads of `struct passwd`.
pub record Passwd : Type 0 where
  pub pw_uid : ℕ
  pub pw_gid : ℕ
  pub pw_dir : Bytes

-- A call that changes the state returns whether it returned 0, or its result, with the new state.
pub record System : Type 1 where
  pub World : Type 0
  pub stat : World → Bytes → Option Stat
  pub lstat : World → Bytes → Option Stat
  pub mkdir : World → Bytes → Bool × World
  pub rmdir : World → Bytes → Bool × World
  pub unlink : World → Bytes → Bool × World
  pub chdir : World → Bytes → Bool × World
  pub chroot : World → Bytes → Bool × World
  pub setgid : World → ℕ → Bool × World
  pub setuid : World → ℕ → Bool × World
  pub getcwd : World → Option Bytes
  -- `opendir` and the entries that `readdir` gives
  pub entries : World → Bytes → Option (List Bytes)
  pub open_read : World → Bytes → Option ℕ × World
  pub open_write : World → Bytes → Option ℕ × World
  pub fstat : World → ℕ → Option Stat
  -- `none` is an error, no bytes are the end of the file
  pub read : World → ℕ → ℕ → Option Bytes × World
  -- what `evbuffer_add_file` sends of a descriptor
  pub add_file : World → ℕ → ℕ → Bytes × World
  pub fsync : World → ℕ → World
  -- the system when `evbuffer_write`, called until the buffer is empty, has written all of it, and
  -- `none` if that never comes, since the calls fail
  pub write : World → ℕ → Bytes → Option World
  pub close : World → ℕ → World
  pub getpwnam : World → Bytes → Option Passwd
  -- the field `sp_pwdp` of `getspnam`
  pub getspnam : World → Bytes → Option Bytes
  pub crypt : Bytes → Bytes → Option Bytes
  -- the local address of the control connection, in host order
  pub getsockname : World → Option ℕ
  -- whether `evconnlistener_new_bind` gives a listener on a port
  pub can_bind : World → ℕ → Bool
  -- `strftime` of a time, for MDTM and for LIST
  pub gmtime_text : ℕ → Bytes
  pub localtime_text : ℕ → Bytes
  -- the names under the number of a user and of a group, which the parent process looks up
  pub getpwuid : ℕ → Option Bytes
  pub getgrgid : ℕ → Option Bytes
