-- ===== src/Config/Seed.antt =====
-- `seed_default_config_if_missing` of src/config_manager/config_manager.c: the file that is written
-- when there is no configuration. The outcomes of the system calls are parameters, and the result
-- comes with the calls in their order.
pub mod Seeded
use cftp_server.Base.{
  ℕ, zero, suc, ◌+◌, ◌-◌, Bool, true, false, Option, none, some, List, [], ◌∷◌, ◌++◌, String, Bytes,
  bytes, last_slash, length, take, drop, leb, ◌==◌, if◌then◌else◌,
}
use cftp_server.Faults.{Run, ok, fault, out_of_fuel, ◌>>=◌}

-- The lines of `content`.
abbrev seed_lines : List String
seed_lines =
    "# cftp server configuration (directive=value, '#' for comments)" ∷ "" ∷ "# Limits and timeouts"
    ∷ "max_connections=10000" ∷ "connection_accept_timeout=60" ∷ "data_connection_accept_timeout=9"
    ∷ "" ∷ "# Ports range (IANA dynamic/private ports)" ∷ "passive_port_start=40000"
    ∷ "passive_port_end=41000" ∷ "port=21" ∷ "" ∷ "# Identity"
    ∷ "server_name=Harkirat's CFTP Server" ∷ "" ∷ "# TLS settings" ∷ ""
    ∷ "# Certificate paths (adjust per distro)" ∷ "ssl_cert_file=/etc/ssl/certs/cftp_server.crt"
    ∷ "ssl_key_file=/etc/ssl/private/cftp_server.key" ∷ []

unfoldable pub unlines : List String → Bytes
unlines [] = []
unlines (line ∷ lines) = bytes line ++ 10 ∷ unlines lines

unfoldable pub seed_content : Bytes
unfolding unlines
seed_content = unlines seed_lines

-- 1, 0 and -1
pub data SeedResult : Type 0 where
  exists seeded failed : SeedResult

-- `stat`: the file is there, ENOENT, or another error.
pub data StatResult : Type 0 where
  present absent unknown : StatResult

-- The calls from `mkstemp` on, with the texts and whether they succeed. A write has the bytes that
-- were taken.
pub data SeedCall : Type 0 where
  mkstemp : Option Bytes → SeedCall
  fchmod : Bytes → ℕ → Bool → SeedCall
  write : Bytes → Bytes → SeedCall
  write_failed : Bytes → SeedCall
  fsync close unlink : Bytes → Bool → SeedCall
  rename : Bytes → Bytes → Bool → SeedCall
  fsync_directory : Bytes → SeedCall

-- What the calls give. `mkstemp` gives the name that it has made from the template; a `write` is
-- given its number and how many bytes are left, and gives how many it took.
pub record Outcomes : Type 0 where
  pub stat_gives : Bytes → StatResult
  pub mkstemp_gives : Bytes → Option Bytes
  pub fchmod_succeeds : Bool
  pub write_gives : ℕ → ℕ → Option ℕ
  pub fsync_succeeds : Bool
  pub close_succeeds : Bool
  pub rename_succeeds : Bool
  pub unlink_succeeds : Bool
  pub directory_opens : Bool

abbrev pub seed_path : Option Bytes → Bytes
seed_path none = bytes "/etc/cftp_server.conf"
seed_path (some path) = path

abbrev directory_before : Bytes → Option ℕ → Bytes
directory_before path none = bytes "/"
directory_before path (some zero) = bytes "/"
directory_before path (some (suc i)) = take (suc i) path

-- The directory that is flushed at the end, from the first 4095 bytes of the path.
unfoldable pub seed_directory : Bytes → Bytes
unfolding last_slash
seed_directory path = let p = take 4095 path in directory_before p (last_slash p)

module _ (o : Outcomes) where
  open o use {
    stat_gives, mkstemp_gives, fchmod_succeeds, write_gives, fsync_succeeds, close_succeeds,
    rename_succeeds, unlink_succeeds, directory_opens,
  }

  -- The loop of the writes: whether all was written.
  unfoldable pub write_content : Bytes → ℕ → ℕ → Bytes → Run (Bool × List SeedCall)
  write_content tmp fuel i [] = ok (true, [])
  write_content tmp zero i (c ∷ rest) = fault out_of_fuel
  write_content tmp (suc fuel) i (c ∷ rest) = elim (write_gives i (length (c ∷ rest))) [
    | none ↦ ok (false, write_failed tmp ∷ [])
    | some n ↦ do
      (done, calls) ← write_content tmp fuel (i + 1) (drop n (c ∷ rest))
      ok (done, write tmp (take n (c ∷ rest)) ∷ calls)
  ]

  abbrev give_up : Bytes → SeedResult × List SeedCall
  give_up tmp = (failed, unlink tmp unlink_succeeds ∷ [])

  abbrev then_call : SeedCall → SeedResult × List SeedCall → SeedResult × List SeedCall
  then_call call r = (r.0, call ∷ r.1)

  -- The new name, and the directory of it.
  unfoldable pub finish_rename : Bytes → Bytes → SeedResult × List SeedCall
  finish_rename path tmp = then_call (rename tmp path rename_succeeds) (
      if rename_succeeds
      then (seeded, if directory_opens then fsync_directory (seed_directory path) ∷ [] else [])
      else give_up tmp)

  -- From `fsync` on. A failed flush closes the file; a failed close does not close it again.
  unfoldable pub finish_file : Bytes → Bytes → SeedResult × List SeedCall
  unfolding finish_rename
  finish_file path tmp = then_call (fsync tmp fsync_succeeds) (
      if fsync_succeeds
      then then_call (close tmp close_succeeds)
          (if close_succeeds then finish_rename path tmp else give_up tmp)
      else then_call (close tmp close_succeeds) (give_up tmp))

  -- What follows the loop of the writes.
  unfoldable pub after_writes : Bytes → Bytes → Bool → SeedResult × List SeedCall
  unfolding finish_file
  after_writes path tmp true = finish_file path tmp
  after_writes path tmp false = then_call (close tmp close_succeeds) (give_up tmp)

  -- What follows `fchmod`.
  unfoldable pub after_fchmod : ℕ → Bytes → Bytes → Bool → Run (SeedResult × List SeedCall)
  unfolding after_writes write_content
  after_fchmod fuel path tmp false = ok (then_call (close tmp close_succeeds) (give_up tmp))
  after_fchmod fuel path tmp true = do
    (done, calls) ← write_content tmp fuel 0 seed_content
    let (r, rest) = after_writes path tmp done
    ok (r, calls ++ rest)

  unfoldable pub fill_file : ℕ → Bytes → Bytes → Run (SeedResult × List SeedCall)
  unfolding after_fchmod
  fill_file fuel path tmp = do
    r ← after_fchmod fuel path tmp fchmod_succeeds
    ok (then_call (fchmod tmp 420 fchmod_succeeds) r)

  unfoldable pub make_file : ℕ → Bytes → Option Bytes → Run (SeedResult × List SeedCall)
  unfolding fill_file
  make_file fuel path none = ok (failed, mkstemp none ∷ [])
  make_file fuel path (some tmp) = do
    r ← fill_file fuel path tmp
    ok (then_call (mkstemp (some tmp)) r)

  -- The buffer for the name of the temporary file has PATH_MAX bytes.
  unfoldable pub seed_missing : ℕ → Bytes → StatResult → Run (SeedResult × List SeedCall)
  unfolding make_file
  seed_missing fuel path present = ok (exists, [])
  seed_missing fuel path unknown = ok (failed, [])
  seed_missing fuel path absent =
      if leb 4080 (length (take 4095 path))
      then ok (failed, [])
      else make_file fuel path (mkstemp_gives (path ++ bytes ".tmp.XXXXXX"))

  unfoldable pub seed_default_config_if_missing :
      ℕ → Option Bytes → Run (SeedResult × List SeedCall)
  unfolding seed_missing
  seed_default_config_if_missing fuel path_opt =
      let path = seed_path path_opt in seed_missing fuel path (stat_gives path)
