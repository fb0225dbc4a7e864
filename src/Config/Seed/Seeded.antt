-- ===== src/Config/Seed/Seeded.antt =====
-- What is left behind by writing the configuration file.
use cftp_server.Base.{
  take-drop, length-drop, ℕ, zero, suc, ◌+◌, ◌<◌, ◌≤◌, ◌≡◌, refl, ◌⊎◌, inl, inr, Bool, true, false,
  Option, none, some, List, [], ◌∷◌, ◌++◌, Bytes, bytes, arith, isspace, skip_spaces, tolower,
  isdigit, length, take, drop, leb, All, Bool-cases, Option-cases,
}
use cftp_server.Faults.{Returns}
use mathlib.Core.Path.{subst}
use mathlib.Core.List.{append_assoc}
use cftp_server.Decimal.{read_digits}
use cftp_server.Config.{
  read_configurations, default_configurations, Configurations, post_validate, process_lines,
  fgets_lines, process_line, trim_inplace, trim_right_inplace, split_eq, assign_kv, equals_icase,
  int_in, parse_int, parse_sign, parse_magnitude, process_entry, process_trimmed,
}
use cftp_server.Config.Seed.{
  unlines, SeedResult, exists, seeded, failed, StatResult, present, absent, unknown, SeedCall,
  mkstemp, fchmod, write, write_failed, fsync, close, unlink, rename, fsync_directory, Outcomes,
  seed_path, seed_content, write_content, finish_rename, finish_file, after_writes, after_fchmod,
  fill_file, make_file, seed_missing, seed_default_config_if_missing,
}

-- Calls that write to the file `tmp` one after the other, and all the bytes that they write.
pub data Writes (tmp : Bytes) : List SeedCall → Bytes → Type 0 where
  nothing : Writes tmp [] []
  more :
      {calls : List SeedCall} {rest : Bytes}
      → (s : Bytes) → Writes tmp calls rest
      → Writes tmp (write tmp s ∷ calls) (s ++ rest)

-- The call gives the file of the configuration its new content.
abbrev pub replaces : SeedCall → Bool
replaces (mkstemp tmp) = false
replaces (fchmod tmp mode done) = false
replaces (write tmp s) = false
replaces (write_failed tmp) = false
replaces (fsync tmp done) = false
replaces (close tmp done) = false
replaces (unlink tmp done) = false
replaces (rename tmp path done) = done
replaces (fsync_directory path) = false

abbrev pub Untouched : List SeedCall → Type 0
Untouched calls = All (λ call. replaces call ≡ false) calls

Untouched-append : (a b : List SeedCall) → Untouched a → Untouched b → Untouched (a ++ b)
Untouched-append [] b p q = q
Untouched-append (call ∷ a) b p q = (p.0, Untouched-append a b p.1 q)

-- A loop of writes that is done has written all of the text, and it never renames.
WroteAll : Bytes → Bytes → Bool × List SeedCall → Type 0
WroteAll tmp s (true, calls) = Writes tmp calls s
WroteAll tmp s (false, calls) = Untouched calls

Writes-Untouched : {tmp s : Bytes} {calls : List SeedCall} → Writes tmp calls s → Untouched calls
Writes-Untouched nothing = tt
Writes-Untouched (more s w) = (refl, Writes-Untouched w)

-- The text that is written is read back as the built-in settings, but for the name of the server.
abbrev pub seeded_configurations : Configurations
seeded_configurations = record default_configurations {
  server_name = bytes "Harkirat's CFTP Server";
}

seed_content-read : read_configurations (some seed_content) ≡ seeded_configurations
unfolding read_configurations seed_content post_validate process_lines fgets_lines bytes
    process_line trim_inplace trim_right_inplace skip_spaces isspace split_eq assign_kv equals_icase
    tolower int_in parse_int parse_sign isdigit unlines parse_magnitude process_entry
    process_trimmed read_digits
seed_content-read = refl

module _ (o : Outcomes) where
  open o use {
    stat_gives, write_gives, unlink_succeeds, mkstemp_gives, fchmod_succeeds, close_succeeds,
    fsync_succeeds, rename_succeeds,
  }

  -- A write of at least one byte takes at least one, or fails.
  abbrev pub Progresses : Type 0
  Progresses = (i n k : ℕ) → write_gives i n ≡ some k → 0 < n → 0 < k

  wrote_more :
      (tmp s : Bytes) (n : ℕ) (r : Bool × List SeedCall)
      → WroteAll tmp (drop n s) r
      → WroteAll tmp s (r.0, write tmp (take n s) ∷ r.1)
  unfolding WroteAll
  wrote_more tmp s n (true, calls) w =
      subst (Writes tmp (write tmp (take n s) ∷ calls)) (take-drop n s) (more (take n s) w)
  wrote_more tmp s n (false, calls) w = (refl, w)

  write_content-WroteAll :
      (tmp : Bytes) (fuel i : ℕ) (s : Bytes)
      → Progresses
      → length s ≤ fuel
      → Returns (write_content o tmp fuel i s) (WroteAll tmp s)
  unfolding write_content WroteAll
  write_content-WroteAll tmp fuel i [] p enough = ((true, []), refl, nothing)
  write_content-WroteAll tmp zero i (c ∷ s) p enough = absurd (omega arith)
  write_content-WroteAll tmp (suc fuel) i (c ∷ s) p enough =
      elim (Option-cases (write_gives i (length (c ∷ s)))) [
        | inl fails ↦ ((false, write_failed tmp ∷ []), rw (write_content, fails) refl, (refl, tt))
        | inr (n, gives) ↦
            let progress = p i _ n gives (omega arith) in
            let (r, run, w) =
              write_content-WroteAll tmp fuel (i + 1) (drop n (c ∷ s)) p
                (omega (arith, length-drop n (c ∷ s))) in
            (
              (r.0, write tmp (take n (c ∷ s)) ∷ r.1),
              rw (write_content, gives, run) refl,
              wrote_more tmp (c ∷ s) n r w,
            )
      ]

  -- What the function leaves behind. A file that is there is left alone. A new file has the whole
  -- content, was given its mode, was written, flushed and closed under another name, in this order,
  -- and then took the name. In a failure no file took the name, and a temporary file that was made
  -- is removed by the last call.
  pub Left : Bytes → SeedResult × List SeedCall → Type 0
  Left path (exists, calls) = calls ≡ []
  Left path (seeded, calls) =
      (tmp : Bytes) × (writes : List SeedCall) × (last : List SeedCall) × Writes tmp writes
        seed_content
      × (calls
          ≡ mkstemp (some tmp)
            ∷ fchmod tmp 420 true
            ∷ (writes ++ fsync tmp true ∷ close tmp true ∷ rename tmp path true ∷ last))
  Left path (failed, calls) =
      Untouched calls
      × ((calls ≡ [])
          ⊎ (calls ≡ mkstemp none ∷ [])
          ⊎ ((tmp : Bytes) × (before : List SeedCall) × (calls
                ≡ mkstemp (some tmp) ∷ (before ++ unlink tmp unlink_succeeds ∷ []))))

  -- The part behind the writes.
  Ended : Bytes → Bytes → SeedResult × List SeedCall → Type 0
  Ended path tmp (exists, calls) = ⊥
  Ended path tmp (seeded, calls) =
      (last : List SeedCall) × (calls
        ≡ fsync tmp true ∷ close tmp true ∷ rename tmp path true ∷ last)
  Ended path tmp (failed, calls) =
      Untouched calls
      × ((before : List SeedCall) × (calls ≡ before ++ unlink tmp unlink_succeeds ∷ []))

  after_writes-Ended :
      (path tmp : Bytes) (done : Bool) → Ended path tmp (after_writes o path tmp done)
  unfolding after_writes finish_file finish_rename Ended
  after_writes-Ended path tmp false = ((refl, (refl, tt)), (close tmp close_succeeds ∷ [], refl))
  after_writes-Ended path tmp true = elim (Bool-cases fsync_succeeds) [
    | inr no_flush ↦
        rw no_flush
          ((refl, (refl, (refl, tt))), (fsync tmp false ∷ close tmp close_succeeds ∷ [], refl))
    | inl flushed ↦ elim (Bool-cases close_succeeds) [
      | inr no_close ↦
          rw (flushed, no_close)
            ((refl, (refl, (refl, tt))), (fsync tmp true ∷ close tmp false ∷ [], refl))
      | inl closed ↦ elim (Bool-cases rename_succeeds) [
        | inr no_rename ↦
            rw (flushed, closed, no_rename)
              (
                (refl, (refl, (refl, (refl, tt)))),
                (fsync tmp true ∷ close tmp true ∷ rename tmp path false ∷ [], refl),
              )
        | inl renamed ↦ rw (flushed, closed, renamed) (_, refl)
      ]
    ]
  ]

  quiet :
      (tmp : Bytes) (done : Bool) (calls : List SeedCall)
      → WroteAll tmp seed_content (done, calls)
      → Untouched calls
  unfolding WroteAll
  quiet tmp true calls w = Writes-Untouched w
  quiet tmp false calls w = w

  filled :
      (path tmp : Bytes) (r : Bool × List SeedCall) (e : SeedResult × List SeedCall)
      → WroteAll tmp seed_content r
      → Ended path tmp e
      → (r.0 ≡ false → e.0 ≡ failed)
      → Left path (e.0, mkstemp (some tmp) ∷ fchmod tmp 420 true ∷ (r.1 ++ e.1))
  unfolding WroteAll Ended Left
  filled path tmp (true, calls) (exists, later) w e stops = absurd e
  filled path tmp (false, calls) (exists, later) w e stops = absurd e
  filled path tmp (true, calls) (seeded, later) w (last, e) stops = (tmp, calls, last, w, rw e refl)
  filled path tmp (false, calls) (seeded, later) w e stops = (let h = stops refl in absurd cc)
  filled path tmp (done, calls) (failed, later) w (u, (before, e)) stops = (
    (refl, (refl, Untouched-append calls later (quiet tmp done calls w) u)),
    inr (
        inr
          (tmp, fchmod tmp 420 true ∷ (calls ++ before), rw (e, append_assoc calls before _) refl)),
  )

  after_writes-failed :
      (path tmp : Bytes) (done : Bool) → done ≡ false → (after_writes o path tmp done).0 ≡ failed
  unfolding after_writes
  after_writes-failed path tmp false h = refl
  after_writes-failed path tmp true h = absurd cc

  after_fchmod-Left :
      (fuel : ℕ) (path tmp : Bytes) (granted : Bool)
      → Progresses
      → length seed_content ≤ fuel
      → Returns
          (after_fchmod o fuel path tmp granted)
          (λ r. Left path (r.0, mkstemp (some tmp) ∷ fchmod tmp 420 granted ∷ r.1))
  unfolding after_fchmod Left
  after_fchmod-Left fuel path tmp false p enough = (
    (failed, close tmp close_succeeds ∷ unlink tmp unlink_succeeds ∷ []),
    refl,
    (
      (refl, (refl, (refl, (refl, tt)))),
      inr (inr (tmp, fchmod tmp 420 false ∷ close tmp close_succeeds ∷ [], refl)),
    ),
  )
  after_fchmod-Left fuel path tmp true p enough =
      let (r, run, w) = write_content-WroteAll tmp fuel 0 seed_content p enough in
      let e = after_writes o path tmp r.0 in
      (
        (e.0, r.1 ++ e.1),
        rw (after_fchmod, run) refl,
        filled path tmp r e w (after_writes-Ended path tmp r.0) (after_writes-failed path tmp r.0),
      )

  make_file-Left :
      (fuel : ℕ) (path : Bytes) (made : Option Bytes)
      → Progresses
      → length seed_content ≤ fuel
      → Returns (make_file o fuel path made) (Left path)
  unfolding make_file Left
  make_file-Left fuel path none p enough =
      ((failed, mkstemp none ∷ []), refl, ((refl, tt), inr (inl refl)))
  make_file-Left fuel path (some tmp) p enough =
      let (r, run, left) = after_fchmod-Left fuel path tmp fchmod_succeeds p enough in
      (
        (r.0, mkstemp (some tmp) ∷ fchmod tmp 420 fchmod_succeeds ∷ r.1),
        rw (make_file, fill_file, run) refl,
        left,
      )

  seed_missing-Left :
      (fuel : ℕ) (path : Bytes) (found : StatResult)
      → Progresses
      → length seed_content ≤ fuel
      → Returns (seed_missing o fuel path found) (Left path)
  unfolding seed_missing Left
  seed_missing-Left fuel path present p enough = ((exists, []), refl, refl)
  seed_missing-Left fuel path unknown p enough = ((failed, []), refl, (tt, inl refl))
  seed_missing-Left fuel path absent p enough =
      elim (Bool-cases (leb 4080 (length (take 4095 path)))) [
        | inl long ↦ ((failed, []), rw (seed_missing, long) refl, (tt, inl refl))
        | inr short ↦
            let (r, run, left) =
              make_file-Left fuel path (mkstemp_gives (path ++ bytes ".tmp.XXXXXX")) p enough in
            (r, rw (seed_missing, short) run, left)
      ]

  -- If every write of at least one byte takes at least one or fails, as many rounds as the text has
  -- bytes are enough for the loop of the writes, whatever the calls give. A file that is there is
  -- left alone. A file that is made was given its mode, got the whole text, was flushed and closed
  -- under another name, in this order, and then took the name; read back it gives the built-in
  -- settings, but for the name of the server. In a failure no file took the name, and the last call
  -- asks for the removal of the temporary file, if one was made; it stays if that call fails.
  pub seed_default_config_if_missing-Left :
      (fuel : ℕ) (path_opt : Option Bytes)
      → Progresses
      → length seed_content ≤ fuel
      → Returns (seed_default_config_if_missing o fuel path_opt) (Left (seed_path path_opt))
        × (read_configurations (some seed_content) ≡ seeded_configurations)
  unfolding seed_default_config_if_missing
  seed_default_config_if_missing-Left fuel path_opt p enough = (
    seed_missing-Left fuel (seed_path path_opt) (stat_gives (seed_path path_opt)) p enough,
    seed_content-read,
  )
