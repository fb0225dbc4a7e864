-- ===== src/Actions/Delete.antt =====
-- DELE: src/actions/dele.c.
use cftp_server.Base.{
  ℕ, zero, suc, Bool, true, false, not, ◌&&◌, ◌||◌, Option, none, some, List, [], ◌∷◌, ◌++◌, Bytes,
  bytes, snprintf, strcmp_eq, if◌then◌else◌,
}
use cftp_server.Faults.{Run, ok, fault, out_of_fuel, ◌>>=◌}
use cftp_server.Command.{Command}
use cftp_server.Connection.{Session}
use cftp_server.Control.{reply}
use cftp_server.Security.{is_path_safe}
use cftp_server.System.{System, Stat}
use cftp_server.Actions.Session.{matches}
use cftp_server.Actions.Files.{path_max}

-- `dele_args_t`
pub record DeleArgs : Type 0 where
  pub recursive : Bool
  pub force : Bool
  pub target : Option Bytes

-- One round of the loop of `parse_dele_params`.
dele_param : Bytes → DeleArgs → Option DeleArgs
dele_param a args =
    if matches a (bytes "-r")
    then some (record args { recursive = true })
    else if matches a (bytes "-f")
    then some (record args { force = true })
    else elim (args.target) [ none ↦ some (record args { target = some a }) | some _ ↦ none ]

dele_params : List Bytes → DeleArgs → Option DeleArgs
dele_params [] args = some args
dele_params (a ∷ rest) args = elim (dele_param a args) [
  | none ↦ none
  | some args' ↦ dele_params rest args'
]

-- The parsed parameters with the target, if there is one.
unfoldable pub parse_dele_params : Command → Option (DeleArgs × Bytes)
unfolding dele_params dele_param
parse_dele_params cmd =
    elim (dele_params cmd.args (record { recursive = false; force = false; target = none })) [
      | none ↦ none
      | some args ↦ elim (args.target) [ none ↦ none | some target ↦ some (args, target) ]
    ]

-- `%s/%s` in a buffer of PATH_MAX bytes
abbrev pub join : Bytes → Bytes → Bytes
join path name = snprintf path_max (path ++ b'/' ∷ name)

abbrev pub is_dots : Bytes → Bool
is_dots name = strcmp_eq name (bytes ".") || strcmp_eq name (bytes "..")

module _ (sys : System) where
  open sys use {World, stat, lstat, entries, unlink, rmdir}

  -- After a directory below: its failure ends the loop.
  unfoldable pub delete_rest : (World → Run (Bool × World)) → Bool × World → Run (Bool × World)
  delete_rest rest (true, w) = rest w
  delete_rest rest (false, w) = ok (false, w)

  -- What `lstat` found at an entry; `descend` deletes a directory, and `rest` is the rest of the
  -- loop. A file that cannot be removed is passed over.
  unfoldable pub delete_found :
      (Bytes → World → Run (Bool × World))
      → (World → Run (Bool × World))
      → Bytes
      → Option Stat
      → World
      → Run (Bool × World)
  unfolding delete_rest
  delete_found descend rest path none w = rest w
  delete_found descend rest path (some st) w =
      if st.is_dir then descend path w >>= delete_rest rest else rest (unlink w path).1

  unfoldable pub delete_one :
      (Bytes → World → Run (Bool × World))
      → (World → Run (Bool × World))
      → Bytes
      → Bool
      → World
      → Run (Bool × World)
  unfolding delete_found
  delete_one descend rest path true w = rest w
  delete_one descend rest path false w = delete_found descend rest path (lstat w path) w

  -- The loop over the entries of a directory. The result says whether the loop came to its end.
  -- What `readdir` gives is read at once.
  unfoldable pub delete_entries :
      (Bytes → World → Run (Bool × World)) → Bytes → List Bytes → World → Run (Bool × World)
  unfolding delete_one
  delete_entries descend path [] w = ok (true, w)
  delete_entries descend path (name ∷ names) w =
      delete_one descend (delete_entries descend path names) (join path name) (is_dots name) w

  -- The fuel bounds the depth of the directories.
  unfoldable pub delete_directory_recursively : ℕ → Bytes → World → Run (Bool × World)
  delete_directory_recursively zero path w = fault out_of_fuel
  delete_directory_recursively (suc depth) path w = elim (entries w path) [
    | none ↦ ok (false, w)
    | some names ↦ delete_entries (delete_directory_recursively depth) path names w >>= λ r.
        if r.0 then ok (rmdir r.1 path) else ok r
  ]

  -- The answer after the attempt.
  unfoldable pub answer_dele : Bool → Bool → Session World → Session World
  answer_dele force true s = reply 250 "Delete successful." s
  answer_dele true false s = reply 250 "Force delete: error ignored." s
  answer_dele false false s = reply 550 "Failed to delete." s

  -- What `stat` found at the target.
  unfoldable pub dele_target :
      ℕ → DeleArgs → Bytes → Option Stat → Session World → Run (Session World)
  unfolding answer_dele
  dele_target depth args target none s = ok (
      if args.force
      then reply 250 "Force delete: file does not exist." s
      else reply 550 "File not found." s)
  dele_target depth args target (some st) s =
      if st.is_dir && not args.recursive
      then ok (reply 550 "Target is a directory. Use -r to delete recursively." s)
      else do
        (done, world') ←
            if st.is_dir
            then delete_directory_recursively depth target s.world
            else ok (unlink s.world target)
        ok (answer_dele args.force done (record s { world = world' }))

  unfoldable pub dele_with : ℕ → Option (DeleArgs × Bytes) → Session World → Run (Session World)
  unfolding dele_target
  dele_with depth none s = ok (reply 501 "Invalid arguments for DELE." s)
  dele_with depth (some (args, target)) s =
      if not (is_path_safe target)
      then ok (reply 550 "Invalid path" s)
      else dele_target depth args target (stat s.world target) s

  unfoldable pub handle_dele_command : ℕ → Command → Session World → Run (Session World)
  unfolding dele_with
  handle_dele_command depth cmd s = dele_with depth (parse_dele_params cmd) s
