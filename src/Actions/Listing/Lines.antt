-- ===== src/Actions/Listing/Lines.antt =====
-- What a listing holds: the lines of the entries that are shown, in the order of the directory.
use cftp_server.Base.{
  ℕ, ◌<◌, ◌^◌, ◌≡◌, refl, Bool, true, false, not, ◌&&◌, ◌||◌, Option, none, some, List, [], ◌∷◌,
  ◌++◌, Bytes, arith, snprintf, take, length, Bool-cases, inl, inr, if◌then◌else◌,
}
use cftp_server.Faults.{ok}
use cftp_server.Ipc.{name_or_unknown}
use cftp_server.Ipc.Names.{IsText, rest_of_name-short, ask_root-name}
use cftp_server.System.{System, Stat}
use cftp_server.Connection.{Session}
use cftp_server.Actions.Files.{path_max}
use cftp_server.Actions.Delete.{join, is_dots}
use cftp_server.Actions.Listing.{
  format_unix_list_entry, list_entry, unix_list_entry, list_line, list_lines, is_hidden,
  send_list_command_output, send_listing, keep_input,
}

module _ (sys : System) where
  open sys use {World, lstat, entries, localtime_text, getpwuid, getgrgid}

  -- The numbers of owners have 32 bits, and the names of the databases are C strings of less than 255
  -- bytes, which fit the buffers.
  pub record IsNamed (w : World) : Type 0 where
    pub uid_fits : (path : Bytes) (st : Stat) → lstat w path ≡ some st → st.uid < 2 ^ 32
    pub gid_fits : (path : Bytes) (st : Stat) → lstat w path ≡ some st → st.gid < 2 ^ 32
    pub users : (id : ℕ) → IsText (name_or_unknown (getpwuid id))
    pub groups : (id : ℕ) → IsText (name_or_unknown (getgrgid id))
    pub short_users : (id : ℕ) → length (name_or_unknown (getpwuid id)) < 255
    pub short_groups : (id : ℕ) → length (name_or_unknown (getgrgid id)) < 255

  -- The line of an entry with the names that the databases have.
  entry_text : Bool → Bool → Bytes → Stat → Bytes
  entry_text description human name st =
      if description
      then unix_list_entry (take 255 (name_or_unknown (getpwuid st.uid)))
          (take 255 (name_or_unknown (getgrgid st.gid))) (snprintf 32 (localtime_text st.mtime))
          name st human
      else snprintf path_max (name ++ 13 ∷ 10 ∷ [])

  -- The text that an entry adds: none for . and .., for an entry without a status, and unless all
  -- are asked for, for one whose name begins with a dot.
  shown : Bool → Option Stat → Bool → Bool → Bool → Bytes → Bytes
  shown dots none description hidden human name = []
  shown dots (some st) description hidden human name =
      if dots || (not hidden && is_hidden name) then [] else entry_text description human name st

  shown_text : World → Bytes → Bool → Bool → Bool → Bytes → Bytes
  unfolding shown
  shown_text w path description hidden human name =
      shown (is_dots name) (lstat w (join path name)) description hidden human name

  -- The text of a directory, in its order.
  pub listing : World → Bytes → Bool → Bool → Bool → List Bytes → Bytes
  unfolding shown_text
  listing w path description hidden human [] = []
  listing w path description hidden human (name ∷ names) =
      shown_text w path description hidden human name
      ++ listing w path description hidden human names

  format_unix_list_entry-eq :
      (w : World) (path name : Bytes) (st : Stat) (human : Bool)
      → IsNamed w
      → lstat w path ≡ some st
      → format_unix_list_entry sys name st human [] ≡ ok (entry_text true human name st, [])
  unfolding format_unix_list_entry entry_text
  format_unix_list_entry-eq w path name st human n there =
      rw
        (
          (ask_root-name getpwuid getgrgid st.uid (n.uid_fits path st there) 256 (omega arith)
              (omega arith) (n.users st.uid) (n.groups st.uid)).0,
          rest_of_name-short 256 (name_or_unknown (getpwuid st.uid))
              (omega (arith, n.short_users st.uid)) (omega (arith, n.short_users st.uid)),
          (ask_root-name getpwuid getgrgid st.gid (n.gid_fits path st there) 256 (omega arith)
              (omega arith) (n.users st.gid) (n.groups st.gid)).1,
          rest_of_name-short 256 (name_or_unknown (getgrgid st.gid))
              (omega (arith, n.short_groups st.gid)) (omega (arith, n.short_groups st.gid)),
        )
        refl

  entry_text-eq :
      (w : World) (path name : Bytes) (st : Stat) (description human : Bool)
      → IsNamed w
      → lstat w path ≡ some st
      → (if description
          then format_unix_list_entry sys name st human []
          else ok (snprintf path_max (name ++ 13 ∷ 10 ∷ []), []))
        ≡ ok (entry_text description human name st, [])
  entry_text-eq w path name st true human n there =
      format_unix_list_entry-eq w path name st human n there
  entry_text-eq w path name st false human n there = unfold entry_text in refl

  list_entry-shown :
      (w : World) (path : Bytes) (dots : Bool) (status : Option Stat)
      (description hidden human : Bool) (name : Bytes)
      → IsNamed w
      → lstat w path ≡ status
      → list_entry sys dots status description hidden human name []
        ≡ ok (shown dots status description hidden human name, [])
  unfolding list_entry shown
  list_entry-shown w path true none description hidden human name n there = refl
  list_entry-shown w path false none description hidden human name n there = refl
  list_entry-shown w path true (some st) description hidden human name n there = refl
  list_entry-shown w path false (some st) description true human name n there =
      entry_text-eq w path name st description human n there
  list_entry-shown w path false (some st) description false human name n there =
      elim (Bool-cases (is_hidden name)) [
        | inl dot ↦ rw dot refl
        | inr plain ↦ rw plain (entry_text-eq w path name st description human n there)
      ]

  -- What the loop does at one entry.
  list_line-shown_text :
      (w : World) (path : Bytes) (description hidden human : Bool) (name : Bytes)
      → IsNamed w
      → list_line sys w path description hidden human name []
        ≡ ok (shown_text w path description hidden human name, [])
  unfolding list_line shown_text
  list_line-shown_text w path description hidden human name n =
      list_entry-shown w (join path name) (is_dots name) _ description hidden human name n refl

  list_lines-listing :
      (w : World) (path : Bytes) (description hidden human : Bool) (names : List Bytes)
      → IsNamed w
      → list_lines sys w path description hidden human names []
        ≡ ok (listing w path description hidden human names, [])
  unfolding list_lines listing
  list_lines-listing w path description hidden human [] n = refl
  list_lines-listing w path description hidden human (name ∷ names) n =
      rw
        (
          list_line-shown_text w path description hidden human name n,
          list_lines-listing w path description hidden human names n,
        )
        refl

  -- In a session with no input left from earlier exchanges with the parent, a directory that opens,
  -- with owners whose numbers have 32 bits, and with a database of names that are C strings of less
  -- than 255 bytes, is listed without a fault and without waiting for the parent for ever, if the
  -- parent has the memory to parse the questions: the output is the text of the entries that are
  -- shown, in the order of the directory, each with the names that the user database has, and again
  -- no input is left.
  pub send_list_command_output-listing :
      (path : Bytes) (description hidden human : Bool) (names : List Bytes) (s : Session World)
      → IsNamed s.world
      → entries s.world path ≡ some names
      → s.conn.interprocess_input ≡ []
      → send_list_command_output sys path description hidden human s
        ≡ ok (
            send_listing sys
              (listing s.world path description hidden human names)
              (keep_input sys [] s))
  unfolding send_list_command_output
  send_list_command_output-listing path description hidden human names s n opens none_left =
      rw
        (
          send_list_command_output,
          opens,
          none_left,
          list_lines-listing s.world path description hidden human names n,
        )
        refl
