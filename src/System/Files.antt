-- ===== src/System/Files.antt =====
-- What POSIX and libevent document of regular files: the bytes under a path, and what a descriptor
-- still has to give. The transfers are stated over any system with such files.
use cftp_server.Base.{ℕ, ◌≡◌, some, [], ◌++◌, Bytes, length, take, drop}
use cftp_server.System.{System, Stat}

pub record Files (sys : System) : Type 1 where
  pub content : sys.World → Bytes → Bytes
  -- The descriptor was opened for writing on the path, and stands at the end of the file.
  pub IsWriting : sys.World → ℕ → Bytes → Type 0
  -- The descriptor was opened for reading, and what follows are the bytes from its position.
  pub IsReading : sys.World → ℕ → Type 0
  pub left : sys.World → ℕ → Bytes
  -- O_TRUNC
  pub opened_empty :
      (w w' : sys.World) (path : Bytes) (fd : ℕ)
      → sys.open_write w path ≡ (some fd, w')
      → IsWriting w' fd path × (content w' path ≡ [])
  -- A write that goes through adds its bytes; whether it does is not said.
  pub written :
      (w w' : sys.World) (path : Bytes) (fd : ℕ) (text : Bytes)
      → IsWriting w fd path
      → sys.write w fd text ≡ some w'
      → IsWriting w' fd path × (content w' path ≡ content w path ++ text)
  pub flushed :
      (w : sys.World) (path : Bytes) (fd : ℕ)
      → content (sys.close (sys.fsync w fd) fd) path ≡ content w path
  pub opened_whole :
      (w w' : sys.World) (path : Bytes) (fd : ℕ)
      → sys.open_read w path ≡ (some fd, w')
      → IsReading w' fd
        × (left w' fd ≡ content w path)
        × ((st : Stat) → sys.fstat w' fd ≡ some st → st.size ≡ length (content w path))
  pub taken :
      (w : sys.World) (fd n : ℕ)
      → IsReading w fd
      → ((sys.read w fd n).0 ≡ some (take n (left w fd)))
        × (left (sys.read w fd n).1 fd ≡ drop n (left w fd))
        × IsReading (sys.read w fd n).1 fd
  pub added :
      (w : sys.World) (fd n : ℕ) → IsReading w fd → (sys.add_file w fd n).0 ≡ take n (left w fd)
