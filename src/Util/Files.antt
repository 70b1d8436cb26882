-- ===== src/Util/Files.antt =====
-- src/util.c: removing files and walking directories.
-- The system calls are a parameter: each takes the state of the world, in which other processes
-- act too, and yields the next one with its result. Logging is left out.
use memccache.Base.{
  ℕ, [], ◌∷◌, ◌++◌, Bool, true, false, Option, none, some, if◌then◌else◌, ◌==◌, ◌||◌, ◌+◌, ◌*◌, ◌%◌,
  ◌^◌, starts_with, length, Bytes, codes, bytes_eq,
}

-- The errors that the code tells apart.
pub data Errno : Type 0 where
  enoent : Errno
  estale : Errno
  eexist : Errno
  eperm : Errno
  other : Errno

-- A call that returns 0 has no error.
pub record System (World : Type 0) : Type 0 where
  pub rename : Bytes → Bytes → World → World × Option Errno
  pub unlink : Bytes → World → World × Option Errno
  -- time(NULL), as a 64-bit pattern
  pub time : World → ℕ

-- ENOENT or ESTALE
unfoldable pub is_gone : Errno → Bool
is_gone Errno.enoent = true
is_gone Errno.estale = true
is_gone Errno.eexist = false
is_gone Errno.eperm = false
is_gone Errno.other = false

module _ {World : Type 0} (sys : System World) where
  unfoldable pub x_rename : Bytes → Bytes → World → World × Option Errno
  x_rename oldpath newpath w = sys.rename oldpath newpath w

  unfoldable pub tmp_unlink : Bytes → World → World × Option Errno
  tmp_unlink path w = sys.unlink path w

  -- The result is errno where it is not 0.
  unfoldable pub do_x_unlink : Bytes → World → World × Option Errno
  unfolding x_rename
  do_x_unlink path w =
      let tmp_name = path ++ codes ".ccache.rm.tmp" in
      let (w', renamed) = x_rename path tmp_name w in
      elim renamed [
        | some e ↦ (w', some e)
        | none ↦
            let (w'', removed) = sys.unlink tmp_name w' in
            elim removed [ none ↦ (w'', none) | some e ↦ (w'', if is_gone e then none else some e) ]
      ]

  unfoldable pub x_unlink : Bytes → World → World × Option Errno
  x_unlink path w = do_x_unlink path w

  unfoldable pub x_try_unlink : Bytes → World → World × Option Errno
  x_try_unlink path w = do_x_unlink path w

-- What lstat tells of a file, and the blocks of 512 bytes on the disk.
pub record Stat : Type 0 where
  pub is_regular : Bool
  pub mtime : ℕ
  pub blocks : ℕ

unfoldable pub file_size : Stat → ℕ
file_size st = st.blocks * 512 % 2 ^ 64

-- What opendir, readdir and lstat deliver for a directory, entry by entry.
mutual
  pub data Dir : Type 0 where
    absent : Dir
    opened : Entries → Dir

  pub data Entries : Type 0 where
    done : Entries
    -- lstat fails with an error
    unknown : Bytes → Errno → Entries → Entries
    file : Bytes → Stat → Entries → Entries
    directory : Bytes → Stat → Dir → Entries → Entries

-- ".", ".." or an empty name
unfoldable pub is_skipped : Bytes → Bool
is_skipped name = bytes_eq name (codes ".") || (bytes_eq name (codes "..") || (length name == 0))

-- traverse with a function that changes a state; `none` where fatal ends the program.
module _ {S : Type 0} (fn : Bytes → Stat → S → S) where
  unfoldable mutual
    pub traverse : Bytes → Dir → S → Option S
    traverse dir Dir.absent s = some s
    traverse dir (Dir.opened es) s = traverse_entries dir es s

    pub traverse_entries : Bytes → Entries → S → Option S
    traverse_entries dir Entries.done s = some s
    traverse_entries dir (Entries.unknown name e es) s =
        let rest = traverse_entries dir es s in
        if is_skipped name then rest else if is_gone e then rest else none
    traverse_entries dir (Entries.file name st es) s =
        traverse_entries dir es (if is_skipped name then s else fn (dir ++ b'/' ∷ name) st s)
    traverse_entries dir (Entries.directory name st sub es) s =
        let skipped = traverse_entries dir es s in
        let inside = traverse (dir ++ b'/' ∷ name) sub s in
        if is_skipped name then skipped else elim inside [
          | none ↦ none
          | some s' ↦ traverse_entries dir es (fn (dir ++ b'/' ∷ name) st s')
        ]

-- strstr, as a test
unfoldable pub strstr : Bytes → Bytes → Bool
strstr [] word = starts_with [] word
strstr (c ∷ s) word = starts_with (c ∷ s) word || strstr s word

-- The order of signed 64-bit patterns.
unfoldable pub signed : ℕ → ℕ
signed x = (x + 2 ^ 63) % 2 ^ 64
