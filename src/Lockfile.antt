-- ===== src/Lockfile.antt =====
-- src/lockfile.c for POSIX, with create_parent_dirs of src/util.c.
-- The system calls are a parameter: each takes the state of the world, in which other processes
-- act too, and yields the next one with its result. The lock's loop runs on fuel, which the
-- acquisition of the second lock shares; Lockfile/Stale says how much is enough for a stale lock.
pub mod Stale
pub mod Parents
mod Examples
use memccache.Base.{
  ℕ, zero, suc, ◌+◌, ◌*◌, ◌%◌, ◌^◌, min, List, [], ◌∷◌, ◌++◌, Bool, true, false, Option, none, some,
  ltb, if◌then◌else◌, length, Bytes, codes, bytes_eq,
}
use memccache.Base.Decimal.{decimal}
use memccache.Util.{dirname}
use memccache.Util.Files.{Errno}

-- What readlink yields.
pub data Link : Type 0 where
  link : Bytes → Link
  no_link : Errno → Link

pub record System (World : Type 0) : Type 0 where
  pub symlink : Bytes → Bytes → World → World × Option Errno
  pub readlink : Bytes → World → World × Link
  pub unlink : Bytes → World → World × Option Errno
  pub usleep : ℕ → World → World
  -- whether the path is a directory, if stat succeeds
  pub stat : Bytes → World → World × Option Bool
  pub mkdir : Bytes → World → World × Option Errno
  pub hostname : Bytes
  pub pid : ℕ
  -- time(NULL) as an int, not negative
  pub time : World → ℕ

-- The variables of the loop.
pub record Wait : Type 0 where
  pub to_sleep : ℕ
  pub slept : ℕ
  pub initial_content : Option Bytes

-- A round of the loop: return, go on, or try to break the lock.
pub data Round (World : Type 0) : Type 0 where
  return : World → Bool → Round World
  continue : World → Wait → Round World
  break : World → Wait → Round World

abbrev pub lock_name : Bytes → Bytes
lock_name path = path ++ codes ".lock"

-- The first content that was read.
abbrev pub first_content : Wait → Bytes → Bytes
first_content l content = elim l.initial_content [ none ↦ content | some initial ↦ initial ]

abbrev pub fresh : Wait
fresh = record { to_sleep = 1000; slept = 0; initial_content = none }

-- mkdir returns 0, or the directory exists already.
abbrev pub is_made : Option Errno → Bool
is_made none = true
is_made (some Errno.eexist) = true
is_made (some Errno.enoent) = false
is_made (some Errno.estale) = false
is_made (some Errno.eperm) = false
is_made (some Errno.other) = false

module _ {World : Type 0} (sys : System World) where
  -- True for 0. Every call but the one on the root shortens the path, so `length path` calls are
  -- enough where the root exists; `none` without fuel.
  unfoldable pub create_parent_dirs : ℕ → Bytes → World → Option (World × Bool)
  create_parent_dirs zero path w = none
  create_parent_dirs (suc f) path w =
      let parent = dirname path in
      let (w', st) = sys.stat parent w in
      elim st [
        | some is_dir ↦ some (w', is_dir)
        | none ↦ elim (create_parent_dirs f parent w') [
          | none ↦ none
          | some (w'', false) ↦ some (w'', false)
          | some (w'', true) ↦ let (w3, made) = sys.mkdir parent w'' in some (w3, is_made made)
        ]
      ]

  abbrev pub my_content : World → Bytes
  my_content w = sys.hostname ++ (b':' ∷ decimal sys.pid ++ (b':' ∷ decimal (sys.time w)))

  -- From the content of the lock on.
  unfoldable pub held : ℕ → Wait → Bytes → Bytes → World → Round World
  held staleness_limit l mine content w =
      let l' : Wait = record l { initial_content = some (first_content l content) } in
      if bytes_eq content mine
      then Round.return w true
      else if ltb staleness_limit l.slept
      then (if bytes_eq content (first_content l content)
          then Round.break w l'
          else Round.return w false)
      else Round.continue (sys.usleep l.to_sleep w) (record l' {
        slept = (l.slept + l.to_sleep) % 2 ^ 32;
        to_sleep = min 10000 (2 * l.to_sleep);
      })

  unfoldable pub after_readlink : ℕ → Wait → Bytes → Link → World → Round World
  unfolding held
  after_readlink staleness_limit l mine (Link.link content) w =
      held staleness_limit l mine content w
  after_readlink staleness_limit l mine (Link.no_link Errno.enoent) w = Round.continue w l
  after_readlink staleness_limit l mine (Link.no_link Errno.estale) w = Round.return w false
  after_readlink staleness_limit l mine (Link.no_link Errno.eexist) w = Round.return w false
  after_readlink staleness_limit l mine (Link.no_link Errno.eperm) w = Round.return w false
  after_readlink staleness_limit l mine (Link.no_link Errno.other) w = Round.return w false

  -- `none` where create_parent_dirs runs out of fuel.
  unfoldable pub try_lock : ℕ → Bytes → ℕ → Wait → World → Option (Round World)
  unfolding create_parent_dirs after_readlink
  try_lock f path staleness_limit l w =
      let mine = my_content w in
      let (w', result) = sys.symlink mine (lock_name path) w in
      elim result [
        | none ↦ some (Round.return w' true)
        | some Errno.enoent ↦ elim (create_parent_dirs f (lock_name path) w') [
          | none ↦ none
          | some (w'', true) ↦ some (Round.continue w'' l)
          | some (w'', false) ↦ some (Round.return w'' false)
        ]
        | some Errno.eperm ↦ some (Round.return w' true)
        | some Errno.eexist ↦
            let (w'', content) = sys.readlink (lock_name path) w' in
            some (after_readlink staleness_limit l mine content w'')
        | some Errno.estale ↦ some (Round.return w' false)
        | some Errno.other ↦ some (Round.return w' false)
      ]

  unfoldable pub lockfile_release : Bytes → World → World
  lockfile_release path w = (sys.unlink (lock_name path) w).0

  unfoldable pub acquire_loop : ℕ → Bytes → ℕ → Wait → World → Option (World × Bool)
  unfolding try_lock lockfile_release
  acquire_loop zero path staleness_limit l w = none
  acquire_loop (suc f) path staleness_limit l w = elim (try_lock f path staleness_limit l w) [
    | none ↦ none
    | some (Round.return w' acquired) ↦ some (w', acquired)
    | some (Round.continue w' l') ↦ acquire_loop f path staleness_limit l' w'
    | some (Round.break w' l') ↦ elim (acquire_loop f (lock_name path) staleness_limit fresh w') [
      | none ↦ none
      | some (w'', false) ↦ some (w'', false)
      | some (w'', true) ↦
          acquire_loop f path staleness_limit (record l' { to_sleep = 1000; slept = 0 })
            (lockfile_release (lock_name path) (lockfile_release path w''))
    ]
  ]

  unfoldable pub lockfile_acquire : ℕ → Bytes → ℕ → World → Option (World × Bool)
  unfolding acquire_loop
  lockfile_acquire f path staleness_limit w = acquire_loop f path staleness_limit fresh w
