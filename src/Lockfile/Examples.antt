-- ===== src/Lockfile/Examples.antt =====
-- src/lockfile.c on a file system in memory, with a stale lock.
use memccache.Base.{
  ℕ, ◌+◌, ◌≤◌, ◌<◌, Option, none, some, Bool, true, false, if◌then◌else◌, Bytes, codes, bytes_eq,
  ◌≡◌, refl, arith,
}
use memccache.Util.Files.{Errno}
use memccache.Lockfile.{Link, System, my_content, lockfile_acquire, create_parent_dirs}
use memccache.Lockfile.Parents.{create_parent_dirs-returns}
use memccache.Lockfile.Stale.{Alone, Acquired, lockfile_acquire-Stale}

record World : Type 0 where
  links : Bytes → Option Bytes
  clock : ℕ

abbrev add_link : Bytes → Bytes → World → World
add_link c p w = record w { links = λ q. if bytes_eq q p then some c else w.links q }

abbrev remove_link : Bytes → World → World
remove_link p w = record w { links = λ q. if bytes_eq q p then none else w.links q }

abbrev symlink_result : Option Bytes → Bytes → Bytes → World → World × Option Errno
symlink_result none c p w = (add_link c p w, none)
symlink_result (some d) c p w = (w, some Errno.eexist)

abbrev readlink_result : Option Bytes → Link
readlink_result none = Link.no_link Errno.enoent
readlink_result (some d) = Link.link d

abbrev sys : System World
sys = record {
  symlink = λ c p w. symlink_result (w.links p) c p w;
  readlink = λ p w. (w, readlink_result (w.links p));
  unlink = λ p w. (remove_link p w, none);
  usleep = λ n w. record w { clock = w.clock + n };
  stat = λ p w. (w, some true);
  mkdir = λ p w. (w, none);
  hostname = codes "host";
  pid = 42;
  time = λ w. 7;
}

abbrev alone : Alone sys (codes "stats")
alone = record {
  links = λ w. w.links;
  elapsed = λ w. w.clock;
  symlink-free = λ c p w lock h. rw h (refl, (λ q. refl), refl);
  symlink-taken = λ c p d w h. rw h (refl, (λ q. refl), refl);
  readlink-taken = λ p d w h. rw h (refl, (λ q. refl), refl);
  unlink-links = λ p w lock. ((λ q. refl), refl);
  usleep-links = λ n w. ((λ q. refl), refl);
}

abbrev stale : World
stale = record {
  links = λ q. if bytes_eq q (codes "stats.lock") then some (codes "gone:1:1") else none;
  clock = 0;
}

other : (w : World) → bytes_eq (codes "gone:1:1") (my_content sys w) ≡ false
unfolding bytes_eq
other w = refl

lockfile_acquire-Stale_example :
    (w' : World) × Acquired sys
      (codes "stats")
      alone
      (codes "gone:1:1")
      5000
      (omega arith)
      other
      (lockfile_acquire sys 8 (codes "stats") 5000 stale)
      w'
    × (w'.clock ≤ 0 + 5000 + 10000)
    × (0 + 5000 < w'.clock)
unfolding bytes_eq
lockfile_acquire-Stale_example =
    lockfile_acquire-Stale sys (codes "stats") alone (codes "gone:1:1") 5000 (omega arith) other 8
      stale (omega arith) refl refl

-- Only the root and the current directory exist.
abbrev bare : System World
bare = record sys {
  stat = λ p w. (
    w,
    if bytes_eq p (codes ".")
        then some true
        else if bytes_eq p (codes "/")
        then some true
        else none,
  );
}

create_parent_dirs-returns_example :
    (r : World × Bool) × (create_parent_dirs bare 20 (codes "/c/0/stats.lock") stale ≡ some r)
unfolding bytes_eq
create_parent_dirs-returns_example =
    create_parent_dirs-returns bare 20 (codes "/c/0/stats.lock") stale (λ w. (true, refl))
      (λ w. (true, refl)) (omega arith)
