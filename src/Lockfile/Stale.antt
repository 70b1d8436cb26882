-- ===== src/Lockfile/Stale.antt =====
-- src/lockfile.c: a stale lock is broken.
-- The laws say what the system calls do to symbolic links while no other process acts; the other
-- calls are not made then.
use memccache.Base.{
  ℕ, zero, suc, ◌+◌, ◌*◌, ◌%◌, ◌^◌, ◌≤◌, ◌<◌, min, Bool, true, false, Option, none, some, ltb,
  ltb→lt, ltb→ge, Bool-cases, inl, inr, if◌then◌else◌, length, length-append, Bytes, codes,
  bytes_eq, bytes_eq_refl, bytes_eq_symm, bytes_eq_sound, ◌⊎◌, ◌≡◌, refl, ap, ◌∙◌, arith,
}
use memccache.Util.Files.{Errno}
use memccache.Lockfile.{
  Link, System, Wait, Round, lock_name, my_content, first_content, held, after_readlink, try_lock,
  lockfile_release, fresh, acquire_loop, lockfile_acquire,
}

-- The lock of a path, and the lock of that lock.
abbrev pub IsLock : Bytes → Bytes → Type 0
IsLock path p = (p ≡ lock_name path) ⊎ (p ≡ lock_name (lock_name path))

module _ {World : Type 0} (sys : System World) (path : Bytes) where
  -- The content of each symbolic link, and the time slept; the caller may make and remove the
  -- two locks of the path.
  pub record Alone : Type 0 where
    pub links : World → Bytes → Option Bytes
    pub elapsed : World → ℕ
    pub symlink-free :
        (c p : Bytes) (w : World)
        → IsLock path p
        → links w p ≡ none
        → ((sys.symlink c p w).1 ≡ none)
          × ((q : Bytes)
              → links (sys.symlink c p w).0 q ≡ (if bytes_eq q p then some c else links w q))
          × (elapsed (sys.symlink c p w).0 ≡ elapsed w)
    pub symlink-taken :
        (c p d : Bytes) (w : World)
        → links w p ≡ some d
        → ((sys.symlink c p w).1 ≡ some Errno.eexist)
          × ((q : Bytes) → links (sys.symlink c p w).0 q ≡ links w q)
          × (elapsed (sys.symlink c p w).0 ≡ elapsed w)
    pub readlink-taken :
        (p d : Bytes) (w : World)
        → links w p ≡ some d
        → ((sys.readlink p w).1 ≡ Link.link d)
          × ((q : Bytes) → links (sys.readlink p w).0 q ≡ links w q)
          × (elapsed (sys.readlink p w).0 ≡ elapsed w)
    pub unlink-links :
        (p : Bytes) (w : World)
        → IsLock path p
        → ((q : Bytes) → links (sys.unlink p w).0 q ≡ (if bytes_eq q p then none else links w q))
          × (elapsed (sys.unlink p w).0 ≡ elapsed w)
    pub usleep-links :
        (n : ℕ) (w : World)
        → ((q : Bytes) → links (sys.usleep n w) q ≡ links w q)
          × (elapsed (sys.usleep n w) ≡ elapsed w + n)

longer : (p : Bytes) → bytes_eq p (lock_name p) ≡ false
longer p = elim (Bool-cases (bytes_eq p (lock_name p))) [
  | inr e ↦ e
  | inl e ↦
      let same : length p ≡ length (lock_name p) = ap length (bytes_eq_sound p (lock_name p) e) in
      absurd (omega (arith, same, length-append p (codes ".lock")))
]

module _ {World : Type 0} (sys : System World) (path : Bytes) (a : Alone sys path) (content : Bytes)
    (limit : ℕ) (small : limit + 10000 < 2 ^ 32)
    (other : (w : World) → bytes_eq content (my_content sys w) ≡ false) where
  -- A free lock is taken at once.
  free_lem :
      (f : ℕ) (p : Bytes) (l : Wait) (w : World)
      → IsLock path (lock_name p)
      → a.links w (lock_name p) ≡ none
      → acquire_loop sys (suc f) p limit l w
        ≡ some ((sys.symlink (my_content sys w) (lock_name p) w).0, true)
  unfolding acquire_loop try_lock
  free_lem f p l w lock h =
      let (got, links, time) = a.symlink-free (my_content sys w) (lock_name p) w lock h in
      rw (acquire_loop, try_lock, got)

  -- The links are those of a world in which the lock is held and its own lock is free.
  abbrev Stale : World → Type 0
  Stale w =
      (a.links w (lock_name path) ≡ some content) × (a.links w (lock_name (lock_name path)) ≡ none)

  -- The state of the world after the two calls of a round that finds the lock held.
  abbrev looked : World → World
  looked w = (sys.readlink (lock_name path) (sys.symlink (my_content sys w) (lock_name path) w).0).0

  looked_lem :
      (f : ℕ) (l : Wait) (w : World)
      → Stale w
      → (try_lock sys f path limit l w
          ≡ some (held sys limit l (my_content sys w) content (looked w)))
        × Stale (looked w)
        × (a.elapsed (looked w) ≡ a.elapsed w)
  unfolding try_lock after_readlink
  looked_lem f l w (h, k) =
      let (got, same, time) = a.symlink-taken (my_content sys w) (lock_name path) content w h in
      let w' = (sys.symlink (my_content sys w) (lock_name path) w).0 in
      let (got', same', time') =
        a.readlink-taken (lock_name path) content w' (same (lock_name path) ∙ h) in
      (
        rw (try_lock, got, got', after_readlink),
        (
          same' (lock_name path) ∙ same (lock_name path) ∙ h,
          same' (lock_name (lock_name path)) ∙ same (lock_name (lock_name path)) ∙ k,
        ),
        time' ∙ time,
      )

  -- The lock is acquired with the content that a world `v` gives, and its own lock is free.
  abbrev pub Acquired : Option (World × Bool) → World → Type 0
  Acquired r w' =
      (r ≡ some (w', true))
      × ((v : World) × (a.links w' (lock_name path) ≡ some (my_content sys v)))
      × (a.links w' (lock_name (lock_name path)) ≡ none)

  -- The world after the lock is broken.
  abbrev broken : World → World
  broken w =
      lockfile_release sys (lock_name path) (
        lockfile_release sys path (sys.symlink (my_content sys w) (lock_name (lock_name path)) w).0)

  broken_lem :
      (w : World)
      → Stale w
      → (a.links (broken w) (lock_name path) ≡ none)
        × (a.links (broken w) (lock_name (lock_name path)) ≡ none)
        × (a.elapsed (broken w) ≡ a.elapsed w)
  unfolding lockfile_release
  broken_lem w (h, k) =
      let second = lock_name (lock_name path) in
      let (got, links, time) = a.symlink-free (my_content sys w) second w (inr refl) k in
      let w1 = (sys.symlink (my_content sys w) second w).0 in
      let (links', time') = a.unlink-links (lock_name path) w1 (inl refl) in
      let w2 = (sys.unlink (lock_name path) w1).0 in
      let (links'', time'') = a.unlink-links second w2 (inr refl) in
      (
        links'' (lock_name path)
            ∙ rw (longer (lock_name path))
                (links' (lock_name path) ∙ rw (bytes_eq_refl (lock_name path))),
        links'' second ∙ rw (bytes_eq_refl second),
        time'' ∙ time' ∙ time,
      )

  -- Twice, so that both links can be taken.
  taken_lem :
      (f : ℕ) (l : Wait) (w : World)
      → a.links w (lock_name path) ≡ none
      → a.links w (lock_name (lock_name path)) ≡ none
      → (w' : World) × Acquired (acquire_loop sys (suc f) path limit l w) w'
        × (a.elapsed w' ≡ a.elapsed w)
  taken_lem f l w h k =
      let (got, links, time) = a.symlink-free (my_content sys w) (lock_name path) w (inl refl) h in
      (
        (sys.symlink (my_content sys w) (lock_name path) w).0,
        (
          free_lem f path l w (inl refl) h,
          (w, links (lock_name path) ∙ rw (bytes_eq_refl (lock_name path))),
          links (lock_name (lock_name path))
              ∙ rw
                  (
                    bytes_eq_symm (lock_name (lock_name path)) (lock_name path),
                    longer (lock_name path),
                  )
                  k,
        ),
        time,
      )

  break_lem :
      (f : ℕ) (l l' : Wait) (w w' : World)
      → try_lock sys (suc f) path limit l w ≡ some (Round.break w' l')
      → Stale w'
      → (w'' : World) × Acquired (acquire_loop sys (suc (suc f)) path limit l w) w''
        × (a.elapsed w'' ≡ a.elapsed w')
  unfolding acquire_loop
  break_lem f l l' w w' e s =
      let nested = free_lem f (lock_name path) fresh w' (inr refl) s.1 in
      let (h, k, time) = broken_lem w' s in
      let (w'', (r, mine, free), time') =
        taken_lem f (record l' { to_sleep = 1000; slept = 0 }) (broken w') h k in
      (w'', (rw (acquire_loop, e, nested) r, mine, free), time' ∙ time)

  wait_lem :
      (f : ℕ) (l : Wait) (w : World)
      → Stale w
      → first_content l content ≡ content
      → 1000 ≤ l.to_sleep
      → l.to_sleep ≤ 10000
      → l.slept ≤ limit + 10000
      → 2 ≤ f
      → limit + 2000 < l.slept + f * 1000
      → (w' : World) × Acquired (acquire_loop sys f path limit l w) w'
        × (a.elapsed w' + l.slept ≤ a.elapsed w + limit + 10000)
        × (a.elapsed w + limit < a.elapsed w' + l.slept)
  unfolding acquire_loop held
  wait_lem zero l w s c lo hi n two enough = absurd (omega arith)
  wait_lem (suc zero) l w s c lo hi n two enough = absurd (omega arith)
  wait_lem (suc (suc f)) l w s c lo hi n two enough =
      let (round, s', time) = looked_lem (suc f) l w s in
      let not_mine = other w in
      elim (Bool-cases (ltb limit l.slept)) [
        | inl e ↦
            let late = ltb→lt limit l.slept e in
            let breaks : try_lock sys (suc f) path limit l w
                ≡ some (Round.break (looked w) (record l { initial_content = some content })) =
              round ∙ rw (held, not_mine, e, c, bytes_eq_refl content) in
            let (w', acquired, time') = break_lem f l _ w (looked w) breaks s' in
            (w', acquired, omega arith, omega arith)
        | inr e ↦
            let early = ltb→ge limit l.slept e in
            let slept : (l.slept + l.to_sleep) % 2 ^ 32 ≡ l.slept + l.to_sleep = omega arith in
            let (links, time') = a.usleep-links l.to_sleep (looked w) in
            let later : Wait = record {
              to_sleep = min 10000 (2 * l.to_sleep);
              slept = (l.slept + l.to_sleep) % 2 ^ 32;
              initial_content = some content;
            } in
            let continues : try_lock sys (suc f) path limit l w
                ≡ some (Round.continue (sys.usleep l.to_sleep (looked w)) later) =
              round ∙ rw (held, not_mine, e, c) in
            let (w', (r, mine, free), after, before) =
              wait_lem (suc f) later (sys.usleep l.to_sleep (looked w))
                (links (lock_name path) ∙ s'.0, links (lock_name (lock_name path)) ∙ s'.1) refl
                (omega arith) (omega arith) (omega arith) (omega arith) (omega arith) in
            (w', (rw (acquire_loop, continues) r, mine, free), omega arith, omega arith)
      ]

  -- While no other process acts on the locks and the calls that create and remove the lock of
  -- the path and the second lock of that lock succeed, a lock whose content never equals one
  -- of the caller and whose own lock is free is acquired: with fuel for more than the
  -- staleness limit and 2000 microseconds in rounds of 1000, lockfile_acquire returns true,
  -- the lock has content of the caller, the second lock is free again, and the time slept is
  -- above the limit and at most 10000 microseconds more, if the limit and 10000 together fit
  -- an unsigned int.
  pub lockfile_acquire-Stale :
      (f : ℕ) (w : World)
      → limit + 2000 < f * 1000
      → a.links w (lock_name path) ≡ some content
      → a.links w (lock_name (lock_name path)) ≡ none
      → (w' : World) × Acquired (lockfile_acquire sys f path limit w) w'
        × (a.elapsed w' ≤ a.elapsed w + limit + 10000)
        × (a.elapsed w + limit < a.elapsed w')
  unfolding lockfile_acquire
  lockfile_acquire-Stale f w enough h k =
      let (w', acquired, after, before) =
        wait_lem f fresh w (h, k) refl (omega arith) (omega arith) (omega arith) (omega arith)
          (omega arith) in
      (w', acquired, omega arith, omega arith)
