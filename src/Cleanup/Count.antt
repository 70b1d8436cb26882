-- ===== src/Cleanup/Count.antt =====
-- src/cleanup.c: the counters that the traversal keeps.
use mathlib.Core.Path.{subst}
use memccache.Base.{
  ℕ, ◌+◌, ◌-◌, ◌%◌, ◌^◌, ◌≤◌, ◌<◌, List, [], ◌∷◌, ◌++◌, Bool, true, false, not, ◌&&◌, Option, none,
  some, ltb, length, length-append, if◌then◌else◌, starts_with, Bytes, codes, bytes_eq, ◌≡◌, sym,
  ◌∙◌, arith,
}
use memccache.Util.{basename}
use memccache.Util.Files.{System, x_unlink, Stat, file_size, Dir, traverse, strstr, signed}
use memccache.Util.Traverse.{visits, call_all, called, traverse-visits}
use memccache.Cleanup.{CacheFile, State, add_file, traverse_fn}

-- The sizes of all files together.
abbrev pub total : List CacheFile → ℕ
total [] = 0
total (f ∷ fs) = f.size + total fs

pub total-append : (fs gs : List CacheFile) → total (fs ++ gs) ≡ total fs + total gs
total-append [] gs = omega arith
total-append (f ∷ fs) gs = omega (arith, total-append fs gs)

-- The counters are those of the files, and the files fit in the array, whose size does not wrap for
-- fewer than 2 ^ 31 - 5000 files.
abbrev pub IsCounted : {World : Type 0} → State World → Type 0
IsCounted s =
    (s.cache_size ≡ total s.files % 2 ^ 64)
    × (s.files_in_cache ≡ length s.files % 2 ^ 64)
    × (length s.files < 2 ^ 31 - 5000 → length s.files ≤ s.allocated)

module _ {World : Type 0} (sys : System World) where
  add_file-IsCounted :
      (fname : Bytes) (st : Stat) (s : State World) → IsCounted s → IsCounted (add_file fname st s)
  unfolding add_file
  add_file-IsCounted fname st s (size, n, room) =
      let f : CacheFile = record { fname = fname; mtime = st.mtime; size = file_size st } in
      let more = total-append s.files (f ∷ []) in
      let longer = length-append s.files (f ∷ []) in
      (omega arith, omega arith, λ few. ground (arith, room))

  choose :
      (b : Bool) (s t : State World) → IsCounted s → IsCounted t → IsCounted (if b then s else t)
  choose true s t h k = h
  choose false s t h k = k

  traverse_fn-IsCounted :
      (fname : Bytes) (st : Stat) (s : State World)
      → IsCounted s
      → IsCounted (traverse_fn sys fname st s)
  unfolding traverse_fn
  traverse_fn-IsCounted fname st s h =
      let removed : State World = record s { world = (x_unlink sys fname s.world).0 } in
      let p = basename fname in
      choose (not st.is_regular) s _ h (
        choose (bytes_eq p (codes "stats")) s _ h (
          choose (starts_with p (codes ".nfs")) s _ h (
            choose
              (strstr p (codes ".tmp.")
                && ltb (signed (st.mtime + 3600)) (signed (sys.time s.world)))
              removed _ h
              (choose (strstr p (codes "CACHEDIR.TAG")) s (add_file fname st s) h
                (add_file-IsCounted fname st s h)))))

  call_all-IsCounted :
      (l : List (Bytes × Stat)) (s : State World)
      → IsCounted s
      → IsCounted (call_all (traverse_fn sys) l s)
  call_all-IsCounted [] s h = h
  call_all-IsCounted ((fname, st) ∷ l) s h =
      call_all-IsCounted l (traverse_fn sys fname st s) (traverse_fn-IsCounted fname st s h)

  called-IsCounted :
      (o : Option (List (Bytes × Stat))) (s t : State World)
      → IsCounted s
      → called (traverse_fn sys) o s ≡ some t
      → IsCounted t
  called-IsCounted none s t h e = absurd (ground arith)
  called-IsCounted (some l) s t h e =
      let same : call_all (traverse_fn sys) l s ≡ t = ground arith in
      subst IsCounted same (call_all-IsCounted l s h)

  -- If the counters are those of the listed files modulo 2^64 and the files fit the array, if
  -- there are fewer than 2^31 - 5000, then the same holds after a traversal with traverse_fn
  -- that is not stopped.
  pub traverse-IsCounted :
      (dir : Bytes) (d : Dir) (s t : State World)
      → IsCounted s
      → traverse (traverse_fn sys) dir d s ≡ some t
      → IsCounted t
  traverse-IsCounted dir d s t h e =
      called-IsCounted (visits dir d) s t h (sym (traverse-visits (traverse_fn sys) dir d s) ∙ e)
