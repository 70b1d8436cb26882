-- ===== src/Cleanup.antt =====
-- src/cleanup.c: removing the oldest files of a cache directory.
-- The static variables are a state with the world that the system calls change. Logging and the
-- freeing of memory are left out. What the calls of stats_add_cleanup and stats_set_sizes are given
-- is the result of clean_up_dir; Stats.Flush makes these calls. qsort, the arithmetic on doubles,
-- and what a traversal will find in the world are parameters.
pub mod Count
pub mod Oldest
pub mod Unlinked
pub mod Bounds
mod Examples
use memccache.Base.{
  ℕ, zero, suc, ◌+◌, ◌-◌, ◌*◌, ◌%◌, ◌^◌, List, [], ◌∷◌, ◌++◌, Bool, true, false, not, ◌&&◌, ◌||◌,
  Option, none, some, ltb, leb, ◌==◌, if◌then◌else◌, length, starts_with, Bytes, codes, bytes_eq,
  Ordering,
}
use memccache.Base.Decimal.{hex_digit}
use memccache.Language.{get_extension, remove_extension}
use memccache.Util.{basename}
use memccache.Util.Files.{
  Errno, System, is_gone, x_unlink, x_try_unlink, Stat, file_size, Dir, traverse, strstr, signed,
}

-- struct files; mtime is a 64-bit pattern of a signed number.
pub record CacheFile : Type 0 where
  pub fname : Bytes
  pub mtime : ℕ
  pub size : ℕ

-- num_files is the length of the files; the model does not follow it beyond 2^32 files, where the
-- unsigned number of the source would wrap.
pub record State (World : Type 0) : Type 0 where
  pub files : List CacheFile
  pub allocated : ℕ
  pub cache_size : ℕ
  pub files_in_cache : ℕ
  pub cache_size_threshold : ℕ
  pub files_in_cache_threshold : ℕ
  pub world : World

unfoldable pub strcmp : Bytes → Bytes → Ordering
strcmp [] [] = Ordering.eq
strcmp [] (d ∷ ds) = Ordering.lt
strcmp (c ∷ cs) [] = Ordering.gt
strcmp (c ∷ cs) (d ∷ ds) =
    let rest = strcmp cs ds in if c == d then rest else if ltb c d then Ordering.lt else Ordering.gt

unfoldable pub files_compare : CacheFile → CacheFile → Ordering
files_compare f1 f2 =
    if f2.mtime == f1.mtime
    then strcmp f1.fname f2.fname
    else if ltb (signed f1.mtime) (signed f2.mtime)
    then Ordering.lt
    else Ordering.gt

module _ {World : Type 0} where
  unfoldable pub add_file : Bytes → Stat → State World → State World
  add_file fname st s = record s {
    allocated =
        if length s.files == s.allocated
        then (10000 + length s.files * 2) % 2 ^ 32
        else s.allocated;
    files = s.files ++ record { fname = fname; mtime = st.mtime; size = file_size st } ∷ [];
    cache_size = (s.cache_size + file_size st) % 2 ^ 64;
    files_in_cache = (s.files_in_cache + 1) % 2 ^ 64;
  }

  unfoldable pub is_within_limits : State World → Bool
  is_within_limits s =
      ((s.cache_size_threshold == 0) || leb s.cache_size s.cache_size_threshold)
      && ((s.files_in_cache_threshold == 0) || leb s.files_in_cache s.files_in_cache_threshold)

unfoldable pub is_deleted : Option Errno → Bool
is_deleted none = true
is_deleted (some e) = is_gone e

unfoldable pub sorted_files : (List CacheFile → List CacheFile) → List CacheFile → List CacheFile
sorted_files qsort fs = if ltb 1 (length fs) then qsort fs else fs

module _ {World : Type 0} (sys : System World) where
  unfoldable pub traverse_fn : Bytes → Stat → State World → State World
  traverse_fn fname st s =
      let p = basename fname in
      if not st.is_regular
      then s
      else if bytes_eq p (codes "stats")
      then s
      else if starts_with p (codes ".nfs")
      then s
      else if strstr p (codes ".tmp.") && ltb (signed (st.mtime + 3600)) (signed (sys.time s.world))
      then record s { world = (x_unlink sys fname s.world).0 }
      else if strstr p (codes "CACHEDIR.TAG")
      then s
      else add_file fname st s

  unfoldable pub delete_file : Bytes → ℕ → Bool → State World → State World
  unfolding is_deleted
  delete_file path size update_counters s =
      let (w, result) = x_try_unlink sys path s.world in
      if is_deleted result && update_counters
      then record s {
        world = w;
        cache_size = (s.cache_size + (2 ^ 64 - size % 2 ^ 64)) % 2 ^ 64;
        files_in_cache = (s.files_in_cache + (2 ^ 64 - 1)) % 2 ^ 64;
      }
      else record s { world = w }

  -- The body of the loop, after its test.
  unfoldable pub clean_file : CacheFile → State World → State World
  unfolding delete_file
  clean_file f s =
      let first =
        if bytes_eq (get_extension f.fname) (codes ".stderr")
        then delete_file (remove_extension f.fname ++ codes ".o") 0 false s
        else s in
      delete_file f.fname f.size true first

  unfoldable pub clean_loop : List CacheFile → State World → Bool → State World × Bool
  unfolding clean_file
  clean_loop [] s cleaned = (s, cleaned)
  clean_loop (f ∷ fs) s cleaned =
      let rest = clean_loop fs (clean_file f s) true in
      if is_within_limits s then (s, cleaned) else rest

  module _ (qsort : List CacheFile → List CacheFile) where
    unfoldable pub sort_and_clean : State World → State World × Bool
    unfolding sorted_files clean_loop
    sort_and_clean s =
        clean_loop (sorted_files qsort s.files) (record s { files = sorted_files qsort s.files })
          false

    module _ {Multiple : Type 0} (portion : ℕ → Multiple → ℕ) (listing : Bytes → World → Dir) where
      -- The world, and what stats_set_sizes is given, with whether stats_add_cleanup is called.
      -- `portion n m` is round(n * m / 16) as an unsigned number. `none` if lstat is fatal.
      unfoldable pub clean_up_dir : ℕ → ℕ → Bytes → Multiple → World → Option (World × ℕ × ℕ × Bool)
      unfolding sort_and_clean
      clean_up_dir max_size max_files dir limit_multiple w =
          let start : State World = record {
            files = [];
            allocated = 0;
            cache_size = 0;
            files_in_cache = 0;
            cache_size_threshold = portion max_size limit_multiple;
            files_in_cache_threshold = portion max_files limit_multiple;
            world = w;
          } in
          elim (traverse (traverse_fn) dir (listing dir w) start) [
            | none ↦ none
            | some s ↦
                let (s', cleaned) = sort_and_clean s in
                some (s'.world, s'.files_in_cache, s'.cache_size, cleaned)
          ]

      -- The loop from the directory `16 - n` on; the reports of all directories.
      unfoldable pub clean_up_loop :
          ℕ → ℕ → ℕ → Bytes → Multiple → World → Option (World × List (ℕ × ℕ × Bool))
      unfolding clean_up_dir
      clean_up_loop zero max_size max_files cache_dir one w = some (w, [])
      clean_up_loop (suc n) max_size max_files cache_dir one w =
          elim (clean_up_dir max_size max_files (cache_dir ++ b'/' ∷ hex_digit (15 - n) ∷ []) one
            w) [
              | none ↦ none
              | some (w', count, size, cleaned) ↦
                  elim (clean_up_loop n max_size max_files cache_dir one w') [
                    | none ↦ none
                    | some (w'', reports) ↦ some (w'', (count, size, cleaned) ∷ reports)
                  ]
            ]

      -- `one` is the multiple 1.0.
      unfoldable pub clean_up_all :
          ℕ → ℕ → Bytes → Multiple → World → Option (World × List (ℕ × ℕ × Bool))
      clean_up_all max_size max_files cache_dir one w =
          clean_up_loop 16 max_size max_files cache_dir one w

  unfoldable pub wipe_fn : Bytes → Stat → ℕ × World → ℕ × World
  wipe_fn fname st (files_in_cache, w) =
      if not st.is_regular
      then (files_in_cache, w)
      else if bytes_eq (basename fname) (codes "stats")
      then (files_in_cache, w)
      else ((files_in_cache + 1) % 2 ^ 64, (x_unlink sys fname w).0)

  -- The world, and whether stats_add_cleanup is called.
  unfoldable pub wipe_dir : (Bytes → World → Dir) → Bytes → World → Option (World × Bool)
  unfolding wipe_fn
  wipe_dir listing dir w = elim (traverse wipe_fn dir (listing dir w) (0, w)) [
    | none ↦ none
    | some (files_in_cache, w') ↦ some (w', ltb 0 files_in_cache)
  ]

  unfoldable pub wipe_loop : (Bytes → World → Dir) → ℕ → Bytes → World → Option World
  unfolding wipe_dir
  wipe_loop listing zero cache_dir w = some w
  wipe_loop listing (suc n) cache_dir w =
      elim (wipe_dir listing (cache_dir ++ b'/' ∷ hex_digit (15 - n) ∷ []) w) [
        | none ↦ none
        | some (w', cleared) ↦ wipe_loop listing n cache_dir w'
      ]
