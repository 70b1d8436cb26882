-- ===== src/Cleanup/Examples.antt =====
-- src/cleanup.c on a directory with two files, of which the older one has to go.
use mathlib.Core.List.{Perm}
use mathlib.Core.List.Perm
use memccache.Language.{get_extension, walk_back}
use memccache.Base.{
  List, [], ◌∷◌, ◌++◌, reverse, true, not, none, some, ◌⊎◌, Bytes, codes, bytes_eq, starts_with,
  Ordering, ◌≡◌, ◌≢◌, refl, arith,
}
use memccache.Util.{basename, after_slash}
use memccache.Util.Files.{
  System, file_size, Dir, Entries, traverse, is_skipped, strstr, x_rename, do_x_unlink,
  x_try_unlink, signed,
}
use memccache.Cleanup.{
  CacheFile, State, files_compare, add_file, traverse_fn, is_within_limits, is_deleted, delete_file,
  clean_file, clean_loop, sorted_files, sort_and_clean,
}
use memccache.Cleanup.Count.{IsCounted, traverse-IsCounted}
use memccache.Cleanup.Oldest.{NoneNewer, is_empty}
use memccache.Cleanup.Unlinked.{unlink_files}
use memccache.Cleanup.Bounds.{Left, within, EachBeyond, Removes, sort_and_clean_lem}

-- The world is the list of removed paths.
abbrev sys : System (List Bytes)
sys = record {
  rename = λ oldpath newpath w. (w, none);
  unlink = λ path w. (w ++ path ∷ [], none);
  time = λ w. 1000;
}

abbrev new_file : CacheFile
new_file = record { fname = codes "d/b.o"; mtime = 9; size = 512 }

abbrev old_file : CacheFile
old_file = record { fname = codes "d/a.o"; mtime = 5; size = 1024 }

abbrev start : State (List Bytes)
start = record {
  files = [];
  allocated = 0;
  cache_size = 0;
  files_in_cache = 0;
  cache_size_threshold = 600;
  files_in_cache_threshold = 0;
  world = [];
}

abbrev filled : State (List Bytes)
filled = record start {
  files = new_file ∷ old_file ∷ [];
  allocated = 10000;
  cache_size = 1536;
  files_in_cache = 2;
}

abbrev listing : Dir
listing = Dir.opened (
    Entries.file (codes "b.o") (record { is_regular = true; mtime = 9; blocks = 1 })
      (Entries.file (codes "stats") (record { is_regular = true; mtime = 9; blocks = 1 })
        (Entries.file (codes "a.o") (record { is_regular = true; mtime = 5; blocks = 2 })
          Entries.done)))

traversed : traverse (traverse_fn sys) (codes "d") listing start ≡ some filled
unfolding traverse is_skipped traverse_fn basename after_slash strstr add_file file_size starts_with
    bytes_eq
traversed = refl

traverse-IsCounted_example : IsCounted filled
traverse-IsCounted_example =
    traverse-IsCounted sys (codes "d") listing start filled (refl, refl, λ few. omega arith)
      traversed

removes : Removes sys
unfolding is_deleted x_try_unlink do_x_unlink x_rename
removes path w = refl

in_order : files_compare old_file new_file ≢ Ordering.gt
unfolding files_compare signed
in_order e = absurd (ground arith)

sort_and_clean_lem_example :
    (tried : List CacheFile) × (kept : List CacheFile) × Perm (tried ++ kept) filled.files
    × NoneNewer tried kept
    × ((sort_and_clean sys reverse filled).0.world ≡ unlink_files sys tried [])
    × ((sort_and_clean sys reverse filled).1 ≡ not (is_empty tried))
    × Left kept (sort_and_clean sys reverse filled).0
    × EachBeyond 600 0 tried kept
    × ((kept ≡ []) ⊎ (within 600 0 kept ≡ true))
sort_and_clean_lem_example =
    sort_and_clean_lem sys reverse filled removes (omega arith) (omega arith) (refl, refl)
      (Perm.swap new_file old_file []) ((in_order, tt), (tt, tt))

only_old : ((sort_and_clean sys reverse filled).0.world) ≡ codes "d/a.o.ccache.rm.tmp" ∷ []
unfolding sort_and_clean sorted_files clean_loop is_within_limits clean_file delete_file is_deleted
    x_try_unlink do_x_unlink x_rename bytes_eq get_extension walk_back
only_old = refl
