-- ===== src/Stats/Examples.antt =====
-- src/stats.c at concrete counters.
use memccache.Base.{
  ◌+◌, ◌^◌, ◌%◌, ◌/◌, ◌<◌, ◌≡◌, refl, ℕ, Option, none, some, true, false, Bytes, codes, bytes_eq,
  [], ◌∷◌, arith, get_or, length, ltb, if◌then◌else◌,
}
use memccache.Counters.{
  Counters, IsValid, counters_resize, counters_resize-IsValid, get_or-counters_resize,
}
use memccache.Stats.{parse_stats, stats_write}
use memccache.Stats.Info.{stats_end}
use memccache.Stats.Flush.{
  Files, Settings, should_flush, need_cleanup, stats_flush_to_file, Cleaner, clean_and_count,
}
use memccache.Util.Files.{Dir, Entries}
use memccache.Stats.Flushed.{stats_flush_to_file_lem}
use memccache.Util.{dirname}
use memccache.Stats.File.{parse_stats-stats_write}

abbrev two : Counters
two = record { data' = 5 ∷ 4_294_967_295 ∷ []; size = 2; allocated = 32 }

abbrev three : Counters
three = record { data' = 1 ∷ 2 ∷ 3 ∷ []; size = 3; allocated = 32 }

counters_resize-IsValid_example :
    IsValid (counters_resize two 40) × ((counters_resize two 40).size ≡ 40)
counters_resize-IsValid_example = counters_resize-IsValid two 40 (refl, omega arith)

get_or-counters_resize_example :
    get_or (counters_resize two 40).data' 1 0 ≡ (if ltb 1 40 then get_or two.data' 1 0 else 0)
get_or-counters_resize_example = get_or-counters_resize two 40 1 refl

parse_stats-stats_write_example :
    IsValid (parse_stats two (stats_write three))
    × (get_or (parse_stats two (stats_write three)).data' 1 0 ≡ (
        if ltb 1 (length three.data')
        then (get_or two.data' 1 0 + get_or three.data' 1 0) % 2 ^ 32
        else get_or two.data' 1 0))
parse_stats-stats_write_example =
    parse_stats-stats_write two three 1 (refl, omega arith)
      (omega arith, (omega arith, (omega arith, tt)))

-- Files in memory, with a lock that is always free.
abbrev memory : Files (Bytes → Option Bytes)
memory = record {
  acquire = λ p w. (w, true);
  release = λ p w. w;
  read = λ p w. w p;
  replace = λ p s w q. if bytes_eq q p then some s else w q;
  mtime = λ p w. some 0;
  remove = λ p w q. if bytes_eq q p then none else w q;
  time = λ w. 0;
  read-acquire = λ p q w. refl;
  read-release = λ p q w. refl;
  read-replace = λ p s q w. refl;
}

abbrev conf : Settings
conf = record {
  disable = false;
  stats = true;
  max_files = 0;
  max_size = 0;
  cache_dir = codes "c";
  process_hash = 3;
}

flushes : should_flush stats_end two.data' ≡ true
unfolding should_flush
flushes = refl

-- Nothing is listed.
abbrev cleaner : Cleaner (Bytes → Option Bytes) Unit
cleaner = record {
  system = record {
    rename = λ oldpath newpath w. (w, none);
    unlink = λ path w. (w, none);
    time = λ w. 0;
  };
  qsort = λ fs. fs;
  portion = λ n one. n / 16;
  listing = λ dir w. Dir.opened Entries.done;
  limit_multiple = tt;
}

stats_flush_to_file_lem_example :
    let w : Bytes → Option Bytes = λ q. some (stats_write three) in
    let sfile = codes "c/0/stats" in
    (w' : Bytes → Option Bytes) × (new : Counters) × (w' sfile ≡ some (stats_write new))
    × ((j : ℕ)
        → j < 32
        → get_or new.data' j 0 ≡ (get_or three.data' j 0 + get_or two.data' j 0) % 2 ^ 32)
    × ((q : Bytes) → bytes_eq q sfile ≡ false → w' q ≡ w q)
    × (stats_flush_to_file memory cleaner conf (some sfile) (some two) w ≡ (
        if need_cleanup conf new
        then clean_and_count memory cleaner conf (dirname sfile) w'
        else some w'))
stats_flush_to_file_lem_example =
    stats_flush_to_file_lem memory cleaner conf (codes "c/0/stats") three two
      (λ q. some (stats_write three)) refl refl flushes refl refl
      (omega arith, (omega arith, (omega arith, tt)))
