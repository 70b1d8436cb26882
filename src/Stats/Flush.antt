-- ===== src/Stats/Flush.antt =====
-- src/stats.c: the operations on the statistics files and on the pending updates.
-- The files are an interface: what the lock of src/lockfile.c, read_text_file, stat and the
-- replacing of a file do to the world. A file is replaced without an error. Logging is left out.
use memccache.Base.{
  ℕ, zero, suc, ◌+◌, ◌-◌, ◌*◌, ◌/◌, ◌%◌, ◌^◌, List, ◌∷◌, ◌++◌, Bool, true, false, not, ◌&&◌, ◌||◌,
  Option, none, some, ltb, ◌==◌, if◌then◌else◌, get_or, set, Bytes, codes, bytes_eq, ◌≡◌,
}
use memccache.Base.Decimal.{hex_digit}
use memccache.Counters.{Counters, counters_init}
use memccache.Stats.{parse_stats, stats_write, zero_counters}
use memccache.Stats.Info.{
  stats_end, stats_numfiles, stats_totalsize, stats_numcleanups, stats_zerotimestamp,
  stats_obsolete_maxfiles, stats_obsolete_maxsize,
}
use memccache.Util.{dirname}
use memccache.Util.Files.{System, Dir, signed}
use memccache.Cleanup.{CacheFile, clean_up_dir}

pub record Files (World : Type 0) : Type 0 where
  pub acquire : Bytes → World → World × Bool
  pub release : Bytes → World → World
  pub read : Bytes → World → Option Bytes
  pub replace : Bytes → Bytes → World → World
  -- st_mtime, if stat succeeds
  pub mtime : Bytes → World → Option ℕ
  pub remove : Bytes → World → World
  pub time : World → ℕ
  pub read-acquire : (p q : Bytes) (w : World) → read q (acquire p w).0 ≡ read q w
  pub read-release : (p q : Bytes) (w : World) → read q (release p w) ≡ read q w
  pub read-replace :
      (p s q : Bytes) (w : World)
      → read q (replace p s w) ≡ (if bytes_eq q p then some s else read q w)

-- The settings; hash_from_int(getpid()) is the hash of the process.
pub record Settings : Type 0 where
  pub disable : Bool
  pub stats : Bool
  pub max_files : ℕ
  pub max_size : ℕ
  pub cache_dir : Bytes
  pub process_hash : ℕ

-- What clean_up_dir is given, with conf->limit_multiple.
pub record Cleaner (World Multiple : Type 0) : Type 0 where
  pub system : System World
  pub qsort : List CacheFile → List CacheFile
  pub portion : ℕ → Multiple → ℕ
  pub listing : Bytes → World → Dir
  pub limit_multiple : Multiple

-- data[i] += updates[i] below `n`
unfoldable pub add_updates : ℕ → List ℕ → List ℕ → List ℕ
add_updates zero data' updates = data'
add_updates (suc n) data' updates =
    let below = add_updates n data' updates in
    set below n ((get_or below n 0 + get_or updates n 0) % 2 ^ 32)

-- Whether an update below `n` is not 0.
unfoldable pub should_flush : ℕ → List ℕ → Bool
should_flush zero updates = false
should_flush (suc n) updates = should_flush n updates || ltb 0 (get_or updates n 0)

unfoldable pub need_cleanup : Settings → Counters → Bool
need_cleanup conf counters =
    (not (conf.max_files == 0)
      && ltb (conf.max_files / 16) (get_or counters.data' stats_numfiles 0))
    || (not (conf.max_size == 0)
        && ltb (conf.max_size / 1024 / 16) (get_or counters.data' stats_totalsize 0))

abbrev with_data : Counters → List ℕ → Counters
with_data c data' = record { data' = data'; size = c.size; allocated = c.allocated }

unfoldable pub added : Counters → Counters → Counters
added counters updates = with_data counters (add_updates stats_end counters.data' updates.data')

module _ {World : Type 0} (files : Files World) where
  unfoldable pub stats_read : Bytes → Counters → World → Counters
  stats_read sfile counters w = elim (files.read sfile w) [
    | none ↦ counters
    | some text ↦ parse_stats counters text
  ]

  -- Locked, the counters of a file are read, changed and written.
  unfoldable pub change_file : Bytes → (Counters → Counters) → World → World
  unfolding stats_read
  change_file sfile change w =
      let (w', acquired) = files.acquire sfile w in
      elim acquired [
        | false ↦ w'
        | true ↦
            let counters = stats_read sfile (counters_init stats_end) w' in
            files.release sfile (files.replace sfile (stats_write (change counters)) w')
      ]

  unfoldable pub stats_set_sizes : Bytes → ℕ → ℕ → World → World
  unfolding change_file
  stats_set_sizes dir num_files total_size w =
      change_file (dir ++ codes "/stats")
        (λ c.
          with_data c (
            set (set c.data' stats_numfiles num_files) stats_totalsize
              (total_size / 1024 % 2 ^ 32)))
        w

  unfoldable pub stats_add_cleanup : Bytes → ℕ → World → World
  unfolding change_file
  stats_add_cleanup dir count w =
      change_file (dir ++ codes "/stats")
        (λ c.
          with_data c
            (set c.data' stats_numcleanups ((get_or c.data' stats_numcleanups 0 + count) % 2 ^ 32)))
        w

  -- clean_up_dir of src/cleanup.c with its two calls into the statistics; `none` where the
  -- traversal is fatal.
  unfoldable pub clean_and_count :
      {Multiple : Type 0} → Cleaner World Multiple → Settings → Bytes → World → Option World
  unfolding stats_set_sizes stats_add_cleanup
  clean_and_count cleaner conf dir w =
      elim (clean_up_dir cleaner.system cleaner.qsort cleaner.portion cleaner.listing conf.max_size
        conf.max_files dir cleaner.limit_multiple w) [
          | none ↦ none
          | some (w', count, size, cleaned) ↦ some (
              stats_set_sizes dir (count % 2 ^ 32) size
                (if cleaned then stats_add_cleanup dir 1 w' else w'))
        ]

  unfoldable pub flush_path : Settings → Option Bytes → Bytes
  flush_path conf none =
      conf.cache_dir ++ b'/' ∷ hex_digit (conf.process_hash % 16) ∷ codes "/stats"
  flush_path conf (some sfile) = sfile

  -- `none` where the cleanup is fatal.
  unfoldable pub stats_flush_to_file :
      {Multiple : Type 0}
      → Cleaner World Multiple
      → Settings
      → Option Bytes
      → Option Counters
      → World
      → Option World
  unfolding stats_read flush_path clean_and_count
  stats_flush_to_file cleaner conf sfile none w = some w
  stats_flush_to_file cleaner conf sfile (some updates) w =
      if conf.disable
      then some w
      else if not conf.stats
      then some w
      else if not (should_flush stats_end updates.data')
      then some w
      else let path = flush_path conf sfile in
        let (w', acquired) = files.acquire path w in
        if not acquired
        then some w'
        else let counters = added (stats_read path (counters_init stats_end) w') updates in
          let w'' = files.release path (files.replace path (stats_write counters) w') in
          if need_cleanup conf counters
          then clean_and_count cleaner conf (dirname path) w''
          else some w''

  -- The pending updates after stats_flush are none.
  unfoldable pub stats_flush :
      {Multiple : Type 0}
      → Cleaner World Multiple
      → Settings
      → Option Bytes
      → Option Counters
      → World
      → Option (World × Option Counters)
  unfolding stats_flush_to_file
  stats_flush cleaner conf stats_file counter_updates w =
      elim (stats_flush_to_file cleaner conf stats_file counter_updates w) [
        | none ↦ none
        | some w' ↦ some (w', none)
      ]

  -- maxfiles and maxsize
  unfoldable pub stats_get_obsolete_limits : Bytes → World → ℕ × ℕ
  unfolding stats_read
  stats_get_obsolete_limits dir w =
      let counters = stats_read (dir ++ codes "/stats") (counters_init stats_end) w in
      (
        get_or counters.data' stats_obsolete_maxfiles 0,
        get_or counters.data' stats_obsolete_maxsize 0 * 1024 % 2 ^ 64,
      )

  -- The loop over the directories from `16 - n` on.
  unfoldable pub stats_zero_loop : ℕ → ℕ → Bytes → World → World
  unfolding change_file
  stats_zero_loop zero timestamp cache_dir w = w
  stats_zero_loop (suc n) timestamp cache_dir w =
      let fname = cache_dir ++ b'/' ∷ hex_digit (15 - n) ∷ codes "/stats" in
      elim (files.mtime fname w) [
        | none ↦ stats_zero_loop n timestamp cache_dir w
        | some m ↦
            stats_zero_loop n timestamp cache_dir
              (change_file fname (λ c. with_data c (zero_counters timestamp c.data')) w)
      ]

  unfoldable pub stats_zero : Bytes → World → World
  unfolding stats_zero_loop
  stats_zero cache_dir w =
      let w' = files.remove (cache_dir ++ codes "/stats") w in
      stats_zero_loop 16 (files.time w') cache_dir w'

  -- One file of stats_collect: the counters, the latest zero timestamp and last_updated.
  unfoldable pub collect_file : Bytes → World → Counters × ℕ × ℕ → Counters × ℕ × ℕ
  unfolding stats_read
  collect_file fname w (counters, zero_timestamp, last_updated) =
      let counters' =
        stats_read fname (with_data counters (set counters.data' stats_zerotimestamp 0)) w in
      let stamp = get_or counters'.data' stats_zerotimestamp 0 in
      (
        counters',
        if ltb zero_timestamp stamp then stamp else zero_timestamp,
        elim (files.mtime fname w) [
          | none ↦ last_updated
          | some m ↦ if ltb (signed last_updated) (signed m) then m else last_updated
        ],
      )

  unfoldable pub collect_loop : ℕ → Bytes → World → Counters × ℕ × ℕ → Counters × ℕ × ℕ
  unfolding collect_file
  collect_loop zero cache_dir w s = s
  collect_loop (suc n) cache_dir w s =
      collect_loop n cache_dir w
        (collect_file (cache_dir ++ b'/' ∷ hex_digit (15 - n) ∷ codes "/stats") w s)

  -- The counters and last_updated.
  unfoldable pub stats_collect : Bytes → Counters → World → Counters × ℕ
  unfolding collect_loop
  stats_collect cache_dir counters w =
      let (c, zero_timestamp, last_updated) =
        collect_loop 16 cache_dir w
          (collect_file (cache_dir ++ codes "/stats") w (counters, 0, 0)) in
      (with_data c (set c.data' stats_zerotimestamp zero_timestamp), last_updated)

-- The pending updates.
unfoldable pub init_counter_updates : Option Counters → Counters
init_counter_updates none = counters_init stats_end
init_counter_updates (some c) = c

unfoldable pub stats_update : Option Counters → ℕ → Option Counters
unfolding init_counter_updates
stats_update counter_updates stat =
    let c = init_counter_updates counter_updates in
    some (with_data c (set c.data' stat ((get_or c.data' stat 0 + 1) % 2 ^ 32)))

unfoldable pub stats_get_pending : Option Counters → ℕ → Option Counters × ℕ
unfolding init_counter_updates
stats_get_pending counter_updates stat =
    let c = init_counter_updates counter_updates in (some c, get_or c.data' stat 0)

-- A 64-bit pattern divided by 1024, towards 0.
abbrev in_kib : ℕ → ℕ
in_kib size = if ltb size (2 ^ 63) then size / 1024 else 2 ^ 64 - (2 ^ 64 - size) / 1024

-- The updates that stats_update_size makes; size and files are patterns of signed numbers.
unfoldable pub add_size : Counters → ℕ → ℕ → Counters
add_size c size files =
    let counted = set c.data' stats_numfiles ((get_or c.data' stats_numfiles 0 + files) % 2 ^ 32) in
    with_data c
      (set counted stats_totalsize ((get_or counted stats_totalsize 0 + in_kib size) % 2 ^ 32))

-- The pending updates and the world. The first Boolean tells whether sfile is stats_file.
unfoldable pub stats_update_size :
    {World Multiple : Type 0} (files : Files World)
    → Cleaner World Multiple
    → Bool
    → Settings
    → Option Bytes
    → ℕ
    → ℕ
    → Option Counters × World
    → Option (Option Counters × World)
unfolding init_counter_updates add_size stats_flush_to_file
stats_update_size files cleaner true conf sfile size count (counter_updates, w) =
    some (some (add_size (init_counter_updates counter_updates) size count), w)
stats_update_size files cleaner false conf sfile size count (counter_updates, w) =
    elim (stats_flush_to_file files cleaner conf sfile
      (some (add_size (counters_init stats_end) size count)) w) [
        | none ↦ none
        | some w' ↦ some (counter_updates, w')
      ]
