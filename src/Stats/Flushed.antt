-- ===== src/Stats/Flushed.antt =====
-- src/stats.c: what a flush leaves in the statistics file.
use mathlib.Core.Path.{subst}
use memccache.Base.{
  ℕ, zero, suc, ◌+◌, ◌%◌, ◌^◌, ◌≤◌, ◌<◌, List, [], ◌∷◌, true, false, some, ltb, ltb→lt, ltb→ge,
  lt→ltb, ◌==◌, if◌then◌else◌, length, length-set, get_or, get_or-set, get_or-beyond, set, All,
  Bool-cases, Option-cases, inl, inr, Bytes, bytes_eq, bytes_eq_refl, ◌≡◌, refl, sym, ◌∙◌, arith,
}
use memccache.Base.Decimal.{strtol}
use memccache.Counters.{
  Counters, counters_init, counters_resize, counters_resize-IsValid, get_or-counters_resize,
}
use memccache.Stats.{add_at, parse_loop, parse_stats, stats_write}
use memccache.Stats.File.{parse_stats-stats_write}
use memccache.Stats.Info.{stats_end}
use memccache.Stats.Flush.{
  Files, Settings, add_updates, should_flush, need_cleanup, added, stats_read, flush_path,
  stats_flush_to_file, Cleaner, clean_and_count,
}
use memccache.Util.{dirname}

add_updates_lem :
    (n : ℕ) (data' updates : List ℕ) (j : ℕ)
    → n ≤ length data'
    → (length (add_updates n data' updates) ≡ length data')
      × (get_or (add_updates n data' updates) j 0 ≡ (
          if ltb j n then (get_or data' j 0 + get_or updates j 0) % 2 ^ 32 else get_or data' j 0))
unfolding add_updates
add_updates_lem zero data' updates j h = (refl, ground arith)
add_updates_lem (suc n) data' updates j h =
    let below = add_updates n data' updates in
    let v = (get_or below n 0 + get_or updates n 0) % 2 ^ 32 in
    let (size, at_n) = add_updates_lem n data' updates n (omega arith) in
    let (size', at_j) = add_updates_lem n data' updates j (omega arith) in
    let changed = get_or-set below n j v 0 in
    (
      length-set below n v ∙ size,
      elim (Bool-cases (n == j)) [
        | inr e ↦ ground arith
        | inl e ↦
            let same : n ≡ j = ground arith in
            subst
              (λ k. get_or (set below n v) k 0 ≡ (
                if ltb k (suc n)
                then (get_or data' k 0 + get_or updates k 0) % 2 ^ 32
                else get_or data' k 0))
              same (at_itself n data' updates below v size (omega arith) refl at_n)
      ],
    )
  where
    at_itself :
        (n : ℕ) (data' updates below : List ℕ) (v : ℕ)
        → length below ≡ length data'
        → n < length data'
        → v ≡ (get_or below n 0 + get_or updates n 0) % 2 ^ 32
        → get_or below n 0
          ≡ (if ltb n n then (get_or data' n 0 + get_or updates n 0) % 2 ^ 32 else get_or data' n 0)
        → get_or (set below n v) n 0 ≡ (
            if ltb n (suc n)
            then (get_or data' n 0 + get_or updates n 0) % 2 ^ 32
            else get_or data' n 0)
    at_itself n data' updates below v size inside e h =
        let changed = get_or-set below n n v 0 in ground arith

parse_loop-size : (f : ℕ) (c : Counters) (i : ℕ) (p : Bytes) → c.size ≤ (parse_loop f c i p).size
unfolding parse_loop add_at counters_resize
parse_loop-size zero c i p = omega arith
parse_loop-size (suc f) c i p = elim (Option-cases (strtol p)) [
  | inl e ↦ rw (parse_loop, e) (omega arith)
  | inr (val, e) ↦
      let more : c.size ≤ (add_at c i val).size = elim (Bool-cases (ltb c.size (i + 1))) [
        | inr k ↦ rw (add_at, k) (omega arith)
        | inl k ↦ let less = ltb→lt c.size (i + 1) k in rw (add_at, k) (omega arith)
      ] in
      let rest = parse_loop-size f (add_at c i val) (i + 1) val.rest in
      rw (parse_loop, e) (omega arith)
]

small_at : (ns : List ℕ) (j : ℕ) → All (λ n. n < 2 ^ 32) ns → get_or ns j 0 < 2 ^ 32
small_at [] j h = omega arith
small_at (n ∷ ns) zero (h, hs) = h
small_at (n ∷ ns) (suc j) (h, hs) = small_at ns j hs

-- The counters that a file written before gives.
read_lem :
    (old : Counters) (j : ℕ)
    → All (λ n. n < 2 ^ 32) old.data'
    → let c = parse_stats (counters_init stats_end) (stats_write old) in
      (32 ≤ length c.data') × (get_or c.data' j 0 ≡ get_or old.data' j 0)
unfolding counters_init parse_stats
read_lem old j small =
    let empty : Counters = record { data' = []; size = 0; allocated = 0 } in
    let (valid, size) = counters_resize-IsValid empty 32 (refl, omega arith) in
    let zero_at : get_or (counters_init stats_end).data' j 0 ≡ 0 =
      ground (arith, get_or-counters_resize empty 32 j refl) in
    let below = small_at old.data' j small in
    let (valid', value) = parse_stats-stats_write (counters_init stats_end) old j valid small in
    let more =
      parse_loop-size (length (stats_write old)) (counters_init stats_end) 0 (stats_write old) in
    (
      omega (arith, valid'.0, size, more),
      elim (Bool-cases (ltb j (length old.data'))) [
        | inl e ↦ value ∙ rw (e, zero_at) (omega arith)
        | inr e ↦
            let beyond = get_or-beyond old.data' j 0 (ltb→ge j (length old.data') e) in
            value ∙ rw e (zero_at ∙ sym beyond)
      ],
    )

added_lem :
    (c updates : Counters) (j : ℕ)
    → j < 32
    → 32 ≤ length c.data'
    → get_or (added c updates).data' j 0 ≡ (get_or c.data' j 0 + get_or updates.data' j 0) % 2 ^ 32
unfolding added
added_lem c updates j inside enough =
    let (size, sum) = add_updates_lem stats_end c.data' updates.data' j enough in
    let below = lt→ltb j 32 inside in sum ∙ rw below

module _ {World Multiple : Type 0} (files : Files World) (cleaner : Cleaner World Multiple) where
  -- If statistics are enabled, an update below STATS_END is not 0, the lock is acquired and
  -- the file holds what stats_write wrote from counters below 2^32, then stats_flush_to_file
  -- first leads to a state in which the file holds counters of which each below STATS_END is
  -- the old one plus its update modulo 2^32 and no other file has changed, and its result is
  -- what the cleanup of the directory makes of that state if the new counters are beyond the
  -- limits, and that state if they are not.
  pub stats_flush_to_file_lem :
      (conf : Settings) (sfile : Bytes) (old updates : Counters) (w : World)
      → conf.disable ≡ false
      → conf.stats ≡ true
      → should_flush stats_end updates.data' ≡ true
      → (files.acquire sfile w).1 ≡ true
      → files.read sfile w ≡ some (stats_write old)
      → All (λ n. n < 2 ^ 32) old.data'
      → (w' : World) × (new : Counters) × (files.read sfile w' ≡ some (stats_write new))
        × ((j : ℕ)
            → j < 32
            → get_or new.data' j 0 ≡ (get_or old.data' j 0 + get_or updates.data' j 0) % 2 ^ 32)
        × ((q : Bytes) → bytes_eq q sfile ≡ false → files.read q w' ≡ files.read q w)
        × (stats_flush_to_file files cleaner conf (some sfile) (some updates) w ≡ (
            if need_cleanup conf new
            then clean_and_count files cleaner conf (dirname sfile) w'
            else some w'))
  unfolding stats_flush_to_file stats_read flush_path
  stats_flush_to_file_lem conf sfile old updates w disable stats flush acquired read small =
      let w' = (files.acquire sfile w).0 in
      let c = parse_stats (counters_init stats_end) (stats_write old) in
      let new = added c updates in
      let read' : files.read sfile w' ≡ some (stats_write old) =
        files.read-acquire sfile sfile w ∙ read in
      let written = files.replace sfile (stats_write new) w' in
      (
        files.release sfile written,
        new,
        files.read-release sfile sfile written
            ∙ files.read-replace sfile (stats_write new) sfile w'
            ∙ rw (bytes_eq_refl sfile),
        (λ j inside.
            let (enough, value) = read_lem old j small in
            added_lem c updates j inside enough ∙ rw value),
        (λ q other.
            files.read-release sfile q written
            ∙ files.read-replace sfile (stats_write new) q w'
            ∙ rw other (files.read-acquire sfile q w)),
        rw (stats_flush_to_file, disable, stats, flush, acquired, stats_read, read'),
      )
