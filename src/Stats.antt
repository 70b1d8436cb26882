-- ===== src/Stats.antt =====
-- src/stats.c: the statistics files.
pub mod Info
pub mod File
pub mod Flush
pub mod Flushed
mod Examples
use memccache.Base.{
  ℕ, zero, suc, ◌+◌, ◌-◌, ◌*◌, ◌/◌, ◌%◌, ◌^◌, List, [], ◌∷◌, ◌++◌, length, get_or, set, Bool, true,
  false, not, Option, none, some, ltb, ◌==◌, if◌then◌else◌, Bytes,
}
use memccache.Base.Decimal.{decimal, strtol, Parsed}
use memccache.Counters.{Counters, counters_resize}
use memccache.Stats.Info.{StatsInfo, stats_info, stats_end, stats_zerotimestamp, flag_nozero}

-- An unsigned counter plus a long: the 32-bit sum.
unfoldable pub add_long : ℕ → Parsed → ℕ
add_long old val =
    if val.negative
    then (old + (2 ^ 32 - val.magnitude % 2 ^ 32)) % 2 ^ 32
    else (old + val.magnitude) % 2 ^ 32

-- counters->data[i] += val, after room for i is made
unfoldable pub add_at : Counters → ℕ → Parsed → Counters
add_at counters i val =
    let resized =
      if ltb counters.size (i + 1) then counters_resize counters (i + 1) else counters in
    record {
      data' = set resized.data' i (add_long (get_or resized.data' i 0) val);
      size = resized.size;
      allocated = resized.allocated;
    }

-- The loop of parse_stats. Each round takes a character at least, so `length buf` rounds do.
unfoldable pub parse_loop : ℕ → Counters → ℕ → Bytes → Counters
parse_loop zero counters i p = counters
parse_loop (suc f) counters i p = elim (strtol p) [
  | none ↦ counters
  | some val ↦ parse_loop f (add_at counters i val) (i + 1) val.rest
]

unfoldable pub parse_stats : Counters → Bytes → Counters
parse_stats counters buf = parse_loop (length buf) counters 0 buf

-- What fprintf(f, "%u\n", ...) writes for each counter.
unfoldable pub print_counters : List ℕ → Bytes
print_counters [] = []
print_counters (n ∷ ns) = decimal n ++ 10 ∷ print_counters ns

-- The text of the file that stats_write leaves.
unfoldable pub stats_write : Counters → Bytes
stats_write counters = print_counters counters.data'

-- The loop of stats_zero over stats_info, up to the row without a message.
unfoldable pub zero_loop : List StatsInfo → List ℕ → List ℕ
zero_loop [] data' = data'
zero_loop (info ∷ t) data' = elim info.message [
  | none ↦ data'
  | some m ↦ elim (info.flags % 2 == flag_nozero) [
    | true ↦ zero_loop t data'
    | false ↦ zero_loop t (set data' info.stat 0)
  ]
]

-- What stats_zero makes of one file's counters.
unfoldable pub zero_counters : ℕ → List ℕ → List ℕ
zero_counters timestamp data' =
    set (zero_loop stats_info data') stats_zerotimestamp (timestamp % 2 ^ 32)
