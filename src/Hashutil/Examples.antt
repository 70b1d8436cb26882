-- ===== src/Hashutil/Examples.antt =====
-- src/hashutil.c at concrete texts.
use memccache.Base.{◌≡◌, refl, true, false, codes}
use memccache.Hashutil.{
  check_for_temporal_macros, macro_loop, check_at, looks_like_macro, is_date, is_time, skip,
}
use memccache.Hashutil.Words.{occurs}
use memccache.Hashutil.Macros.{check_for_temporal_macros_lem}

-- The second word is part of an identifier.
check_for_temporal_macros_lem_example :
    check_for_temporal_macros (codes "s = __TIME__ x__DATE__;") ≡ record {
      date = occurs (codes "__DATE__") (codes "s = __TIME__ x__DATE__;");
      time = occurs (codes "__TIME__") (codes "s = __TIME__ x__DATE__;");
    }
check_for_temporal_macros_lem_example =
    check_for_temporal_macros_lem (codes "s = __TIME__ x__DATE__;")

time_only :
    check_for_temporal_macros (codes "s = __TIME__ x__DATE__;")
    ≡ record { date = false; time = true }
unfolding check_for_temporal_macros macro_loop check_at looks_like_macro is_date is_time skip
time_only = refl
