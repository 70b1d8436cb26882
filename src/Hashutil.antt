-- ===== src/Hashutil.antt =====
-- src/hashutil.c: the search for __DATE__ and __TIME__ in source code, with src/macroskip.h.
-- A character is a byte; one of 128 or more is not alphanumeric, as in the C locale. The result is
-- the two bits of the mask.
pub mod Words
pub mod Macros
pub mod Source
mod Examples
use memccache.Base.{
  ℕ, zero, suc, ◌+◌, ◌-◌, ◌%◌, List, [], ◌∷◌, Bool, true, false, not, ◌&&◌, ◌||◌, ltb, leb, ◌==◌,
  if◌then◌else◌, length, get_or, Bytes,
}

abbrev pub macro_skip : List ℕ
macro_skip =
    8 ∷ 8 ∷ 8 ∷ 8 ∷ 8 ∷ 8 ∷ 8 ∷ 8 ∷ 8 ∷ 8 ∷ 8 ∷ 8 ∷ 8 ∷ 8 ∷ 8 ∷ 8 ∷ 8 ∷ 8 ∷ 8 ∷ 8 ∷ 8 ∷ 8 ∷ 8 ∷ 8
    ∷ 8 ∷ 8 ∷ 8 ∷ 8 ∷ 8 ∷ 8 ∷ 8 ∷ 8 ∷ 8 ∷ 8 ∷ 8 ∷ 8 ∷ 8 ∷ 8 ∷ 8 ∷ 8 ∷ 8 ∷ 8 ∷ 8 ∷ 8 ∷ 8 ∷ 8 ∷ 8 ∷ 8
    ∷ 8 ∷ 8 ∷ 8 ∷ 8 ∷ 8 ∷ 8 ∷ 8 ∷ 8 ∷ 8 ∷ 8 ∷ 8 ∷ 8 ∷ 8 ∷ 8 ∷ 8 ∷ 8 ∷ 8 ∷ 4 ∷ 8 ∷ 8 ∷ 5 ∷ 2 ∷ 8 ∷ 8
    ∷ 8 ∷ 4 ∷ 8 ∷ 8 ∷ 8 ∷ 3 ∷ 8 ∷ 8 ∷ 8 ∷ 8 ∷ 8 ∷ 8 ∷ 3 ∷ 8 ∷ 8 ∷ 8 ∷ 8 ∷ 8 ∷ 8 ∷ 8 ∷ 8 ∷ 8 ∷ 8 ∷ 1
    ∷ 8 ∷ 8 ∷ 8 ∷ 8 ∷ 8 ∷ 8 ∷ 8 ∷ 8 ∷ 8 ∷ 8 ∷ 8 ∷ 8 ∷ 8 ∷ 8 ∷ 8 ∷ 8 ∷ 8 ∷ 8 ∷ 8 ∷ 8 ∷ 8 ∷ 8 ∷ 8 ∷ 8
    ∷ 8 ∷ 8 ∷ 8 ∷ 8 ∷ 8 ∷ 8 ∷ 8 ∷ 8 ∷ 8 ∷ 8 ∷ 8 ∷ 8 ∷ 8 ∷ 8 ∷ 8 ∷ 8 ∷ 8 ∷ 8 ∷ 8 ∷ 8 ∷ 8 ∷ 8 ∷ 8 ∷ 8
    ∷ 8 ∷ 8 ∷ 8 ∷ 8 ∷ 8 ∷ 8 ∷ 8 ∷ 8 ∷ 8 ∷ 8 ∷ 8 ∷ 8 ∷ 8 ∷ 8 ∷ 8 ∷ 8 ∷ 8 ∷ 8 ∷ 8 ∷ 8 ∷ 8 ∷ 8 ∷ 8 ∷ 8
    ∷ 8 ∷ 8 ∷ 8 ∷ 8 ∷ 8 ∷ 8 ∷ 8 ∷ 8 ∷ 8 ∷ 8 ∷ 8 ∷ 8 ∷ 8 ∷ 8 ∷ 8 ∷ 8 ∷ 8 ∷ 8 ∷ 8 ∷ 8 ∷ 8 ∷ 8 ∷ 8 ∷ 8
    ∷ 8 ∷ 8 ∷ 8 ∷ 8 ∷ 8 ∷ 8 ∷ 8 ∷ 8 ∷ 8 ∷ 8 ∷ 8 ∷ 8 ∷ 8 ∷ 8 ∷ 8 ∷ 8 ∷ 8 ∷ 8 ∷ 8 ∷ 8 ∷ 8 ∷ 8 ∷ 8 ∷ 8
    ∷ 8 ∷ 8 ∷ 8 ∷ 8 ∷ 8 ∷ 8 ∷ 8 ∷ 8 ∷ 8 ∷ 8 ∷ 8 ∷ 8 ∷ 8 ∷ 8 ∷ 8 ∷ 8 ∷ 8 ∷ 8 ∷ 8 ∷ 8 ∷ 8 ∷ 8 ∷ 8 ∷ 8
    ∷ 8 ∷ 8 ∷ 8 ∷ 8 ∷ 8 ∷ 8 ∷ 8 ∷ 8 ∷ 8 ∷ 8 ∷ 8 ∷ 8 ∷ 8 ∷ 8 ∷ 8 ∷ 8 ∷ []

pub record Found : Type 0 where
  pub date : Bool
  pub time : Bool

abbrev pub is_alnum : ℕ → Bool
is_alnum c = (leb 48 c && leb c 57) || ((leb 65 c && leb c 90) || (leb 97 c && leb c 122))

-- c != '_' && !isalnum(c)
abbrev pub is_border : ℕ → Bool
is_border c = not (c == 95) && not (is_alnum c)

abbrev at : Bytes → ℕ → ℕ
at str i = get_or str i 0

-- The first test of the loop, for the substring "__...E__" that ends at i.
unfoldable pub looks_like_macro : Bytes → ℕ → Bool
looks_like_macro str i =
    at str (i - 2) == 69
    && (at str i == 95
        && (at str (i - 7) == 95
            && (at str (i - 1) == 95
                && (at str (i - 6) == 95
                    && ((ltb i 8 || is_border (at str (i - 8)))
                        && (leb (length str) (i + 1) || is_border (at str (i + 1))))))))

unfoldable pub is_date : Bytes → ℕ → Bool
is_date str i = at str (i - 5) == 68 && (at str (i - 4) == 65 && at str (i - 3) == 84)

unfoldable pub is_time : Bytes → ℕ → Bool
is_time str i = at str (i - 5) == 84 && (at str (i - 4) == 73 && at str (i - 3) == 77)

-- The body of the loop, without the step.
unfoldable pub check_at : Bytes → ℕ → Found → Found
check_at str i result =
    if looks_like_macro str i
    then (if is_date str i
        then record result { date = true }
        else (if is_time str i then record result { time = true } else result))
    else result

-- macro_skip[(uint8_t)c]
unfoldable pub skip : ℕ → ℕ
skip c = get_or macro_skip (c % 256) 0

-- The loop. A step is at least 1, so that `length str` rounds are enough.
unfoldable pub macro_loop : ℕ → Bytes → ℕ → Found → Found
macro_loop zero str i result = result
macro_loop (suc f) str i result = elim (ltb i (length str)) [
  | false ↦ result
  | true ↦ macro_loop f str (i + skip (at str i)) (check_at str i result)
]

unfoldable pub check_for_temporal_macros : Bytes → Found
check_for_temporal_macros str =
    macro_loop (length str) str 7 (record { date = false; time = false })
