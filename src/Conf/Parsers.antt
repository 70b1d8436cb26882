-- ===== src/Conf/Parsers.antt =====
-- src/confitems.c: the parsers, formatters and verifiers of configuration values.
-- A field of struct conf is a tagged value. The parser gets the field as it is and yields the
-- field as it leaves it, beside the error message if it returns false. Doubles and getenv are
-- parameters; texts are the bytes before the NUL.
use memccache.Base.{
  ℕ, ◌-◌, ◌%◌, ◌^◌, List, [], ◌∷◌, ◌++◌, length, take, drop, Bytes, codes, bytes_eq, Option, none,
  some, Bool, true, false, not, ◌&&◌, ◌||◌, ltb, leb, ◌==◌, if◌then◌else◌,
}
use memccache.Base.Decimal.{decimal, is_space, Parsed}
use memccache.Base.Number.{scan_decimal, scan_octal, octal3}
use memccache.Util.Environ.{subst_env_in_string, Substituted}
use Prim.Native.Nat.{bit_and, bit_or}

-- What strtod yields: the value, how many bytes it has read, and whether it has set errno.
pub record Strtod (D : Type 0) : Type 0 where
  pub value : D
  pub used : ℕ
  pub errno : Bool

pub record Doubles (D : Type 0) : Type 0 where
  pub strtod : Bytes → Strtod D
  pub is_negative : D → Bool
  -- the product with an integer, and the quotient of two integers
  pub times : D → ℕ → D
  pub quotient : ℕ → ℕ → D
  -- the conversion to uint64_t
  pub to_uint64 : D → ℕ
  -- %.1f
  pub one_decimal : D → Bytes

-- A char pointer, which may be NULL; a bool; an integer of any width as its bits; a double.
pub data Value (D : Type 0) : Type 0 where
  text : Option Bytes → Value D
  flag : Bool → Value D
  number : ℕ → Value D
  real : D → Value D

-- x as an unsigned of 32 bits, for a long of a sign and a magnitude.
unfoldable pub to_unsigned : Bool → ℕ → ℕ
to_unsigned negative m = if negative then (2 ^ 32 - m % 2 ^ 32) % 2 ^ 32 else m % 2 ^ 32

-- The value of strtol, if it is in range and ends with the text.
unfoldable pub whole_long : Bytes → Option (Bool × ℕ)
unfolding scan_decimal
whole_long str = elim (scan_decimal str) [
  | none ↦ none
  | some p ↦ elim p.rest [
    | c ∷ cs ↦ none
    | [] ↦
        if ltb (if p.negative then 2 ^ 63 else 2 ^ 63 - 1) p.magnitude
        then none
        else some (p.negative, p.magnitude)
  ]
]

-- The value of strtoul in base 8 as an unsigned of 32 bits, and whether errno is 0 and the
-- number ends with the text.
unfoldable pub octal_value : Parsed → ℕ × Bool
octal_value p =
    if ltb (2 ^ 64 - 1) p.magnitude
    then (2 ^ 32 - 1, false)
    else (to_unsigned p.negative p.magnitude, elim p.rest [ [] ↦ true | c ∷ cs ↦ false ])

quoted : Bytes → Bytes → Bytes
quoted message str = message ++ codes "\"" ++ str ++ codes "\""

-- The bits of SLOPPY_*.
abbrev pub sloppy_include_file_mtime : ℕ
sloppy_include_file_mtime = 1

abbrev pub sloppy_include_file_ctime : ℕ
sloppy_include_file_ctime = 2

abbrev pub sloppy_time_macros : ℕ
sloppy_time_macros = 4

abbrev pub sloppy_pch_defines : ℕ
sloppy_pch_defines = 8

abbrev pub sloppy_file_stat_matches : ℕ
sloppy_file_stat_matches = 16

abbrev pub sloppy_system_headers : ℕ
sloppy_system_headers = 32

abbrev pub sloppy_file_stat_matches_ctime : ℕ
sloppy_file_stat_matches_ctime = 64

abbrev pub sloppy_clang_index_store : ℕ
sloppy_clang_index_store = 128

abbrev pub sloppy_locale : ℕ
sloppy_locale = 256

-- The bits that a word of the sloppiness sets; an unknown word sets none.
unfoldable pub sloppy_word : Bytes → ℕ
sloppy_word word =
    if bytes_eq word (codes "file_stat_matches")
    then sloppy_file_stat_matches
    else if bytes_eq word (codes "file_stat_matches_ctime")
    then sloppy_file_stat_matches_ctime
    else if bytes_eq word (codes "include_file_ctime")
    then sloppy_include_file_ctime
    else if bytes_eq word (codes "include_file_mtime")
    then sloppy_include_file_mtime
    else if bytes_eq word (codes "system_headers") || bytes_eq word (codes "no_system_headers")
    then sloppy_system_headers
    else if bytes_eq word (codes "pch_defines")
    then sloppy_pch_defines
    else if bytes_eq word (codes "time_macros")
    then sloppy_time_macros
    else if bytes_eq word (codes "clang_index_store")
    then sloppy_clang_index_store
    else if bytes_eq word (codes "locale")
    then sloppy_locale
    else 0

abbrev pub is_separator : ℕ → Bool
is_separator c = c == b',' || c == b' '

unfoldable pub add_word : Bytes → List Bytes → List Bytes
add_word [] ws = ws
add_word (c ∷ cs) ws = (c ∷ cs) ∷ ws

-- The characters of a word at the front, and the words that strtok_r delivers behind it.
unfoldable pub split_words : Bytes → Bytes × List Bytes
unfolding add_word
split_words [] = ([], [])
split_words (c ∷ cs) =
    let (w, ws) = split_words cs in if is_separator c then ([], add_word w ws) else (c ∷ w, ws)

-- The words that strtok_r(..., ", ") delivers.
unfoldable pub tokens : Bytes → List Bytes
unfolding split_words add_word
tokens str = let (w, ws) = split_words str in add_word w ws

unfoldable pub or_words : ℕ → List Bytes → ℕ
unfolding sloppy_word
or_words v [] = v
or_words v (w ∷ ws) = or_words (bit_or v (sloppy_word w)) ws

module _ {D : Type 0} (doubles : Doubles D) where
  -- parse_size_with_suffix behind the number x: p is the rest without the spaces.
  suffixed : D → Bytes → Option D
  suffixed x [] = some (doubles.times x 1000000000)
  suffixed x (c ∷ p) =
      let m : ℕ = elim p [ [] ↦ 1000 | d ∷ ds ↦ if d == b'i' then 1024 else 1000 ] in
      let k = doubles.times x m in
      let mega = doubles.times k m in
      let giga = doubles.times mega m in
      if c == b'T'
      then some (doubles.times giga m)
      else if c == b'G'
      then some giga
      else if c == b'M'
      then some mega
      else if c == b'K' || c == b'k'
      then some k
      else none

unfoldable pub skip_ws : Bytes → Bytes
skip_ws [] = []
skip_ws (c ∷ cs) = let rest = skip_ws cs in if is_space c then rest else c ∷ cs

module _ {D : Type 0} (doubles : Doubles D) where
  -- `none` where it returns false; `*p` and the tests on str read the same text.
  unfoldable pub parse_size_with_suffix : Bytes → Option ℕ
  unfolding suffixed skip_ws
  parse_size_with_suffix str =
      let x = doubles.strtod str in
      if (x.errno || doubles.is_negative x.value) || x.used == 0
      then none
      else elim (suffixed doubles x.value (skip_ws (drop x.used str))) [
        | none ↦ none
        | some size ↦ some (doubles.to_uint64 size)
      ]

  unfoldable pub format_parsable_size_with_suffix : ℕ → Bytes
  format_parsable_size_with_suffix size =
      if leb 1000000000 size
      then doubles.one_decimal (doubles.quotient size 1000000000) ++ codes "G"
      else if leb 1000000 size
      then doubles.one_decimal (doubles.quotient size 1000000) ++ codes "M"
      else if leb 1000 size
      then doubles.one_decimal (doubles.quotient size 1000) ++ codes "k"
      else decimal size

  unfoldable pub confitem_parse_double : Bytes → Value D → Value D × Option Bytes
  unfolding quoted
  confitem_parse_double str old =
      let x = doubles.strtod str in
      if not x.errno && (not (length str == 0) && x.used == length str)
      then (Value.real x.value, none)
      else (old, some (quoted (codes "invalid floating point: ") str))

  unfoldable pub confitem_parse_size : Bytes → Value D → Value D × Option Bytes
  unfolding quoted
  confitem_parse_size str old = elim (parse_size_with_suffix str) [
    | some size ↦ (Value.number size, none)
    | none ↦ (old, some (quoted (codes "invalid size: ") str))
  ]

module _ {D : Type 0} where
  unfoldable pub number_of : Value D → ℕ
  number_of (Value.text t) = 0
  number_of (Value.flag b) = 0
  number_of (Value.number n) = n
  number_of (Value.real x) = 0

  unfoldable pub confitem_parse_bool : Bytes → Value D → Value D × Option Bytes
  unfolding quoted
  confitem_parse_bool str old =
      if bytes_eq str (codes "true")
      then (Value.flag true, none)
      else if bytes_eq str (codes "false")
      then (Value.flag false, none)
      else (old, some (quoted (codes "not a boolean value: ") str))

  unfoldable pub confitem_parse_env_string :
      (Bytes → Option Bytes) → Bytes → Value D → Value D × Option Bytes
  confitem_parse_env_string getenv str old = elim (subst_env_in_string getenv str) [
    | Substituted.substituted result ↦ (Value.text (some result), none)
    | Substituted.failed errmsg ↦ (Value.text none, some errmsg)
  ]

  unfoldable pub confitem_parse_int : Bytes → Value D → Value D × Option Bytes
  unfolding quoted whole_long to_unsigned
  confitem_parse_int str old = elim (whole_long str) [
    | some (negative, m) ↦ (Value.number (to_unsigned negative m), none)
    | none ↦ (old, some (quoted (codes "invalid integer: ") str))
  ]

  -- x ≥ 0 for a long x
  unfoldable pub confitem_parse_unsigned : Bytes → Value D → Value D × Option Bytes
  unfolding quoted whole_long to_unsigned
  confitem_parse_unsigned str old =
      let failure : Value D × Option Bytes =
        (old, some (quoted (codes "invalid unsigned integer: ") str)) in
      elim (whole_long str) [
        | some (negative, m) ↦
            if negative && ltb 0 m then failure else (Value.number (to_unsigned negative m), none)
        | none ↦ failure
      ]

  unfoldable pub confitem_parse_sloppiness : Bytes → Value D → Value D × Option Bytes
  unfolding number_of or_words tokens
  confitem_parse_sloppiness str old = (Value.number (or_words (number_of old) (tokens str)), none)

  unfoldable pub confitem_parse_string : Bytes → Value D → Value D × Option Bytes
  confitem_parse_string str old = (Value.text (some str), none)

  -- The field is assigned before the tests.
  unfoldable pub confitem_parse_umask : Bytes → Value D → Value D × Option Bytes
  unfolding quoted scan_octal octal_value
  confitem_parse_umask [] old = (Value.number (2 ^ 32 - 1), none)
  confitem_parse_umask (c ∷ cs) old =
      let message = some (quoted (codes "not an octal integer: ") (c ∷ cs)) in
      elim (scan_octal (c ∷ cs)) [
        | none ↦ (Value.number 0, message)
        | some p ↦
            let (value, good) = octal_value p in
            (Value.number value, if good then none else message)
      ]

  -- The formatters; `none` where the field is NULL, which x_strdup does not take, or of another
  -- type.
  unfoldable pub confitem_format_bool : Value D → Option Bytes
  confitem_format_bool (Value.flag b) = some (if b then codes "true" else codes "false")
  confitem_format_bool _ = none

  unfoldable pub format_string : Value D → Option Bytes
  format_string (Value.text str) = str
  format_string _ = none

  -- %d of an int, whose bits are the number
  unfoldable pub confitem_format_int : Value D → Option Bytes
  confitem_format_int (Value.number n) =
      some (if ltb n (2 ^ 31) then decimal n else b'-' ∷ decimal (2 ^ 32 - n))
  confitem_format_int _ = none

  unfoldable pub confitem_format_unsigned : Value D → Option Bytes
  confitem_format_unsigned (Value.number n) = some (decimal n)
  confitem_format_unsigned _ = none

  unfoldable pub confitem_format_umask : Value D → Option Bytes
  unfolding octal3
  confitem_format_umask (Value.number n) = some (if n == 2 ^ 32 - 1 then [] else octal3 n)
  confitem_format_umask _ = none

  unfoldable pub confitem_format_double : Doubles D → Value D → Option Bytes
  confitem_format_double doubles (Value.real x) = some (doubles.one_decimal x)
  confitem_format_double doubles _ = none

  unfoldable pub confitem_format_size : Doubles D → Value D → Option Bytes
  unfolding format_parsable_size_with_suffix
  confitem_format_size doubles (Value.number n) = some (format_parsable_size_with_suffix doubles n)
  confitem_format_size doubles _ = none

-- A bit of the sloppiness adds its word.
unfoldable pub add_sloppy : ℕ → ℕ → Bytes → Bytes → Bytes
add_sloppy v bit word s = if bit_and v bit == 0 then s else s ++ word ++ codes ", "

-- The words of the bits, each with the separator behind it.
unfoldable pub sloppy_words : ℕ → Bytes
unfolding add_sloppy
sloppy_words v =
    let s1 = add_sloppy v sloppy_include_file_mtime (codes "include_file_mtime") [] in
    let s2 = add_sloppy v sloppy_include_file_ctime (codes "include_file_ctime") s1 in
    let s3 = add_sloppy v sloppy_time_macros (codes "time_macros") s2 in
    let s4 = add_sloppy v sloppy_pch_defines (codes "pch_defines") s3 in
    let s5 = add_sloppy v sloppy_file_stat_matches (codes "file_stat_matches") s4 in
    let s6 = add_sloppy v sloppy_file_stat_matches_ctime (codes "file_stat_matches_ctime") s5 in
    let s7 = add_sloppy v sloppy_system_headers (codes "system_headers") s6 in
    let s8 = add_sloppy v sloppy_clang_index_store (codes "clang_index_store") s7 in
    add_sloppy v sloppy_locale (codes "locale") s8

module _ {D : Type 0} where
  -- A value with none of the bits but others writes in front of s; `none` stands for that.
  unfoldable pub confitem_format_sloppiness : Value D → Option Bytes
  unfolding sloppy_words
  confitem_format_sloppiness (Value.number v) =
      let s = sloppy_words v in
      if v == 0 then some s else if length s == 0 then none else some (take (length s - 2) s)
  confitem_format_sloppiness _ = none

  -- The verifiers yield the error message, if they return false. A path is not NULL here.
  unfoldable pub confitem_verify_absolute_path : Value D → Option Bytes
  unfolding quoted
  confitem_verify_absolute_path (Value.text (some [])) = none
  confitem_verify_absolute_path (Value.text (some (c ∷ cs))) =
      if c == b'/' then none else some (quoted (codes "not an absolute path: ") (c ∷ cs))
  confitem_verify_absolute_path _ = none

  unfoldable pub confitem_verify_dir_levels : Value D → Option Bytes
  confitem_verify_dir_levels (Value.number levels) =
      if leb 1 levels && leb levels 8
      then none
      else some (codes "cache directory levels must be between 1 and 8")
  confitem_verify_dir_levels _ = none
