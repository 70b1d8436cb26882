-- ===== src/Conf/Examples.antt =====
-- src/conf.c and src/confitems.c at concrete files and values, with natural numbers as doubles.
use memccache.Base.{
  ℕ, ◌-◌, ◌*◌, ◌/◌, ◌%◌, ◌^◌, ◌≡◌, refl, List, [], ◌∷◌, ◌++◌, length, map, Bytes, codes, bytes_eq,
  Option, none, some, false, arith,
}
use memccache.Base.Decimal.{decimal, digits_at}
use memccache.Base.Number.{scan_decimal, scan, scan_sign, scan_digits}
use memccache.Conf.Parsers.{
  Value, Doubles, Strtod, skip_ws, confitem_parse_unsigned, confitem_parse_bool, whole_long,
  to_unsigned,
}
use memccache.Conf.Table.{
  Kind, Verifier, ConfItem, find_conf, confitems, confitems_from, item, item_v, parse_value,
  format_value, verify_value,
}
use memccache.Conf.Setting.{
  Conf, conf_create, field, handle_conf_setting, handle_found, handle_item, verified, accepted,
  assign, set_origin, conf_update_from_environment,
}
use memccache.Conf.Line.{
  parse_line, fgets_all, setting_line, fgets_from, c_string, prepend, parse_stripped, parse_setting,
  key_span, parse_value_part, trim_end,
}
use memccache.Conf.File.{
  Reading, Opened, conf_read, set_in_text, set_lines, is_setting_of, value_error, read_lines,
}
use memccache.Conf.Replace.{begins_with_space, unlines, set_value}
use memccache.Conf.Change.{Agree}
use memccache.Conf.Written.{parse_line-set_in_text}
use memccache.Conf.Created.{conf_create-IsSound}
use memccache.Conf.Typed.{WellRead, conf_read-WellRead}
use memccache.Conf.Environ.{WellUpdated, conf_update_from_environment-WellUpdated}
use memccache.Conf.Formats.{parse_value-format_value}
use memccache.Conf.Edited.{conf_read-set_in_text, value_of}

abbrev whole_strtod : Bytes → Strtod ℕ
whole_strtod str =
    let (v, rest) = digits_at 0 str in
    record { value = v; used = length str - length rest; errno = false }

abbrev whole : Doubles ℕ
whole = record {
  strtod = whole_strtod;
  is_negative = λ x. false;
  times = λ x n. x * n;
  quotient = λ x n. x / n;
  to_uint64 = λ x. x % 2 ^ 64;
  one_decimal = λ x. decimal x ++ codes ".0";
}

abbrev empty_env : Bytes → Option Bytes
empty_env name = none

abbrev result_of : Reading ℕ → Conf ℕ
result_of (Reading.reading c e) = c
result_of (Reading.fatal m) = record { values = []; item_origins = [] }

abbrev lines : List Bytes
lines = codes "# limits" ∷ codes "max_files = 1" ∷ codes " compression=true" ∷ []

abbrev max_files : ConfItem
max_files = record {
  row = record { name = codes "max_files"; kind = Kind.unsigned; verifier = Verifier.unverified };
  number = 21;
}

abbrev default : Conf ℕ
default = conf_create whole (codes "/home/u")

test_find : find_conf (codes "max_files") ≡ some max_files
unfolding find_conf confitems_from confitems item bytes_eq
test_find = refl

test_set :
    set_in_text (codes "max_files") (codes "7") (unlines lines)
    ≡ unlines (codes "# limits" ∷ codes "max_files = 7" ∷ codes " compression=true" ∷ [])
unfolding set_in_text set_lines unlines fgets_all fgets_from c_string prepend parse_line skip_ws
    parse_stripped parse_setting key_span parse_value_part trim_end is_setting_of bytes_eq
    setting_line
test_set = refl

parse_line-set_in_text_example :
    map parse_line (fgets_all (set_in_text (codes "max_files") (codes "7") (unlines lines)))
    ≡ set_value (codes "max_files") (codes "7") (map parse_line (fgets_all (unlines lines)))
unfolding trim_end begins_with_space
parse_line-set_in_text_example =
    parse_line-set_in_text (codes "max_files") (codes "7") (ground arith) (ground arith)
      (omega arith) lines (ground arith)

abbrev read_once : Reading ℕ
read_once = conf_read whole empty_env (codes "c") default (Opened.opened (unlines lines) none)

test_fields : length default.values ≡ length confitems
unfolding conf_create confitems
test_fields = refl

test_value : value_error whole empty_env max_files (codes "7") ≡ none
unfolding value_error parse_value confitem_parse_unsigned whole_long scan_decimal digits_at scan
    scan_sign scan_digits to_unsigned verify_value
test_value = refl

test_read : read_once ≡ Reading.reading (result_of read_once) none
unfolding conf_read read_lines fgets_all fgets_from c_string prepend parse_line skip_ws
    parse_stripped parse_setting key_span parse_value_part trim_end unlines bytes_eq
    handle_conf_setting handle_found handle_item find_conf confitems_from confitems item item_v
    parse_value confitem_parse_unsigned confitem_parse_bool whole_long scan_decimal digits_at scan
    scan_sign scan_digits to_unsigned verified accepted assign set_origin field conf_create
    verify_value
test_read = refl

conf_read-set_in_text_example :
    (d1 : Conf ℕ) × (conf_read whole empty_env
        (codes "c")
        default
        (Opened.opened (set_in_text (codes "max_files") (codes "7") (unlines lines)) none)
      ≡ Reading.reading d1 none)
    × (field d1 21 ≡ value_of whole empty_env (codes "c") max_files (codes "7"))
    × Agree 21 (result_of read_once) d1
unfolding trim_end begins_with_space
conf_read-set_in_text_example =
    conf_read-set_in_text whole empty_env (codes "c") (codes "max_files") (codes "7") max_files
      lines default (result_of read_once) test_find (λ p. ground arith) test_value (ground arith)
      (omega arith) (ground arith) test_fields test_read

conf_read-WellRead_example :
    WellRead whole empty_env
      (conf_read whole empty_env (codes "c") default (Opened.opened (unlines lines) none))
conf_read-WellRead_example =
    conf_read-WellRead whole empty_env (codes "c") default (Opened.opened (unlines lines) none)
      (conf_create-IsSound whole (codes "/home/u"))

conf_update_from_environment-WellUpdated_example : WellUpdated (
    conf_update_from_environment whole empty_env default
      (codes "HOME=/home/u" ∷ codes "CCACHE_MAXFILES=9" ∷ codes "CCACHE_NODIRECT=1" ∷ []))
conf_update_from_environment-WellUpdated_example =
    conf_update_from_environment-WellUpdated whole empty_env default
      (codes "HOME=/home/u" ∷ codes "CCACHE_MAXFILES=9" ∷ codes "CCACHE_NODIRECT=1" ∷ [])
      (conf_create-IsSound whole (codes "/home/u"))

parse_value-format_value_example :
    (str : Bytes) × (format_value whole Kind.sloppiness (Value.number 37) ≡ some str)
    × (parse_value whole empty_env Kind.sloppiness str (Value.number 0) ≡ (Value.number 37, none))
parse_value-format_value_example =
    parse_value-format_value whole empty_env Kind.sloppiness (Value.number 37) (omega arith)
