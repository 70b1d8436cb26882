-- ===== src/Conf/Line.antt =====
-- src/conf.c: parse_line, and the lines that fgets delivers of a file.
use memccache.Base.{ℕ, ◌-◌, List, [], ◌∷◌, ◌++◌, Bytes, codes, Bool, ◌||◌, ◌==◌, if◌then◌else◌, map}
use memccache.Base.Decimal.{is_space}
use memccache.Util.Environ.{is_alpha}
use memccache.Conf.Parsers.{skip_ws}

-- The string in a buffer ends at the first NUL.
unfoldable pub c_string : Bytes → Bytes
c_string [] = []
c_string (c ∷ cs) = let rest = c_string cs in if c == 0 then [] else c ∷ rest

unfoldable pub prepend : ℕ → List Bytes → List Bytes
prepend c [] = (c ∷ []) ∷ []
prepend c (l ∷ ls) = (c ∷ l) ∷ ls

-- The buffers of fgets with room for so many more characters in the first and `full` in each.
unfoldable pub fgets_from : ℕ → ℕ → Bytes → List Bytes
unfolding prepend
fgets_from full room [] = []
fgets_from full room (c ∷ cs) =
    let ends = c == 10 || room == 1 in
    let rest = fgets_from full (if ends then full else room - 1) cs in
    if ends then (c ∷ []) ∷ rest else prepend c rest

-- while (fgets(buf, sizeof(buf), f)) with a buffer of 10000.
unfoldable pub fgets_all : Bytes → List Bytes
unfolding fgets_from c_string
fgets_all content = map c_string (fgets_from 9999 9999 content)

abbrev pub is_key_char : ℕ → Bool
is_key_char c = is_alpha c || c == b'_'

-- The key at the front and the rest.
unfoldable pub key_span : Bytes → Bytes × Bytes
key_span [] = ([], [])
key_span (c ∷ cs) =
    let (key, rest) = key_span cs in if is_key_char c then (c ∷ key, rest) else ([], c ∷ cs)

-- The text up to the last character that is not a space.
unfoldable pub trim_end : Bytes → Bytes
trim_end [] = []
trim_end (c ∷ cs) =
    let rest = trim_end cs in
    if is_space c then elim rest [ [] ↦ [] | d ∷ ds ↦ c ∷ (d ∷ ds) ] else c ∷ rest

-- What parse_line makes of a line: nothing, a key and a value, or false.
pub data Parsed : Type 0 where
  blank : Parsed
  setting : Bytes → Bytes → Parsed
  missing_equal_sign : Parsed

-- Behind the key. Before an empty value the loop over trailing spaces runs back to the equal
-- sign, and x_strndup of the empty string is empty for every length.
unfoldable pub parse_value_part : Bytes → Bytes → Parsed
unfolding skip_ws trim_end
parse_value_part key [] = Parsed.missing_equal_sign
parse_value_part key (c ∷ p) =
    if c == b'=' then Parsed.setting key (trim_end (skip_ws p)) else Parsed.missing_equal_sign

unfoldable pub parse_setting : Bytes → Parsed
unfolding key_span skip_ws parse_value_part
parse_setting p = let (key, q) = key_span p in parse_value_part key (skip_ws q)

unfoldable pub parse_stripped : Bytes → Parsed
unfolding parse_setting
parse_stripped [] = Parsed.blank
parse_stripped (c ∷ p) = if c == b'#' then Parsed.blank else parse_setting (c ∷ p)

unfoldable pub parse_line : Bytes → Parsed
unfolding skip_ws parse_stripped
parse_line line = parse_stripped (skip_ws line)

-- fprintf(outfile, "%s = %s\n", key, value)
unfoldable pub setting_line : Bytes → Bytes → Bytes
setting_line key value = key ++ (codes " = " ++ (value ++ 10 ∷ []))
