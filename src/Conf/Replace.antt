-- ===== src/Conf/Replace.antt =====
-- src/conf.c: what conf_set_value_in_file makes of the settings in the file.
use memccache.Base.{
  ℕ, ◌-◌, ◌<◌, ◌≡◌, refl, ap, ◌∙◌, List, [], ◌∷◌, ◌++◌, All, length, Bytes, codes, Bool, true,
  false, ◌||◌, ◌==◌, if◌then◌else◌, map, arith,
}
use memccache.Base.Decimal.{is_space}
use memccache.Conf.Parsers.{skip_ws}
use memccache.Conf.Line.{
  c_string, prepend, fgets_from, fgets_all, is_key_char, key_span, trim_end, Parsed,
  parse_value_part, parse_stripped, parse_setting, parse_line, setting_line,
}
use memccache.Conf.File.{is_setting_of}

-- A character inside a line: neither a newline nor a NUL.
abbrev pub IsLineChar : ℕ → Type 0
IsLineChar c = (c == 10 ≡ false) × (c == 0 ≡ false)

-- A line of the file without its newline, which fits the buffer.
abbrev pub IsLine : Bytes → Type 0
IsLine l = All IsLineChar l × (length l < 9999)

unfoldable pub unlines : List Bytes → Bytes
unlines [] = []
unlines (l ∷ ls) = l ++ 10 ∷ unlines ls

c_string-line : (l : Bytes) → All IsLineChar l → c_string (l ++ 10 ∷ []) ≡ l ++ 10 ∷ []
unfolding c_string
c_string-line [] p = refl
c_string-line (c ∷ cs) ((e, z), p) = rw (z, c_string-line cs p)

fgets_from_line :
    (full room : ℕ) (l rest : Bytes)
    → All IsLineChar l
    → length l < room
    → fgets_from full room (l ++ 10 ∷ rest) ≡ (l ++ 10 ∷ []) ∷ fgets_from full full rest
unfolding fgets_from prepend
fgets_from_line full room [] rest p h = refl
fgets_from_line full room (c ∷ cs) rest ((e, z), p) h =
    let more : room == 1 ≡ false = ground arith in
    rw (e, more, fgets_from_line full (room - 1) cs rest p (omega arith))

fgets_all-line :
    (l rest : Bytes) → IsLine l → fgets_all (l ++ 10 ∷ rest) ≡ (l ++ 10 ∷ []) ∷ fgets_all rest
unfolding fgets_all
fgets_all-line l rest (p, h) = rw (fgets_from_line 9999 9999 l rest p h, c_string-line l p)

pub fgets_all-unlines :
    (ls : List Bytes) → All IsLine ls → fgets_all (unlines ls) ≡ map (λ l. l ++ 10 ∷ []) ls
unfolding fgets_all unlines
fgets_all-unlines [] p = refl
fgets_all-unlines (l ∷ ls) (p, ps) =
    fgets_all-line l (unlines ls) p ∙ ap (λ r. (l ++ 10 ∷ []) ∷ r) (fgets_all-unlines ls ps)

abbrev pub IsKey : Bytes → Type 0
IsKey [] = ⊥
IsKey (c ∷ cs) = All (λ d. is_key_char d ≡ true) (c ∷ cs)

-- A value that parse_line leaves as it stands: no space at its ends, on one line.
unfoldable pub begins_with_space : Bytes → Bool
begins_with_space [] = false
begins_with_space (c ∷ cs) = is_space c

abbrev pub IsPlain : Bytes → Type 0
IsPlain v = All IsLineChar v × (begins_with_space v ≡ false) × (trim_end v ≡ v)

key_span-append :
    (key rest : Bytes)
    → All (λ d. is_key_char d ≡ true) key
    → key_span (key ++ 32 ∷ rest) ≡ (key, 32 ∷ rest)
unfolding key_span
key_span-append [] rest p = refl
key_span-append (c ∷ cs) rest (e, p) = rw (key_span-append cs rest p, e)

trim_end_newline : (v : Bytes) → trim_end (v ++ 10 ∷ []) ≡ trim_end v
unfolding trim_end
trim_end_newline [] = refl
trim_end_newline (c ∷ cs) = rw (trim_end_newline cs)

trim_end-skip_ws :
    (v : Bytes)
    → begins_with_space v ≡ false
    → trim_end v ≡ v
    → trim_end (skip_ws (32 ∷ (v ++ 10 ∷ []))) ≡ v
unfolding skip_ws begins_with_space trim_end
trim_end-skip_ws [] s t = refl
trim_end-skip_ws (c ∷ cs) s t = rw s (trim_end_newline (c ∷ cs) ∙ t)

-- The line that is written is read as the setting.
pub parse_line-setting_line :
    (key value : Bytes)
    → IsKey key
    → IsPlain value
    → parse_line (setting_line key value) ≡ Parsed.setting key value
unfolding parse_line setting_line skip_ws parse_stripped parse_setting parse_value_part
parse_line-setting_line [] value k p = absurd k
parse_line-setting_line (c ∷ cs) value (e, k) (l, s, t) =
    let rest = b'=' ∷ (32 ∷ (value ++ 10 ∷ [])) in
    let space : is_space c ≡ false = ground arith in
    let hash : c == b'#' ≡ false = ground arith in
    let span = key_span-append (c ∷ cs) rest (e, k) in
    let part : Bytes × Bytes → Parsed = λ p. parse_value_part p.0 (skip_ws p.1) in
    rw (space, parse_stripped, hash, parse_setting)
      (ap part span ∙ ap (Parsed.setting (c ∷ cs)) (trim_end-skip_ws value s t))

-- The parsed lines with the value replaced at the key.
unfoldable pub replace_value : Bytes → Bytes → List Parsed → List Parsed
unfolding is_setting_of
replace_value key value [] = []
replace_value key value (l ∷ ls) =
    let rest = replace_value key value ls in
    if is_setting_of key l then Parsed.setting key value ∷ rest else l ∷ rest

unfoldable pub has_key : Bytes → List Parsed → Bool
unfolding is_setting_of
has_key key [] = false
has_key key (l ∷ ls) = is_setting_of key l || has_key key ls

-- The same, with the setting at the end if the key is not there.
unfoldable pub set_value : Bytes → Bytes → List Parsed → List Parsed
unfolding replace_value has_key
set_value key value ls =
    let replaced = replace_value key value ls in
    if has_key key ls then replaced else replaced ++ Parsed.setting key value ∷ []

-- The lines that set_lines writes, without their newlines.
unfoldable pub written_lines : Bytes → Bytes → List Bytes → List Bytes
unfolding is_setting_of parse_line
written_lines key value [] = []
written_lines key value (l ∷ ls) =
    let rest = written_lines key value ls in
    if is_setting_of key (parse_line (l ++ 10 ∷ []))
    then (key ++ (codes " = " ++ value)) ∷ rest
    else l ∷ rest
