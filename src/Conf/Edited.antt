-- ===== src/Conf/Edited.antt =====
-- src/conf.c: conf_set_value_in_file changes one option for the next conf_read.
use memccache.Base.{
  ℕ, zero, suc, ◌+◌, ◌<◌, ◌≡◌, ◌≢◌, refl, sym, ap, ◌∙◌, List, [], ◌∷◌, length, All, map, get_elem?,
  Bytes, codes, bytes_eq, Option, none, some, Bool, true, not, ◌&&◌, ◌==◌, ltb, arith, Bool-cases,
  Option-cases, inl, inr,
}
use memccache.Conf.Parsers.{
  Value, Doubles, confitem_parse_bool, confitem_parse_env_string, confitem_parse_double,
  confitem_parse_int, confitem_parse_size, confitem_parse_string, confitem_parse_umask,
  confitem_parse_unsigned, whole_long, parse_size_with_suffix,
}
use memccache.Conf.Table.{Kind, Row, ConfItem, confitems, find_conf, parse_value, verify_value}
use memccache.Conf.Setting.{Conf, field}
use memccache.Conf.Line.{Parsed, fgets_all, parse_line, is_key_char}
use memccache.Conf.File.{Reading, Opened, read_lines, conf_read, set_in_text, value_error}
use memccache.Conf.Replace.{replace_value, has_key, set_value, IsLine, IsPlain, IsKey, unlines}
use memccache.Conf.Written.{parse_line-set_in_text}
use memccache.Conf.Kept.{find_conf_sound}
use memccache.Conf.Change.{Agree, HasFields, next}
use memccache.Conf.Simulate.{IsChange}
use memccache.Conf.Changed.{simulate, read_lines-append, setting_last-Related, read_last}

-- A parser that succeeds gives the same value for all fields.
abbrev Same : (D : Type 0) → (Value D → Value D × Option Bytes) → Type 0
Same D parse =
    (old : Value D) → (parse (Value.text none)).1 ≡ none → parse old ≡ parse (Value.text none)

module _ {D : Type 0} where
  parse_bool-Same : (str : Bytes) → Same D (confitem_parse_bool str)
  unfolding confitem_parse_bool
  parse_bool-Same str old h = elim (Bool-cases (bytes_eq str (codes "true"))) [
    | inl e ↦ rw (confitem_parse_bool, e)
    | inr e ↦ elim (Bool-cases (bytes_eq str (codes "false"))) [
      | inl e2 ↦ rw (confitem_parse_bool, e, e2)
      | inr e2 ↦ let bad = rw (e, e2) at h in absurd (ground arith)
    ]
  ]

  parse_env_string-Same :
      (getenv : Bytes → Option Bytes) (str : Bytes) → Same D (confitem_parse_env_string getenv str)
  unfolding confitem_parse_env_string
  parse_env_string-Same getenv str old h = refl

  parse_int-Same : (str : Bytes) → Same D (confitem_parse_int str)
  unfolding confitem_parse_int
  parse_int-Same str old h = elim (Option-cases (whole_long str)) [
    | inl e ↦ let bad = rw (confitem_parse_int, e) at h in absurd (ground arith)
    | inr (p, e) ↦ rw (confitem_parse_int, e)
  ]

  parse_unsigned-Same : (str : Bytes) → Same D (confitem_parse_unsigned str)
  unfolding confitem_parse_unsigned
  parse_unsigned-Same str old h = elim (Option-cases (whole_long str)) [
    | inl e ↦ let bad = rw (confitem_parse_unsigned, e) at h in absurd (ground arith)
    | inr ((negative, m), e) ↦ elim (Bool-cases (negative && ltb 0 m)) [
      | inl e2 ↦ let bad = rw (confitem_parse_unsigned, e, e2) at h in absurd (ground arith)
      | inr e2 ↦ rw (confitem_parse_unsigned, e, e2)
    ]
  ]

  parse_umask-Same : (str : Bytes) → Same D (confitem_parse_umask str)
  unfolding confitem_parse_umask
  parse_umask-Same [] old h = refl
  parse_umask-Same (c ∷ cs) old h = refl

  parse_double-Same :
      (doubles : Doubles D) (str : Bytes) → Same D (confitem_parse_double doubles str)
  unfolding confitem_parse_double
  parse_double-Same doubles str old h =
      let x = doubles.strtod str in
      elim (Bool-cases (not x.errno && (not (length str == 0) && x.used == length str))) [
        | inl e ↦ rw (confitem_parse_double, e)
        | inr e ↦ let bad = rw (confitem_parse_double, e) at h in absurd (ground arith)
      ]

  parse_size-Same : (doubles : Doubles D) (str : Bytes) → Same D (confitem_parse_size doubles str)
  unfolding confitem_parse_size
  parse_size-Same doubles str old h = elim (Option-cases (parse_size_with_suffix doubles str)) [
    | inl e ↦ let bad = rw (confitem_parse_size, e) at h in absurd (ground arith)
    | inr (p, e) ↦ rw (confitem_parse_size, e)
  ]

  parse_value-Same :
      (doubles : Doubles D) (getenv : Bytes → Option Bytes) (kind : Kind) (str : Bytes)
      → kind ≢ Kind.sloppiness
      → Same D (parse_value doubles getenv kind str)
  unfolding parse_value confitem_parse_string
  parse_value-Same doubles getenv Kind.bool str n = parse_bool-Same str
  parse_value-Same doubles getenv Kind.env_string str n = parse_env_string-Same getenv str
  parse_value-Same doubles getenv Kind.double str n = parse_double-Same doubles str
  parse_value-Same doubles getenv Kind.int str n = parse_int-Same str
  parse_value-Same doubles getenv Kind.size str n = parse_size-Same doubles str
  parse_value-Same doubles getenv Kind.sloppiness str n = absurd (n refl)
  parse_value-Same doubles getenv Kind.string str n = λ old h. refl
  parse_value-Same doubles getenv Kind.umask str n = parse_umask-Same str
  parse_value-Same doubles getenv Kind.unsigned str n = parse_unsigned-Same str

-- The names in the table are keys.
is_key : Bytes → Bool
is_key [] = true
is_key (c ∷ cs) = is_key_char c && is_key cs

is_key-All : (key : Bytes) → is_key key ≡ true → All (λ d. is_key_char d ≡ true) key
unfolding is_key
is_key-All [] h = tt
is_key-All (c ∷ cs) h = (ground arith, is_key-All cs (ground arith))

named : Row → Bool
unfolding is_key
named r = not (length r.name == 0) && is_key r.name

all_named : List Row → Bool
unfolding named
all_named [] = true
all_named (r ∷ rs) = named r && all_named rs

all_named-get_elem? :
    (rs : List Row) (i : ℕ) (r : Row)
    → all_named rs ≡ true
    → get_elem? rs i ≡ some r
    → named r ≡ true
unfolding all_named
all_named-get_elem? [] i r h e = absurd (ground arith)
all_named-get_elem? (x ∷ xs) zero r h e =
    let same : x ≡ r = ground arith in
    let here : named x ≡ true = ground arith in ap named (sym same) ∙ here
all_named-get_elem? (x ∷ xs) (suc i) r h e = all_named-get_elem? xs i r (ground arith) e

confitems_named : all_named confitems ≡ true
unfolding all_named named is_key confitems
confitems_named = refl

IsKey-name : (name : Bytes) → not (length name == 0) && is_key name ≡ true → IsKey name
IsKey-name [] h = absurd (ground arith)
IsKey-name (c ∷ cs) h = is_key-All (c ∷ cs) (ground arith)

find_conf-IsKey : (key : Bytes) (it : ConfItem) → find_conf key ≡ some it → IsKey key
unfolding named
find_conf-IsKey key it h =
    let (name, row) = find_conf_sound key it h in
    IsKey-name key (
      ap (λ n. not (length n == 0) && is_key n) (sym name)
      ∙ all_named-get_elem? confitems it.number it.row confitems_named row)

module _ {D : Type 0} (doubles : Doubles D) (getenv : Bytes → Option Bytes) (path : Bytes) where
  value_error-none :
      (it : ConfItem) (value : Bytes)
      → value_error doubles getenv it value ≡ none
      → ((parse_value doubles getenv it.row.kind value (Value.text none)).1 ≡ none)
        × (verify_value it.row.verifier
              (parse_value doubles getenv it.row.kind value (Value.text none)).0
            ≡ none)
  unfolding value_error
  value_error-none it value h =
      let r = parse_value doubles getenv it.row.kind value (Value.text none) in
      elim (Option-cases r.1) [
        | inl e ↦ (e, rw (value_error, e) at h)
        | inr (m, e) ↦ let bad = rw (value_error, e) at h in absurd (ground arith)
      ]

  -- The value that a setting gives to its item.
  abbrev pub value_of : ConfItem → Bytes → Value D
  value_of it value = (parse_value doubles getenv it.row.kind value (Value.text none)).0

  value_error-IsChange :
      (key value : Bytes) (it : ConfItem)
      → find_conf key ≡ some it
      → it.row.kind ≢ Kind.sloppiness
      → value_error doubles getenv it value ≡ none
      → IsChange doubles getenv path key value it (value_of it value)
  value_error-IsChange key value it f n h =
      let (p, q) = value_error-none it value h in
      (
        f,
        λ old.
            parse_value-Same doubles getenv it.row.kind value n old p
            ∙ ap (λ e. (value_of it value, e)) p,
        q,
      )

  -- The reading of the changed lines.
  read_lines-set_value :
      (key value : Bytes) (it : ConfItem) (v : Value D) (old : List Parsed) (c c1 : Conf D)
      → IsChange doubles getenv path key value it v
      → HasFields c
      → read_lines doubles getenv path c 0 none old ≡ Reading.reading c1 none
      → (d1 : Conf D) × (read_lines doubles getenv path c 0 none (set_value key value old)
          ≡ Reading.reading d1 none)
        × (field d1 it.number ≡ v)
        × Agree it.number c1 d1
  unfolding set_value
  read_lines-set_value key value it v old c c1 change fields h =
      let (d1, r, related, has) =
        simulate doubles getenv path key value it v change c c c1 0 old
          (fields, fields, λ j other. refl) h in
      elim (Bool-cases (has_key key old)) [
        | inl e ↦ (d1, rw (set_value, e) r, has (inl e), related.2)
        | inr e ↦
            let last = Parsed.setting key value ∷ [] in
            let (k, q) =
              read_lines-append doubles getenv path key value it v change c d1 0
                (replace_value key value old) last r in
            let ((lc, ld, agree), now) =
              setting_last-Related doubles getenv path key value it v change c1 d1 related in
            let reads = q ∙ read_last doubles getenv path key value it v change d1 k in
            (next doubles getenv d1 it value path, rw (set_value, e) reads, now, agree)
      ]

  -- For a key that has an item other than the sloppiness, a value that is accepted for it and
  -- has no space at its ends, no newline and no NUL, where key and value together have less
  -- than 9996 bytes, and a file of whole lines that fit the buffer: if conf_read reads the
  -- file without an error into a configuration with all fields, then it also reads without an
  -- error the text that conf_set_value_in_file writes for the file, the item then has what
  -- the parser makes of the value, and every other field is as before the change.
  pub conf_read-set_in_text :
      (key value : Bytes) (it : ConfItem) (ls : List Bytes) (c c1 : Conf D)
      → find_conf key ≡ some it
      → it.row.kind ≢ Kind.sloppiness
      → value_error doubles getenv it value ≡ none
      → IsPlain value
      → length key + length value < 9996
      → All IsLine ls
      → HasFields c
      → conf_read doubles getenv path c (Opened.opened (unlines ls) none) ≡ Reading.reading c1 none
      → (d1 : Conf D) × (conf_read doubles getenv path c
            (Opened.opened (set_in_text key value (unlines ls)) none)
          ≡ Reading.reading d1 none)
        × (field d1 it.number ≡ value_of it value)
        × Agree it.number c1 d1
  unfolding conf_read
  conf_read-set_in_text key value it ls c c1 f n good plain short lines fields h =
      let (d1, r, now, agree) =
        read_lines-set_value key value it (value_of it value)
          (map parse_line (fgets_all (unlines ls))) c c1
          (value_error-IsChange key value it f n good) fields h in
      let written =
        parse_line-set_in_text key value (find_conf-IsKey key it f) plain short ls lines in
      (d1, ap (λ t. read_lines doubles getenv path c 0 none t) written ∙ r, now, agree)
