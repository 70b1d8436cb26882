-- ===== src/Conf/Sound.antt =====
-- src/conf.c: the fields of struct conf keep to the types and checks of their items.
use memccache.Base.{
  ℕ, ◌≡◌, refl, [], ◌∷◌, length, get_elem?, Bytes, codes, bytes_eq, Option, none, some, Bool, true,
  false, not, ◌&&◌, ◌==◌, ltb, arith, Bool-cases, Option-cases, inl, inr,
}
use memccache.Base.Number.{scan_octal}
use memccache.Util.Environ.{subst_env_in_string, Substituted}
use memccache.Conf.Parsers.{
  Value, Doubles, confitem_parse_bool, confitem_parse_env_string, confitem_parse_double,
  confitem_parse_int, confitem_parse_size, confitem_parse_sloppiness, confitem_parse_string,
  confitem_parse_umask, confitem_parse_unsigned, whole_long, parse_size_with_suffix,
}
use memccache.Conf.Table.{Kind, Row, confitems, parse_value, verify_value}
use memccache.Conf.Setting.{Conf, field}
use memccache.Conf.Change.{HasFields}

-- A value of the type of the field: a char pointer is not NULL.
unfoldable pub fits : {D : Type 0} → Kind → Value D → Bool
fits Kind.bool (Value.flag b) = true
fits Kind.env_string (Value.text (some str)) = true
fits Kind.double (Value.real x) = true
fits Kind.int (Value.number n) = true
fits Kind.size (Value.number n) = true
fits Kind.sloppiness (Value.number n) = true
fits Kind.string (Value.text (some str)) = true
fits Kind.umask (Value.number n) = true
fits Kind.unsigned (Value.number n) = true
fits _ _ = false

unfoldable pub is_none : Option Bytes → Bool
is_none none = true
is_none (some m) = false

-- It is of the type, and the verifier accepts it.
unfoldable pub is_sound : {D : Type 0} → Row → Value D → Bool
unfolding fits is_none verify_value
is_sound row value = fits row.kind value && is_none (verify_value row.verifier value)

abbrev pub IsSound : {D : Type 0} → Conf D → Type 0
IsSound c =
    HasFields c
    × ((i : ℕ) (row : Row) → get_elem? confitems i ≡ some row → is_sound row (field c i) ≡ true)

abbrev Fits : (D : Type 0) → Kind → Value D × Option Bytes → Type 0
Fits D kind r = r.1 ≡ none → fits kind r.0 ≡ true

module _ {D : Type 0} where
  parse_bool-Fits : (str : Bytes) (old : Value D) → Fits D Kind.bool (confitem_parse_bool str old)
  unfolding confitem_parse_bool fits
  parse_bool-Fits str old h = elim (Bool-cases (bytes_eq str (codes "true"))) [
    | inl e ↦ rw (confitem_parse_bool, e)
    | inr e ↦ elim (Bool-cases (bytes_eq str (codes "false"))) [
      | inl e2 ↦ rw (confitem_parse_bool, e, e2)
      | inr e2 ↦ let bad = rw (confitem_parse_bool, e, e2) at h in absurd (ground arith)
    ]
  ]

  parse_env_string-Fits :
      (getenv : Bytes → Option Bytes) (str : Bytes) (old : Value D)
      → Fits D Kind.env_string (confitem_parse_env_string getenv str old)
  unfolding confitem_parse_env_string fits
  parse_env_string-Fits getenv str old = cases (subst_env_in_string getenv str)
    where
      cases :
          (s : Substituted)
          → Fits D Kind.env_string (elim s [
            | Substituted.substituted result ↦ (Value.text (some result), none)
            | Substituted.failed errmsg ↦ (Value.text none, some errmsg)
          ])
      cases (Substituted.substituted result) h = refl
      cases (Substituted.failed errmsg) h = absurd (ground arith)

  parse_int-Fits : (str : Bytes) (old : Value D) → Fits D Kind.int (confitem_parse_int str old)
  unfolding confitem_parse_int fits
  parse_int-Fits str old h = elim (Option-cases (whole_long str)) [
    | inl e ↦ let bad = rw (confitem_parse_int, e) at h in absurd (ground arith)
    | inr (p, e) ↦ rw (confitem_parse_int, e)
  ]

  parse_unsigned-Fits :
      (str : Bytes) (old : Value D) → Fits D Kind.unsigned (confitem_parse_unsigned str old)
  unfolding confitem_parse_unsigned fits
  parse_unsigned-Fits str old h = elim (Option-cases (whole_long str)) [
    | inl e ↦ let bad = rw (confitem_parse_unsigned, e) at h in absurd (ground arith)
    | inr ((negative, m), e) ↦ elim (Bool-cases (negative && ltb 0 m)) [
      | inl e2 ↦ let bad = rw (confitem_parse_unsigned, e, e2) at h in absurd (ground arith)
      | inr e2 ↦ rw (confitem_parse_unsigned, e, e2)
    ]
  ]

  parse_umask-Fits :
      (str : Bytes) (old : Value D) → Fits D Kind.umask (confitem_parse_umask str old)
  unfolding confitem_parse_umask fits
  parse_umask-Fits [] old h = refl
  parse_umask-Fits (c ∷ cs) old h = elim (Option-cases (scan_octal (c ∷ cs))) [
    | inl e ↦ rw (confitem_parse_umask, e)
    | inr (p, e) ↦ rw (confitem_parse_umask, e)
  ]

  parse_double-Fits :
      (doubles : Doubles D) (str : Bytes) (old : Value D)
      → Fits D Kind.double (confitem_parse_double doubles str old)
  unfolding confitem_parse_double fits
  parse_double-Fits doubles str old h =
      let x = doubles.strtod str in
      elim (Bool-cases (not x.errno && (not (length str == 0) && x.used == length str))) [
        | inl e ↦ rw (confitem_parse_double, e)
        | inr e ↦ let bad = rw (confitem_parse_double, e) at h in absurd (ground arith)
      ]

  parse_size-Fits :
      (doubles : Doubles D) (str : Bytes) (old : Value D)
      → Fits D Kind.size (confitem_parse_size doubles str old)
  unfolding confitem_parse_size fits
  parse_size-Fits doubles str old h = elim (Option-cases (parse_size_with_suffix doubles str)) [
    | inl e ↦ let bad = rw (confitem_parse_size, e) at h in absurd (ground arith)
    | inr (p, e) ↦ rw (confitem_parse_size, e)
  ]

  -- A parser that succeeds leaves a value of its type.
  pub parse_value-Fits :
      (doubles : Doubles D) (getenv : Bytes → Option Bytes) (kind : Kind) (str : Bytes)
      (old : Value D)
      → (parse_value doubles getenv kind str old).1 ≡ none
      → fits kind (parse_value doubles getenv kind str old).0 ≡ true
  unfolding parse_value confitem_parse_string confitem_parse_sloppiness fits
  parse_value-Fits doubles getenv Kind.bool str old = parse_bool-Fits str old
  parse_value-Fits doubles getenv Kind.env_string str old = parse_env_string-Fits getenv str old
  parse_value-Fits doubles getenv Kind.double str old = parse_double-Fits doubles str old
  parse_value-Fits doubles getenv Kind.int str old = parse_int-Fits str old
  parse_value-Fits doubles getenv Kind.size str old = parse_size-Fits doubles str old
  parse_value-Fits doubles getenv Kind.sloppiness str old = λ h. refl
  parse_value-Fits doubles getenv Kind.string str old = λ h. refl
  parse_value-Fits doubles getenv Kind.umask str old = parse_umask-Fits str old
  parse_value-Fits doubles getenv Kind.unsigned str old = parse_unsigned-Fits str old
