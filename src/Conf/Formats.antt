-- ===== src/Conf/Formats.antt =====
-- src/confitems.c: what a formatter prints, the parser of the same item reads back.
use memccache.Base.{
  ℕ, ◌-◌, ◌%◌, ◌^◌, ◌<◌, ◌≡◌, refl, [], ◌∷◌, All, Bytes, codes, bytes_eq, Option, none, some, true,
  false, ◌==◌, arith, ltb, ltb→ge, if◌then◌else◌, Bool-cases, inl, inr,
}
use memccache.Base.Decimal.{decimal}
use memccache.Base.Number.{scan_decimal-decimal, scan_decimal_minus, octal3, scan_octal-octal3}
use memccache.Util.Environ.{subst_env_in_string-Expands, All-Expands}
use memccache.Conf.Parsers.{
  Value, Doubles, whole_long, to_unsigned, octal_value, confitem_parse_bool, confitem_parse_int,
  confitem_parse_unsigned, confitem_parse_umask, confitem_parse_env_string, confitem_parse_string,
  confitem_format_bool, confitem_format_int, confitem_format_unsigned, confitem_format_umask,
  format_string,
}
use memccache.Conf.Table.{Kind, parse_value, format_value}
use memccache.Conf.Sloppiness.{parse_sloppiness-format}

-- The values that are printed exactly: an integer of 32 bits, known bits of the sloppiness, a
-- text without variables.
abbrev pub IsPrintable : {D : Type 0} → Kind → Value D → Type 0
IsPrintable Kind.bool (Value.flag b) = Unit
IsPrintable Kind.string (Value.text (some str)) = Unit
IsPrintable Kind.env_string (Value.text (some str)) = All (λ c. c == b'$' ≡ false) str
IsPrintable Kind.int (Value.number n) = n < 2 ^ 32
IsPrintable Kind.unsigned (Value.number n) = n < 2 ^ 32
IsPrintable Kind.umask (Value.number n) = n < 2 ^ 32
IsPrintable Kind.sloppiness (Value.number n) = n < 512
IsPrintable _ _ = ⊥

whole_long-decimal : (n : ℕ) → n < 2 ^ 32 → whole_long (decimal n) ≡ some (false, n)
unfolding whole_long
whole_long-decimal n h =
    let bound : ltb (2 ^ 63 - 1) n ≡ false = ground arith in
    rw (whole_long, scan_decimal-decimal n, bound)

whole_long_minus : (n : ℕ) → n < 2 ^ 32 → whole_long (b'-' ∷ decimal n) ≡ some (true, n)
unfolding whole_long
whole_long_minus n h =
    let bound : ltb (2 ^ 63) n ≡ false = ground arith in
    rw (whole_long, scan_decimal_minus n, bound)

module _ {D : Type 0} where
  parse_unsigned-decimal :
      (n : ℕ) (old : Value D)
      → n < 2 ^ 32
      → confitem_parse_unsigned (decimal n) old ≡ (Value.number n, none)
  unfolding confitem_parse_unsigned to_unsigned
  parse_unsigned-decimal n old h =
      let wrap : n % 2 ^ 32 ≡ n = omega arith in
      rw (confitem_parse_unsigned, whole_long-decimal n h, to_unsigned, wrap)

  parse_int-format :
      (n : ℕ) (old : Value D)
      → n < 2 ^ 32
      → confitem_parse_int (if ltb n (2 ^ 31) then decimal n else b'-' ∷ decimal (2 ^ 32 - n)) old
        ≡ (Value.number n, none)
  unfolding confitem_parse_int to_unsigned
  parse_int-format n old h = elim (Bool-cases (ltb n (2 ^ 31))) [
    | inl e ↦
        let wrap : n % 2 ^ 32 ≡ n = omega arith in
        rw (e, confitem_parse_int, whole_long-decimal n h, to_unsigned, wrap)
    | inr e ↦
        let large = ltb→ge n (2 ^ 31) e in
        let wrap : (2 ^ 32 - (2 ^ 32 - n) % 2 ^ 32) % 2 ^ 32 ≡ n = omega arith in
        rw (e, confitem_parse_int, whole_long_minus (2 ^ 32 - n) (omega arith), to_unsigned, wrap)
  ]

  parse_umask-format :
      (n : ℕ) (old : Value D)
      → n < 2 ^ 32
      → confitem_parse_umask (if n == 2 ^ 32 - 1 then [] else octal3 n) old ≡ (Value.number n, none)
  unfolding confitem_parse_umask octal_value to_unsigned
  parse_umask-format n old h = elim (Bool-cases (n == 2 ^ 32 - 1)) [
    | inl e ↦ let same : n ≡ 2 ^ 32 - 1 = ground arith in rw (e, confitem_parse_umask, same)
    | inr e ↦
        let (d, ds, q, read) = scan_octal-octal3 n in
        let bound : ltb (2 ^ 64 - 1) n ≡ false = ground arith in
        let wrap : n % 2 ^ 32 ≡ n = omega arith in
        rw (e, q, confitem_parse_umask, rw q at read, octal_value, bound, to_unsigned, wrap)
  ]

  -- For a flag, a text, a text without a dollar sign for an item in which variables are
  -- replaced, an integer of 32 bits for an int, unsigned or umask item, or known bits of the
  -- sloppiness, the formatter of the item prints a text, which its parser reads back as the
  -- value without an error.
  pub parse_value-format_value :
      (doubles : Doubles D) (getenv : Bytes → Option Bytes) (kind : Kind) (v : Value D)
      → IsPrintable kind v
      → (str : Bytes) × (format_value doubles kind v ≡ some str)
        × (parse_value doubles getenv kind str (Value.number 0) ≡ (v, none))
  unfolding parse_value format_value confitem_format_bool confitem_format_int
      confitem_format_unsigned confitem_format_umask format_string confitem_parse_string
      confitem_parse_bool confitem_parse_env_string bytes_eq
  parse_value-format_value doubles getenv Kind.bool (Value.flag true) p = (codes "true", refl, refl)
  parse_value-format_value doubles getenv Kind.bool (Value.flag false) p =
      (codes "false", refl, refl)
  parse_value-format_value doubles getenv Kind.string (Value.text (some str)) p = (str, refl, refl)
  parse_value-format_value doubles getenv Kind.env_string (Value.text (some str)) p =
      let same = subst_env_in_string-Expands getenv str str (All-Expands getenv str p) in
      (str, refl, rw (parse_value, confitem_parse_env_string, same))
  parse_value-format_value doubles getenv Kind.int (Value.number n) p = (
    (if ltb n (2 ^ 31) then decimal n else b'-' ∷ decimal (2 ^ 32 - n)),
    refl,
    parse_int-format n (Value.number 0) p,
  )
  parse_value-format_value doubles getenv Kind.unsigned (Value.number n) p =
      (decimal n, refl, parse_unsigned-decimal n (Value.number 0) p)
  parse_value-format_value doubles getenv Kind.umask (Value.number n) p =
      ((if n == 2 ^ 32 - 1 then [] else octal3 n), refl, parse_umask-format n (Value.number 0) p)
  parse_value-format_value doubles getenv Kind.sloppiness (Value.number n) p =
      parse_sloppiness-format n p
  parse_value-format_value doubles getenv Kind.bool (Value.text t) p = absurd p
  parse_value-format_value doubles getenv Kind.bool (Value.number n) p = absurd p
  parse_value-format_value doubles getenv Kind.bool (Value.real x) p = absurd p
  parse_value-format_value doubles getenv Kind.env_string (Value.text none) p = absurd p
  parse_value-format_value doubles getenv Kind.env_string (Value.flag b) p = absurd p
  parse_value-format_value doubles getenv Kind.env_string (Value.number n) p = absurd p
  parse_value-format_value doubles getenv Kind.env_string (Value.real x) p = absurd p
  parse_value-format_value doubles getenv Kind.int (Value.text t) p = absurd p
  parse_value-format_value doubles getenv Kind.int (Value.flag b) p = absurd p
  parse_value-format_value doubles getenv Kind.int (Value.real x) p = absurd p
  parse_value-format_value doubles getenv Kind.sloppiness (Value.text t) p = absurd p
  parse_value-format_value doubles getenv Kind.sloppiness (Value.flag b) p = absurd p
  parse_value-format_value doubles getenv Kind.sloppiness (Value.real x) p = absurd p
  parse_value-format_value doubles getenv Kind.string (Value.text none) p = absurd p
  parse_value-format_value doubles getenv Kind.string (Value.flag b) p = absurd p
  parse_value-format_value doubles getenv Kind.string (Value.number n) p = absurd p
  parse_value-format_value doubles getenv Kind.string (Value.real x) p = absurd p
  parse_value-format_value doubles getenv Kind.umask (Value.text t) p = absurd p
  parse_value-format_value doubles getenv Kind.umask (Value.flag b) p = absurd p
  parse_value-format_value doubles getenv Kind.umask (Value.real x) p = absurd p
  parse_value-format_value doubles getenv Kind.unsigned (Value.text t) p = absurd p
  parse_value-format_value doubles getenv Kind.unsigned (Value.flag b) p = absurd p
  parse_value-format_value doubles getenv Kind.unsigned (Value.real x) p = absurd p
  parse_value-format_value doubles getenv Kind.double v p = absurd p
  parse_value-format_value doubles getenv Kind.size v p = absurd p
