-- ===== src/Base/Number.antt =====
-- The conversions of the C library without a bound: strtol in base 10 and strtoul in base 8 up to
-- the tests of their range, which their callers make, and %o.
use Prim.Native.Nat.{ℕ, zero, suc, ◌+◌, ◌-◌, ◌*◌, ◌/◌, ◌%◌, ◌≤◌, ◌<◌}
use mathlib.Core.Path.{◌≡◌, refl, ap, ◌∙◌}
use mathlib.Core.Bool.{Bool, true, false, ◌&&◌}
use mathlib.Core.List.{[], ◌∷◌}
use mathlib.Core.Logic.{inl, inr}
use mathlib.Core.Option.{Option, none, some}
use native.Mathlib.Omega.{arith}
use memccache.Base.Logic.{ltb, leb, ◌==◌, if◌then◌else◌, Bool-cases, ltb→lt, ltb→ge}
use memccache.Base.Text.{Bytes}
use memccache.Base.Decimal.{
  decimal, decimal_loop_head, digits_at, digits_at-decimal_loop, is_digit, is_space, Parsed,
}

abbrev pub is_octal_digit : ℕ → Bool
is_octal_digit c = leb 48 c && leb c 55

-- The octal digits at the front: their value on top of `acc`, and the rest.
unfoldable pub octal_digits_at : ℕ → Bytes → ℕ × Bytes
octal_digits_at acc [] = (acc, [])
octal_digits_at acc (c ∷ bs) = elim (is_octal_digit c) [
  | true ↦ octal_digits_at (acc * 8 + (c - 48)) bs
  | false ↦ (acc, c ∷ bs)
]

-- The digits of `n` in base 8 in front of `acc`; more than `n` rounds are never needed.
unfoldable pub octal_loop : ℕ → ℕ → Bytes → Bytes
octal_loop zero n acc = (48 + n % 8) ∷ acc
octal_loop (suc f) n acc =
    let more = octal_loop f (n / 8) ((48 + n % 8) ∷ acc) in
    if ltb n 8 then (48 + n % 8) ∷ acc else more

module _ (is_base_digit : ℕ → Bool) (at : ℕ → Bytes → ℕ × Bytes) where
  -- The number behind the spaces and the sign.
  unfoldable pub scan_digits : Bool → Bytes → Option Parsed
  scan_digits negative [] = none
  scan_digits negative (c ∷ bs) =
      let (v, rest) = at 0 (c ∷ bs) in
      if is_base_digit c
      then some (record { negative = negative; magnitude = v; rest = rest })
      else none

  unfoldable pub scan_sign : Bytes → Option Parsed
  unfolding scan_digits
  scan_sign [] = none
  scan_sign (c ∷ bs) =
      if c == 45
      then scan_digits true bs
      else if c == 43
      then scan_digits false bs
      else scan_digits false (c ∷ bs)

  -- `none` where no number stands, so that the end pointer is the start.
  unfoldable pub scan : Bytes → Option Parsed
  unfolding scan_sign
  scan [] = none
  scan (c ∷ bs) = let rest = scan bs in if is_space c then rest else scan_sign (c ∷ bs)

unfoldable pub scan_decimal : Bytes → Option Parsed
unfolding scan
scan_decimal str = scan is_digit digits_at str

unfoldable pub scan_octal : Bytes → Option Parsed
unfolding scan
scan_octal str = scan is_octal_digit octal_digits_at str

module _ (is_base_digit : ℕ → Bool) (at : ℕ → Bytes → ℕ × Bytes) where
  scan-unsigned :
      (n d : ℕ) (ds : Bytes)
      → at 0 (d ∷ ds) ≡ (n, [])
      → is_base_digit d ≡ true
      → 48 ≤ d
      → d ≤ 57
      → scan is_base_digit at (d ∷ ds)
        ≡ some (record { negative = false; magnitude = n; rest = [] })
  unfolding scan scan_sign scan_digits
  scan-unsigned n d ds value digit lo hi =
      let space : is_space d ≡ false = ground arith in
      let minus : d == 45 ≡ false = ground arith in
      let plus : d == 43 ≡ false = ground arith in
      rw (scan, space, scan_sign, minus, plus, scan_digits, digit, value)

  scan-negative :
      (n d : ℕ) (ds : Bytes)
      → at 0 (d ∷ ds) ≡ (n, [])
      → is_base_digit d ≡ true
      → scan is_base_digit at (45 ∷ (d ∷ ds))
        ≡ some (record { negative = true; magnitude = n; rest = [] })
  unfolding scan scan_sign scan_digits
  scan-negative n d ds value digit = rw (scan_digits, digit, value)

-- The digits of %u are read back as they stand.
decimal_text :
    (n : ℕ)
    → (d : ℕ) × (ds : Bytes) × (decimal n ≡ d ∷ ds)
      × (digits_at 0 (d ∷ ds) ≡ (n, []))
      × (48 ≤ d)
      × (d ≤ 57)
unfolding decimal digits_at
decimal_text n =
    let (d, ds, q, lo, hi) = decimal_loop_head n n [] in
    let value = digits_at-decimal_loop n n [] (omega arith) in (d, ds, q, rw q at value, lo, hi)

pub scan_decimal-decimal :
    (n : ℕ)
    → scan_decimal (decimal n) ≡ some (record { negative = false; magnitude = n; rest = [] })
unfolding scan_decimal
scan_decimal-decimal n =
    let (d, ds, q, value, lo, hi) = decimal_text n in
    rw q (scan-unsigned is_digit digits_at n d ds value (ground arith) lo hi)

pub scan_decimal_minus :
    (n : ℕ)
    → scan_decimal (45 ∷ decimal n) ≡ some (record { negative = true; magnitude = n; rest = [] })
unfolding scan_decimal
scan_decimal_minus n =
    let (d, ds, q, value, lo, hi) = decimal_text n in
    rw q (scan-negative is_digit digits_at n d ds value (ground arith))

pub decimal_nonempty : (n : ℕ) → (d : ℕ) × (ds : Bytes) × (decimal n ≡ d ∷ ds) × (48 ≤ d) × (d ≤ 57)
decimal_nonempty n = let (d, ds, q, value, lo, hi) = decimal_text n in (d, ds, q, lo, hi)

octal_digits_at_step :
    (acc d : ℕ) (bs : Bytes)
    → d < 8
    → octal_digits_at acc ((48 + d) ∷ bs) ≡ octal_digits_at (acc * 8 + d) bs
unfolding octal_digits_at
octal_digits_at_step acc d bs h =
    let digit : is_octal_digit (48 + d) ≡ true = ground arith in
    let value : acc * 8 + (48 + d - 48) ≡ acc * 8 + d = omega arith in
    rw (digit, octal_digits_at, value)

octal_digits_at-octal_loop :
    (f n : ℕ) (tail : Bytes)
    → n ≤ f
    → octal_digits_at 0 (octal_loop f n tail) ≡ octal_digits_at n tail
unfolding octal_loop
octal_digits_at-octal_loop zero n tail h =
    octal_digits_at_step 0 (n % 8) tail (omega arith)
    ∙ ap (λ v. octal_digits_at v tail) (omega arith)
octal_digits_at-octal_loop (suc f) n tail h = elim (Bool-cases (ltb n 8)) [
  | inl e ↦
      let small = ltb→lt n 8 e in
      rw e (
        octal_digits_at_step 0 (n % 8) tail (omega arith)
        ∙ ap (λ v. octal_digits_at v tail) (omega arith))
  | inr e ↦
      let large = ltb→ge n 8 e in
      rw e (
        octal_digits_at-octal_loop f (n / 8) ((48 + n % 8) ∷ tail) (omega arith)
        ∙ octal_digits_at_step (n / 8) (n % 8) tail (omega arith)
        ∙ ap (λ v. octal_digits_at v tail) (omega arith))
]

octal_loop_head :
    (f n : ℕ) (tail : Bytes)
    → (c : ℕ) × (bs : Bytes) × (octal_loop f n tail ≡ c ∷ bs) × (48 ≤ c) × (c ≤ 55)
unfolding octal_loop
octal_loop_head zero n tail = (48 + n % 8, tail, refl, omega arith, omega arith)
octal_loop_head (suc f) n tail = elim (Bool-cases (ltb n 8)) [
  | inl e ↦ (48 + n % 8, tail, rw e, omega arith, omega arith)
  | inr e ↦
      let (c, bs, q, lo, hi) = octal_loop_head f (n / 8) ((48 + n % 8) ∷ tail) in
      (c, bs, rw e q, lo, hi)
]

-- A zero in front changes nothing.
pub octal_digits_at_zero : (bs : Bytes) → octal_digits_at 0 (48 ∷ bs) ≡ octal_digits_at 0 bs
unfolding octal_digits_at
octal_digits_at_zero bs = refl

-- %03o of a number.
unfoldable pub octal3 : ℕ → Bytes
unfolding octal_loop
octal3 n =
    let digits = octal_loop n n [] in
    if ltb n 8 then b'0' ∷ b'0' ∷ digits else if ltb n 64 then b'0' ∷ digits else digits

-- %03o of a number is not empty and is read back.
pub scan_octal-octal3 :
    (n : ℕ)
    → (d : ℕ) × (ds : Bytes) × (octal3 n ≡ d ∷ ds)
      × (scan_octal (octal3 n) ≡ some (record { negative = false; magnitude = n; rest = [] }))
unfolding octal3 scan_octal octal_digits_at
scan_octal-octal3 n =
    let (d, ds, q, lo, hi) = octal_loop_head n n [] in
    let value : octal_digits_at 0 (octal_loop n n []) ≡ (n, []) =
      octal_digits_at-octal_loop n n [] (omega arith) in
    let at = octal_digits_at in
    let digit : is_octal_digit d ≡ true = ground arith in
    elim (Bool-cases (ltb n 8)) [
      | inl e ↦ (
        48,
        48 ∷ octal_loop n n [],
        rw e,
        rw e (
            scan-unsigned is_octal_digit at n 48 (48 ∷ octal_loop n n []) value refl (omega arith)
              (omega arith)),
      )
      | inr e ↦ elim (Bool-cases (ltb n 64)) [
        | inl e2 ↦ (
          48,
          octal_loop n n [],
          rw (e, e2),
          rw (e, e2)
              (scan-unsigned is_octal_digit at n 48 (octal_loop n n []) value refl (omega arith)
                (omega arith)),
        )
        | inr e2 ↦ (
          d,
          ds,
          rw (e, e2) q,
          rw (e, e2, q)
              (scan-unsigned is_octal_digit at n d ds (rw q at value) digit lo (omega arith)),
        )
      ]
    ]
