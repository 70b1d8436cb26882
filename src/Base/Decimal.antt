-- ===== src/Base/Decimal.antt =====
-- The conversions of the C library that the program prints and reads numbers by: %u, %d, %02x and
-- strtol in base 10.
use Prim.Native.Nat.{ℕ, zero, suc, ◌+◌, ◌-◌, ◌*◌, ◌/◌, ◌%◌, ◌^◌, ◌≤◌, ◌<◌, min}
use mathlib.Core.Path.{◌≡◌, refl, ap, ◌∙◌}
use mathlib.Core.Bool.{Bool, true, false, ◌&&◌, ◌||◌}
use mathlib.Core.List.{[], ◌∷◌, ◌++◌}
use mathlib.Core.Logic.{inl, inr}
use mathlib.Core.Option.{Option, none, some}
use native.Mathlib.Omega.{arith}
use memccache.Base.Logic.{ltb, leb, ◌==◌, if◌then◌else◌, Bool-cases, ltb→lt, ltb→ge}
use memccache.Base.Text.{Bytes}

-- The digits of `n` in front of `acc`; more than `n` rounds are never needed.
unfoldable pub decimal_loop : ℕ → ℕ → Bytes → Bytes
decimal_loop zero n acc = (48 + n % 10) ∷ acc
decimal_loop (suc f) n acc =
    let more = decimal_loop f (n / 10) ((48 + n % 10) ∷ acc) in
    if ltb n 10 then (48 + n % 10) ∷ acc else more

-- %u of a number.
unfoldable pub decimal : ℕ → Bytes
unfolding decimal_loop
decimal n = decimal_loop n n []

-- A digit of %x.
unfoldable pub hex_digit : ℕ → ℕ
hex_digit d = if ltb d 10 then 48 + d else 87 + d

-- %02x of a byte.
unfoldable pub hex2 : ℕ → Bytes
unfolding hex_digit
hex2 b = hex_digit (b / 16) ∷ hex_digit (b % 16) ∷ []

abbrev pub is_digit : ℕ → Bool
is_digit c = leb 48 c && leb c 57

abbrev pub is_space : ℕ → Bool
is_space c = c == 32 || (leb 9 c && leb c 13)

-- The digits at the front: their value on top of `acc`, and the rest.
unfoldable pub digits_at : ℕ → Bytes → ℕ × Bytes
digits_at acc [] = (acc, [])
digits_at acc (c ∷ bs) = elim (is_digit c) [
  | true ↦ digits_at (acc * 10 + (c - 48)) bs
  | false ↦ (acc, c ∷ bs)
]

-- What strtol returns: a sign, a magnitude and the end pointer.
pub record Parsed : Type 0 where
  pub negative : Bool
  pub magnitude : ℕ
  pub rest : Bytes

-- The number behind the spaces and the sign; LONG_MAX and LONG_MIN bound it.
strtol_digits : Bool → Bytes → Option Parsed
unfolding digits_at
strtol_digits negative [] = none
strtol_digits negative (c ∷ bs) =
    let (v, rest) = digits_at 0 (c ∷ bs) in
    let bound = if negative then 2 ^ 63 else 2 ^ 63 - 1 in
    if is_digit c
    then some (record { negative = negative; magnitude = min v bound; rest = rest })
    else none

strtol_sign : Bytes → Option Parsed
unfolding strtol_digits
strtol_sign [] = none
strtol_sign (c ∷ bs) =
    if c == 45
    then strtol_digits true bs
    else if c == 43
    then strtol_digits false bs
    else strtol_digits false (c ∷ bs)

-- `none` where no number stands, so that the end pointer is the start.
unfoldable pub strtol : Bytes → Option Parsed
unfolding strtol_sign
strtol [] = none
strtol (c ∷ bs) = elim (is_space c) [ true ↦ strtol bs | false ↦ strtol_sign (c ∷ bs) ]

digits_at_step :
    (acc d : ℕ) (bs : Bytes) → d < 10 → digits_at acc ((48 + d) ∷ bs) ≡ digits_at (acc * 10 + d) bs
unfolding digits_at
digits_at_step acc d bs h =
    let digit : is_digit (48 + d) ≡ true = ground arith in
    let value : acc * 10 + (48 + d - 48) ≡ acc * 10 + d = omega arith in
    rw (digit, digits_at, value)

-- Reading a printed number goes on behind it with its value.
pub digits_at-decimal_loop :
    (f n : ℕ) (tail : Bytes) → n ≤ f → digits_at 0 (decimal_loop f n tail) ≡ digits_at n tail
unfolding decimal_loop
digits_at-decimal_loop zero n tail h =
    digits_at_step 0 (n % 10) tail (omega arith) ∙ ap (λ v. digits_at v tail) (omega arith)
digits_at-decimal_loop (suc f) n tail h = elim (Bool-cases (ltb n 10)) [
  | inl e ↦
      let small = ltb→lt n 10 e in
      rw e (digits_at_step 0 (n % 10) tail (omega arith) ∙ ap (λ v. digits_at v tail) (omega arith))
  | inr e ↦
      let large = ltb→ge n 10 e in
      rw e (
        digits_at-decimal_loop f (n / 10) ((48 + n % 10) ∷ tail) (omega arith)
        ∙ digits_at_step (n / 10) (n % 10) tail (omega arith)
        ∙ ap (λ v. digits_at v tail) (omega arith))
]

-- The first character of a printed number is a digit.
pub decimal_loop_head :
    (f n : ℕ) (tail : Bytes)
    → (c : ℕ) × (bs : Bytes) × (decimal_loop f n tail ≡ c ∷ bs) × (48 ≤ c) × (c ≤ 57)
unfolding decimal_loop
decimal_loop_head zero n tail = (48 + n % 10, tail, refl, omega arith, omega arith)
decimal_loop_head (suc f) n tail = elim (Bool-cases (ltb n 10)) [
  | inl e ↦ (48 + n % 10, tail, rw e, omega arith, omega arith)
  | inr e ↦
      let (c, bs, q, lo, hi) = decimal_loop_head f (n / 10) ((48 + n % 10) ∷ tail) in
      (c, bs, rw e q, lo, hi)
]

-- A digit run ends at a character that is none.
digits_at_end :
    (acc : ℕ) (c : ℕ) (bs : Bytes) → is_digit c ≡ false → digits_at acc (c ∷ bs) ≡ (acc, c ∷ bs)
unfolding digits_at
digits_at_end acc c bs h = rw (h, digits_at)

decimal_loop-append :
    (f n : ℕ) (tail more : Bytes) → decimal_loop f n tail ++ more ≡ decimal_loop f n (tail ++ more)
unfolding decimal_loop
decimal_loop-append zero n tail more = refl
decimal_loop-append (suc f) n tail more = elim (Bool-cases (ltb n 10)) [
  | inl e ↦ rw e
  | inr e ↦ rw e (decimal_loop-append f (n / 10) ((48 + n % 10) ∷ tail) more)
]

-- strtol reads back what %u printed, up to the character behind it.
pub strtol-decimal :
    (n : ℕ) (c : ℕ) (bs : Bytes)
    → n < 2 ^ 63
    → is_digit c ≡ false
    → strtol (decimal n ++ c ∷ bs)
      ≡ some (record { negative = false; magnitude = n; rest = c ∷ bs })
unfolding decimal strtol
strtol-decimal n c bs h e =
    let (d, ds, q, lo, hi) = decimal_loop_head n n (c ∷ bs) in
    let value = digits_at-decimal_loop n n (c ∷ bs) (omega arith) ∙ digits_at_end n c bs e in
    let space : is_space d ≡ false = ground arith in
    let digit : is_digit d ≡ true = ground arith in
    let minus : d == 45 ≡ false = ground arith in
    let plus : d == 43 ≡ false = ground arith in
    let bounded : min n (2 ^ 63 - 1) ≡ n = omega arith in
    rw (
      decimal_loop-append n n [] (c ∷ bs),
      q,
      strtol,
      space,
      strtol,
      minus,
      plus,
      digit,
      rw q at value,
      bounded,
    )
