-- ===== src/Mdfour.antt =====
-- src/mdfour.c and struct mdfour of src/mdfour.h: the MD4 digest, fed in pieces.
-- The registers are numbers below 2 ^ 32. `tail` holds the bytes of the source's tail buffer that
-- count, so tail_len is its length. The copies follow the little-endian branch, whose effect the
-- WORDS_BIGENDIAN branch repeats.
pub mod Update
pub mod Result
mod Examples
use Prim.Native.Nat.{bit_and, bit_or, bit_xor}
use memccache.Base.{
  ℕ, zero, suc, ◌+◌, ◌-◌, ◌*◌, ◌/◌, ◌%◌, ◌^◌, min, List, [], ◌∷◌, ◌++◌, Bool, true, false, ltb, leb,
  ◌==◌, if◌then◌else◌, get_or, set, take, drop, length, replicate, Bytes,
}

abbrev pub u32_mod : ℕ
u32_mod = 0x1_0000_0000

abbrev pub mask32 : ℕ
mask32 = 0xffff_ffff

pub record Mdfour : Type 0 where
  pub a : ℕ
  pub b : ℕ
  pub c : ℕ
  pub d : ℕ
  pub total_n : ℕ
  pub tail : Bytes

-- The macros F, G and H; ~X is taken at 32 bits.
mix_f : ℕ → ℕ → ℕ → ℕ
mix_f x y z = bit_or (bit_and x y) (bit_and (mask32 - x) z)

mix_g : ℕ → ℕ → ℕ → ℕ
mix_g x y z = bit_or (bit_or (bit_and x y) (bit_and x z)) (bit_and y z)

mix_h : ℕ → ℕ → ℕ → ℕ
mix_h x y z = bit_xor (bit_xor x y) z

-- lshift: a rotation of a 32-bit word
pub lshift : ℕ → ℕ → ℕ
lshift x s = bit_or (x * 2 ^ s % u32_mod) (x / 2 ^ (32 - s))

-- One use of ROUND1, ROUND2 or ROUND3, by the mixing function and the constant.
round : (ℕ → ℕ → ℕ → ℕ) → ℕ → List ℕ → ℕ → ℕ → ℕ → ℕ → ℕ → ℕ → ℕ
unfolding lshift
round mix k0 m a b c d k s = lshift ((a + mix b c d + get_or m k 0 + k0) % u32_mod) s

abbrev Regs : Type 0
Regs = ℕ × ℕ × ℕ × ℕ

-- Two lines of the listing: rounds on A, D, C and B in turn.
quad : (ℕ → ℕ → ℕ → ℕ) → ℕ → List ℕ → (ℕ × ℕ × ℕ × ℕ) → (ℕ × ℕ × ℕ × ℕ) → Regs → Regs
unfolding round
quad mix k0 m (k₁, k₂, k₃, k₄) (s₁, s₂, s₃, s₄) (a, b, c, d) =
    let a' = round mix k0 m a b c d k₁ s₁ in
    let d' = round mix k0 m d a' b c k₂ s₂ in
    let c' = round mix k0 m c d' a' b k₃ s₃ in
    let b' = round mix k0 m b c' d' a' k₄ s₄ in (a', b', c', d')

rounds1 : List ℕ → Regs → Regs
unfolding quad mix_f
rounds1 m r =
    let r₁ = quad mix_f 0 m (0, 1, 2, 3) (3, 7, 11, 19) r in
    let r₂ = quad mix_f 0 m (4, 5, 6, 7) (3, 7, 11, 19) r₁ in
    let r₃ = quad mix_f 0 m (8, 9, 10, 11) (3, 7, 11, 19) r₂ in
    quad mix_f 0 m (12, 13, 14, 15) (3, 7, 11, 19) r₃

rounds2 : List ℕ → Regs → Regs
unfolding quad mix_g
rounds2 m r =
    let r₁ = quad mix_g 0x5A82_7999 m (0, 4, 8, 12) (3, 5, 9, 13) r in
    let r₂ = quad mix_g 0x5A82_7999 m (1, 5, 9, 13) (3, 5, 9, 13) r₁ in
    let r₃ = quad mix_g 0x5A82_7999 m (2, 6, 10, 14) (3, 5, 9, 13) r₂ in
    quad mix_g 0x5A82_7999 m (3, 7, 11, 15) (3, 5, 9, 13) r₃

rounds3 : List ℕ → Regs → Regs
unfolding quad mix_h
rounds3 m r =
    let r₁ = quad mix_h 0x6ED9_EBA1 m (0, 8, 4, 12) (3, 9, 11, 15) r in
    let r₂ = quad mix_h 0x6ED9_EBA1 m (2, 10, 6, 14) (3, 9, 11, 15) r₁ in
    let r₃ = quad mix_h 0x6ED9_EBA1 m (1, 9, 5, 13) (3, 9, 11, 15) r₂ in
    quad mix_h 0x6ED9_EBA1 m (3, 11, 7, 15) (3, 9, 11, 15) r₃

pub mdfour64 : Mdfour → List ℕ → Mdfour
unfolding rounds1 rounds2 rounds3
mdfour64 md m =
    let (a, b, c, d) = rounds3 m (rounds2 m (rounds1 m (md.a, md.b, md.c, md.d))) in
    record md {
      a = (a + md.a) % u32_mod;
      b = (b + md.b) % u32_mod;
      c = (c + md.c) % u32_mod;
      d = (d + md.d) % u32_mod;
    }

-- copy64: `n` little-endian words from the bytes
words : ℕ → Bytes → List ℕ
words zero bs = []
words (suc n) bs =
    (get_or bs 0 0 + get_or bs 1 0 * 2 ^ 8 + get_or bs 2 0 * 2 ^ 16 + get_or bs 3 0 * 2 ^ 24)
    ∷ words n (drop 4 bs)

pub copy64 : Bytes → List ℕ
unfolding words
copy64 bs = words 16 bs

-- copy4: the four bytes that are written at `out`
unfoldable pub copy4 : ℕ → Bytes
copy4 x = (x % 256) ∷ (x / 2 ^ 8 % 256) ∷ (x / 2 ^ 16 % 256) ∷ (x / 2 ^ 24 % 256) ∷ []

unfoldable pub mdfour_begin : Mdfour
mdfour_begin = record {
  a = 0x6745_2301;
  b = 0xefcd_ab89;
  c = 0x98ba_dcfe;
  d = 0x1032_5476;
  total_n = 0;
  tail = [];
}

-- buf[128], zeroed, with the input, 0x80 behind it, and the bit count at `at`
padded : Bytes → ℕ → ℕ → Bytes
unfolding copy4
padded bs b at = bs ++ (0x80 ∷ (replicate (at - suc (length bs)) 0 ++ copy4 b)) ++ replicate 4 0

unfoldable pub mdfour_tail : Mdfour → Bytes → Mdfour
unfolding mdfour64 copy64 padded
mdfour_tail md bs =
    let total = (md.total_n + length bs) % 2 ^ 64 in
    let b = total * 8 % u32_mod in
    let md' = record md { total_n = total } in
    if leb (length bs) 55
    then mdfour64 md' (copy64 (padded bs b 56))
    else let buf = padded bs b 120 in
      mdfour64 (mdfour64 md' (copy64 (take 64 buf))) (copy64 (drop 64 buf))

-- One 64-byte block: mdfour64 and totalN += 64.
pub absorb : Mdfour → Bytes → Mdfour
unfolding mdfour64 copy64
absorb md block =
    let md' = mdfour64 md (copy64 block) in record md' { total_n = (md'.total_n + 64) % 2 ^ 64 }

-- `while (n >= 64)` and the copy of what is left; the fuel is at least the length.
unfoldable pub update_loop : ℕ → Mdfour → Bytes → Mdfour
update_loop zero md bs = if length bs == 0 then md else record md { tail = bs }
update_loop (suc f) md bs =
    let rest = update_loop f (absorb md (take 64 bs)) (drop 64 bs) in
    if leb 64 (length bs) then rest else if length bs == 0 then md else record md { tail = bs }

unfoldable pub mdfour_update : Mdfour → Bytes → Mdfour
mdfour_update md bs =
    let room = 64 - length md.tail in
    let n = if ltb (length bs) room then length bs else room in
    let tail = md.tail ++ take n bs in
    let rest = drop n bs in
    if length md.tail == 0
    then update_loop (length bs) md bs
    else if length tail == 64
    then update_loop (length rest) (record (absorb md tail) { tail = [] }) rest
    else update_loop (length rest) (record md { tail = tail }) rest

unfoldable pub mdfour_result : Mdfour → Bytes
mdfour_result md =
    let result = mdfour_tail md md.tail in
    copy4 result.a ++ (copy4 result.b ++ (copy4 result.c ++ copy4 result.d))
