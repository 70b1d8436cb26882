-- ===== src/Base/Endian.antt =====
-- Big-endian integers in bytes: htonl and ntohl, and the shifts by which the program writes and
-- reads integers of other sizes.
use Prim.Native.Nat.{ℕ, ◌+◌, ◌*◌, ◌/◌, ◌%◌, ◌^◌, ◌≤◌, ◌<◌}
use mathlib.Core.Path.{◌≡◌, refl}
use mathlib.Core.List.{[], ◌∷◌, ◌++◌}
use native.Mathlib.Omega.{arith}
use memccache.Base.Lists.{All, length, drop}
use memccache.Base.Text.{Bytes}

-- The four bytes of htonl(v) in memory; v is taken as a uint32_t.
unfoldable pub htonl : ℕ → Bytes
htonl v = (v / 2 ^ 24 % 256) ∷ (v / 2 ^ 16 % 256) ∷ (v / 2 ^ 8 % 256) ∷ (v % 256) ∷ []

-- ntohl of the four bytes at the front; a missing byte reads as 0, and callers check the length.
unfoldable pub ntohl : Bytes → ℕ
ntohl (a ∷ (b ∷ (c ∷ (d ∷ r)))) = a * 2 ^ 24 + b * 2 ^ 16 + c * 2 ^ 8 + d
ntohl _ = 0

pub ntohl-htonl : (v : ℕ) (r : Bytes) → v < 2 ^ 32 → ntohl (htonl v ++ r) ≡ v
unfolding ntohl htonl
ntohl-htonl v r h = omega arith

pub length-htonl : (v : ℕ) → length (htonl v) ≡ 4
unfolding htonl
length-htonl v = refl

abbrev pub IsByte : ℕ → Type 0
IsByte c = c < 256

pub htonl-All : (v : ℕ) → All IsByte (htonl v)
unfolding htonl
htonl-All v = omega arith

-- Four bytes at the front are htonl of what ntohl reads.
pub htonl-ntohl : (bs : Bytes) → All IsByte bs → 4 ≤ length bs → htonl (ntohl bs) ++ drop 4 bs ≡ bs
unfolding ntohl htonl
htonl-ntohl [] p h = absurd (omega arith)
htonl-ntohl (a ∷ []) p h = absurd (omega arith)
htonl-ntohl (a ∷ (b ∷ [])) p h = absurd (omega arith)
htonl-ntohl (a ∷ (b ∷ (c ∷ []))) p h = absurd (omega arith)
htonl-ntohl (a ∷ (b ∷ (c ∷ (d ∷ r)))) p h =
    let n = a * 2 ^ 24 + b * 2 ^ 16 + c * 2 ^ 8 + d in
    let ea : n / 2 ^ 24 % 256 ≡ a = omega arith in
    let eb : n / 2 ^ 16 % 256 ≡ b = omega arith in
    let ec : n / 2 ^ 8 % 256 ≡ c = omega arith in
    let ed : n % 256 ≡ d = omega arith in λ i. ea i ∷ (eb i ∷ (ec i ∷ (ed i ∷ r)))
