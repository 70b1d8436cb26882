-- ===== src/Util.antt =====
-- The parts of src/util.c that the other components' models call.
pub mod Files
pub mod Traverse
pub mod Relative
pub mod Paths
pub mod Environ
mod Examples
use memccache.Base.{
  if◌then◌else◌, ltb, ◌^◌, ℕ, zero, suc, ◌+◌, ◌≤◌, ◌≡◌, refl, [], ◌∷◌, ◌++◌, arith, length, Bytes,
  codes, reverse, Option, none, some, Bool, true, false, ◌==◌, get_or, get_or-append,
}
use memccache.Base.Decimal.{hex2, decimal}

hex_loop : ℕ → ℕ → Bytes → Bytes
hex_loop zero i hash = []
hex_loop (suc k) i hash = hex2 (get_or hash i 0) ++ hex_loop k (i + 1) hash

-- The size is the 32-bit pattern of an int; a negative one is left out.
unfoldable pub format_hash_as_string : Bytes → ℕ → Bytes
unfolding hex_loop
format_hash_as_string hash size =
    hex_loop 16 0 hash ++ (if ltb size (2 ^ 31) then b'-' ∷ decimal size else [])

hex_loop_prefix :
    (k i : ℕ) (hash more : Bytes)
    → i + k ≤ length hash
    → hex_loop k i (hash ++ more) ≡ hex_loop k i hash
unfolding hex_loop
hex_loop_prefix zero i hash more h = refl
hex_loop_prefix (suc k) i hash more h =
    let inside : get_or (hash ++ more) i 0 ≡ get_or hash i 0 =
      ground (arith, get_or-append hash more i 0) in
    rw (inside, hex_loop_prefix k (i + 1) hash more (omega arith))

-- Only the first 16 bytes are read.
pub format_hash_prefix :
    (hash more : Bytes) (size : ℕ)
    → 16 ≤ length hash
    → format_hash_as_string (hash ++ more) size ≡ format_hash_as_string hash size
unfolding format_hash_as_string
format_hash_prefix hash more size h = rw (hex_loop_prefix 16 0 hash more (omega arith))

-- What stands in front of the first slash of a reversed path, from its end on.
unfoldable pub before_slash : Bytes → Option Bytes
before_slash [] = none
before_slash (c ∷ cs) = elim (c == 47) [ true ↦ some cs | false ↦ before_slash cs ]

unfoldable pub after_slash : Bytes → Bytes → Bytes
after_slash [] passed = passed
after_slash (c ∷ cs) passed = elim (c == 47) [ true ↦ passed | false ↦ after_slash cs (c ∷ passed) ]

unfoldable pub basename : Bytes → Bytes
basename path = after_slash (reverse path) []

-- strrchr finds the last slash; a path with none is in ".", and one with only the first in "/".
unfoldable pub dirname : Bytes → Bytes
unfolding before_slash
dirname path = elim (before_slash (reverse path)) [
  | none ↦ codes "."
  | some [] ↦ codes "/"
  | some (c ∷ cs) ↦ reverse (c ∷ cs)
]
