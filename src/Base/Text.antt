-- ===== src/Base/Text.antt =====
-- Byte strings as lists of numbers, compared as `strcmp(a, b) == 0` and `memcmp` compare them.
use Prim.Native.Nat.{ℕ}
use Prim.Native.Char.{code}
use Prim.Native.String.{String}
use mathlib.Core.Path.{◌≡◌, refl}
use mathlib.Core.Logic.{◌↔◌}
use mathlib.Core.List.{List, [], ◌∷◌, ◌++◌}
use mathlib.Core.Bool.{Bool, true, false, ◌&&◌}
use native.Mathlib.Omega.{arith}
use memccache.Base.Logic.{◌==◌, ==_refl}

abbrev pub Bytes : Type 0
Bytes = List ℕ

-- The bytes of an ASCII literal.
abbrev pub codes : String → Bytes
codes String.[] = []
codes (String.◌∷◌ c s) = code c ∷ codes s

unfoldable pub bytes_eq : Bytes → Bytes → Bool
bytes_eq [] [] = true
bytes_eq [] (b ∷ bs) = false
bytes_eq (a ∷ as') [] = false
bytes_eq (a ∷ as') (b ∷ bs) = (a == b) && bytes_eq as' bs

pub bytes_eq_refl : (a : Bytes) → bytes_eq a a ≡ true
unfolding bytes_eq
bytes_eq_refl [] = refl
bytes_eq_refl (a ∷ as') = rw (==_refl a) (bytes_eq_refl as')

pub bytes_eq_sound : (a b : Bytes) → bytes_eq a b ≡ true → a ≡ b
unfolding bytes_eq
bytes_eq_sound [] [] h = refl
bytes_eq_sound [] (b ∷ bs) h = ground arith
bytes_eq_sound (a ∷ as') [] h = ground arith
bytes_eq_sound (a ∷ as') (b ∷ bs) h = ground (arith, bytes_eq_sound as' bs)

pub bytes_eq_iff : (a b : Bytes) → (bytes_eq a b ≡ true) ↔ (a ≡ b)
bytes_eq_iff a b = (bytes_eq_sound a b, λ e. rw e (bytes_eq_refl b))

-- `strncmp(s, prefix, strlen(prefix)) == 0`, the body of `str_startswith`.
unfoldable pub starts_with : Bytes → Bytes → Bool
starts_with s [] = true
starts_with [] (p ∷ ps) = false
starts_with (c ∷ cs) (p ∷ ps) = (c == p) && starts_with cs ps

pub starts_with_append : (p r : Bytes) → starts_with (p ++ r) p ≡ true
unfolding starts_with
starts_with_append [] r = refl
starts_with_append (c ∷ p) r = rw (==_refl c) (starts_with_append p r)

pub starts_with_sound : (s p : Bytes) → starts_with s p ≡ true → (r : Bytes) × (s ≡ p ++ r)
unfolding starts_with
starts_with_sound s [] h = (s, refl)
starts_with_sound [] (p ∷ ps) h = elim h' [ ]
  where
    h' : ⊥
    h' = ground arith
starts_with_sound (c ∷ cs) (p ∷ ps) h =
    let (r, e) = starts_with_sound cs ps (ground arith) in (r, ground arith)

pub bytes_eq_symm : (a b : Bytes) → bytes_eq a b ≡ bytes_eq b a
unfolding bytes_eq
bytes_eq_symm [] [] = refl
bytes_eq_symm [] (b ∷ bs) = refl
bytes_eq_symm (a ∷ as') [] = refl
bytes_eq_symm (a ∷ as') (b ∷ bs) = ground (arith, bytes_eq_symm as' bs)
