-- ===== src/Hash/Size.antt =====
-- src/hash.c: how hash_input_size grows.
use memccache.Base.{
  ℕ, ◌+◌, ◌%◌, ◌^◌, ◌<◌, ◌++◌, [], ◌∷◌, length, take, refl, ap, Bytes, ◌≡◌, ◌∙◌, length-append,
  arith,
}
use memccache.Mdfour.Update.{mdfour_update_tail, mdfour_update-size}
use memccache.Hash.{
  Hash, delimiter, do_hash_buffer, do_debug_text, hash_input_size, hash_buffer, hash_delimiter,
  hash_string_buffer, size_of_int, hash_int, int_bytes,
}

-- The second state has `n` bytes more.
abbrev pub Fed : ℕ → Hash → Hash → Type 0
Fed n hash hash' =
    (length hash'.md.tail < 64) × (hash_input_size hash' ≡ (hash_input_size hash + n) % 2 ^ 64)

pub do_hash_buffer-Fed :
    (hash : Hash) (s : Bytes)
    → length hash.md.tail < 64
    → Fed (length s) hash (do_hash_buffer hash s)
unfolding do_hash_buffer hash_input_size
do_hash_buffer-Fed hash s short =
    let size = mdfour_update-size hash.md s short in
    (mdfour_update_tail hash.md s short, size ∙ omega arith)

pub Fed-trans : (m n : ℕ) (a b c : Hash) → Fed m a b → Fed n b c → Fed (m + n) a c
Fed-trans m n a b c (short, e) (short', e') = (short', omega arith)

pub hash_string_buffer-Fed :
    (hash : Hash) (s : Bytes)
    → length hash.md.tail < 64
    → length s < 2 ^ 31
    → Fed (length s) hash (hash_string_buffer hash s (length s % 2 ^ 32))
unfolding hash_string_buffer hash_input_size hash_buffer do_debug_text
hash_string_buffer-Fed hash s short small =
    let whole : take (size_of_int (length s % 2 ^ 32)) s ≡ s =
      ap (λ n. take n s) (size_of_length (length s) small) ∙ take-length s in
    rw whole (do_hash_buffer-Fed hash s short)
  where
    size_of_length : (n : ℕ) → n < 2 ^ 31 → size_of_int (n % 2 ^ 32) ≡ n
    size_of_length n h = let same : n % 2 ^ 32 ≡ n = omega arith in ground arith

    take-length : (s : Bytes) → take (length s) s ≡ s
    take-length [] = refl
    take-length (c ∷ s) = ap (λ r. c ∷ r) (take-length s)

pub hash_int-Fed : (hash : Hash) (x : ℕ) → length hash.md.tail < 64 → Fed 4 hash (hash_int hash x)
unfolding hash_int hash_input_size do_debug_text
hash_int-Fed hash x short = do_hash_buffer-Fed hash (int_bytes x) short

pub hash_delimiter-Fed :
    (hash : Hash) (type : Bytes)
    → length hash.md.tail < 64
    → Fed (9 + length type) hash (hash_delimiter hash type)
unfolding hash_delimiter hash_input_size do_debug_text
hash_delimiter-Fed hash type short =
    let first = do_hash_buffer-Fed hash delimiter short in
    let second = do_hash_buffer-Fed (do_hash_buffer hash delimiter) (type ++ 0 ∷ []) first.0 in
    let both =
      Fed-trans 8 (length (type ++ 0 ∷ [])) hash (do_hash_buffer hash delimiter)
        (do_hash_buffer (do_hash_buffer hash delimiter) (type ++ 0 ∷ [])) first second in
    (both.0, both.1 ∙ omega (arith, length-append type (0 ∷ [])))
