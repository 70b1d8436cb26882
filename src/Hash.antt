-- ===== src/Hash.antt =====
-- src/hash.c: the digest that the program feeds, with its debug logs.
-- A debug stream is the text written to it, or `none` for NULL; writing to it does not fail. A
-- file descriptor is the list of what read() returns, up to the end of the file. An int is its
-- 32-bit pattern.
pub mod Feed
pub mod Size
mod Examples
use memccache.Base.{
  ℕ, suc, ◌+◌, ◌-◌, ◌*◌, ◌/◌, ◌%◌, ◌^◌, List, [], ◌∷◌, ◌++◌, Bool, true, false, Option, none, some,
  take, ltb, if◌then◌else◌, length, Bytes, codes, bytes_eq,
}
use memccache.Base.Decimal.{decimal}
use memccache.Mdfour.{Mdfour, mdfour_begin, mdfour_update, mdfour_result}
use memccache.Util.{format_hash_as_string}

pub record Hash : Type 0 where
  pub md : Mdfour
  pub debug_binary : Option Bytes
  pub debug_text : Option Bytes

-- fwrite, where there is a stream
abbrev pub log : Option Bytes → Bytes → Option Bytes
log none s = none
log (some t) s = some (t ++ s)

unfoldable pub do_hash_buffer : Hash → Bytes → Hash
do_hash_buffer hash s = record hash {
  md = mdfour_update hash.md s;
  debug_binary = log hash.debug_binary s;
}

unfoldable pub do_debug_text : Hash → Bytes → Hash
do_debug_text hash s = record hash { debug_text = log hash.debug_text s }

unfoldable pub hash_init : Hash
hash_init = record { md = mdfour_begin; debug_binary = none; debug_text = none }

unfoldable pub hash_copy : Hash → Hash
hash_copy hash = record { md = hash.md; debug_binary = none; debug_text = none }

unfoldable pub hash_enable_debug : Hash → Bytes → Option Bytes → Option Bytes → Hash
hash_enable_debug hash section_name debug_binary debug_text =
    let opened : Hash = record {
      md = hash.md;
      debug_binary = debug_binary;
      debug_text = debug_text;
    } in
    do_debug_text (do_debug_text (do_debug_text opened (codes "=== ")) section_name)
      (codes " ===" ++ 10 ∷ [])

unfoldable pub hash_input_size : Hash → ℕ
hash_input_size hash = (hash.md.total_n + length hash.md.tail) % 2 ^ 64

unfoldable pub hash_buffer : Hash → Bytes → Hash
unfolding do_hash_buffer do_debug_text
hash_buffer hash s = do_debug_text (do_hash_buffer hash s) s

unfoldable pub hash_result_as_bytes : Hash → Bytes
hash_result_as_bytes hash = mdfour_result hash.md

-- The size becomes an int, as its 32-bit pattern.
unfoldable pub hash_result : Hash → Bytes
hash_result hash = format_hash_as_string (hash_result_as_bytes hash) (hash_input_size hash % 2 ^ 32)

unfoldable pub hash_equal : Hash → Hash → Bool
hash_equal hash1 hash2 = bytes_eq (hash_result_as_bytes hash1) (hash_result_as_bytes hash2)

abbrev pub delimiter : Bytes
delimiter = 0 ∷ (codes "cCaChE" ++ 0 ∷ [])

unfoldable pub hash_delimiter : Hash → Bytes → Hash
unfolding do_hash_buffer do_debug_text
hash_delimiter hash type =
    let fed = do_hash_buffer (do_hash_buffer hash delimiter) (type ++ 0 ∷ []) in
    do_debug_text (do_debug_text (do_debug_text fed (codes "### ")) type) (10 ∷ [])

-- An int as a size_t
abbrev pub size_of_int : ℕ → ℕ
size_of_int n = if ltb n (2 ^ 31) then n else 2 ^ 64 - (2 ^ 32 - n)

-- The length is the 32-bit pattern of an int. The source reads on in memory if it is beyond the
-- string, which the model does not follow.
unfoldable pub hash_string_buffer : Hash → Bytes → ℕ → Hash
unfolding hash_buffer do_debug_text
hash_string_buffer hash s len =
    do_debug_text (hash_buffer hash (take (size_of_int len) s)) (10 ∷ [])

unfoldable pub hash_string : Hash → Bytes → Hash
unfolding hash_string_buffer
hash_string hash s = hash_string_buffer hash s (length s % 2 ^ 32)

-- The four bytes of an int, the lowest first.
abbrev pub int_bytes : ℕ → Bytes
int_bytes x = (x % 256) ∷ (x / 2 ^ 8 % 256) ∷ (x / 2 ^ 16 % 256) ∷ (x / 2 ^ 24 % 256) ∷ []

-- %d
abbrev int_text : ℕ → Bytes
int_text x = if ltb x (2 ^ 31) then decimal x else b'-' ∷ decimal (2 ^ 32 - x)

unfoldable pub hash_int : Hash → ℕ → Hash
unfolding do_hash_buffer do_debug_text
hash_int hash x =
    do_debug_text (do_debug_text (do_hash_buffer hash (int_bytes x)) (int_text x)) (10 ∷ [])

-- One return of read() that is not the end: some bytes, a signal that came in between (EINTR), or
-- another error.
pub data Read : Type 0 where
  bytes : Bytes → Read
  interrupted : Read
  failed : Read

-- The result is the digest, and true if the end was reached.
unfoldable pub hash_fd : Hash → List Read → Hash × Bool
unfolding do_hash_buffer do_debug_text
hash_fd hash [] = (hash, true)
hash_fd hash (Read.bytes s ∷ r) = hash_fd (do_debug_text (do_hash_buffer hash s) s) r
hash_fd hash (Read.interrupted ∷ r) = hash_fd hash r
hash_fd hash (Read.failed ∷ r) = (hash, false)

-- `none` where open() fails.
unfoldable pub hash_file : Hash → Option (List Read) → Hash × Bool
unfolding hash_fd
hash_file hash none = (hash, false)
hash_file hash (some reads) = hash_fd hash reads
