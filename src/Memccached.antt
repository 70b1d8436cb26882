-- ===== src/Memccached.antt =====
-- src/memccached.c: cached results as framed values in memcached, with big values in chunks.
-- libmemcached is a parameter: a state and the calls that the source makes on it. Allocation
-- failure, logging and the set-up of the connection are left out.
pub mod Frame
pub mod Small
pub mod Chunks
pub mod Big
mod Examples
use memccache.Base.{
  ℕ, zero, suc, ◌+◌, ◌-◌, ◌*◌, ◌/◌, ◌%◌, ◌^◌, List, [], ◌∷◌, ◌++◌, Bool, true, false, ◌&&◌, ◌||◌,
  not, Option, none, some, ltb, leb, ◌==◌, if◌then◌else◌, take, drop, length, replicate, set,
  get_or, Bytes, codes, bytes_eq, starts_with,
}
use memccache.Base.Endian.{htonl, ntohl}
use memccache.Mdfour.{mdfour_begin, mdfour_update, mdfour_result}
use memccache.Util.{format_hash_as_string}

-- What one memcached_fetch_result delivers: a key and its value, or an error. The end of the list
-- is MEMCACHED_END.
pub data Fetch : Type 0 where
  chunk : Bytes → Bytes → Fetch
  failed : Fetch

-- The calls of libmemcached; a return code of 0 is MEMCACHED_SUCCESS.
pub record Memcached (S : Type 0) : Type 0 where
  pub store : S → Bytes → Bytes → S × ℕ
  pub fetch : S → Bytes → Option Bytes
  pub delete : S → Bytes → S × ℕ
  pub mget : S → List Bytes → ℕ × List Fetch

abbrev pub magic : Bytes
magic = codes "CCH1"

abbrev pub magic_big : Bytes
magic_big = codes "CCBM"

-- MAX_VALUE_SIZE and SPLIT_VALUE_SIZE, which the source makes equal.
pub max_value_size : ℕ
max_value_size = 1000 * 2 ^ 10

-- The four buffers of a cached result.
pub record Parts : Type 0 where
  pub obj : Bytes
  pub stderr : Bytes
  pub dia : Bytes
  pub dep : Bytes

-- PROCESS_ONE_BUFFER of memccached_set
pub put_buffer : Bytes → Bytes
put_buffer bs = htonl (length bs) ++ bs

pub encode : Parts → Bytes
unfolding put_buffer
encode p =
    magic ++ (put_buffer p.obj ++ (put_buffer p.stderr ++ (put_buffer p.dia ++ put_buffer p.dep)))

-- The digest and length of one chunk, 20 bytes, and the key that they spell.
pub subkey : Bytes → Bytes
subkey c = mdfour_result (mdfour_update mdfour_begin c) ++ htonl (length c)

pub chunk_key : Bytes → ℕ → Bytes
chunk_key entry n = format_hash_as_string entry n

pub data Reply : Type 0 where
  found : Parts → Reply
  missing : Reply
  -- a failed assertion, or a header that the model does not follow
  aborted : Reply

pub data BigReply : Type 0 where
  whole : Bytes → BigReply
  nothing : BigReply
  stuck : BigReply

module _ {S : Type 0} (mc : Memcached S) where
  -- The loop over the chunks; `p` holds the index entries written so far. The result is the state,
  -- the return code and the index. The fuel is at least the length of the value.
  pub set_chunks : ℕ → S → Bytes → Bytes → S × ℕ × Bytes
  set_chunks zero s value p = (s, 0, p)
  set_chunks (suc f) s value p =
      let n = if ltb max_value_size (length value) then max_value_size else length value in
      let c = take n value in
      let (s', ret) = mc.store s (chunk_key (subkey c) n) c in
      let rest = set_chunks f s' (drop n value) (p ++ subkey c) in
      if length value == 0 then (s, 0, p) else if ret == 0 then rest else (s', ret, p)

  pub big_set : S → Bytes → Bytes → S × ℕ
  big_set s key value =
      let numkeys = (length value + max_value_size - 1) / max_value_size in
      let header =
        magic_big ++ (htonl numkeys ++ (htonl 16 ++ (htonl 0 ++ htonl (length value)))) in
      let (s', ret, index) = set_chunks (length value) s value [] in
      if ret == 0 then mc.store s' key (header ++ index) else (s', ret)

  -- 0, or -1 as `false`
  unfoldable pub memccached_set : S → Bytes → Parts → S × Bool
  memccached_set s key p =
      let buf = encode p in
      let (s', mret) =
        if ltb max_value_size (length buf) then big_set s key buf else mc.store s key buf in
      (s', mret == 0)

  unfoldable pub memccached_rm : S → Bytes → S × Bool
  memccached_rm s key = let (s', mret) = mc.delete s key in (s', mret == 0)

  unfoldable pub memccached_prune : S → Bytes → S × Reply
  unfolding memccached_rm
  memccached_prune s key = ((memccached_rm s key).0, missing)

  unfoldable pub memccached_raw_set : S → Bytes → Bytes → S × Bool
  memccached_raw_set s key value = let (s', mret) = mc.store s key value in (s', mret == 0)

  unfoldable pub memccached_raw_get : S → Bytes → Option Bytes
  memccached_raw_get s key = mc.fetch s key

-- The index of a big value: the keys and lengths of `n` entries of 20 bytes. `none` for an index
-- outside the buffer, and for a length of 2^31 bytes or more, which the source reads as a negative
-- int: the buffer would then be smaller than the offsets, and the model does not go on.
pub read_index : ℕ → Bytes → Option (List (Bytes × ℕ))
read_index zero p = some []
read_index (suc n) p =
    let len = ntohl (drop 16 p) in
    let rest = read_index n (drop 20 p) in
    if ltb (length p) 20 || leb (2 ^ 31) len
    then none
    else elim rest [ none ↦ none | some es ↦ some ((chunk_key p len, len) ∷ es) ]

pub index_size : List (Bytes × ℕ) → ℕ
index_size [] = 0
index_size ((k, n) ∷ es) = n + index_size es

-- The first entry whose key is `k`, with its index.
pub find_key : Bytes → List (Bytes × ℕ) → Option ℕ
find_key k [] = none
find_key k ((k', n) ∷ es) = elim (bytes_eq k k') [
  | true ↦ some 0
  | false ↦ elim (find_key k es) [ none ↦ none | some i ↦ some (suc i) ]
]

-- The chunks that have arrived, by index: key_seen, with the bytes that stand at value_offsets in
-- the buffer. The offsets are the sums of the lengths before them, so the buffer is the chunks in
-- the order of the index.
abbrev pub Slots : Type 0
Slots = List (Option Bytes)

-- One round of the fetch loop; `none` for a return of NULL. The lengths are compared as ints.
pub place : List (Bytes × ℕ) → Slots → Bytes → Bytes → Option Slots
unfolding find_key
place es slots k v = elim (find_key k es) [
  | none ↦ none
  | some i ↦ elim (get_or slots i none) [
    | some seen ↦ none
    | none ↦
        let n = (get_or es i ([], 0)).1 in
        if length v % 2 ^ 32 == n % 2 ^ 32 then some (set slots i (some (take n v))) else none
  ]
]

pub fetch_loop : List (Bytes × ℕ) → Slots → List Fetch → Option Slots
fetch_loop es slots [] = some slots
fetch_loop es slots (failed ∷ r) = none
fetch_loop es slots (chunk k v ∷ r) = elim (place es slots k v) [
  | none ↦ none
  | some slots' ↦ fetch_loop es slots' r
]

-- The check of key_seen, and the buffer.
pub gather : Slots → Option Bytes
gather [] = some []
gather (none ∷ slots) = none
gather (some v ∷ slots) = elim (gather slots) [ none ↦ none | some r ↦ some (v ++ r) ]

pub keys_of : List (Bytes × ℕ) → List Bytes
keys_of [] = []
keys_of ((k, n) ∷ es) = k ∷ keys_of es

module _ {S : Type 0} (mc : Memcached S) where
  -- The buffer of no bytes is NULL, so that a total of 0 gives NULL whatever is delivered: a chunk
  -- then counts as an unknown key.
  pub fetch_all : S → List (Bytes × ℕ) → BigReply
  fetch_all s es =
      let (ret, results) = mc.mget s (keys_of es) in
      if index_size es == 0
      then nothing
      else if ret == 0
      then (elim (fetch_loop es (replicate (length es) none) results) [
        | none ↦ nothing
        | some slots ↦ elim (gather slots) [ none ↦ nothing | some buf ↦ whole buf ]
      ])
      else nothing

  -- memccached_big_get on a value that was fetched.
  pub big_get : S → Bytes → BigReply
  big_get s value =
      let numkeys = ntohl (drop 4 value) in
      let asserted = ntohl (drop 8 value) == 16 && ntohl (drop 12 value) == 0 in
      let totalsize = ntohl (drop 16 value) in
      if not (starts_with value magic_big)
      then nothing
      else if (ltb (length value) 20 || leb (2 ^ 31) numkeys) || not asserted
      then stuck
      else elim (read_index numkeys (drop 20 value)) [
        | none ↦ stuck
        | some es ↦ if index_size es == totalsize then fetch_all s es else stuck
      ]

-- PROCESS_ONE_BUFFER of memccached_get: the buffer and what is behind it.
pub get_buffer : Bytes → Option (Bytes × Bytes)
get_buffer bs =
    let len = ntohl bs in
    let rest = drop 4 bs in
    if ltb (length bs) 4
    then none
    else if ltb (length rest) len
    then none
    else some (take len rest, drop len rest)

infixl 5 ◌>>=◌
abbrev ◌>>=◌ : {A B : Type 0} → Option A → (A → Option B) → Option B
none >>= f = none
some a >>= f = f a

pub decode : Bytes → Option Parts
unfolding get_buffer
decode value = do
  (obj, r₁) ← get_buffer (drop 4 value)
  (stderr, r₂) ← get_buffer r₁
  (dia, r₃) ← get_buffer r₂
  (dep, r₄) ← get_buffer r₃
  some (record { obj = obj; stderr = stderr; dia = dia; dep = dep })

module _ {S : Type 0} (mc : Memcached S) where
  -- The checks and the four buffers; anything else is pruned.
  pub unpack : S → Bytes → Bytes → S × Reply
  unpack s key value =
      if ltb (length value) 20 || not (starts_with value magic)
      then memccached_prune mc s key
      else elim (decode value) [ none ↦ memccached_prune mc s key | some p ↦ (s, found p) ]

  unfoldable pub memccached_get : S → Bytes → S × Reply
  memccached_get s key = elim (mc.fetch s key) [
    | none ↦ (s, missing)
    | some value ↦
        if ltb 4 (length value) && starts_with value magic_big
        then (elim (big_get mc s value) [
          | whole buf ↦ unpack s key buf
          | nothing ↦ (s, missing)
          | stuck ↦ (s, aborted)
        ])
        else unpack s key value
  ]
