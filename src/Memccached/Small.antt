-- ===== src/Memccached/Small.antt =====
-- memccached_set and memccached_get of src/memccached.c on values of one piece.
use memccache.Base.{
  ◌+◌, ◌≤◌, ◌≡◌, refl, ◌∙◌, ◌⊎◌, inl, inr, [], ◌++◌, true, false, some, arith, ltb, length, All,
  length-append, append-nil, Bool-cases, Option-cases, ge→ltb, Bytes, starts_with,
}
use memccache.Base.Endian.{htonl, length-htonl, IsByte}
use memccache.Memccached.{
  Memcached, Parts, found, missing, magic, magic_big, max_value_size, put_buffer, encode, decode,
  unpack, memccached_prune, memccached_set, memccached_get,
}
use memccache.Memccached.Frame.{IsSmall, decode-encode, decode_sound}

length-put_buffer : (bs : Bytes) → length (put_buffer bs) ≡ 4 + length bs
unfolding put_buffer
length-put_buffer bs = omega (arith, length-append (htonl (length bs)) bs, length-htonl (length bs))

pub length-encode :
    (p : Parts)
    → length (encode p) ≡ 20 + (length p.obj + (length p.stderr + (length p.dia + length p.dep)))
unfolding encode
length-encode p = omega (
  arith,
  length-put_buffer p.obj,
  length-put_buffer p.stderr,
  length-put_buffer p.dia,
  length-put_buffer p.dep,
  length-append (put_buffer p.obj) (put_buffer p.stderr ++ (put_buffer p.dia ++ put_buffer p.dep)),
  length-append (put_buffer p.stderr) (put_buffer p.dia ++ put_buffer p.dep),
  length-append (put_buffer p.dia) (put_buffer p.dep),
)

encode-magic : (p : Parts) → starts_with (encode p) magic ≡ true
unfolding encode starts_with
encode-magic p = refl

pub encode_not_big : (p : Parts) → starts_with (encode p) magic_big ≡ false
unfolding encode starts_with
encode_not_big p = refl

module _ {S : Type 0} (mc : Memcached S) where
  -- A whole encoding is unpacked to its parts.
  pub unpack-encode :
      (s : S) (key : Bytes) (p : Parts) → IsSmall p → unpack mc s key (encode p) ≡ (s, found p)
  unfolding unpack
  unpack-encode s key p small =
      let long : ltb (length (encode p)) 20 ≡ false =
        ge→ltb (length (encode p)) 20 (omega (arith, length-encode p)) in
      let back : decode (encode p) ≡ some p = rw append-nil at (decode-encode p [] small) in
      rw (long, encode-magic p, back)

  -- If the value at the key consists of bytes and is not marked as big, then memccached_get
  -- either returns parts whose encoding the value begins with, in an unchanged state, or it
  -- deletes the key and returns nothing.
  pub memccached_get_sound :
      (s : S) (key value : Bytes)
      → mc.fetch s key ≡ some value
      → starts_with value magic_big ≡ false
      → All IsByte value
      → ((p : Parts) × (r : Bytes) × (value ≡ encode p ++ r)
          × (memccached_get mc s key ≡ (s, found p)))
        ⊎ (memccached_get mc s key ≡ ((mc.delete s key).0, missing))
  unfolding memccached_get unpack memccached_prune
  memccached_get_sound s key value e small bytes = elim (Bool-cases (starts_with value magic)) [
    | inr n ↦ inr (ground arith)
    | inl y ↦ elim (Bool-cases (ltb (length value) 20)) [
      | inl short ↦ inr (ground arith)
      | inr long ↦ elim (Option-cases (decode value)) [
        | inl bad ↦ inr (ground arith)
        | inr (p, good) ↦
            let (r, split) = decode_sound value p bytes y good in inl (p, r, split, ground arith)
      ]
    ]
  ]

  pub memccached_get_plain :
      (s : S) (key value : Bytes)
      → mc.fetch s key ≡ some value
      → starts_with value magic_big ≡ false
      → memccached_get mc s key ≡ unpack mc s key value
  unfolding memccached_get
  memccached_get_plain s key value e n = ground arith

  -- If memcached returns what it stored with success, then a result whose four buffers have
  -- 32-bit lengths and whose encoding is at most the size limit, once memccached_set has
  -- stored it with success, is what memccached_get returns, with the state unchanged.
  pub memccached_get-set :
      (s : S) (key : Bytes) (p : Parts)
      → ((s : S) (k v : Bytes) → (mc.store s k v).1 ≡ 0 → mc.fetch (mc.store s k v).0 k ≡ some v)
      → IsSmall p
      → length (encode p) ≤ max_value_size
      → (memccached_set mc s key p).1 ≡ true
      → memccached_get mc (memccached_set mc s key p).0 key
        ≡ ((memccached_set mc s key p).0, found p)
  unfolding memccached_set
  memccached_get-set s key p law small fits ok =
      let one : ltb max_value_size (length (encode p)) ≡ false =
        ge→ltb max_value_size (length (encode p)) fits in
      let done : (mc.store s key (encode p)).1 ≡ 0 = ground arith in
      let s' = (mc.store s key (encode p)).0 in
      rw one (
        memccached_get_plain s' key (encode p) (law s key (encode p) done) (encode_not_big p)
        ∙ unpack-encode s' key p small)
