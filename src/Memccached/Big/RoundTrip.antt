-- ===== src/Memccached/Big/RoundTrip.antt =====
-- memccached_get of src/memccached.c reads back what memccached_set stored in chunks.
use memccache.Base.{
  ℕ, ◌+◌, ◌-◌, ◌/◌, ◌^◌, ◌<◌, ◌≡◌, refl, sym, ap, ◌∙◌, [], ◌∷◌, ◌++◌, true, false, Option, some,
  arith, ltb, leb, lt→ltb, ◌==◌, ==_refl, drop, length, append-nil, Bool-cases, inl, inr, Bytes,
  bytes_eq, bytes_eq_refl, bytes_eq_sound, starts_with,
}
use memccache.Base.Endian.{htonl, ntohl}
use memccache.Memccached.{
  Memcached, Parts, found, whole, magic_big, max_value_size, encode, set_chunks, big_set, big_get,
  fetch_all, keys_of, read_index, index_size, memccached_set, memccached_get, unpack,
}
use memccache.Memccached.Chunks.{
  Entries, has_key, IsDistinct, Has, Answers, AllOf, joined, fetch_loop-gather,
}
use memccache.Memccached.Frame.{IsSmall}
use memccache.Memccached.Small.{unpack-encode}
use memccache.Memccached.Big.Index.{
  entries, index_bytes, count, count_lem, count_small, index_size_lem, read_index-index_bytes,
  Keeps, set_chunks-Stored,
}

abbrev pub header : ℕ → ℕ → Bytes
header numkeys size = magic_big ++ (htonl numkeys ++ (htonl 16 ++ (htonl 0 ++ htonl size)))

pub header_fields :
    (n size : ℕ) (index : Bytes)
    → n < 2 ^ 31
    → size < 2 ^ 32
    → (starts_with (header n size ++ index) magic_big ≡ true)
      × (ntohl (drop 4 (header n size ++ index)) ≡ n)
      × (ntohl (drop 8 (header n size ++ index)) ≡ 16)
      × (ntohl (drop 12 (header n size ++ index)) ≡ 0)
      × (ntohl (drop 16 (header n size ++ index)) ≡ size)
      × (drop 20 (header n size ++ index) ≡ index)
      × (length (header n size ++ index) ≡ 20 + length index)
unfolding htonl ntohl starts_with
header_fields n size index h k = (refl, omega arith, refl, refl, omega arith, refl, omega arith)

module _ {S : Type 0} (mc : Memcached S) where
  big_get_fields :
      (s : S) (n size : ℕ) (value index : Bytes) (es : Entries)
      → starts_with value magic_big ≡ true
      → ntohl (drop 4 value) ≡ n
      → ntohl (drop 8 value) ≡ 16
      → ntohl (drop 12 value) ≡ 0
      → ntohl (drop 16 value) ≡ size
      → drop 20 value ≡ index
      → length value ≡ 20 + length index
      → n < 2 ^ 31
      → read_index n index ≡ some es
      → index_size es ≡ size
      → big_get mc s value ≡ fetch_all mc s es
  unfolding big_get
  big_get_fields s n size value index es m f₁ f₂ f₃ f₄ body len h e total =
      let long : ltb (length value) 20 ≡ false = ground arith in
      let int : leb (2 ^ 31) n ≡ false = ground arith in
      let fits : size == size ≡ true = ==_refl size in
      rw (m, f₁, f₂, f₃, long, int, body, e, big_get, total, f₄, fits)

  pub big_get-header :
      (s : S) (n size : ℕ) (index : Bytes) (es : Entries)
      → n < 2 ^ 31
      → size < 2 ^ 32
      → read_index n index ≡ some es
      → index_size es ≡ size
      → big_get mc s (header n size ++ index) ≡ fetch_all mc s es
  big_get-header s n size index es h k e total =
      let (m, f₁, f₂, f₃, f₄, body, len) = header_fields n size index h k in
      big_get_fields s n size (header n size ++ index) index es m f₁ f₂ f₃ f₄ body len h e total

  -- memcached_mget succeeds on one or more keys that are there, and delivers each of them once, in
  -- any order.
  abbrev pub MgetDelivers : Type 0
  MgetDelivers =
      (s : S) (es : Entries)
      → 0 < length es
      → IsDistinct es
      → Has (mc.fetch s) es
      → ((mc.mget s (keys_of es)).0 ≡ 0)
        × Answers (mc.fetch s) es (mc.mget s (keys_of es)).1
        × AllOf (mc.mget s (keys_of es)).1 es

  some_entry : (es : Entries) → 0 < index_size es → 0 < length es
  unfolding index_size
  some_entry [] h = absurd (omega arith)
  some_entry (e ∷ es) h = omega arith

  fetch_all-joined :
      (s : S) (es : Entries)
      → MgetDelivers
      → 0 < index_size es
      → IsDistinct es
      → Has (mc.fetch s) es
      → fetch_all mc s es ≡ whole (joined (mc.fetch s) es)
  unfolding fetch_all
  fetch_all-joined s es delivers total d h =
      let (ok, answers, all) = delivers s es (some_entry es total) d h in
      let buffer : (index_size es == 0) ≡ false = ground arith in
      let (slots, run, end) = fetch_loop-gather (mc.fetch s) es _ d h answers all in
      rw (buffer, ok, run, fetch_all, end)

  -- Values elsewhere do not matter.
  same_values :
      (vals vals' : Bytes → Option Bytes) (es : Entries)
      → ((j : Bytes) → has_key j es ≡ true → vals' j ≡ vals j)
      → Has vals es
      → Has vals' es × (joined vals' es ≡ joined vals es)
  unfolding has_key
  same_values vals vals' [] e h = (tt, refl)
  same_values vals vals' ((k, n) ∷ es) e ((v, q, len), h) =
      let (h', j) = same_values vals vals' es (λ t p. e t (ground arith)) h in
      let here = e k (rw (bytes_eq_refl k)) in (((v, here ∙ q, len), h'), rw (here, j))

  -- The parts of a successful memccached_big_set.
  big_set_parts :
      (s : S) (key value : Bytes)
      → (big_set mc s key value).1 ≡ 0
      → let f = length value in
        let r = set_chunks mc f s value [] in
        let blob = header ((f + max_value_size - 1) / max_value_size) f ++ r.2 in
        (r.1 ≡ 0)
        × (big_set mc s key value ≡ mc.store r.0 key blob)
        × ((mc.store r.0 key blob).1 ≡ 0)
  unfolding big_set
  big_set_parts s key value ok = (ground arith, ground arith, ground arith)

  -- The state and the blob that memccached_big_set leaves.
  big_set-fetch :
      (s : S) (key value : Bytes)
      → Keeps mc
      → length value < 2 ^ 31
      → IsDistinct (entries (length value) value)
      → has_key key (entries (length value) value) ≡ false
      → (big_set mc s key value).1 ≡ 0
      → let s' = (big_set mc s key value).0 in
        let f = length value in
        (mc.fetch s' key ≡ some (header (count f value) f ++ index_bytes f value))
        × Has (mc.fetch s') (entries f value)
        × (joined (mc.fetch s') (entries f value) ≡ value)
  big_set-fetch s key value keeps small distinct apart ok =
      let f = length value in
      let (chunks_ok, same, blob_ok) = big_set_parts s key value ok in
      let (index, stored) =
        set_chunks-Stored mc keeps f s value [] (omega arith) distinct chunks_ok in
      let s₁ = (set_chunks mc f s value []).0 in
      let blob =
        header ((f + max_value_size - 1) / max_value_size) f ++ (set_chunks mc f s value []).2 in
      let kept = keeps s₁ key blob blob_ok in
      let (has, j) =
        same_values (mc.fetch s₁) (mc.fetch (mc.store s₁ key blob).0) (entries f value)
          (λ t p. kept t ∙ (ground (arith, other key t (entries f value) apart p))) stored.has in
      rw same (
        kept key ∙ (rw (bytes_eq_refl key, index, count_lem f value (omega arith))),
        has,
        j ∙ stored.whole,
      )
    where
      other :
          (k t : Bytes) (es : Entries)
          → has_key k es ≡ false
          → has_key t es ≡ true
          → bytes_eq t k ≡ false
      other k t es h p = elim (Bool-cases (bytes_eq t k)) [
        | inl e ↦ let q = ap (λ u. has_key u es) (bytes_eq_sound t k e) in absurd (ground arith)
        | inr e ↦ e
      ]

  -- If memcached keeps what it stores and delivers, in any order, the keys that it has, and
  -- the keys of the chunks of a value of at least one and less than 2^31 bytes differ from
  -- each other and from the key of the value, then after memccached_big_set has stored the
  -- value with success, a blob longer than 4 bytes and marked as big is at its key, from
  -- which memccached_big_get yields the value.
  pub big_get-big_set :
      (s : S) (key value : Bytes)
      → Keeps mc
      → MgetDelivers
      → 0 < length value
      → length value < 2 ^ 31
      → IsDistinct (entries (length value) value)
      → has_key key (entries (length value) value) ≡ false
      → (big_set mc s key value).1 ≡ 0
      → (blob : Bytes) × (mc.fetch (big_set mc s key value).0 key ≡ some blob)
        × (starts_with blob magic_big ≡ true)
        × (4 < length blob)
        × (big_get mc (big_set mc s key value).0 blob ≡ whole value)
  big_get-big_set s key value keeps delivers nonempty small distinct apart ok =
      let f = length value in
      let es = entries f value in
      let (at_key, has, all) = big_set-fetch s key value keeps small distinct apart ok in
      let s' = (big_set mc s key value).0 in
      let few : count f value < 2 ^ 31 = count_small value small in
      let fields' = header_fields (count f value) f (index_bytes f value) few (omega arith) in
      let index =
        ap (read_index (count f value)) (sym (append-nil (index_bytes f value)))
        ∙ read_index-index_bytes f value [] (omega arith) small in
      let total = index_size_lem f value (omega arith) in
      let got =
        big_get-header s' (count f value) f (index_bytes f value) es few (omega arith) index total
        ∙ fetch_all-joined s' es delivers (rw total nonempty) distinct has
        ∙ ap whole all in
      (header (count f value) f ++ index_bytes f value, at_key, fields'.0, omega arith, got)

  -- memccached_get on a value in chunks.
  memccached_get_big :
      (s : S) (key value buf : Bytes)
      → mc.fetch s key ≡ some value
      → starts_with value magic_big ≡ true
      → 4 < length value
      → big_get mc s value ≡ whole buf
      → memccached_get mc s key ≡ unpack mc s key buf
  unfolding memccached_get
  memccached_get_big s key value buf e m long b = ground arith

  -- A result too big for one value is stored in chunks and read back whole, in whatever order the
  -- chunks arrive: if memcached keeps what it stores and delivers the keys that it has, if the keys
  -- of the chunks differ from each other and from the key of the result, and if every store
  -- succeeds.
  pub memccached_get-set_big :
      (s : S) (key : Bytes) (p : Parts)
      → Keeps mc
      → MgetDelivers
      → IsSmall p
      → max_value_size < length (encode p)
      → length (encode p) < 2 ^ 31
      → IsDistinct (entries (length (encode p)) (encode p))
      → has_key key (entries (length (encode p)) (encode p)) ≡ false
      → (memccached_set mc s key p).1 ≡ true
      → memccached_get mc (memccached_set mc s key p).0 key
        ≡ ((memccached_set mc s key p).0, found p)
  unfolding memccached_set
  memccached_get-set_big s key p keeps delivers fields big small distinct apart ok =
      let value = encode p in
      let split : ltb max_value_size (length value) ≡ true =
        lt→ltb max_value_size (length value) big in
      let done : (big_set mc s key value).1 ≡ 0 = ground arith in
      let (blob, at_key, marked, long, got) =
        big_get-big_set s key value keeps delivers (omega arith) small distinct apart done in
      let s' = (big_set mc s key value).0 in
      rw split (
        memccached_get_big s' key blob value at_key marked long got
        ∙ unpack-encode mc s' key p fields)
