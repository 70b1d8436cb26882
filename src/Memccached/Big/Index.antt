-- ===== src/Memccached/Big/Index.antt =====
-- What memccached_big_set of src/memccached.c leaves in the cache, and its index read back.
use memccache.Base.{
  ℕ, zero, suc, ◌+◌, ◌-◌, ◌/◌, ◌^◌, ◌≤◌, ◌<◌, ◌≡◌, refl, sym, ap, ◌∙◌, [], ◌∷◌, ◌++◌, true, false,
  some, arith, ltb, leb, ◌==◌, if◌then◌else◌, take, drop, length, length-append, length-take,
  length-drop, take-append-drop, append-nil, append_assoc, drop-append, Bytes, bytes_eq,
  bytes_eq_refl,
}
use memccache.Base.Endian.{htonl, ntohl, ntohl-htonl, length-htonl}
use memccache.Mdfour.{mdfour_begin, mdfour_update, mdfour_result}
use memccache.Mdfour.Result.{length-mdfour_result}
use memccache.Util.{format_hash_prefix}
use memccache.Memccached.{
  Memcached, max_value_size, subkey, chunk_key, set_chunks, read_index, index_size,
}
use memccache.Memccached.Chunks.{Entries, has_key, IsDistinct, Has, joined}

-- The length of the first chunk.
abbrev pub chunk_size : Bytes → ℕ
chunk_size value = if ltb max_value_size (length value) then max_value_size else length value

abbrev pub first_chunk : Bytes → Bytes
first_chunk value = take (chunk_size value) value

-- The keys and lengths of the chunks of a value; the fuel is at least its length.
unfoldable pub entries : ℕ → Bytes → Entries
entries zero value = []
entries (suc f) [] = []
entries (suc f) (x ∷ v) =
    (chunk_key (subkey (first_chunk (x ∷ v))) (chunk_size (x ∷ v)), chunk_size (x ∷ v))
    ∷ entries f (drop (chunk_size (x ∷ v)) (x ∷ v))

pub index_bytes : ℕ → Bytes → Bytes
index_bytes zero value = []
index_bytes (suc f) [] = []
index_bytes (suc f) (x ∷ v) =
    subkey (first_chunk (x ∷ v)) ++ index_bytes f (drop (chunk_size (x ∷ v)) (x ∷ v))

pub max_value_size_lem : max_value_size ≡ 1024000
unfolding max_value_size
max_value_size_lem = refl

chunk_size_pos :
    (x : ℕ) (v : Bytes) → (0 < chunk_size (x ∷ v)) × (chunk_size (x ∷ v) ≤ length (x ∷ v))
chunk_size_pos x v = (ground (arith, max_value_size_lem), ground (arith, max_value_size_lem))

rest_lt :
    (f x : ℕ) (v : Bytes) → length (x ∷ v) ≤ suc f → length (drop (chunk_size (x ∷ v)) (x ∷ v)) ≤ f
rest_lt f x v h = omega (arith, chunk_size_pos x v, length-drop (chunk_size (x ∷ v)) (x ∷ v))

length-subkey : (c : Bytes) → length (subkey c) ≡ 20
unfolding subkey
length-subkey c =
    let d = mdfour_result (mdfour_update mdfour_begin c) in
    omega (
      arith,
      length-append d (htonl (length c)),
      length-htonl (length c),
      length-mdfour_result (mdfour_update mdfour_begin c),
    )

no_key :
    (j k : Bytes) (n : ℕ) (es : Entries)
    → has_key j ((k, n) ∷ es) ≡ false
    → (bytes_eq j k ≡ false) × (has_key j es ≡ false)
unfolding has_key
no_key j k n es h = (ground arith, ground arith)

module _ {S : Type 0} (mc : Memcached S) where
  abbrev first_store : S → ℕ → Bytes → S × ℕ
  first_store s x v =
      mc.store s (chunk_key (subkey (first_chunk (x ∷ v))) (chunk_size (x ∷ v)))
        (first_chunk (x ∷ v))

  set_chunks_ret :
      (f : ℕ) (s : S) (x : ℕ) (v p : Bytes)
      → (set_chunks mc (suc f) s (x ∷ v) p).1 ≡ 0
      → (first_store s x v).1 ≡ 0
  unfolding set_chunks
  set_chunks_ret f s x v p h = ground arith

  set_chunks_step :
      (f : ℕ) (s : S) (x : ℕ) (v p : Bytes)
      → (first_store s x v).1 ≡ 0
      → set_chunks mc (suc f) s (x ∷ v) p
        ≡ set_chunks mc f
            (first_store s x v).0
            (drop (chunk_size (x ∷ v)) (x ∷ v))
            (p ++ subkey (first_chunk (x ∷ v)))
  unfolding set_chunks
  set_chunks_step f s x v p h =
      let more : length (x ∷ v) == 0 ≡ false = ground arith in
      let good : (first_store s x v).1 == 0 ≡ true = ground arith in rw (more, set_chunks, good)

  set_chunks_nil : (f : ℕ) (s : S) (p : Bytes) → set_chunks mc f s [] p ≡ (s, 0, p)
  unfolding set_chunks
  set_chunks_nil zero s p = refl
  set_chunks_nil (suc f) s p = refl

  -- memcached keeps what it stores, and a store changes no other key.
  abbrev pub Keeps : Type 0
  Keeps =
      (s : S) (k v : Bytes)
      → (mc.store s k v).1 ≡ 0
      → (j : Bytes)
      → mc.fetch (mc.store s k v).0 j ≡ (if bytes_eq j k then some v else mc.fetch s j)

  -- What the chunk loop leaves behind when every store succeeds.
  pub record Stored (f : ℕ) (s s' : S) (value : Bytes) : Type 0 where
    pub has : Has (mc.fetch s') (entries f value)
    pub whole : joined (mc.fetch s') (entries f value) ≡ value
    pub others : (j : Bytes) → has_key j (entries f value) ≡ false → mc.fetch s' j ≡ mc.fetch s j

  pub set_chunks-Stored :
      Keeps
      → (f : ℕ) (s : S) (value p : Bytes) → length value ≤ f
      → IsDistinct (entries f value)
      → (set_chunks mc f s value p).1 ≡ 0
      → ((set_chunks mc f s value p).2 ≡ p ++ index_bytes f value)
        × Stored f s (set_chunks mc f s value p).0 value
  unfolding entries index_bytes set_chunks
  set_chunks-Stored keeps zero s [] p le d ok =
      (sym (append-nil p), record { has = tt; whole = refl; others = λ j h. refl })
  set_chunks-Stored keeps zero s (x ∷ v) p le d ok = absurd (omega arith)
  set_chunks-Stored keeps (suc f) s [] p le d ok =
      (sym (append-nil p), record { has = tt; whole = refl; others = λ j h. refl })
  set_chunks-Stored keeps (suc f) s (x ∷ v) p le (new, d) ok =
      let value : Bytes = x ∷ v in
      let n = chunk_size value in
      let c = first_chunk value in
      let k = chunk_key (subkey c) n in
      let rest = drop n value in
      let good = set_chunks_ret f s x v p ok in
      let step = set_chunks_step f s x v p good in
      let s₁ = (first_store s x v).0 in
      let (index, stored) =
        set_chunks-Stored keeps f s₁ rest (p ++ subkey c) (rest_lt f x v le) d
          (ap (λ r. r.1) (sym step) ∙ ok) in
      let s' = (set_chunks mc f s₁ rest (p ++ subkey c)).0 in
      let here : mc.fetch s' k ≡ some c =
        stored.others k new ∙ keeps s k c good k ∙ (rw (bytes_eq_refl k)) in
      rw step (
        index ∙ append_assoc p (subkey c) (index_bytes f rest),
        record {
          has = ((c, here, omega (arith, length-take n value, chunk_size_pos x v)), stored.has);
          whole = rw (here, stored.whole) (take-append-drop n value);
          others = λ j h.
              let (other, absent) = no_key j k n (entries f rest) h in
              stored.others j absent ∙ keeps s k c good j ∙ (rw other);
        },
      )

-- The number of chunks.
pub count : ℕ → Bytes → ℕ
count zero value = 0
count (suc f) [] = 0
count (suc f) (x ∷ v) = suc (count f (drop (chunk_size (x ∷ v)) (x ∷ v)))

pub count_lem :
    (f : ℕ) (value : Bytes)
    → length value ≤ f
    → count f value ≡ (length value + max_value_size - 1) / max_value_size
unfolding count max_value_size
count_lem zero [] le = omega (arith, max_value_size_lem)
count_lem zero (x ∷ v) le = absurd (omega arith)
count_lem (suc f) [] le = omega (arith, max_value_size_lem)
count_lem (suc f) (x ∷ v) le =
    let rest = drop (chunk_size (x ∷ v)) (x ∷ v) in
    ground (
      arith,
      max_value_size_lem,
      count_lem f rest (rest_lt f x v le),
      length-drop (chunk_size (x ∷ v)) (x ∷ v),
    )

pub count_small : (value : Bytes) → length value < 2 ^ 31 → count (length value) value < 2 ^ 31
unfolding max_value_size
count_small value h = omega (arith, count_lem (length value) value (omega arith))

pub index_size_lem :
    (f : ℕ) (value : Bytes) → length value ≤ f → index_size (entries f value) ≡ length value
unfolding index_size entries
index_size_lem zero [] le = refl
index_size_lem zero (x ∷ v) le = absurd (omega arith)
index_size_lem (suc f) [] le = refl
index_size_lem (suc f) (x ∷ v) le = omega (
  arith,
  chunk_size_pos x v,
  length-drop (chunk_size (x ∷ v)) (x ∷ v),
  index_size_lem f (drop (chunk_size (x ∷ v)) (x ∷ v)) (rest_lt f x v le),
)

-- The fourth word of an index entry is the length of its chunk.
entry_length : (c r : Bytes) → length c < 2 ^ 32 → ntohl (drop 16 (subkey c ++ r)) ≡ length c
unfolding subkey
entry_length c r h =
    let d = mdfour_result (mdfour_update mdfour_begin c) in
    let size = length-mdfour_result (mdfour_update mdfour_begin c) in
    let behind : drop 16 (d ++ (htonl (length c) ++ r)) ≡ htonl (length c) ++ r =
      rw size at (drop-append d (htonl (length c) ++ r)) in
    rw (append_assoc d (htonl (length c)) r, behind) (ntohl-htonl (length c) r h)

chunk_key_prefix :
    (e more : Bytes) (n : ℕ) → 16 ≤ length e → chunk_key (e ++ more) n ≡ chunk_key e n
unfolding chunk_key
chunk_key_prefix e more n h = format_hash_prefix e more n h

read_index_entry :
    (m n : ℕ) (e more : Bytes) (es : Entries)
    → length e ≡ 20
    → ntohl (drop 16 (e ++ more)) ≡ n
    → n < 2 ^ 31
    → read_index m more ≡ some es
    → read_index (suc m) (e ++ more) ≡ some ((chunk_key e n, n) ∷ es)
unfolding read_index
read_index_entry m n e more es size len small h =
    let long : ltb (length (e ++ more)) 20 ≡ false = ground (arith, length-append e more) in
    let int : leb (2 ^ 31) n ≡ false = ground arith in
    let behind : drop 20 (e ++ more) ≡ more = rw size at (drop-append e more) in
    rw (len, long, int, behind, h, read_index, len, chunk_key_prefix e more n (omega arith))

read_index_zero : (r : Bytes) → read_index 0 r ≡ some []
unfolding read_index
read_index_zero r = refl

-- Reading the index back.
pub read_index-index_bytes :
    (f : ℕ) (value r : Bytes)
    → length value ≤ f
    → length value < 2 ^ 31
    → read_index (count f value) (index_bytes f value ++ r) ≡ some (entries f value)
unfolding count index_bytes entries
read_index-index_bytes zero value r le small = read_index_zero r
read_index-index_bytes (suc f) [] r le small = read_index_zero r
read_index-index_bytes (suc f) (x ∷ v) r le small =
    let value : Bytes = x ∷ v in
    let n = chunk_size value in
    let c = first_chunk value in
    let bounds = chunk_size_pos x v in
    let more = index_bytes f (drop n value) ++ r in
    let size : length c ≡ n = omega (arith, length-take n value) in
    ap (read_index (suc (count f (drop n value))))
      (append_assoc (subkey c) (index_bytes f (drop n value)) r)
    ∙ (read_index_entry (count f (drop n value)) n (subkey c) more (entries f (drop n value))
        (length-subkey c) (entry_length c more (omega arith) ∙ size) (omega arith)
        (read_index-index_bytes f (drop n value) r (rest_lt f x v le)
          (omega (arith, length-drop n value))))
