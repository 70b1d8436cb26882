-- ===== src/Memccached/Big/Repeated.antt =====
-- memccached_big_get of src/memccached.c on a value with two equal chunks. Both have one key, and
-- the search for a delivered key always ends at the first of them.
use memccache.Base.{
  ◌==◌, Bool-cases, set, take, ℕ, zero, suc, ◌+◌, ◌^◌, ◌<◌, ◌≡◌, ◌≢◌, refl, sym, ap, ◌∙◌, List, [],
  ◌∷◌, ◌++◌, true, Option, none, some, arith, get_or, get_or-set, length, length-set, length-append,
  length-replicate, replicate, append-nil, Bool-cases, Option-cases, inl, inr, Bytes, bytes_eq,
  starts_with,
}
use memccache.Memccached.{
  Memcached, Fetch, chunk, failed, missing, nothing, magic_big, find_key, Slots, place, fetch_loop,
  gather, keys_of, fetch_all, big_get, memccached_get, read_index,
}
use memccache.Memccached.Chunks.{Entries}
use memccache.Memccached.Big.Index.{
  entries, index_bytes, count, count_small, index_size_lem, read_index-index_bytes,
}
use memccache.Memccached.Big.RoundTrip.{header, header_fields, big_get-header}

find_key_at :
    (t k : Bytes) (n : ℕ) (mid post : Entries)
    → find_key t (mid ++ (k, n) ∷ post) ≡ some (length mid)
    → bytes_eq t k ≡ true
unfolding find_key
find_key_at t k n [] post h = elim (Bool-cases (bytes_eq t k)) [
  | inl e ↦ e
  | inr e ↦ elim (Option-cases (find_key t post)) [
    | inl q ↦ absurd (ground arith)
    | inr (i, q) ↦ absurd (ground arith)
  ]
]
find_key_at t k n ((j, m) ∷ mid) post h = elim (Bool-cases (bytes_eq t j)) [
  | inl e ↦ absurd (ground arith)
  | inr e ↦ elim (Option-cases (find_key t (mid ++ (k, n) ∷ post))) [
    | inl q ↦ absurd (ground arith)
    | inr (i, q) ↦ find_key_at t k n mid post (ground arith)
  ]
]

-- The index with a key that stands twice, and the place of the second.
abbrev pub repeated : Entries → Bytes → ℕ → Entries → ℕ → Entries → Entries
repeated pre k n mid m post = pre ++ (k, n) ∷ (mid ++ (k, m) ∷ post)

abbrev second : Entries → Entries → ℕ
second pre mid = length pre + suc (length mid)

never_second :
    (t : Bytes) (pre : Entries) (k : Bytes) (n : ℕ) (mid : Entries) (m : ℕ) (post : Entries)
    → find_key t (repeated pre k n mid m post) ≢ some (second pre mid)
unfolding find_key
never_second t [] k n mid m post h = elim (Bool-cases (bytes_eq t k)) [
  | inl e ↦ absurd (ground arith)
  | inr e ↦ elim (Option-cases (find_key t (mid ++ (k, m) ∷ post))) [
    | inl q ↦ absurd (ground arith)
    | inr (i, q) ↦ let same = find_key_at t k m mid post (ground arith) in absurd (ground arith)
  ]
]
never_second t ((j, l) ∷ pre) k n mid m post h = elim (Bool-cases (bytes_eq t j)) [
  | inl e ↦ absurd (ground arith)
  | inr e ↦ elim (Option-cases (find_key t (repeated pre k n mid m post))) [
    | inl q ↦ absurd (ground arith)
    | inr (i, q) ↦ never_second t pre k n mid m post (ground arith)
  ]
]

place_other :
    (es : Entries) (slots slots' : Slots) (k v : Bytes) (j : ℕ)
    → find_key k es ≢ some j
    → place es slots k v ≡ some slots'
    → get_or slots j none ≡ none
    → (get_or slots' j none ≡ none) × (length slots' ≡ length slots)
unfolding place
place_other es slots slots' k v j n h e = elim (Option-cases (find_key k es)) [
  | inl q ↦ absurd (ground arith)
  | inr (i, q) ↦
      let chunk_bytes : Bytes = take (get_or es i ([], 0)).1 v in
      elim (Bool-cases (i == j)) [
        | inl c ↦ let same : i ≡ j = ground arith in absurd (n (q ∙ ap some same))
        | inr c ↦
            let put : slots' ≡ set slots i (some chunk_bytes) = ground arith in
            let kept = get_or-set slots i j (some chunk_bytes) none in
            let size = length-set slots i (some chunk_bytes) in (ground arith, ap length put ∙ size)
      ]
]

fetch_loop_other :
    (es : Entries) (slots slots' : Slots) (rs : List Fetch) (j : ℕ)
    → ((t : Bytes) → find_key t es ≢ some j)
    → fetch_loop es slots rs ≡ some slots'
    → get_or slots j none ≡ none
    → (get_or slots' j none ≡ none) × (length slots' ≡ length slots)
unfolding fetch_loop
fetch_loop_other es slots slots' [] j n h e = (ground arith, ground arith)
fetch_loop_other es slots slots' (failed ∷ rs) j n h e = absurd (ground arith)
fetch_loop_other es slots slots' (chunk k v ∷ rs) j n h e =
    elim (Option-cases (place es slots k v)) [
      | inl q ↦ absurd (ground arith)
      | inr (mid, q) ↦
          let (e', len) = place_other es slots mid k v j (n k) q e in
          let (e'', len') = fetch_loop_other es mid slots' rs j n (ground arith) e' in
          (e'', len' ∙ len)
    ]

gather_hole :
    (slots : Slots) (j : ℕ) → j < length slots → get_or slots j none ≡ none → gather slots ≡ none
unfolding gather
gather_hole [] j h e = absurd (omega arith)
gather_hole (none ∷ slots) j h e = refl
gather_hole (some v ∷ slots) zero h e = absurd (ground arith)
gather_hole (some v ∷ slots) (suc j) h e = rw (gather_hole slots j (omega arith) e)

replicate-none : (n j : ℕ) → get_or {A = Option Bytes} (replicate n none) j none ≡ none
replicate-none zero j = refl
replicate-none (suc n) zero = refl
replicate-none (suc n) (suc j) = replicate-none n j

module _ {S : Type 0} (mc : Memcached S) where
  -- Whatever the server delivers, memccached_big_get returns nothing on an index in which a
  -- key stands twice, as it does when two chunks of a value are equal.
  pub fetch_all-repeated :
      (s : S) (pre : Entries) (k : Bytes) (n : ℕ) (mid : Entries) (m : ℕ) (post : Entries)
      → fetch_all mc s (repeated pre k n mid m post) ≡ nothing
  unfolding fetch_all
  fetch_all-repeated s pre k n mid m post =
      let es = repeated pre k n mid m post in
      let j = second pre mid in
      let start : Slots = replicate (length es) none in
      let results = (mc.mget s (keys_of es)).1 in
      elim (Option-cases (fetch_loop es start results)) [
        | inl q ↦ ground arith
        | inr (slots, q) ↦
            let (hole, len) =
              fetch_loop_other es start slots results j (λ t. never_second t pre k n mid m post) q
                (replicate-none (length es) j) in
            let inside : j < length slots = omega (
              arith,
              len,
              length-replicate {A = Option Bytes} (length es) none,
              length-append pre ((k, n) ∷ (mid ++ (k, m) ∷ post)),
              length-append mid ((k, m) ∷ post),
            ) in
            let open_slot = gather_hole slots j inside hole in ground arith
      ]

  memccached_get_nothing :
      (s : S) (key value : Bytes)
      → mc.fetch s key ≡ some value
      → starts_with value magic_big ≡ true
      → 4 < length value
      → big_get mc s value ≡ nothing
      → memccached_get mc s key ≡ (s, missing)
  unfolding memccached_get
  memccached_get_nothing s key value e m long b = ground arith

  -- A value of which two chunks have one key, as two equal chunks have, is never read back: the
  -- call returns nothing although the cache holds every chunk.
  pub memccached_get-repeated :
      (s : S) (key v : Bytes) (pre : Entries) (k : Bytes) (n : ℕ) (mid : Entries) (m : ℕ)
      (post : Entries)
      → length v < 2 ^ 31
      → entries (length v) v ≡ repeated pre k n mid m post
      → mc.fetch s key ≡ some (header (count (length v) v) (length v) ++ index_bytes (length v) v)
      → memccached_get mc s key ≡ (s, missing)
  memccached_get-repeated s key v pre k n mid m post small twice e =
      let f = length v in
      let few = count_small v small in
      let fields = header_fields (count f v) f (index_bytes f v) few (omega arith) in
      let index =
        ap (read_index (count f v)) (sym (append-nil (index_bytes f v)))
        ∙ read_index-index_bytes f v [] (omega arith) small in
      let lost =
        big_get-header mc s (count f v) f (index_bytes f v) (entries f v) few (omega arith) index
          (index_size_lem f v (omega arith))
        ∙ ap (fetch_all mc s) twice
        ∙ fetch_all-repeated s pre k n mid m post in
      memccached_get_nothing s key (header (count f v) f ++ index_bytes f v) e fields.0
        (omega arith) lost
