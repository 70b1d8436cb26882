-- ===== src/Memccached/Examples.antt =====
-- src/memccached.c with a map as the server.
use memccache.Base.{
  ◌≡◌, refl, ◌⊎◌, List, [], ◌∷◌, ◌++◌, Option, none, some, arith, if◌then◌else◌, Bytes, codes,
  bytes_eq, bytes_eq_refl, starts_with,
}
use memccache.Base.Endian.{htonl}
use memccache.Memccached.{
  Memcached, Fetch, Parts, found, missing, nothing, encode, max_value_size, put_buffer,
  memccached_set, memccached_get, Slots, fetch_all, fetch_loop, gather,
}
use memccache.Memccached.Frame.{IsSmall}
use memccache.Memccached.Small.{memccached_get-set, memccached_get_sound}
use memccache.Memccached.Chunks.{has_key, fetch_loop-gather}
use memccache.Memccached.Big.Repeated.{repeated, fetch_all-repeated}

abbrev Server : Type 0
Server = Bytes → Option Bytes

answer : Server → List Bytes → List Fetch
answer s [] = []
answer s (k ∷ ks) = elim (s k) [ none ↦ answer s ks | some v ↦ Fetch.chunk k v ∷ answer s ks ]

abbrev server : Memcached Server
server = record {
  store = λ s k v. (λ j. if bytes_eq j k then some v else s j, 0);
  fetch = λ s k. s k;
  delete = λ s k. (λ j. if bytes_eq j k then none else s j, 0);
  mget = λ s ks. (0, answer s ks);
}

abbrev empty : Server
empty = λ k. none

abbrev result : Parts
result = record { obj = codes "object"; stderr = codes "warning"; dia = []; dep = codes "a.h" }

result-IsSmall : IsSmall result
result-IsSmall = record {
  obj_fits = omega arith;
  stderr_fits = omega arith;
  dia_fits = omega arith;
  dep_fits = omega arith;
}

memccached_get-set_example :
    memccached_get server (memccached_set server empty (codes "key") result).0 (codes "key")
    ≡ ((memccached_set server empty (codes "key") result).0, found result)
unfolding encode put_buffer max_value_size memccached_set htonl
memccached_get-set_example =
    memccached_get-set server empty (codes "key") result (λ s k v ok. rw (bytes_eq_refl k))
      result-IsSmall (omega arith) refl

abbrev holding : Server
holding = λ k. some (encode result)

memccached_get_sound_example :
    ((p : Parts) × (r : Bytes) × (encode result ≡ encode p ++ r)
      × (memccached_get server holding (codes "key") ≡ (holding, found p)))
    ⊎ (memccached_get server holding (codes "key")
        ≡ ((server.delete holding (codes "key")).0, missing))
unfolding encode put_buffer starts_with htonl
memccached_get_sound_example =
    memccached_get_sound server holding (codes "key") (encode result) refl refl (omega arith)

fetch_all-repeated_example :
    fetch_all server (λ k. some (codes "x")) (repeated [] (codes "k") 1 ((codes "j", 1) ∷ []) 1 [])
    ≡ nothing
fetch_all-repeated_example =
    fetch_all-repeated server (λ k. some (codes "x")) [] (codes "k") 1 ((codes "j", 1) ∷ []) 1 []

abbrev chunks : Bytes → Option Bytes
chunks k = if bytes_eq k (codes "j") then some (codes "lo") else some (codes "hel")

-- The chunks of an index, delivered in the other order.
fetch_loop-gather_example :
    (slots : Slots) × (fetch_loop
        ((codes "k", 3) ∷ (codes "j", 2) ∷ [])
        (none ∷ none ∷ [])
        (Fetch.chunk (codes "j") (codes "lo") ∷ Fetch.chunk (codes "k") (codes "hel") ∷ [])
      ≡ some slots)
    × (gather slots ≡ some (codes "hello"))
unfolding has_key bytes_eq
fetch_loop-gather_example =
    fetch_loop-gather chunks ((codes "k", 3) ∷ (codes "j", 2) ∷ [])
      (Fetch.chunk (codes "j") (codes "lo") ∷ Fetch.chunk (codes "k") (codes "hel") ∷ [])
      (refl, (refl, tt)) ((codes "hel", refl, refl), ((codes "lo", refl, refl), tt))
      (refl, refl, refl, (refl, refl, refl, tt)) (refl, (refl, tt))
