-- ===== src/Memccached/Big/Examples.antt =====
-- src/memccached.c: a map as the server delivers every key that it has, and a big value in it.
use memccache.Base.{
  ◌<◌, ◌≡◌, refl, List, [], ◌∷◌, true, false, ◌||◌, Option, none, some, arith, if◌then◌else◌, Bytes,
  codes, bytes_eq, bytes_eq_refl, starts_with, length, ap, ◌∙◌,
}
use memccache.Memccached.{
  Memcached, Fetch, keys_of, big_set, big_get, magic_big, whole, chunk_key, max_value_size,
  set_chunks,
}
use memccache.Base.Decimal.{hex2}
use memccache.Util.{format_hash_as_string}
use memccache.Memccached.Chunks.{Entries, has_key, IsDistinct, delivered, Has, Answers, AllOf}
use memccache.Memccached.Big.Index.{entries, Keeps}
use memccache.Memccached.Big.RoundTrip.{MgetDelivers, big_get-big_set}

abbrev Map : Type 0
Map = Bytes → Option Bytes

reply : Map → List Bytes → List Fetch
reply s [] = []
reply s (k ∷ ks) = elim (s k) [ none ↦ reply s ks | some v ↦ Fetch.chunk k v ∷ reply s ks ]

abbrev map_server : Memcached Map
map_server = record {
  store = λ s k v. (λ j. if bytes_eq j k then some v else s j, 0);
  fetch = λ s k. s k;
  delete = λ s k. (λ j. if bytes_eq j k then none else s j, 0);
  mget = λ s ks. (0, reply s ks);
}

delivered-reply :
    (s : Map) (k : Bytes) (es : Entries)
    → Has s es
    → delivered k (reply s (keys_of es)) ≡ has_key k es
unfolding reply keys_of has_key
delivered-reply s k [] h = refl
delivered-reply s k ((j, n) ∷ es) ((v, e, len), h) =
    rw (reply, e) (ap (λ b. bytes_eq k j || b) (delivered-reply s k es h))

Answers-reply :
    (s : Map) (all es : Entries)
    → ((k : Bytes) → has_key k es ≡ true → has_key k all ≡ true)
    → IsDistinct es
    → Has s es
    → Answers s all (reply s (keys_of es))
unfolding reply keys_of has_key
Answers-reply s all [] sub d h = tt
Answers-reply s all ((k, n) ∷ es) sub (new, d) ((v, e, len), h) =
    rw (reply, e)
      (
        sub k (rw (bytes_eq_refl k)),
        e,
        delivered-reply s k es h ∙ new,
        Answers-reply s all es (λ j p. sub j (ground arith)) d h,
      )

AllOf_lem :
    (rs : List Fetch) (es : Entries)
    → ((k : Bytes) → has_key k es ≡ true → delivered k rs ≡ true)
    → AllOf rs es
unfolding has_key
AllOf_lem rs [] p = tt
AllOf_lem rs ((k, n) ∷ es) p =
    (p k (rw (bytes_eq_refl k)), AllOf_lem rs es (λ j q. p j (ground arith)))

map_server-MgetDelivers : MgetDelivers map_server
map_server-MgetDelivers s es nonempty d h = (
  refl,
  Answers-reply s es es (λ k p. p) d h,
  AllOf_lem (reply s (keys_of es)) es (λ k p. delivered-reply s k es h ∙ p),
)

map_server-Keeps : Keeps map_server
map_server-Keeps s k v ok j = refl

abbrev stored : Map
stored = (big_set map_server (λ k. none) (codes "key") (codes "abc")).0

one_chunk : IsDistinct (entries 3 (codes "abc"))
unfolding entries has_key max_value_size
one_chunk = (refl, tt)

chunk_apart : has_key (codes "key") (entries 3 (codes "abc")) ≡ false
unfolding entries has_key max_value_size chunk_key format_hash_as_string hex2 bytes_eq
chunk_apart = ground arith

all_stored : (big_set map_server (λ k. none) (codes "key") (codes "abc")).1 ≡ 0
unfolding big_set set_chunks max_value_size
all_stored = refl

big_get-big_set_example :
    (blob : Bytes) × (stored (codes "key") ≡ some blob)
    × (starts_with blob magic_big ≡ true)
    × (4 < length blob)
    × (big_get map_server stored blob ≡ whole (codes "abc"))
big_get-big_set_example =
    big_get-big_set map_server (λ k. none) (codes "key") (codes "abc") map_server-Keeps
      map_server-MgetDelivers (omega arith) (omega arith) one_chunk chunk_apart all_stored
