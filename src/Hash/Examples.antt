-- ===== src/Hash/Examples.antt =====
-- src/hash.c at two reads of a file.
use memccache.Base.{◌≡◌, [], ◌∷◌, true, arith, codes}
use memccache.Mdfour.{mdfour_begin, mdfour_update}
use memccache.Hash.{Read, hash_init, hash_fd}
use memccache.Hash.Feed.{hash_fd_lem}

hash_fd_lem_example :
    ((hash_fd hash_init
        (Read.bytes (codes "int ") ∷ Read.interrupted ∷ Read.bytes (codes "a;") ∷ [])).0.md
      ≡ mdfour_update mdfour_begin (codes "int a;"))
    × ((hash_fd hash_init
          (Read.bytes (codes "int ") ∷ Read.interrupted ∷ Read.bytes (codes "a;") ∷ [])).1
        ≡ true)
unfolding hash_init mdfour_begin
hash_fd_lem_example =
    hash_fd_lem hash_init
      (Read.bytes (codes "int ") ∷ Read.interrupted ∷ Read.bytes (codes "a;") ∷ []) (omega arith)
