-- ===== src/Hash/Feed.antt =====
-- src/hash.c: what is fed to the digest, whatever the pieces and the debug logs.
use memccache.Base.{◌<◌, List, [], ◌∷◌, ◌++◌, Bool, true, false, length, Bytes, ◌≡◌, refl, sym, ◌∙◌}
use memccache.Mdfour.{mdfour_update}
use memccache.Mdfour.Update.{mdfour_update-append, mdfour_update_tail, mdfour_update-nil}
use memccache.Hash.{Hash, Read, do_hash_buffer, do_debug_text, hash_fd}

-- The bytes that reads deliver before an error, and whether there is none.
abbrev pub delivered : List Read → Bytes
delivered [] = []
delivered (Read.bytes s ∷ r) = s ++ delivered r
delivered (Read.interrupted ∷ r) = delivered r
delivered (Read.failed ∷ r) = []

abbrev pub is_complete : List Read → Bool
is_complete [] = true
is_complete (Read.bytes s ∷ r) = is_complete r
is_complete (Read.interrupted ∷ r) = is_complete r
is_complete (Read.failed ∷ r) = false

-- If the tail of the digest state is shorter than 64 bytes, hash_fd leaves the digest state
-- that the bytes read before an error give in one piece, whatever the sizes of the reads,
-- interrupted reads count for nothing, and the result is true exactly if no read fails
-- otherwise.
pub hash_fd_lem :
    (hash : Hash) (reads : List Read)
    → length hash.md.tail < 64
    → ((hash_fd hash reads).0.md ≡ mdfour_update hash.md (delivered reads))
      × ((hash_fd hash reads).1 ≡ is_complete reads)
unfolding hash_fd
hash_fd_lem hash [] short = (sym (mdfour_update-nil hash.md short), refl)
hash_fd_lem hash (Read.bytes s ∷ r) short =
    let (fed, end) =
      hash_fd_lem (do_debug_text (do_hash_buffer hash s) s) r
        (mdfour_update_tail hash.md s short) in
    (fed ∙ mdfour_update-append hash.md s (delivered r) short, end)
hash_fd_lem hash (Read.interrupted ∷ r) short = hash_fd_lem hash r short
hash_fd_lem hash (Read.failed ∷ r) short = (sym (mdfour_update-nil hash.md short), refl)
