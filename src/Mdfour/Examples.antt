-- ===== src/Mdfour/Examples.antt =====
-- src/mdfour.c at test inputs.
use memccache.Base.{◌≡◌, refl, [], ◌∷◌, ◌++◌, arith, codes}
use memccache.Mdfour.Update.{mdfour_update-append}
use memccache.Mdfour.{mdfour_begin, mdfour_update, update_loop, mdfour_result, mdfour_tail, copy4}

-- The digest of "abc" in RFC 1320.
digest_abc :
    mdfour_result (mdfour_update mdfour_begin (codes "abc"))
    ≡ 0xa4 ∷ 0x48 ∷ 0x01 ∷ 0x7a ∷ 0xaf ∷ 0x21 ∷ 0xd8 ∷ 0x52 ∷ 0x5f ∷ 0xc1 ∷ 0x0a ∷ 0xe8 ∷ 0x7a
      ∷ 0xa6 ∷ 0x72 ∷ 0x9d ∷ []
unfolding mdfour_begin mdfour_update update_loop mdfour_result mdfour_tail copy4
digest_abc = refl

mdfour_update-append_example :
    mdfour_update (mdfour_update mdfour_begin (codes "hello ")) (codes "world")
    ≡ mdfour_update mdfour_begin (codes "hello " ++ codes "world")
unfolding mdfour_begin
mdfour_update-append_example =
    mdfour_update-append mdfour_begin (codes "hello ") (codes "world") (omega arith)
