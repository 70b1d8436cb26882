-- ===== src/Mdfour/Result.antt =====
-- mdfour_result of src/mdfour.c: the shape of a digest.
use memccache.Base.{ℕ, ◌≡◌, refl, ◌++◌, arith, length, length-append}
use memccache.Mdfour.{Mdfour, copy4, mdfour_tail, mdfour_result}

length-copy4 : (x : ℕ) → length (copy4 x) ≡ 4
unfolding copy4
length-copy4 x = refl

pub length-mdfour_result : (md : Mdfour) → length (mdfour_result md) ≡ 16
unfolding mdfour_result
length-mdfour_result md =
    let r = mdfour_tail md md.tail in
    omega (
      arith,
      length-append (copy4 r.a) (copy4 r.b ++ (copy4 r.c ++ copy4 r.d)),
      length-append (copy4 r.b) (copy4 r.c ++ copy4 r.d),
      length-append (copy4 r.c) (copy4 r.d),
      length-copy4 r.a,
      length-copy4 r.b,
      length-copy4 r.c,
      length-copy4 r.d,
    )
