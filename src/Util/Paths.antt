-- ===== src/Util/Paths.antt =====
-- src/util.c: dirname and basename take a path apart.
use mathlib.Core.List.{reverse-append, reverse-reverse}
use mathlib.Core.Path.{subst}
use memccache.Base.{
  ℕ, [], ◌∷◌, ◌++◌, append_assoc, append-nil, reverse, All, some, false, ◌==◌, Bytes, ◌≡◌, ◌≢◌,
  refl, sym, ap, ◌∙◌, arith,
}
use memccache.Util.{before_slash, after_slash, basename, dirname}

-- No slash
abbrev pub IsName : Bytes → Type 0
IsName s = All (λ c. c ≢ 47) s

reverse-cons : (c : ℕ) (s : Bytes) → reverse (c ∷ s) ≡ reverse s ++ (c ∷ [])
reverse-cons c s = reverse-append (c ∷ []) s

IsName-append : (s t : Bytes) → IsName s → IsName t → IsName (s ++ t)
IsName-append [] t h k = k
IsName-append (c ∷ s) t (h, hs) k = (h, IsName-append s t hs k)

IsName-reverse : (s : Bytes) → IsName s → IsName (reverse s)
IsName-reverse [] h = tt
IsName-reverse (c ∷ s) (h, hs) =
    subst IsName (sym (reverse-cons c s))
      (IsName-append (reverse s) (c ∷ []) (IsName-reverse s hs) (h, tt))

before_slash-append : (s t : Bytes) → IsName s → before_slash (s ++ (47 ∷ t)) ≡ some t
unfolding before_slash
before_slash-append [] t h = refl
before_slash-append (c ∷ s) t (h, hs) =
    let differs : c == 47 ≡ false = ground arith in
    rw (before_slash, differs) (before_slash-append s t hs)

after_slash-append :
    (s t passed : Bytes) → IsName s → after_slash (s ++ (47 ∷ t)) passed ≡ reverse s ++ passed
unfolding after_slash
after_slash-append [] t passed h = refl
after_slash-append (c ∷ s) t passed (h, hs) =
    let differs : c == 47 ≡ false = ground arith in
    rw (after_slash, differs)
      (after_slash-append s t (c ∷ passed) hs
        ∙ sym (append_assoc (reverse s) (c ∷ []) passed)
        ∙ ap (λ l. l ++ passed) (sym (reverse-cons c s)))

reverse_path :
    (dir base : Bytes) → reverse (dir ++ (47 ∷ base)) ≡ reverse base ++ (47 ∷ reverse dir)
reverse_path dir base =
    reverse-append dir (47 ∷ base)
    ∙ ap (λ l. l ++ reverse dir) (reverse-cons 47 base)
    ∙ append_assoc (reverse base) (47 ∷ []) (reverse dir)

last_first : (c : ℕ) (s : Bytes) → (d : ℕ) × (t : Bytes) × (reverse (c ∷ s) ≡ d ∷ t)
last_first c s = go (reverse s) (reverse-cons c s)
  where
    go :
        (r : Bytes)
        → reverse (c ∷ s) ≡ r ++ (c ∷ [])
        → (d : ℕ) × (t : Bytes) × (reverse (c ∷ s) ≡ d ∷ t)
    go [] e = (c, [], e)
    go (d ∷ r) e = (d, r ++ (c ∷ []), e)

-- For a directory that is not empty and a name without a slash, dirname and basename of the two
-- joined by a slash are the directory and the name.
pub dirname-basename :
    (c : ℕ) (dir base : Bytes)
    → IsName base
    → (dirname ((c ∷ dir) ++ (47 ∷ base)) ≡ c ∷ dir) × (basename ((c ∷ dir) ++ (47 ∷ base)) ≡ base)
unfolding dirname basename
dirname-basename c dir base h =
    let back = reverse_path (c ∷ dir) base in
    let name = IsName-reverse base h in
    let (d, t, front) = last_first c dir in
    let found =
      ap before_slash back ∙ before_slash-append (reverse base) (reverse (c ∷ dir)) name in
    let found' : before_slash (reverse ((c ∷ dir) ++ (47 ∷ base))) ≡ some (d ∷ t) =
      found ∙ ap some front in
    (
      rw (dirname, found') (ap reverse (sym front) ∙ reverse-reverse (c ∷ dir)),
      ap (λ s. after_slash s []) back
          ∙ after_slash-append (reverse base) (reverse (c ∷ dir)) [] name
          ∙ append-nil (reverse (reverse base))
          ∙ reverse-reverse base,
    )
