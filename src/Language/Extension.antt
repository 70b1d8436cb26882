-- ===== src/Language/Extension.antt =====
-- src/util.c: a path is its name without the extension, and the extension.
use memccache.Base.{
  ◌-◌, [], ◌∷◌, ◌++◌, reverse, append-nil, append_assoc, length, length-append, take, take-append,
  Bool, true, false, ◌&&◌, ◌==◌, Bool-cases, inl, inr, Bytes, ◌≡◌, refl, sym, ap, ◌∙◌, arith, not,
}
use mathlib.Core.List.{reverse_aux, reverse-reverse}
use memccache.Language.{walk_back, get_extension, remove_extension}

reverse_aux_append : (xs ys : Bytes) → reverse_aux xs ys ≡ reverse_aux xs [] ++ ys
reverse_aux_append [] ys = refl
reverse_aux_append (x ∷ xs) ys =
    reverse_aux_append xs (x ∷ ys)
    ∙ sym (append_assoc (reverse_aux xs []) (x ∷ []) ys)
    ∙ ap (λ l. l ++ ys) (sym (reverse_aux_append xs (x ∷ [])))

reverse_aux-append :
    (xs ys acc : Bytes) → reverse_aux (xs ++ ys) acc ≡ reverse_aux ys (reverse_aux xs acc)
reverse_aux-append [] ys acc = refl
reverse_aux-append (x ∷ xs) ys acc = reverse_aux-append xs ys (x ∷ acc)

walk_back_suffix :
    (cs passed : Bytes) → (q : Bytes) × (reverse_aux cs passed ≡ q ++ walk_back cs passed)
unfolding walk_back
walk_back_suffix [] passed = (passed, sym (append-nil passed))
walk_back_suffix (c ∷ cs) passed = elim (Bool-cases (c == 46)) [
  | inl e ↦ (reverse_aux cs [], rw (walk_back, e) (reverse_aux_append cs (c ∷ passed)))
  | inr e ↦ elim (Bool-cases (c == 47)) [
    | inl e' ↦ (reverse_aux cs (c ∷ passed), rw (walk_back, e, e') (sym (append-nil _)))
    | inr e' ↦ let (q, h) = walk_back_suffix cs (c ∷ passed) in (q, rw (walk_back, e, e') h)
  ]
]

-- Every path is what remove_extension makes of it followed by its get_extension.
pub remove_extension-append-get_extension :
    (path : Bytes) → remove_extension path ++ get_extension path ≡ path
unfolding remove_extension get_extension
remove_extension-append-get_extension path =
    let ext = walk_back (reverse path) [] in
    let (q, h) = walk_back_suffix (reverse path) [] in
    let split : path ≡ q ++ ext = sym (reverse-reverse path) ∙ h in
    let size : length path - length ext ≡ length q =
      omega (arith, ap length split, length-append q ext) in
    ap (λ n. take n path ++ ext) size
    ∙ ap (λ l. take (length q) l ++ ext) split
    ∙ ap (λ l. l ++ ext) (take-append q ext)
    ∙ sym split

-- No dot and no slash.
unfoldable pub is_plain : Bytes → Bool
is_plain [] = true
is_plain (c ∷ w) = not (c == 46) && (not (c == 47) && is_plain w)

walk_back_plain :
    (v rest passed : Bytes)
    → is_plain v ≡ true
    → walk_back (v ++ 46 ∷ rest) passed ≡ 46 ∷ reverse_aux v passed
unfolding walk_back is_plain
walk_back_plain [] rest passed h = refl
walk_back_plain (c ∷ v) rest passed h =
    let dot : c == 46 ≡ false = ground arith in
    let slash : c == 47 ≡ false = ground arith in
    let plain : is_plain v ≡ true = ground arith in
    rw (walk_back, dot, slash) (walk_back_plain v rest (c ∷ passed) plain)

is_plain-reverse_aux :
    (w acc : Bytes) → is_plain w ≡ true → is_plain acc ≡ true → is_plain (reverse_aux w acc) ≡ true
unfolding is_plain
is_plain-reverse_aux [] acc h h' = h'
is_plain-reverse_aux (c ∷ w) acc h h' =
    is_plain-reverse_aux w (c ∷ acc) (ground arith) (ground arith)

pub get_extension-append :
    (base w : Bytes) → is_plain w ≡ true → get_extension (base ++ 46 ∷ w) ≡ 46 ∷ w
unfolding get_extension is_plain
get_extension-append base w h =
    ap (λ l. walk_back l [])
      (reverse_aux-append base (46 ∷ w) [] ∙ reverse_aux_append w (46 ∷ reverse_aux base []))
    ∙ walk_back_plain (reverse_aux w []) (reverse_aux base []) [] (is_plain-reverse_aux w [] h refl)
    ∙ ap (λ l. 46 ∷ l) (reverse-reverse w)
