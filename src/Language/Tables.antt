-- ===== src/Language/Tables.antt =====
-- src/language.c: the two tables fit together.
use memccache.Base.{
  List, [], ◌∷◌, ◌++◌, Bool, true, false, ◌&&◌, Option, none, some, ◌==◌, Bool-cases, Option-cases,
  inl, inr, Bytes, bytes_eq, bytes_eq_sound, bytes_eq_refl, ◌≡◌, refl, sym, ap, ap₂, ◌∙◌, arith,
}
use memccache.Language.{
  extensions, languages, get_extension, lookup, lookup_second, language_for_file,
  p_language_for_language, extension_for_language, language_is_supported, language_is_preprocessed,
}
use memccache.Language.Extension.{is_plain, get_extension-append}

every : (Bytes → Bytes → Bool) → List (Bytes × Bytes) → Bool
every test [] = true
every test ((k, v) ∷ t) = test k v && every test t

lookup-every :
    (test : Bytes → Bytes → Bool) (t : List (Bytes × Bytes)) (key v : Bytes)
    → every test t ≡ true
    → lookup key t ≡ some v
    → test key v ≡ true
unfolding every lookup
lookup-every test [] key v h e = ground arith
lookup-every test ((k, x) ∷ t) key v h e = elim (Bool-cases (bytes_eq key k)) [
  | inl q ↦
      let same = bytes_eq_sound key k q in
      let e' : some x ≡ some v = rw (lookup, q) at e in
      let found : x ≡ v = ground arith in
      let first : test k x ≡ true = ground arith in ap₂ test same (sym found) ∙ first
  | inr q ↦ lookup-every test t key v (ground arith) (rw (lookup, q) at e)
]

lookup_second-every :
    (test : Bytes → Bytes → Bool) (t : List (Bytes × Bytes)) (key k : Bytes)
    → every test t ≡ true
    → lookup_second key t ≡ some k
    → test k key ≡ true
unfolding every lookup_second
lookup_second-every test [] key v h e = ground arith
lookup_second-every test ((x, v) ∷ t) key k h e = elim (Bool-cases (bytes_eq key v)) [
  | inl q ↦
      let same = bytes_eq_sound key v q in
      let e' : some x ≡ some k = rw (lookup_second, q) at e in
      let found : x ≡ k = ground arith in
      let first : test x v ≡ true = ground arith in ap₂ test (sym found) same ∙ first
  | inr q ↦ lookup_second-every test t key k (ground arith) (rw (lookup_second, q) at e)
]

is_row : List (Bytes × Bytes) → Bytes → Bytes → Bool
is_row t k v = elim (lookup k t) [ none ↦ false | some x ↦ bytes_eq x v ]

is_row_sound : (t : List (Bytes × Bytes)) (k v : Bytes) → is_row t k v ≡ true → lookup k t ≡ some v
unfolding is_row
is_row_sound t k v h = elim (Option-cases (lookup k t)) [
  | inl e ↦ ground arith
  | inr (x, e) ↦ e ∙ ap some (bytes_eq_sound x v (rw (is_row, e) at h))
]

supported_table : every (λ k v. language_is_supported (some v)) extensions ≡ true
unfolding every language_is_supported p_language_for_language lookup bytes_eq
supported_table = refl

-- A language that language_for_file gives is one that language_is_supported accepts.
pub language_for_file-supported :
    (fname language : Bytes)
    → language_for_file fname ≡ some language
    → language_is_supported (some language) ≡ true
unfolding language_for_file
language_for_file-supported fname language h =
    lookup-every (λ k v. language_is_supported (some v)) extensions (get_extension fname) language
      supported_table h

preprocessed_table : every (λ k v. is_row languages v v) languages ≡ true
unfolding every is_row lookup bytes_eq
preprocessed_table = refl

-- If p_language_for_language gives a language, then language_is_preprocessed answers true for
-- the language given, and its assertion holds.
pub language_is_preprocessed-p_language :
    (language p : Bytes)
    → p_language_for_language (some language) ≡ some p
    → language_is_preprocessed (some p) ≡ some true
unfolding p_language_for_language language_is_preprocessed
language_is_preprocessed-p_language language p h =
    let row =
      lookup-every (λ k v. is_row languages v v) languages language p preprocessed_table h in
    let answer : Option Bytes → Option Bool =
      λ o. elim o [ none ↦ none | some p_language ↦ some (bytes_eq p p_language) ] in
    ap answer (is_row_sound languages p p row) ∙ ap some (bytes_eq_refl p)

-- The file names of a row of extensions: a dot, a plain rest, and the row is the first with it.
is_usable : Bytes → Bytes → Bool
is_usable [] language = false
is_usable (c ∷ w) language = (c == 46) && (is_plain w && is_row extensions (c ∷ w) language)

usable_table : every is_usable extensions ≡ true
unfolding every is_usable is_plain is_row lookup bytes_eq
usable_table = refl

language_for_usable :
    (base extension language : Bytes)
    → is_usable extension language ≡ true
    → language_for_file (base ++ extension) ≡ some language
unfolding is_usable language_for_file
language_for_usable base [] language h = ground arith
language_for_usable base (c ∷ w) language h =
    let dot : c ≡ 46 = ground arith in
    let plain : is_plain w ≡ true = ground arith in
    let row : is_row extensions (c ∷ w) language ≡ true = ground arith in
    let found = is_row_sound extensions (c ∷ w) language row in
    ap (λ d. lookup (get_extension (base ++ d ∷ w)) extensions) dot
    ∙ ap (λ e. lookup e extensions) (get_extension-append base w plain)
    ∙ ap (λ d. lookup (d ∷ w) extensions) (sym dot)
    ∙ found

-- If extension_for_language gives an extension for a language, then every name that ends in
-- that extension is, for language_for_file, a file of that language.
pub language_for_file-extension_for_language :
    (base language extension : Bytes)
    → extension_for_language (some language) ≡ some extension
    → language_for_file (base ++ extension) ≡ some language
unfolding extension_for_language
language_for_file-extension_for_language base language extension h =
    language_for_usable base extension language
      (lookup_second-every is_usable extensions language extension usable_table h)
