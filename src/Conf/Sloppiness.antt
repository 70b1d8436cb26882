-- ===== src/Conf/Sloppiness.antt =====
-- src/confitems.c: a printed sloppiness is read back.
use memccache.Base.{
  ℕ, zero, suc, ◌-◌, ◌<◌, ◌≡◌, refl, ap, ◌∙◌, length, take, Bytes, bytes_eq, none, some, Bool, true,
  false, ◌&&◌, ◌||◌, ◌==◌, arith, ltb, if◌then◌else◌, ==_iff, Bool-cases, inl, inr,
}
use memccache.Conf.Parsers.{
  Value, confitem_parse_sloppiness, confitem_format_sloppiness, sloppy_words, sloppy_word, or_words,
  tokens, split_words, add_word, add_sloppy, number_of,
}

and_left : (a b : Bool) → (a && b) ≡ true → a ≡ true
and_left true b h = refl
and_left false b h = h

and_right : (a b : Bool) → (a && b) ≡ true → b ≡ true
and_right true b h = h
and_right false b h = absurd (ground arith)

all_below : (ℕ → Bool) → ℕ → Bool
all_below p zero = true
all_below p (suc n) = p n && all_below p n

all_below_elim : (p : ℕ → Bool) (n v : ℕ) → all_below p n ≡ true → v < n → p v ≡ true
unfolding all_below
all_below_elim p zero v h b = absurd (omega arith)
all_below_elim p (suc n) v h b = elim (Bool-cases (v == n)) [
  | inl e ↦ let same : v ≡ n = (==_iff v n).0 e in ap p same ∙ and_left (p n) (all_below p n) h
  | inr e ↦
      let less : v < n = ground (arith, ==_iff v n) in
      all_below_elim p n v (and_right (p n) (all_below p n) h) less
]

-- The printed text of the bits, read into an empty field.
read_back : ℕ → ℕ
unfolding or_words tokens sloppy_words
read_back v =
    let s = sloppy_words v in or_words 0 (tokens (if v == 0 then s else take (length s - 2) s))

-- It is the same, and a word is printed for bits, so that the last separator can be cut off.
exact : ℕ → Bool
unfolding read_back sloppy_words
exact v = (read_back v == v) && ((v == 0) || ltb 0 (length (sloppy_words v)))

all_exact : all_below exact 512 ≡ true
unfolding all_below exact read_back or_words tokens sloppy_words sloppy_word split_words add_word
    add_sloppy bytes_eq
all_exact = refl

positive : (b : Bool) (l : ℕ) → b ≡ false → (b || ltb 0 l) ≡ true → l == 0 ≡ false
positive true l e h = absurd (ground arith)
positive false l e h = ground arith

module _ {D : Type 0} where
  pub parse_sloppiness-format :
      (v : ℕ)
      → v < 512
      → (str : Bytes) × (confitem_format_sloppiness {D = D} (Value.number v) ≡ some str)
        × (confitem_parse_sloppiness {D = D} str (Value.number 0) ≡ (Value.number v, none))
  unfolding confitem_format_sloppiness confitem_parse_sloppiness read_back exact number_of
  parse_sloppiness-format v h =
      let s = sloppy_words v in
      let good = all_below_elim exact 512 v all_exact h in
      let back : read_back v ≡ v =
        (==_iff (read_back v) v).0
          (and_left (read_back v == v) ((v == 0) || ltb 0 (length s)) good) in
      let words : ((v == 0) || ltb 0 (length s)) ≡ true =
        and_right (read_back v == v) ((v == 0) || ltb 0 (length s)) good in
      elim (Bool-cases (v == 0)) [
        | inl e ↦ (s, rw e, ap (λ n. (Value.number n, none)) (rw (read_back, e) at back))
        | inr e ↦
            let some_word : length s == 0 ≡ false = positive (v == 0) (length s) e words in
            (
              take (length s - 2) s,
              rw (e, some_word),
              ap (λ n. (Value.number n, none)) (rw (read_back, e) at back),
            )
      ]
