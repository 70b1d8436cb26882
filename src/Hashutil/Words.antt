-- ===== src/Hashutil/Words.antt =====
-- src/hashutil.c: the test of one position, and where a word stands in a text.
use memccache.Base.{
  ℕ, zero, suc, ◌+◌, ◌-◌, ◌<◌, [], ◌∷◌, Bool, true, false, ◌&&◌, ◌||◌, ltb, leb, ◌==◌,
  if◌then◌else◌, length, get_or, drop, Bytes, codes, starts_with, ◌≡◌, refl, ap, ◌∙◌, arith,
}
use memccache.Hashutil.{Found, is_border, looks_like_macro, is_date, is_time, check_at}

-- The word stands at p, and no character of an identifier before or behind it.
unfoldable pub stands_at : Bytes → Bytes → ℕ → Bool
stands_at word str p =
    starts_with (drop p str) word
    && ((p == 0 || is_border (get_or str (p - 1) 0))
        && (leb (length str) (p + 8) || is_border (get_or str (p + 8) 0)))

-- Whether it stands at one of the `k` positions from p on.
unfoldable pub stands_from : ℕ → ℕ → Bytes → Bytes → Bool
stands_from zero p word str = false
stands_from (suc k) p word str = stands_at word str p || stands_from k (p + 1) word str

-- Whether the word, of eight characters, stands anywhere in the text.
unfoldable pub occurs : Bytes → Bytes → Bool
unfolding stands_from stands_at
occurs word str = stands_from (length str - 7) 0 word str

abbrev pub date_macro : Bytes
date_macro = codes "__DATE__"

abbrev pub time_macro : Bytes
time_macro = codes "__TIME__"

starts_with-drop :
    (s : Bytes) (p c : ℕ) (w : Bytes)
    → 0 < c
    → starts_with (drop p s) (c ∷ w) ≡ ((get_or s p 0 == c) && starts_with (drop (p + 1) s) w)
unfolding starts_with
starts_with-drop [] zero c w h = ground arith
starts_with-drop [] (suc p) c w h = ground arith
starts_with-drop (x ∷ s) zero c w h = ground arith
starts_with-drop (x ∷ s) (suc p) c w h =
    starts_with-drop s p c w h
    ∙ ap (λ n. (get_or s p 0 == c) && starts_with (drop n (x ∷ s)) w)
        (let e : suc (p + 1) ≡ suc p + 1 = omega arith in e)

-- The text has `c` at p, and then what `rest` asks for.
starts_with_step :
    (s : Bytes) (p q c : ℕ) (w : Bytes) (rest : Bool)
    → 0 < c
    → p + 1 ≡ q
    → starts_with (drop q s) w ≡ rest
    → starts_with (drop p s) (c ∷ w) ≡ ((get_or s p 0 == c) && rest)
starts_with_step s p q c w rest h n e =
    starts_with-drop s p c w h
    ∙ ap (λ b. (get_or s p 0 == c) && b) (ap (λ m. starts_with (drop m s) w) n ∙ e)

starts_with_nil : (s : Bytes) → starts_with s [] ≡ true
unfolding starts_with
starts_with_nil [] = refl
starts_with_nil (x ∷ s) = refl

-- Eight characters, one by one.
pub starts_with_macro :
    (s : Bytes) (p c d e : ℕ)
    → 0 < c
    → 0 < d
    → 0 < e
    → starts_with (drop p s) (95 ∷ 95 ∷ c ∷ d ∷ e ∷ 69 ∷ 95 ∷ 95 ∷ []) ≡ (
        (get_or s p 0 == 95)
        && ((get_or s (p + 1) 0 == 95)
            && ((get_or s (p + 2) 0 == c)
                && ((get_or s (p + 3) 0 == d)
                    && ((get_or s (p + 4) 0 == e)
                        && ((get_or s (p + 5) 0 == 69)
                            && ((get_or s (p + 6) 0 == 95)
                                && ((get_or s (p + 7) 0 == 95) && true))))))))
starts_with_macro s p c d e hc hd he =
    let b : 0 < 95 = omega arith in
    let end = starts_with_nil (drop (p + 8) s) in
    starts_with_step s p (p + 1) 95 _ _ b refl (
      starts_with_step s (p + 1) (p + 2) 95 _ _ b (omega arith) (
        starts_with_step s (p + 2) (p + 3) c _ _ hc (omega arith) (
          starts_with_step s (p + 3) (p + 4) d _ _ hd (omega arith) (
            starts_with_step s (p + 4) (p + 5) e _ _ he (omega arith) (
              starts_with_step s (p + 5) (p + 6) 69 _ _ (omega arith) (omega arith) (
                starts_with_step s (p + 6) (p + 7) 95 _ _ b (omega arith)
                  (starts_with_step s (p + 7) (p + 8) 95 _ _ b (omega arith) end)))))))

-- The tests of the loop in another order.
same_tests :
    (l2 l3 l4 : ℕ) (e0 e1 e5 e6 e7 b a : Bool) (r : Found)
    → (if e5 && (e7 && (e0 && (e6 && (e1 && (b && a)))))
        then (if (l2 == 68) && ((l3 == 65) && (l4 == 84))
            then record r { date = true }
            else (if (l2 == 84) && ((l3 == 73) && (l4 == 77)) then record r { time = true } else r))
        else r)
      ≡ record {
        date =
            r.date
            || ((e0
                  && (e1
                      && ((l2 == 68)
                          && ((l3 == 65) && ((l4 == 84) && (e5 && (e6 && (e7 && true))))))))
                && (b && a));
        time =
            r.time
            || ((e0
                  && (e1
                      && ((l2 == 84)
                          && ((l3 == 73) && ((l4 == 77) && (e5 && (e6 && (e7 && true))))))))
                && (b && a));
      }
same_tests l2 l3 l4 e0 e1 e5 e6 e7 b a r = ground arith

unfoldable pub mark : Bytes → ℕ → Found → Found
mark str p r = record {
  date = r.date || stands_at date_macro str p;
  time = r.time || stands_at time_macro str p;
}

-- The loop's test at i is the test of the position 7 in front of it.
pub check_at-mark :
    (str : Bytes) (p : ℕ) (r : Found) → p + 7 < length str → check_at str (p + 7) r ≡ mark str p r
unfolding check_at looks_like_macro is_date is_time mark stands_at
check_at-mark str p r h =
    let d₁ : p + 7 - 1 ≡ p + 6 = omega arith in
    let d₂ : p + 7 - 2 ≡ p + 5 = omega arith in
    let d₃ : p + 7 - 3 ≡ p + 4 = omega arith in
    let d₄ : p + 7 - 4 ≡ p + 3 = omega arith in
    let d₅ : p + 7 - 5 ≡ p + 2 = omega arith in
    let d₆ : p + 7 - 6 ≡ p + 1 = omega arith in
    let d₇ : p + 7 - 7 ≡ p = omega arith in
    let d₈ : p + 7 - 8 ≡ p - 1 = omega arith in
    let behind : p + 7 + 1 ≡ p + 8 = omega arith in
    let start : ltb (p + 7) 8 ≡ (p == 0) = ground arith in
    let date = starts_with_macro str p 68 65 84 (omega arith) (omega arith) (omega arith) in
    let time = starts_with_macro str p 84 73 77 (omega arith) (omega arith) (omega arith) in
    rw
      (
        check_at, looks_like_macro, is_date, is_time, d₁, d₂, d₃, d₄, d₅, d₆, d₇, d₈, behind, start,
        mark, stands_at, date, time,
      )
      (same_tests (get_or str (p + 2) 0) (get_or str (p + 3) 0) (get_or str (p + 4) 0)
        (get_or str p 0 == 95) (get_or str (p + 1) 0 == 95) (get_or str (p + 5) 0 == 69)
        (get_or str (p + 6) 0 == 95) (get_or str (p + 7) 0 == 95)
        (p == 0 || is_border (get_or str (p - 1) 0))
        (leb (length str) (p + 8) || is_border (get_or str (p + 8) 0)) r)
