-- ===== src/Hashutil/Macros.antt =====
-- src/hashutil.c: the search that skips finds what a search at every position finds.
use memccache.Base.{
  ℕ, zero, suc, ◌+◌, ◌-◌, ◌%◌, ◌≤◌, ◌<◌, List, [], ◌∷◌, Bool, true, false, ◌&&◌, ◌||◌, ltb, ◌==◌,
  length, get_or, drop, All, Bytes, codes, starts_with, Bool-cases, inl, inr, ltb→lt, ltb→ge, ◌≡◌,
  refl, sym, ap, ap₂, ◌∙◌, arith,
}
use memccache.Hashutil.{macro_skip, skip, Found, check_at, macro_loop, check_for_temporal_macros}
use memccache.Hashutil.Words.{
  stands_at, stands_from, occurs, date_macro, time_macro, starts_with_macro, mark, check_at-mark,
}

abbrev IsSkip : ℕ → Type 0
IsSkip s = (1 ≤ s) × (s ≤ 8)

skips : All IsSkip macro_skip
skips = omega arith

get_or-All : (t : List ℕ) (i : ℕ) → All IsSkip t → i < length t → IsSkip (get_or t i 0)
get_or-All [] i p h = absurd (omega arith)
get_or-All (x ∷ t) zero (p, ps) h = p
get_or-All (x ∷ t) (suc i) (p, ps) h = get_or-All t i ps (omega arith)

skip_bounds : (c : ℕ) → IsSkip (skip c)
unfolding skip
skip_bounds c = get_or-All macro_skip (c % 256) skips (omega arith)

skip_eq : (x c n : ℕ) → (x == c) ≡ true → skip c ≤ n → skip x ≤ n
skip_eq x c n e h = let same : x ≡ c = ground arith in rw same h

parts :
    (a b c d e f g h : Bool)
    → (a && (b && (c && (d && (e && (f && (g && (h && true)))))))) ≡ true
    → (a ≡ true) × (b ≡ true) × (c ≡ true) × (d ≡ true) × (e ≡ true) × (f ≡ true) × (g ≡ true)
parts a b c d e f g h p = ground arith

skip_under : skip 95 ≡ 1
unfolding skip
skip_under = refl

skip_letter : skip 69 ≡ 2
unfolding skip
skip_letter = refl

skip_at :
    (str : Bytes) (p c d e j : ℕ)
    → j < 7
    → ((get_or str p 0 == 95) ≡ true)
      × ((get_or str (p + 1) 0 == 95) ≡ true)
      × ((get_or str (p + 2) 0 == c) ≡ true)
      × ((get_or str (p + 3) 0 == d) ≡ true)
      × ((get_or str (p + 4) 0 == e) ≡ true)
      × ((get_or str (p + 5) 0 == 69) ≡ true)
      × ((get_or str (p + 6) 0 == 95) ≡ true)
    → (skip c ≤ 5) × (skip d ≤ 4) × (skip e ≤ 3)
    → skip (get_or str (p + j) 0) ≤ 7 - j
skip_at str p c d e zero small (t₀, t₁, t₂, t₃, t₄, t₅, t₆) (kc, kd, ke) =
    let here : p + 0 ≡ p = omega arith in
    rw here (skip_eq (get_or str p 0) 95 7 t₀ (omega (arith, skip_under)))
skip_at str p c d e (suc zero) small (t₀, t₁, t₂, t₃, t₄, t₅, t₆) (kc, kd, ke) =
    skip_eq (get_or str (p + 1) 0) 95 6 t₁ (omega (arith, skip_under))
skip_at str p c d e (suc (suc zero)) small (t₀, t₁, t₂, t₃, t₄, t₅, t₆) (kc, kd, ke) =
    skip_eq (get_or str (p + 2) 0) c 5 t₂ kc
skip_at str p c d e (suc (suc (suc zero))) small (t₀, t₁, t₂, t₃, t₄, t₅, t₆) (kc, kd, ke) =
    skip_eq (get_or str (p + 3) 0) d 4 t₃ kd
skip_at str p c d e (suc (suc (suc (suc zero)))) small (t₀, t₁, t₂, t₃, t₄, t₅, t₆) (kc, kd, ke) =
    skip_eq (get_or str (p + 4) 0) e 3 t₄ ke
skip_at str p c d e (suc (suc (suc (suc (suc zero))))) small (t₀, t₁, t₂, t₃, t₄, t₅, t₆)
      (kc, kd, ke) =
    skip_eq (get_or str (p + 5) 0) 69 2 t₅ (omega (arith, skip_letter))
skip_at str p c d e (suc (suc (suc (suc (suc (suc zero)))))) small (t₀, t₁, t₂, t₃, t₄, t₅, t₆)
      (kc, kd, ke) =
    skip_eq (get_or str (p + 6) 0) 95 1 t₆ (omega (arith, skip_under))
skip_at str p c d e (suc (suc (suc (suc (suc (suc (suc j))))))) small t k = absurd (omega arith)

-- The skip from a character of a macro leads to its end at most.
skip_within :
    (str : Bytes) (p c d e j : ℕ)
    → starts_with (drop p str) (95 ∷ 95 ∷ c ∷ d ∷ e ∷ 69 ∷ 95 ∷ 95 ∷ []) ≡ true
    → (0 < c) × (0 < d) × (0 < e)
    → (skip c ≤ 5) × (skip d ≤ 4) × (skip e ≤ 3)
    → j < 7
    → skip (get_or str (p + j) 0) ≤ 7 - j
skip_within str p c d e j h (hc, hd, he) k small =
    skip_at str p c d e j small
      (parts _ _ _ _ _ _ _ _ (sym (starts_with_macro str p c d e hc hd he) ∙ h)) k

scan : ℕ → Bytes → ℕ → Found → Found
scan zero str p r = r
scan (suc k) str p r = scan k str (p + 1) (mark str p r)

scan_lem :
    (k : ℕ) (str : Bytes) (p : ℕ) (r : Found)
    → scan k str p r ≡ record {
      date = r.date || stands_from k p date_macro str;
      time = r.time || stands_from k p time_macro str;
    }
unfolding scan mark stands_from
scan_lem zero str p r = ground arith
scan_lem (suc k) str p r = scan_lem k str (p + 1) (mark str p r) ∙ ground arith

-- Positions where no macro stands can be left out.
scan_silent :
    (m k : ℕ) (str : Bytes) (q : ℕ) (r : Found)
    → ((j : ℕ)
        → j < m
        → (stands_at date_macro str (q + j) ≡ false) × (stands_at time_macro str (q + j) ≡ false))
    → scan k str q r ≡ scan (k - m) str (q + m) r
unfolding scan mark
scan_silent zero k str q r h =
    let k' : k ≡ k - 0 = omega arith in
    let q' : q ≡ q + 0 = omega arith in ap₂ (λ a b. scan a str b r) k' q'
scan_silent (suc m) zero str q r h =
    let none_left : 0 ≡ 0 - suc m = omega arith in ap (λ k. scan k str (q + suc m) r) none_left
scan_silent (suc m) (suc k) str q r h =
    let here : q + 0 ≡ q = omega arith in
    let (date, time) = rw here at (h 0 (omega arith)) in
    let silent : mark str q r ≡ r = unmarked date time in
    let end : q + 1 + m ≡ q + suc m = omega arith in
    let left : k - m ≡ suc k - suc m = omega arith in
    ap (scan k str (q + 1)) silent
    ∙ scan_silent m k str (q + 1) r later
    ∙ ap₂ (λ a b. scan a str b r) left end
  where
    unmarked :
        stands_at date_macro str q ≡ false → stands_at time_macro str q ≡ false → mark str q r ≡ r
    unmarked d t = rw (mark, d, t) (ground arith)

    later :
        (j : ℕ)
        → j < m
        → (stands_at date_macro str (q + 1 + j) ≡ false)
          × (stands_at time_macro str (q + 1 + j) ≡ false)
    later j l =
        let next : q + suc j ≡ q + 1 + j = omega arith in rw (← next) (h (suc j) (omega arith))

-- No macro ends at a position that the loop skips.
skipped :
    (str : Bytes) (p c d e j : ℕ)
    → (0 < c) × (0 < d) × (0 < e)
    → (skip c ≤ 5) × (skip d ≤ 4) × (skip e ≤ 3)
    → j + 1 < skip (get_or str (p + 7) 0)
    → stands_at (95 ∷ 95 ∷ c ∷ d ∷ e ∷ 69 ∷ 95 ∷ 95 ∷ []) str (p + 1 + j) ≡ false
unfolding stands_at
skipped str p c d e j hc k small =
    let word : Bytes = 95 ∷ 95 ∷ c ∷ d ∷ e ∷ 69 ∷ 95 ∷ 95 ∷ [] in
    let bound = skip_bounds (get_or str (p + 7) 0) in
    elim (Bool-cases (stands_at word str (p + 1 + j))) [
      | inr n ↦ n
      | inl y ↦
          let there : starts_with (drop (p + 1 + j) str) word ≡ true = and_left _ _ y in
          let place : p + 1 + j + (6 - j) ≡ p + 7 = omega arith in
          let near =
            rw place at (skip_within str (p + 1 + j) c d e (6 - j) there hc k (omega arith)) in
          absurd (omega arith)
    ]
  where
    and_left : (a b : Bool) → (a && b) ≡ true → a ≡ true
    and_left a b h = ground arith

date_skips : (skip 68 ≤ 5) × (skip 65 ≤ 4) × (skip 84 ≤ 3)
unfolding skip
date_skips = omega arith

time_skips : (skip 84 ≤ 5) × (skip 73 ≤ 4) × (skip 77 ≤ 3)
unfolding skip
time_skips = omega arith

macro_loop_lem :
    (f : ℕ) (str : Bytes) (i p : ℕ) (r : Found)
    → i ≡ p + 7
    → length str ≤ f + i
    → macro_loop f str i r ≡ scan (length str - i) str p r
unfolding macro_loop scan
macro_loop_lem zero str i p r e h =
    let done : 0 ≡ length str - i = omega arith in ap (λ k. scan k str p r) done
macro_loop_lem (suc f) str i p r e h = elim (Bool-cases (ltb i (length str))) [
  | inr out ↦
      let past = ltb→ge i (length str) out in
      let done : 0 ≡ length str - i = omega arith in
      rw (macro_loop, out) (ap (λ k. scan k str p r) done)
  | inl inside ↦
      let more = ltb→lt i (length str) inside in
      let s = skip (get_or str i 0) in
      let bound = skip_bounds (get_or str i 0) in
      let at_i : skip (get_or str (p + 7) 0) ≡ s = ap (λ k. skip (get_or str k 0)) (sym e) in
      let marked : check_at str i r ≡ mark str p r = rw e (check_at-mark str p r (omega arith)) in
      let silent = scan_silent (s - 1) (length str - i - 1) str (p + 1) (mark str p r) (λ j l. (
        skipped str p 68 65 84 j (omega arith) date_skips (omega arith),
        skipped str p 84 73 77 j (omega arith) time_skips (omega arith),
      )) in
      let left : length str - i - 1 - (s - 1) ≡ length str - (i + s) = omega arith in
      let place : p + 1 + (s - 1) ≡ p + s = omega arith in
      let rounds : suc (length str - i - 1) ≡ length str - i = omega arith in
      rw (macro_loop, inside)
        (macro_loop_lem f str (i + s) (p + s) (check_at str i r) (omega arith) (omega arith)
          ∙ ap (scan (length str - (i + s)) str (p + s)) marked
          ∙ sym (silent ∙ ap₂ (λ a b. scan a str b (mark str p r)) left place)
          ∙ ap (λ k. scan k str p r) rounds)
]

-- check_for_temporal_macros, which skips characters by a table, finds each of __DATE__ and
-- __TIME__ exactly if the word stands at some position of the text with no letter, digit or
-- underscore next to it.
pub check_for_temporal_macros_lem :
    (str : Bytes)
    → check_for_temporal_macros str
      ≡ record { date = occurs (codes "__DATE__") str; time = occurs (codes "__TIME__") str }
unfolding check_for_temporal_macros occurs
check_for_temporal_macros_lem str =
    macro_loop_lem (length str) str 7 0 (record { date = false; time = false }) (omega arith)
      (omega arith)
    ∙ scan_lem (length str - 7) str 0 (record { date = false; time = false })
