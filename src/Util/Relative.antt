-- ===== src/Util/Relative.antt =====
-- src/util.c: common_dir_prefix_length and get_relative_path for POSIX.
-- A path is its bytes without the final NUL, which is read as 0 behind them.
use mathlib.Core.Path.{subst}
use memccache.Base.{
  All, ==_refl, ltb→lt, ltb→ge, ℕ, zero, suc, ◌+◌, ◌≤◌, ◌<◌, [], ◌∷◌, ◌++◌, Bool, true, false, not,
  ◌&&◌, ◌||◌, Option, none, some, ltb, ◌==◌, if◌then◌else◌, length, get_or, take, drop, reverse,
  Bool-cases, inl, inr, Bytes, codes, bytes_eq, ◌≡◌, refl, arith,
}

-- The first loop.
unfoldable pub same_length : Bytes → Bytes → ℕ
same_length [] s2 = 0
same_length (c ∷ s1) [] = 0
same_length (c ∷ s1) (d ∷ s2) =
    let rest = same_length s1 s2 in if not (c == 0) && (c == d) then suc rest else 0

-- The end of the path or a slash
unfoldable pub at_boundary : Bytes → ℕ → Bool
at_boundary s i = (get_or s i 0 == 0) || (get_or s i 0 == 47)

-- The second loop; `none` where it would leave the strings.
unfoldable pub step_back : Bytes → Bytes → ℕ → Option ℕ
unfolding at_boundary
step_back s1 s2 zero = if at_boundary s1 0 && at_boundary s2 0 then some 0 else none
step_back s1 s2 (suc i) =
    let rest = step_back s1 s2 i in
    if at_boundary s1 (suc i) && at_boundary s2 (suc i) then some (suc i) else rest

unfoldable pub common_dir_prefix_length : Bytes → Bytes → Option ℕ
unfolding same_length step_back
common_dir_prefix_length s1 s2 = elim (step_back s1 s2 (same_length s1 s2)) [
  | none ↦ none
  | some n ↦ if (get_or s1 n 0 == 0) && ((get_or s2 n 0 == 0) && (n == 1)) then some 0 else some n
]

-- "../" for each slash
unfoldable pub go_up : Bytes → Bytes
go_up [] = []
go_up (c ∷ cs) = let rest = go_up cs in if c == 47 then codes "../" ++ rest else rest

-- A reversed path without the slashes at its end.
unfoldable pub drop_slashes : Bytes → Bytes
drop_slashes [] = []
drop_slashes (c ∷ cs) = let rest = drop_slashes cs in if c == 47 then rest else c ∷ cs

abbrev pub is_absolute_path : Bytes → Bool
is_absolute_path path = get_or path 0 0 == 47

unfoldable pub get_relative_path : Bytes → Bytes → Option Bytes
unfolding common_dir_prefix_length go_up drop_slashes
get_relative_path from to =
    if not (is_absolute_path to) then some to else elim (common_dir_prefix_length from to) [
      | none ↦ none
      | some n ↦
          let up = if ltb 0 n || not (bytes_eq from (codes "/")) then go_up (drop n from) else [] in
          let down = if ltb n (length to) then up ++ drop (n + 1) to else up in
          let result = reverse (drop_slashes (reverse down)) in
          some (if length result == 0 then codes "." else result)
    ]

take-same_length :
    (s1 s2 : Bytes) (n : ℕ)
    → n ≤ same_length s1 s2
    → (n ≤ length s1) × (n ≤ length s2) × (take n s1 ≡ take n s2)
unfolding same_length
take-same_length s1 s2 zero h = (omega arith, omega arith, refl)
take-same_length [] s2 (suc n) h = absurd (omega arith)
take-same_length (c ∷ s1) [] (suc n) h = absurd (omega arith)
take-same_length (c ∷ s1) (d ∷ s2) (suc n) h = elim (Bool-cases (not (c == 0) && (c == d))) [
  | inr e ↦ absurd (ground arith)
  | inl e ↦
      let same : c ≡ d = ground arith in
      let (l1, l2, t) = take-same_length s1 s2 n (ground arith) in
      (omega arith, omega arith, rw (same, t))
]

step_back_lem :
    (s1 s2 : Bytes) (i : ℕ)
    → (at_boundary s1 0 ≡ true) × (at_boundary s2 0 ≡ true)
    → (n : ℕ) × (step_back s1 s2 i ≡ some n)
      × (n ≤ i)
      × (at_boundary s1 n ≡ true)
      × (at_boundary s2 n ≡ true)
      × ((k : ℕ) → n < k → k ≤ i → (at_boundary s1 k && at_boundary s2 k) ≡ false)
unfolding step_back
step_back_lem s1 s2 zero (a, b) =
    (0, rw (step_back, a, b), omega arith, a, b, λ k more less. absurd (omega arith))
step_back_lem s1 s2 (suc i) (a, b) =
    elim (Bool-cases (at_boundary s1 (suc i) && at_boundary s2 (suc i))) [
      | inl e ↦ (
        suc i,
        rw (step_back, e),
        omega arith,
        ground arith,
        ground arith,
        λ k more less. absurd (omega arith),
      )
      | inr e ↦
          let (n, r, less, c, d, none_between) = step_back_lem s1 s2 i (a, b) in
          (
            n,
            rw (step_back, e) r,
            omega arith,
            c,
            d,
            λ k more below. elim (Bool-cases (k == suc i)) [
              | inl same ↦
                  let last : suc i ≡ k = ground arith in
                  subst (λ m. (at_boundary s1 m && at_boundary s2 m) ≡ false) last e
              | inr before ↦ none_between k more (ground arith)
            ],
          )
    ]

-- Where two paths without NUL have the same bytes in front, the first loop does not stop.
same_length-longest :
    (s1 s2 : Bytes) (k : ℕ)
    → All (λ c. (c == 0) ≡ false) s1
    → k ≤ length s1
    → k ≤ length s2
    → take k s1 ≡ take k s2
    → k ≤ same_length s1 s2
unfolding same_length
same_length-longest s1 s2 zero h l1 l2 e = omega arith
same_length-longest [] s2 (suc k) h l1 l2 e = absurd (omega arith)
same_length-longest (c ∷ s1) [] (suc k) h l1 l2 e = absurd (omega arith)
same_length-longest (c ∷ s1) (d ∷ s2) (suc k) (nonzero, h) l1 l2 e =
    let same : c ≡ d = ground arith in
    let equal : (c == d) ≡ true = rw same (==_refl d) in
    let rest : take k s1 ≡ take k s2 = ground arith in
    let more = same_length-longest s1 s2 k h (omega arith) (omega arith) rest in
    rw (nonzero, equal) (omega arith)

-- The length is one at which both paths have the same bytes in front and both end or go on with a
-- slash behind them.
abbrev pub IsCommonDir : Bytes → Bytes → ℕ → Type 0
IsCommonDir s1 s2 k =
    (k ≤ length s1)
    × (k ≤ length s2)
    × (take k s1 ≡ take k s2)
    × ((at_boundary s1 k && at_boundary s2 k) ≡ true)

-- 0 for two paths of one byte
abbrev pub root_is_empty : Bytes → Bytes → ℕ → ℕ
root_is_empty s1 s2 n = if (length s1 == 1) && (length s2 == 1) then 0 else n

ends_at :
    (s : Bytes) (n : ℕ)
    → All (λ c. (c == 0) ≡ false) s
    → n ≤ length s
    → (get_or s n 0 == 0) ≡ (length s == n)
ends_at [] zero h l = refl
ends_at [] (suc n) h l = absurd (omega arith)
ends_at (c ∷ s) zero (nonzero, h) l = ground arith
ends_at (c ∷ s) (suc n) (nonzero, h) l = let rest = ends_at s n h (omega arith) in ground arith

one_byte :
    (s1 s2 : Bytes)
    → get_or s1 0 0 ≡ 47
    → get_or s2 0 0 ≡ 47
    → length s1 ≡ 1
    → length s2 ≡ 1
    → IsCommonDir s1 s2 1
unfolding at_boundary
one_byte [] s2 a b l m = absurd (omega arith)
one_byte (c ∷ s1) [] a b l m = absurd (omega arith)
one_byte (c ∷ []) (d ∷ []) a b l m = (omega arith, omega arith, rw (a, b), refl)
one_byte (c ∷ []) (d ∷ e ∷ s2) a b l m = absurd (omega arith)
one_byte (c ∷ e ∷ s1) (d ∷ s2) a b l m = absurd (omega arith)

-- For two paths that begin with a slash, common_dir_prefix_length stays inside both strings and
-- yields the longest length at which two paths without NUL have the same bytes in front and
-- both end or go on with a slash behind them, but 0 where that is both paths as a whole and
-- they are of one byte.
pub common_dir_prefix_length_lem :
    (s1 s2 : Bytes)
    → get_or s1 0 0 ≡ 47
    → get_or s2 0 0 ≡ 47
    → All (λ c. (c == 0) ≡ false) s1
    → All (λ c. (c == 0) ≡ false) s2
    → (n : ℕ) × (common_dir_prefix_length s1 s2 ≡ some (root_is_empty s1 s2 n))
      × IsCommonDir s1 s2 n
      × ((k : ℕ) → IsCommonDir s1 s2 k → k ≤ n)
unfolding common_dir_prefix_length at_boundary
common_dir_prefix_length_lem s1 s2 a b nonzero nonzero' =
    let starts : (at_boundary s1 0 ≡ true) × (at_boundary s2 0 ≡ true) = (rw a, rw b) in
    let (n, r, less, c, d, none_between) = step_back_lem s1 s2 (same_length s1 s2) starts in
    let (l1, l2, same) = take-same_length s1 s2 n less in
    let longest : (k : ℕ) → IsCommonDir s1 s2 k → k ≤ n = λ k (k1, k2, e, boundary).
      let below = same_length-longest s1 s2 k nonzero k1 k2 e in
      elim (Bool-cases (ltb n k)) [
        | inr le ↦ ltb→ge n k le
        | inl more ↦ let not_here = none_between k (ltb→lt n k more) below in absurd (ground arith)
      ] in
    (n, run n r l1 l2 (longest 1), (l1, l2, same, rw (c, d)), longest)
  where
    run :
        (n : ℕ)
        → step_back s1 s2 (same_length s1 s2) ≡ some n
        → n ≤ length s1
        → n ≤ length s2
        → (IsCommonDir s1 s2 1 → 1 ≤ n)
        → common_dir_prefix_length s1 s2 ≡ some (root_is_empty s1 s2 n)
    run n r l1 l2 one =
        let e1 = ends_at s1 n nonzero l1 in
        let e2 = ends_at s2 n nonzero' l2 in
        elim (Bool-cases ((length s1 == 1) && (length s2 == 1))) [
          | inl e ↦
              let n1 = one (one_byte s1 s2 a b (ground arith) (ground arith)) in
              let whole : ((get_or s1 n 0 == 0) && ((get_or s2 n 0 == 0) && (n == 1))) ≡ true =
                ground arith in
              rw (common_dir_prefix_length, r, whole, e)
          | inr e ↦
              let not_whole : ((get_or s1 n 0 == 0) && ((get_or s2 n 0 == 0) && (n == 1))) ≡ false =
                ground arith in
              rw (common_dir_prefix_length, r, not_whole, e)
        ]
