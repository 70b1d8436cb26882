-- ===== src/Cachepath/Distinct.antt =====
-- src/ccache.c: different names have different files in the cache.
use mathlib.Core.List.{append_cancel_left, append_cancel_right}
use memccache.Base.{
  ℕ, zero, suc, [], ◌∷◌, ◌++◌, append_assoc, append-nil, Option, none, some, Bytes, drop, get_or,
  ◌≡◌, refl, sym, ap, ap₂, ◌∙◌, arith,
}
use memccache.Cachepath.{add_levels, get_path_in_cache}

add_levels_starts :
    (n : ℕ) (path name q : Bytes) → add_levels n path name ≡ some q → (t : Bytes) × (q ≡ path ++ t)
unfolding add_levels
add_levels_starts zero path name q h = ([], ground (arith, append-nil path))
add_levels_starts (suc n) path [] q h = absurd (ground arith)
add_levels_starts (suc n) path (c ∷ name) q h =
    let (t, e) = add_levels_starts n (path ++ (b'/' ∷ c ∷ [])) name q h in
    (b'/' ∷ c ∷ t, e ∙ append_assoc path (b'/' ∷ c ∷ []) t)

add_levels_distinct :
    (n : ℕ) (path a b qa qb suffix : Bytes)
    → add_levels n path a ≡ some qa
    → add_levels n path b ≡ some qb
    → qa ++ (b'/' ∷ (drop n a ++ suffix)) ≡ qb ++ (b'/' ∷ (drop n b ++ suffix))
    → a ≡ b
unfolding add_levels
add_levels_distinct zero path a b qa qb suffix ha hb h =
    let same : qa ≡ qb = ground arith in
    let rest =
      append_cancel_left qa (b'/' ∷ (a ++ suffix)) (b'/' ∷ (b ++ suffix))
        (h ∙ ap (λ q. q ++ (b'/' ∷ (b ++ suffix))) (sym same)) in
    append_cancel_right a b suffix (ap (drop 1) rest)
add_levels_distinct (suc n) path [] b qa qb suffix ha hb h = absurd (ground arith)
add_levels_distinct (suc n) path (c ∷ a) [] qa qb suffix ha hb h = absurd (ground arith)
add_levels_distinct (suc n) path (c ∷ a) (d ∷ b) qa qb suffix ha hb h =
    let (ta, ea) = add_levels_starts n (path ++ (b'/' ∷ c ∷ [])) a qa ha in
    let (tb, eb) = add_levels_starts n (path ++ (b'/' ∷ d ∷ [])) b qb hb in
    let ra = b'/' ∷ (drop n a ++ suffix) in
    let rb = b'/' ∷ (drop n b ++ suffix) in
    let after =
      append_cancel_left path (b'/' ∷ c ∷ (ta ++ ra)) (b'/' ∷ d ∷ (tb ++ rb))
        (sym (spread path c ta qa ra ea) ∙ h ∙ spread path d tb qb rb eb) in
    let same : c ≡ d = ap (λ l. get_or l 1 0) after in
    let rest =
      add_levels_distinct n (path ++ (b'/' ∷ c ∷ [])) a b qa qb suffix ha
        (ap (λ x. add_levels n (path ++ (b'/' ∷ x ∷ [])) b) same ∙ hb) h in
    ap₂ (λ x l. x ∷ l) same rest
  where
    spread :
        (path : Bytes) (c : ℕ) (t q r : Bytes)
        → q ≡ (path ++ (b'/' ∷ c ∷ [])) ++ t
        → q ++ r ≡ path ++ (b'/' ∷ c ∷ (t ++ r))
    spread path c t q r e =
        ap (λ l. l ++ r) (e ∙ append_assoc path (b'/' ∷ c ∷ []) t)
        ∙ append_assoc path (b'/' ∷ c ∷ t) r

step :
    (cache_dir : Bytes) (levels : ℕ) (a b suffix p : Bytes) (oa ob : Option Bytes)
    → add_levels levels cache_dir a ≡ oa
    → add_levels levels cache_dir b ≡ ob
    → get_path_in_cache cache_dir levels a suffix ≡ some p
    → get_path_in_cache cache_dir levels b suffix ≡ some p
    → a ≡ b
unfolding get_path_in_cache
step cache_dir levels a b suffix p none ob ea eb ha hb =
    let pa : get_path_in_cache cache_dir levels a suffix ≡ none = rw (get_path_in_cache, ea) in
    absurd (ground arith)
step cache_dir levels a b suffix p (some qa) none ea eb ha hb =
    let pb : get_path_in_cache cache_dir levels b suffix ≡ none = rw (get_path_in_cache, eb) in
    absurd (ground arith)
step cache_dir levels a b suffix p (some qa) (some qb) ea eb ha hb =
    let qa' = qa ++ (b'/' ∷ (drop levels a ++ suffix)) in
    let qb' = qb ++ (b'/' ∷ (drop levels b ++ suffix)) in
    let pa : get_path_in_cache cache_dir levels a suffix ≡ some qa' = rw (get_path_in_cache, ea) in
    let pb : get_path_in_cache cache_dir levels b suffix ≡ some qb' = rw (get_path_in_cache, eb) in
    let same : some qa' ≡ some qb' = sym pa ∙ ha ∙ sym hb ∙ pb in
    add_levels_distinct levels cache_dir a b qa qb suffix ea eb (ground arith)

-- For one cache directory, number of levels and suffix, two names with the same path in the
-- cache are the same name.
pub get_path_in_cache-distinct :
    (cache_dir : Bytes) (levels : ℕ) (a b suffix p : Bytes)
    → get_path_in_cache cache_dir levels a suffix ≡ some p
    → get_path_in_cache cache_dir levels b suffix ≡ some p
    → a ≡ b
get_path_in_cache-distinct cache_dir levels a b suffix p =
    step cache_dir levels a b suffix p (add_levels levels cache_dir a)
      (add_levels levels cache_dir b) refl refl
