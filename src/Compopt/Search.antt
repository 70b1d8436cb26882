-- ===== src/Compopt/Search.antt =====
-- src/compopt.c: the table is in the order that bsearch wants, so a lookup is exact.
use memccache.Base.{
  List, [], ◌∷◌, Bool, true, false, not, ◌&&◌, Option, none, some, inl, inr, ◌⊎◌, Bytes, All,
  Ordering, ◌≡◌, ◌≢◌, refl, sym, ap, ◌∙◌, arith,
}
use memccache.Compopt.{
  Compopt, compopts, has_flag, too_hard, takes_concat_arg, strcmp, compare_compopts, Bsearch, find,
  verify_rows, compopt_verify_sortedness_and_flags, compopt_too_hard, compopt_takes_concat_arg,
  found_with,
}

-- The reference: the first row that the key compares equal to.
unfoldable pub linear : (Compopt → Ordering) → List Compopt → Option Compopt
linear cmp [] = none
linear cmp (co ∷ t) = elim (cmp co) [ Ordering.eq ↦ some co | _ ↦ linear cmp t ]

-- What bsearch asks of an array: the rows below the key, then those equal to it, then those above.
unfoldable pub IsPartitioned : (Compopt → Ordering) → List Compopt → Type 0
IsPartitioned cmp [] = Unit
IsPartitioned cmp (x ∷ t) =
    (cmp x ≢ Ordering.gt → All (λ y. cmp y ≡ Ordering.lt) t) × IsPartitioned cmp t

unfoldable pub Mem : Compopt → List Compopt → Type 0
Mem co [] = ⊥
Mem co (x ∷ t) = (co ≡ x) ⊎ Mem co t

-- What the C standard says of bsearch on such an array.
abbrev pub IsBsearch : Bsearch → Type 0
IsBsearch bsearch =
    (cmp : Compopt → Ordering) (t : List Compopt)
    → IsPartitioned cmp t
    → ((bsearch cmp t ≡ none) × All (λ co. cmp co ≢ Ordering.eq) t)
      ⊎ ((co : Compopt) × (bsearch cmp t ≡ some co) × Mem co t × (cmp co ≡ Ordering.eq))

strcmp_trans :
    (o x y : Bytes) → strcmp x y ≡ Ordering.lt → strcmp o x ≢ Ordering.gt → strcmp o y ≡ Ordering.lt
unfolding strcmp
strcmp_trans [] [] [] h n = ground arith
strcmp_trans [] [] (c ∷ y) h n = refl
strcmp_trans [] (b ∷ x) [] h n = ground arith
strcmp_trans [] (b ∷ x) (c ∷ y) h n = refl
strcmp_trans (a ∷ o) [] y h n = ground arith
strcmp_trans (a ∷ o) (b ∷ x) [] h n = ground arith
strcmp_trans (a ∷ o) (b ∷ x) (c ∷ y) h n = ground (arith, strcmp_trans o x y)

linear-none :
    (cmp : Compopt → Ordering) (t : List Compopt)
    → All (λ co. cmp co ≢ Ordering.eq) t
    → linear cmp t ≡ none
unfolding linear
linear-none cmp [] p = refl
linear-none cmp (x ∷ t) (n, p) = ground (arith, linear-none cmp t p)

above_key :
    (cmp : Compopt → Ordering) (t : List Compopt) (co : Compopt)
    → All (λ y. cmp y ≡ Ordering.lt) t
    → Mem co t
    → cmp co ≡ Ordering.lt
unfolding Mem
above_key cmp [] co p m = elim m [ ]
above_key cmp (x ∷ t) co (e, p) (inl q) = ap cmp q ∙ e
above_key cmp (x ∷ t) co (e, p) (inr m) = above_key cmp t co p m

pub Ordering-cases : (o : Ordering) → (o ≡ Ordering.eq) ⊎ ((o ≡ Ordering.lt) ⊎ (o ≡ Ordering.gt))
Ordering-cases Ordering.lt = inr (inl refl)
Ordering-cases Ordering.eq = inl refl
Ordering-cases Ordering.gt = inr (inr refl)

linear-some :
    (cmp : Compopt → Ordering) (t : List Compopt) (co : Compopt)
    → IsPartitioned cmp t
    → Mem co t
    → cmp co ≡ Ordering.eq
    → linear cmp t ≡ some co
unfolding linear IsPartitioned Mem
linear-some cmp [] co p m e = elim m [ ]
linear-some cmp (x ∷ t) co (f, p) (inl q) e =
    let first : cmp x ≡ Ordering.eq = sym (ap cmp q) ∙ e in rw (linear, first) (ap some (sym q))
linear-some cmp (x ∷ t) co (f, p) (inr m) e =
    let later = linear-some cmp t co p m e in
    elim (Ordering-cases (cmp x)) [
      | inl q ↦
          let above : cmp x ≢ Ordering.gt = ground arith in
          let below : cmp co ≡ Ordering.lt = above_key cmp t co (f above) m in ground arith
      | inr (inl q) ↦ rw (linear, q) later
      | inr (inr q) ↦ rw (linear, q) later
    ]

bsearch_linear :
    (bsearch : Bsearch)
    → IsBsearch bsearch
    → (cmp : Compopt → Ordering) (t : List Compopt) → IsPartitioned cmp t
    → bsearch cmp t ≡ linear cmp t
bsearch_linear bsearch h cmp t p = elim (h cmp t p) [
  | inl (e, none_equal) ↦ e ∙ sym (linear-none cmp t none_equal)
  | inr (co, e, m, q) ↦ e ∙ sym (linear-some cmp t co p m q)
]

-- A table that passes the program's own test is in the order of any key.
behind_key :
    (option : Bytes) (x : Compopt) (t : List Compopt)
    → verify_rows (x ∷ t) ≡ true
    → compare_compopts option x ≢ Ordering.gt
    → All (λ y. compare_compopts option y ≡ Ordering.lt) t
unfolding verify_rows compare_compopts
behind_key option x [] h n = tt
behind_key option x (y ∷ t) h n =
    let order : strcmp x.0 y.0 ≡ Ordering.lt = ground arith in
    let below = strcmp_trans option x.0 y.0 order n in
    (below, behind_key option y t (ground arith) (ground arith))

verify_rows-IsPartitioned :
    (option : Bytes) (t : List Compopt)
    → verify_rows t ≡ true
    → IsPartitioned (compare_compopts option) t
unfolding verify_rows IsPartitioned
verify_rows-IsPartitioned option [] h = tt
verify_rows-IsPartitioned option (x ∷ []) h = (λ n. tt, tt)
verify_rows-IsPartitioned option (x ∷ (y ∷ t)) h =
    (behind_key option x (y ∷ t) h, verify_rows-IsPartitioned option (y ∷ t) (ground arith))

pub compopts_verified : compopt_verify_sortedness_and_flags ≡ true
unfolding compopt_verify_sortedness_and_flags verify_rows strcmp
compopts_verified = refl

-- With a bsearch that does on a partitioned array what the C standard says, find is the search
-- for the first row of the table that the option compares equal to: the table is in the order
-- that bsearch needs, for every option.
pub find-linear :
    (bsearch : Bsearch) (option : Bytes)
    → IsBsearch bsearch
    → find bsearch option ≡ linear (compare_compopts option) compopts
unfolding find compopt_verify_sortedness_and_flags
find-linear bsearch option h =
    bsearch_linear bsearch h (compare_compopts option) compopts
      (verify_rows-IsPartitioned option compopts compopts_verified)

not_both : (a b : Bool) → not (a && b) ≡ true → b ≡ true → a ≡ false
not_both true true h e = sym h
not_both true false h e = sym e
not_both false b h e = refl

-- A row that is found first, or one of those behind it.
step_linear :
    (cmp : Compopt → Ordering) (x : Compopt) (t : List Compopt)
    → not (has_flag x.1 too_hard && has_flag x.1 takes_concat_arg) ≡ true
    → (found_with takes_concat_arg (linear cmp t) ≡ true
        → found_with too_hard (linear cmp t) ≡ false)
    → found_with takes_concat_arg (linear cmp (x ∷ t)) ≡ true
    → found_with too_hard (linear cmp (x ∷ t)) ≡ false
unfolding linear
step_linear cmp x t h later e = elim (Ordering-cases (cmp x)) [
  | inl q ↦
      rw (linear, q)
        (not_both (has_flag x.1 too_hard) (has_flag x.1 takes_concat_arg) h (rw (linear, q) at e))
  | inr (inl q) ↦ rw (linear, q) (later (rw (linear, q) at e))
  | inr (inr q) ↦ rw (linear, q) (later (rw (linear, q) at e))
]

verify_rows-linear :
    (cmp : Compopt → Ordering) (t : List Compopt)
    → verify_rows t ≡ true
    → found_with takes_concat_arg (linear cmp t) ≡ true
    → found_with too_hard (linear cmp t) ≡ false
unfolding verify_rows linear
verify_rows-linear cmp [] h e = refl
verify_rows-linear cmp (x ∷ []) h e = step_linear cmp x [] h (λ e'. refl) e
verify_rows-linear cmp (x ∷ (y ∷ t)) h e =
    let row : not (has_flag x.1 too_hard && has_flag x.1 takes_concat_arg) ≡ true = ground arith in
    let rows : verify_rows (y ∷ t) ≡ true = ground arith in
    step_linear cmp x (y ∷ t) row (verify_rows-linear cmp (y ∷ t) rows) e

-- With such a bsearch, no option for which compopt_takes_concat_arg holds is one for which
-- compopt_too_hard holds.
pub compopt_takes_concat_arg-compopt_too_hard :
    (bsearch : Bsearch) (option : Bytes)
    → IsBsearch bsearch
    → compopt_takes_concat_arg bsearch option ≡ true
    → compopt_too_hard bsearch option ≡ false
unfolding compopt_takes_concat_arg compopt_too_hard compopt_verify_sortedness_and_flags
compopt_takes_concat_arg-compopt_too_hard bsearch option h e =
    let same = find-linear bsearch option h in
    ap (found_with too_hard) same
    ∙ verify_rows-linear (compare_compopts option) compopts compopts_verified
        (ap (found_with takes_concat_arg) (sym same) ∙ e)
