-- ===== src/Compopt/Examples.antt =====
-- src/compopt.c with the search from the front as bsearch.
use memccache.Base.{
  ◌≡◌, refl, List, [], ◌∷◌, false, none, some, ◌⊎◌, inl, inr, codes, Ordering, ◌≢◌, ◌∙◌, All, arith,
}
use memccache.Compopt.{
  Compopt, compopts, strcmp, find, compare_compopts, compopt_too_hard, compopt_takes_concat_arg,
}
use memccache.Compopt.Search.{
  linear, Mem, IsBsearch, Ordering-cases, find-linear, compopt_takes_concat_arg-compopt_too_hard,
}

linear_cases :
    (cmp : Compopt → Ordering) (t : List Compopt)
    → ((linear cmp t ≡ none) × All (λ co. cmp co ≢ Ordering.eq) t)
      ⊎ ((co : Compopt) × (linear cmp t ≡ some co) × Mem co t × (cmp co ≡ Ordering.eq))
unfolding linear Mem
linear_cases cmp [] = inl (refl, tt)
linear_cases cmp (x ∷ t) = elim (Ordering-cases (cmp x)) [
  | inl q ↦ inr (x, rw (linear, q), inl refl, q)
  | inr q ↦ elim (linear_cases cmp t) [
    | inl (e, p) ↦ inl (missed q ∙ e, (other q, p))
    | inr (co, e, m, r) ↦ inr (co, missed q ∙ e, inr m, r)
  ]
]
  where
    missed : (cmp x ≡ Ordering.lt) ⊎ (cmp x ≡ Ordering.gt) → linear cmp (x ∷ t) ≡ linear cmp t
    missed (inl e) = rw (linear, e)
    missed (inr e) = rw (linear, e)

    other : (cmp x ≡ Ordering.lt) ⊎ (cmp x ≡ Ordering.gt) → cmp x ≢ Ordering.eq
    other q = ground arith

linear-IsBsearch : IsBsearch linear
linear-IsBsearch cmp t p = linear_cases cmp t

find-linear_example :
    find linear (codes "-include") ≡ linear (compare_compopts (codes "-include")) compopts
find-linear_example = find-linear linear (codes "-include") linear-IsBsearch

compopt_takes_concat_arg-compopt_too_hard_example : compopt_too_hard linear (codes "-I") ≡ false
unfolding compopt_takes_concat_arg find linear compare_compopts strcmp
compopt_takes_concat_arg-compopt_too_hard_example =
    compopt_takes_concat_arg-compopt_too_hard linear (codes "-I") linear-IsBsearch refl
