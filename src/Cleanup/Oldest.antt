-- ===== src/Cleanup/Oldest.antt =====
-- src/cleanup.c: which files the loop of sort_and_clean removes.
use memccache.Base.{
  ◌≤◌, List, [], ◌∷◌, ◌++◌, Bool, true, false, Bool-cases, inl, inr, ◌⊎◌, if◌then◌else◌, ltb, ◌==◌,
  All, Ordering, ◌≡◌, ◌≢◌, refl, ap, ◌∙◌, arith,
}
use memccache.Util.Files.{System, signed}
use memccache.Cleanup.{CacheFile, State, files_compare, is_within_limits, clean_file, clean_loop}

-- In the order of files_compare, each file before all later ones.
abbrev pub Sorted : List CacheFile → Type 0
Sorted [] = Unit
Sorted (f ∷ fs) = All (λ g. files_compare f g ≢ Ordering.gt) fs × Sorted fs

-- No file of the first list is newer than one of the second.
abbrev pub NoneNewer : List CacheFile → List CacheFile → Type 0
NoneNewer fs gs = All (λ f. All (λ g. signed f.mtime ≤ signed g.mtime) gs) fs

abbrev pub is_empty : List CacheFile → Bool
is_empty [] = true
is_empty (f ∷ fs) = false

older_lem : (f g : CacheFile) → files_compare f g ≢ Ordering.gt → signed f.mtime ≤ signed g.mtime
unfolding files_compare
older_lem f g h = elim (Bool-cases (g.mtime == f.mtime)) [
  | inl e ↦ let same : signed g.mtime ≡ signed f.mtime = ap signed (ground arith) in omega arith
  | inr e ↦ elim (Bool-cases (ltb (signed f.mtime) (signed g.mtime))) [
    | inl k ↦ ground arith
    | inr k ↦ absurd (h (rw (files_compare, e, k)))
  ]
]

All-older :
    (f : CacheFile) (gs : List CacheFile)
    → All (λ g. files_compare f g ≢ Ordering.gt) gs
    → All (λ g. signed f.mtime ≤ signed g.mtime) gs
All-older f [] h = tt
All-older f (g ∷ gs) (h, hs) = (older_lem f g h, All-older f gs hs)

All-rest : (P : CacheFile → Type 0) (xs ys : List CacheFile) → All P (xs ++ ys) → All P ys
All-rest P [] ys h = h
All-rest P (x ∷ xs) ys (h, hs) = All-rest P xs ys hs

pub Sorted-NoneNewer : (fs gs : List CacheFile) → Sorted (fs ++ gs) → NoneNewer fs gs
Sorted-NoneNewer [] gs h = tt
Sorted-NoneNewer (f ∷ fs) gs (h, hs) = (
  All-older f gs (All-rest (λ g. files_compare f g ≢ Ordering.gt) fs gs h),
  Sorted-NoneNewer fs gs hs,
)

same_choice : (b : Bool) → (if b then true else true) ≡ true
same_choice true = refl
same_choice false = refl

module _ {World : Type 0} (sys : System World) where
  -- The bodies of the rounds for some files.
  unfoldable pub clean_files : List CacheFile → State World → State World
  clean_files [] s = s
  clean_files (f ∷ fs) s = clean_files fs (clean_file sys f s)

  -- Each round starts outside the limits.
  abbrev pub Needed : List CacheFile → State World → Type 0
  Needed [] s = Unit
  Needed (f ∷ fs) s = (is_within_limits s ≡ false) × Needed fs (clean_file sys f s)

  -- The loop treats the files of a front part, only while the counters are outside the limits, and
  -- stops inside the limits or at the end.
  pub clean_loop_lem :
      (fs : List CacheFile) (s : State World) (cleaned : Bool)
      → (tried : List CacheFile) × (kept : List CacheFile) × (fs ≡ tried ++ kept)
        × ((clean_loop sys fs s cleaned).0 ≡ clean_files tried s)
        × ((clean_loop sys fs s cleaned).1 ≡ (if is_empty tried then cleaned else true))
        × Needed tried s
        × ((kept ≡ []) ⊎ (is_within_limits (clean_files tried s) ≡ true))
  unfolding clean_loop clean_files
  clean_loop_lem [] s cleaned = ([], [], refl, refl, refl, tt, inl refl)
  clean_loop_lem (f ∷ fs) s cleaned = elim (Bool-cases (is_within_limits s)) [
    | inl e ↦ ([], f ∷ fs, refl, rw (clean_loop, e), rw (clean_loop, e), tt, inr e)
    | inr e ↦
        let (tried, kept, split, state, flag, needed, end) =
          clean_loop_lem fs (clean_file sys f s) true in
        (
          f ∷ tried,
          kept,
          ap (λ l. f ∷ l) split,
          rw (clean_loop, e) state,
          rw (clean_loop, e) (flag ∙ same_choice (is_empty tried)),
          (e, needed),
          end,
        )
  ]
