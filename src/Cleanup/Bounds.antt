-- ===== src/Cleanup/Bounds.antt =====
-- src/cleanup.c: the limits and the counters after sort_and_clean.
use mathlib.Core.Path.{subst}
use mathlib.Core.List.{Perm, foldr}
use mathlib.Core.List.Perm
use native.Mathlib.Nat.{ℕ_set}
use memccache.Base.{
  ℕ, suc, ◌+◌, ◌^◌, ◌<◌, List, [], ◌∷◌, ◌++◌, Bool, true, false, not, ◌&&◌, ◌||◌, Bool-cases, inl,
  inr, ◌⊎◌, if◌then◌else◌, ltb, leb, ◌==◌, length, Bytes, codes, bytes_eq, ◌≡◌, refl, sym, ap, ap₂,
  ◌∙◌, arith,
}
use memccache.Language.{get_extension, remove_extension}
use memccache.Util.Files.{System, x_try_unlink}
use memccache.Cleanup.{
  CacheFile, State, is_within_limits, is_deleted, delete_file, clean_file, sorted_files,
  sort_and_clean,
}
use memccache.Cleanup.Count.{total}
use memccache.Cleanup.Unlinked.{unlink_files, clean_files-world}
use memccache.Cleanup.Oldest.{
  Sorted, NoneNewer, Sorted-NoneNewer, clean_files, Needed, is_empty, clean_loop_lem,
}

-- The counters of the files that are left.
abbrev pub Left : {World : Type 0} → List CacheFile → State World → Type 0
Left fs s = (s.cache_size ≡ total fs) × (s.files_in_cache ≡ length fs)

-- Limits for a number of bytes and of files, where 0 is no limit.
abbrev pub within : ℕ → ℕ → List CacheFile → Bool
within size_limit files_limit fs =
    ((size_limit == 0) || leb (total fs) size_limit)
    && ((files_limit == 0) || leb (length fs) files_limit)

module _ {World : Type 0} (sys : System World) where
  -- Every file can be removed, or is gone.
  abbrev pub Removes : Type 0
  Removes = (path : Bytes) (w : World) → is_deleted (x_try_unlink sys path w).1 ≡ true

  -- The limits stay as they are.
  abbrev Limits : State World → State World → Type 0
  Limits s t =
      (t.cache_size_threshold ≡ s.cache_size_threshold)
      × (t.files_in_cache_threshold ≡ s.files_in_cache_threshold)

  delete_other :
      (path : Bytes) (size : ℕ) (s : State World)
      → let t = delete_file sys path size false s in
        (t.cache_size ≡ s.cache_size) × (t.files_in_cache ≡ s.files_in_cache) × Limits s t
  unfolding delete_file
  delete_other path size s = elim (Bool-cases (is_deleted (x_try_unlink sys path s.world).1)) [
    | inl e ↦ rw (delete_file, e) (refl, refl, (refl, refl))
    | inr e ↦ rw (delete_file, e) (refl, refl, (refl, refl))
  ]

  delete_file_lem :
      (f : CacheFile) (fs : List CacheFile) (s : State World)
      → Removes
      → total (f ∷ fs) < 2 ^ 64
      → length (f ∷ fs) < 2 ^ 64
      → Left (f ∷ fs) s
      → let t = delete_file sys f.fname f.size true s in Left fs t × Limits s t
  unfolding delete_file
  delete_file_lem f fs s r small few (size, n) =
      let deleted = r f.fname s.world in
      rw (delete_file, deleted) ((omega arith, omega arith), (refl, refl))

  clean_file_lem :
      (f : CacheFile) (fs : List CacheFile) (s : State World)
      → Removes
      → total (f ∷ fs) < 2 ^ 64
      → length (f ∷ fs) < 2 ^ 64
      → Left (f ∷ fs) s
      → Left fs (clean_file sys f s) × Limits s (clean_file sys f s)
  unfolding clean_file
  clean_file_lem f fs s r small few left =
      elim (Bool-cases (bytes_eq (get_extension f.fname) (codes ".stderr"))) [
        | inr e ↦ rw (clean_file, e) (delete_file_lem f fs s r small few left)
        | inl e ↦
            let (size, n, (a, b)) = delete_other (remove_extension f.fname ++ codes ".o") 0 s in
            let first = delete_file sys (remove_extension f.fname ++ codes ".o") 0 false s in
            let (l, (c, d)) = delete_file_lem f fs first r small few (size ∙ left.0, n ∙ left.1) in
            rw (clean_file, e) (l, (c ∙ a, d ∙ b))
      ]

  clean_files_lem :
      (fs gs : List CacheFile) (s : State World)
      → Removes
      → total (fs ++ gs) < 2 ^ 64
      → length (fs ++ gs) < 2 ^ 64
      → Left (fs ++ gs) s
      → Left gs (clean_files sys fs s) × Limits s (clean_files sys fs s)
  unfolding clean_files
  clean_files_lem [] gs s r small few left = (left, (refl, refl))
  clean_files_lem (f ∷ fs) gs s r small few left =
      let (l, (a, b)) = clean_file_lem f (fs ++ gs) s r small few left in
      let (m, (c, d)) =
        clean_files_lem fs gs (clean_file sys f s) r (omega arith) (omega arith) l in
      (m, (c ∙ a, d ∙ b))

  within-lem :
      (fs : List CacheFile) (s : State World)
      → Left fs s
      → is_within_limits s ≡ within s.cache_size_threshold s.files_in_cache_threshold fs
  unfolding is_within_limits
  within-lem fs s (size, n) = rw (size, n)

-- Before each file is removed, it and what comes after it go beyond the limits.
abbrev pub EachBeyond : ℕ → ℕ → List CacheFile → List CacheFile → Type 0
EachBeyond size_limit files_limit [] kept = Unit
EachBeyond size_limit files_limit (f ∷ fs) kept =
    (within size_limit files_limit ((f ∷ fs) ++ kept) ≡ false)
    × EachBeyond size_limit files_limit fs kept

module _ {World : Type 0} (sys : System World) (r : Removes sys) where
  Needed-EachBeyond :
      (m n : ℕ) (fs gs : List CacheFile) (s : State World)
      → s.cache_size_threshold ≡ m
      → s.files_in_cache_threshold ≡ n
      → total (fs ++ gs) < 2 ^ 64
      → length (fs ++ gs) < 2 ^ 64
      → Left (fs ++ gs) s
      → Needed sys fs s
      → EachBeyond m n fs gs
  Needed-EachBeyond m n [] gs s a b small few left h = tt
  Needed-EachBeyond m n (f ∷ fs) gs s a b small few left (h, hs) =
      let (l, (c, d)) = clean_file_lem sys f (fs ++ gs) s r small few left in
      let now = within-lem sys (f ∷ fs ++ gs) s left in
      (
        ap₂ (λ x y. within x y (f ∷ fs ++ gs)) (sym a) (sym b) ∙ sym now ∙ h,
        Needed-EachBeyond m n fs gs (clean_file sys f s) (c ∙ a) (d ∙ b) (omega arith) (omega arith)
            l hs,
      )

Perm-total : (fs gs : List CacheFile) → Perm fs gs → total fs ≡ total gs
Perm-total fs gs p =
    sum fs
    ∙ Perm.foldr-eq ℕ_set (λ (f : CacheFile) (n : ℕ). f.size + n) (λ a b x. omega arith) p 0
    ∙ sym (sum gs)
  where
    sum : (hs : List CacheFile) → total hs ≡ foldr (λ f n. f.size + n) 0 hs
    sum [] = refl
    sum (h ∷ hs) = ap (λ n. h.size + n) (sum hs)

Perm-length : (fs gs : List CacheFile) → Perm fs gs → length fs ≡ length gs
Perm-length fs gs p =
    count fs
    ∙ Perm.foldr-eq ℕ_set (λ (f : CacheFile) (n : ℕ). suc n) (λ a b x. refl) p 0
    ∙ sym (count gs)
  where
    count : (hs : List CacheFile) → length hs ≡ foldr (λ f n. suc n) 0 hs
    count [] = refl
    count (h ∷ hs) = ap suc (count hs)

sorted_files-lem :
    (qsort : List CacheFile → List CacheFile) (fs : List CacheFile)
    → Perm (qsort fs) fs
    → Sorted (qsort fs)
    → Perm (sorted_files qsort fs) fs × Sorted (sorted_files qsort fs)
unfolding sorted_files
sorted_files-lem qsort [] p s = (Perm.refl [], tt)
sorted_files-lem qsort (f ∷ []) p s = (Perm.refl (f ∷ []), (tt, tt))
sorted_files-lem qsort (f ∷ g ∷ fs) p s =
    let many : ltb 1 (length (f ∷ g ∷ fs)) ≡ true = ground arith in rw (sorted_files, many) (p, s)

module _ {World : Type 0} (sys : System World) (qsort : List CacheFile → List CacheFile)
    (s : State World) where
  -- If every file can be removed or is gone, the counters are the totals of the listed files,
  -- which are fewer than 2^32 and have less than 2^64 bytes, and qsort sorts the list, then
  -- sort_and_clean comes to the files of one part of the list and stops before the rest: what
  -- it asks to be removed are the files of the first part in order, with a .o file before
  -- each that is a .stderr file; no file of the first part is newer than one of the rest; the
  -- counters in the end are the totals of the rest, where a .o file of the rest that went
  -- with a .stderr file still counts; these totals are within the limits or the rest is
  -- empty; before each file of the first part, the totals of it and all behind it were beyond
  -- the limits; and the result tells whether the first part has a file.
  pub sort_and_clean_lem :
      Removes sys
      → total s.files < 2 ^ 64
      → length s.files < 2 ^ 32
      → Left s.files s
      → Perm (qsort s.files) s.files
      → Sorted (qsort s.files)
      → (tried : List CacheFile) × (kept : List CacheFile) × Perm (tried ++ kept) s.files
        × NoneNewer tried kept
        × ((sort_and_clean sys qsort s).0.world ≡ unlink_files sys tried s.world)
        × ((sort_and_clean sys qsort s).1 ≡ not (is_empty tried))
        × Left kept (sort_and_clean sys qsort s).0
        × EachBeyond s.cache_size_threshold s.files_in_cache_threshold tried kept
        × ((kept ≡ []) ⊎ (within s.cache_size_threshold s.files_in_cache_threshold kept ≡ true))
  unfolding sort_and_clean
  sort_and_clean_lem r small few left p sorted =
      let start : State World = record s { files = sorted_files qsort s.files } in
      let (perm, in_order) = sorted_files-lem qsort s.files p sorted in
      let (tried, kept, split, state, flag, needed, end) =
        clean_loop_lem sys (sorted_files qsort s.files) start false in
      let all : Perm (tried ++ kept) s.files = subst (λ l. Perm l s.files) split perm in
      let bytes = Perm-total (tried ++ kept) s.files all in
      let count = Perm-length (tried ++ kept) s.files all in
      let begun : Left (tried ++ kept) start = (left.0 ∙ sym bytes, left.1 ∙ sym count) in
      let (rest, (a, b)) =
        clean_files_lem sys tried kept start r (omega arith) (omega arith) begun in
      (
        tried,
        kept,
        all,
        Sorted-NoneNewer tried kept (subst Sorted split in_order),
        ap (λ (t : State World). t.world) state ∙ clean_files-world sys tried start,
        flag ∙ no_flag (is_empty tried),
        subst (Left kept) (sym state) rest,
        Needed-EachBeyond sys r s.cache_size_threshold s.files_in_cache_threshold tried kept start
            refl refl (omega arith) (omega arith) begun needed,
        elim end [
          | inl e ↦ inl e
          | inr h ↦ inr (
              ap₂ (λ x y. within x y kept) (sym a) (sym b)
              ∙ sym (within-lem sys kept (clean_files sys tried start) rest)
              ∙ h)
        ],
      )
    where
      no_flag : (b : Bool) → (if b then false else true) ≡ not b
      no_flag true = refl
      no_flag false = refl
