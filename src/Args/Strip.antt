-- ===== src/Args/Strip.antt =====
-- args_strip and args_equal of src/args.c.
use memccache.Base.{
  ℕ, zero, suc, ◌+◌, ◌-◌, ◌≤◌, ◌≡◌, refl, ap, List, [], ◌∷◌, ◌++◌, Bool, true, false, ◌&&◌, ◌↔◌,
  arith, ltb, ◌==◌, if◌then◌else◌, get_or, length, length-append, append_assoc, Bytes, bytes_eq,
  bytes_eq_sound, bytes_eq_refl, starts_with, Bool-cases, inl, inr, lt→ltb, ge→ltb,
}
use memccache.Args.{
  undef, str, Args, cell, memmove, strip_loop, args_strip, cell_eq, equal_loop, args_equal,
}
use memccache.Args.Repr.{want, Holds, length-memmove, get-memmove, want-append}

-- The arguments that do not begin with the prefix, in their order.
pub without_prefix : Bytes → List Bytes → List Bytes
without_prefix prefix [] = []
without_prefix prefix (s ∷ ss) =
    if starts_with s prefix then without_prefix prefix ss else s ∷ without_prefix prefix ss

cell_middle :
    (pre post : List Bytes) (s : Bytes) (a : Args)
    → Holds (pre ++ s ∷ post) a
    → cell a (length pre) ≡ str s
cell_middle pre post s a h =
    let z : length pre - length pre ≡ 0 = omega arith in
    ground (
      arith,
      h.cells (length pre),
      length-append pre (s ∷ post),
      want-append pre (s ∷ post) (length pre),
      ap (want (s ∷ post)) z,
    )

-- The memmove of args_strip takes out the argument at its index.
remove-Holds :
    (pre post : List Bytes) (s : Bytes) (a : Args)
    → Holds (pre ++ s ∷ post) a
    → Holds (pre ++ post) (record {
      argc = a.argc - 1;
      argv = memmove a.argv (length pre) (length pre + 1) (a.argc - length pre);
    })
remove-Holds pre post s a h =
    let n = length-append pre (s ∷ post) in
    let m = length-append pre post in
    let i = length pre in
    let size =
      length-memmove a.argv i (i + 1) (a.argc - i) (omega (arith, n, h.count, h.room))
        (omega (arith, n, h.count, h.room)) in
    record {
      count = omega (arith, n, m, h.count);
      room = omega (arith, n, m, size, h.room);
      cells = λ j q. ground (
        arith,
        n,
        m,
        h.count,
        h.room,
        h.cells j,
        h.cells (j + 1),
        want-append pre (s ∷ post) j,
        want-append pre (s ∷ post) (j + 1),
        want-append pre post j,
        later j,
        moved j,
        get-memmove a.argv i (i + 1) (a.argc - i) (omega (arith, n, h.count, h.room))
            (omega (arith, n, h.count, h.room)) j,
      );
    }
  where
    later :
        (j : ℕ) → length pre ≤ j → want (s ∷ post) (j + 1 - length pre) ≡ want post (j - length pre)
    later j p =
        let e : j + 1 - length pre ≡ suc (j - length pre) = omega arith in ap (want (s ∷ post)) e

    moved :
        (j : ℕ)
        → length pre ≤ j
        → get_or a.argv (j - length pre + (length pre + 1)) undef ≡ get_or a.argv (j + 1) undef
    moved j p = ap (λ k. get_or a.argv k undef) (omega arith)

strip_loop-Holds :
    (f : ℕ) (pre post : List Bytes) (a : Args) (prefix : Bytes)
    → length post ≤ f
    → Holds (pre ++ post) a
    → Holds (pre ++ without_prefix prefix post) (strip_loop f (length pre) a prefix)
unfolding strip_loop without_prefix
strip_loop-Holds zero pre [] a prefix e h = h
strip_loop-Holds zero pre (s ∷ post) a prefix e h = absurd (omega arith)
strip_loop-Holds (suc f) pre [] a prefix e h =
    let done : ltb (length pre) a.argc ≡ false =
      ge→ltb (length pre) a.argc (omega (arith, h.count, length-append pre [])) in
    rw (done, strip_loop) h
strip_loop-Holds (suc f) pre (s ∷ post) a prefix e h =
    let inside : ltb (length pre) a.argc ≡ true =
      lt→ltb (length pre) a.argc (omega (arith, h.count, length-append pre (s ∷ post))) in
    elim (Bool-cases (starts_with s prefix)) [
      | inl y ↦
          rw (inside, strip_loop, cell_middle pre post s a h, strip_loop, y)
            (strip_loop-Holds f pre post _ prefix (omega arith) (remove-Holds pre post s a h))
      | inr n ↦
          let again =
            strip_loop-Holds f (pre ++ s ∷ []) post a prefix (omega arith)
              (rw (append_assoc pre (s ∷ []) post) h) in
          let size : length (pre ++ s ∷ []) ≡ length pre + 1 =
            omega (arith, length-append pre (s ∷ [])) in
          rw (inside, strip_loop, cell_middle pre post s a h, strip_loop, n)
            (rw (size, append_assoc pre (s ∷ []) (without_prefix prefix post)) at again)
    ]

-- If a structure holds the arguments `xs`, then args_strip leaves one that holds exactly those
-- without the prefix, in their order.
pub args_strip-Holds :
    (xs : List Bytes) (a : Args) (prefix : Bytes)
    → Holds xs a
    → Holds (without_prefix prefix xs) (args_strip a prefix)
unfolding args_strip
args_strip-Holds xs a prefix h = strip_loop-Holds a.argc [] xs a prefix (omega (arith, h.count)) h

-- Two lists of strings, string by string.
list_eq : List Bytes → List Bytes → Bool
list_eq [] [] = true
list_eq [] (y ∷ ys) = false
list_eq (x ∷ xs) [] = false
list_eq (x ∷ xs) (y ∷ ys) = bytes_eq x y && list_eq xs ys

list_eq_sound : (xs ys : List Bytes) → list_eq xs ys ≡ true → xs ≡ ys
unfolding list_eq
list_eq_sound [] [] h = refl
list_eq_sound [] (y ∷ ys) h = absurd (ground arith)
list_eq_sound (x ∷ xs) [] h = absurd (ground arith)
list_eq_sound (x ∷ xs) (y ∷ ys) h = ground (arith, bytes_eq_sound x y, list_eq_sound xs ys)

list_eq_refl : (xs : List Bytes) → list_eq xs xs ≡ true
unfolding list_eq
list_eq_refl [] = refl
list_eq_refl (x ∷ xs) = rw (bytes_eq_refl x) (list_eq_refl xs)

list_eq-length : (xs ys : List Bytes) → list_eq xs ys ≡ true → length xs ≡ length ys
list_eq-length xs ys h = ap length (list_eq_sound xs ys h)

equal_loop-list_eq :
    (k : ℕ) (pre xs pre' ys : List Bytes) (a b : Args)
    → length xs ≡ k
    → length ys ≡ k
    → length pre ≡ length pre'
    → Holds (pre ++ xs) a
    → Holds (pre' ++ ys) b
    → equal_loop k (length pre) a b ≡ list_eq xs ys
unfolding equal_loop list_eq cell_eq
equal_loop-list_eq zero pre [] pre' [] a b n m e h g = refl
equal_loop-list_eq (suc k) pre (x ∷ xs) pre' (y ∷ ys) a b n m e h g =
    let size : length (pre ++ x ∷ []) ≡ length pre + 1 =
      omega (arith, length-append pre (x ∷ [])) in
    let size' : length (pre' ++ y ∷ []) ≡ length pre' + 1 =
      omega (arith, length-append pre' (y ∷ [])) in
    let rest =
      equal_loop-list_eq k (pre ++ x ∷ []) xs (pre' ++ y ∷ []) ys a b (omega arith) (omega arith)
        (omega arith) (rw (append_assoc pre (x ∷ []) xs) h)
        (rw (append_assoc pre' (y ∷ []) ys) g) in
    let there : cell b (length pre) ≡ str y = rw e (cell_middle pre' ys y b g) in
    elim (Bool-cases (bytes_eq x y)) [
      | inl q ↦ rw (cell_middle pre xs x a h, there, q, equal_loop) (rw size at rest)
      | inr q ↦ rw (cell_middle pre xs x a h, there, q, equal_loop)
    ]
equal_loop-list_eq zero pre (x ∷ xs) pre' ys a b n m e h g = absurd (omega arith)
equal_loop-list_eq zero pre [] pre' (y ∷ ys) a b n m e h g = absurd (omega arith)
equal_loop-list_eq (suc k) pre [] pre' ys a b n m e h g = absurd (omega arith)
equal_loop-list_eq (suc k) pre (x ∷ xs) pre' [] a b n m e h g = absurd (omega arith)

-- For structures that hold `xs` and `ys`, args_equal is true exactly if `xs` and `ys` are the
-- same arguments.
pub args_equal_iff :
    (xs ys : List Bytes) (a b : Args)
    → Holds xs a
    → Holds ys b
    → (args_equal a b ≡ true) ↔ (xs ≡ ys)
unfolding args_equal
args_equal_iff xs ys a b h g = elim (Bool-cases (a.argc == b.argc)) [
  | inl same ↦
      let run =
        equal_loop-list_eq a.argc [] xs [] ys a b (omega (arith, h.count))
          (ground (arith, h.count, g.count)) refl h g in
      rw (same, run) (list_eq_sound xs ys, λ e. rw e (list_eq_refl ys))
  | inr other ↦
      rw other ((λ f. absurd (ground arith)), λ e. ground (arith, h.count, g.count, ap length e))
]
