-- ===== src/Args/Edit.antt =====
-- The one-argument edits of src/args.c against plain list operations.
use memccache.Base.{
  ℕ, zero, suc, ◌+◌, ◌-◌, ◌≤◌, ◌<◌, ◌≡◌, refl, ap, ◌∙◌, List, [], ◌∷◌, ◌++◌, some, arith, ◌==◌,
  if◌then◌else◌, get_or, set, take, drop, length, length-append, length-take, length-set,
  get_or-set, append-nil, append_assoc, Bytes,
}
use memccache.Args.{
  undef, null, str, Args, cell, realloc, args_add, add_all, args_init, extend_loop, args_extend,
  memmove, args_copy, args_pop, args_set, args_remove_first, args_add_prefix,
}
use memccache.Args.Repr.{
  want, Holds, length-realloc, get-realloc, length-memmove, get-memmove, want_beyond, want-append,
  want-take, want-set, want_str, drop_all, drop_one, take_all, take-take,
}

-- Adding appends one argument.
pub args_add-Holds :
    (xs : List Bytes) (a : Args) (s : Bytes) → Holds xs a → Holds (xs ++ s ∷ []) (args_add a s)
unfolding args_add
args_add-Holds xs a s h =
    let grown = realloc (a.argc + 2) a.argv in
    let stored = set grown a.argc (str s) in
    let size = length-realloc (a.argc + 2) a.argv in
    let size' = length-set grown a.argc (str s) in
    record {
      count = omega (arith, length-append xs (s ∷ []), h.count);
      room = omega (
        arith,
        length-append xs (s ∷ []),
        length-set stored (a.argc + 1) null,
        size,
        size',
        h.count,
      );
      cells = λ i q. ground (
        arith,
        h.count,
        h.cells i,
        size,
        size',
        length-append xs (s ∷ []),
        want-append xs (s ∷ []) i,
        want_beyond (s ∷ []) (i - length xs),
        last i,
        get_or-set stored (a.argc + 1) i null undef,
        get_or-set grown a.argc i (str s) undef,
        get-realloc (a.argc + 2) a.argv i,
      );
    }
  where
    last : (i : ℕ) → i ≡ length xs → want (s ∷ []) (i - length xs) ≡ str s
    last i e = let z : i - length xs ≡ 0 = omega arith in rw z

add_all-Holds : (ss xs : List Bytes) (a : Args) → Holds xs a → Holds (xs ++ ss) (add_all a ss)
unfolding add_all
add_all-Holds [] xs a h = rw append-nil h
add_all-Holds (s ∷ ss) xs a h =
    rw (append_assoc xs (s ∷ []) ss) at
      (add_all-Holds ss (xs ++ s ∷ []) (args_add a s) (args_add-Holds xs a s h))

-- args_init holds exactly the strings that it is given.
pub args_init-Holds : (ss : List Bytes) → Holds ss (args_init ss)
unfolding args_init
args_init-Holds ss =
    add_all-Holds ss [] (record { argc = 0; argv = null ∷ [] })
      (record { count = refl; room = omega arith; cells = only })
  where
    only : (i : ℕ) → i ≤ 0 → get_or (null ∷ []) i undef ≡ want [] i
    only zero h = refl
    only (suc i) h = absurd (omega arith)

extend_loop-Holds :
    (k i : ℕ) (xs ys : List Bytes) (a from : Args)
    → Holds xs a
    → Holds ys from
    → i + k ≡ length ys
    → Holds (xs ++ drop i ys) (extend_loop k i a from)
unfolding extend_loop
extend_loop-Holds zero i xs ys a from h g e = rw (drop_all ys i (omega arith), append-nil) h
extend_loop-Holds (suc k) i xs ys a from h g e =
    let (s, w) = want_str ys i (omega arith) in
    let here : cell from i ≡ str s = g.cells i (omega arith) ∙ w in
    let rest =
      extend_loop-Holds k (i + 1) (xs ++ s ∷ []) ys (args_add a s) from (args_add-Holds xs a s h) g
        (omega arith) in
    rw (here, extend_loop, drop_one ys i s w, ← append_assoc xs (s ∷ []) (drop (i + 1) ys)) rest

-- If two structures hold `xs` and `ys`, then args_extend leaves in the first `xs` followed by
-- `ys`.
pub args_extend-Holds :
    (xs ys : List Bytes) (a b : Args) → Holds xs a → Holds ys b → Holds (xs ++ ys) (args_extend a b)
unfolding args_extend
args_extend-Holds xs ys a b h g = extend_loop-Holds b.argc 0 xs ys a b h g (omega (arith, g.count))

pub args_copy-Holds : (xs : List Bytes) (a : Args) → Holds xs a → Holds xs (args_copy a)
unfolding args_copy
args_copy-Holds xs a h = args_extend-Holds [] xs (args_init []) a (args_init-Holds []) h

-- One round of args_pop drops the last argument.
pop_one-Holds :
    (xs : List Bytes) (n : ℕ) (a : Args)
    → length xs ≡ suc n
    → Holds xs a
    → Holds (take n xs) (record { argc = a.argc - 1; argv = set a.argv (a.argc - 1) null })
pop_one-Holds xs n a e h = record {
  count = omega (arith, length-take n xs, h.count);
  room = omega (arith, length-take n xs, length-set a.argv (a.argc - 1) null, h.room);
  cells = λ i q. ground (
    arith,
    h.count,
    h.room,
    h.cells i,
    length-take n xs,
    want-take n xs i,
    get_or-set a.argv (a.argc - 1) i null undef,
  );
}

-- If a structure holds at least `n` arguments, then args_pop leaves one that holds all but the
-- last `n`.
pub args_pop-Holds :
    (n : ℕ) (xs : List Bytes) (a : Args)
    → n ≤ length xs
    → Holds xs a
    → Holds (take (length xs - n) xs) (args_pop a n)
unfolding args_pop
args_pop-Holds zero xs a e h = rw (take_all xs (length xs - 0) (omega arith)) h
args_pop-Holds (suc n) xs a e h =
    let m = length xs - 1 in
    let step = pop_one-Holds xs m a (omega arith) h in
    let size : length (take m xs) ≡ m = omega (arith, length-take m xs) in
    let rest = args_pop-Holds n (take m xs) _ (omega arith) step in
    let same : length (take m xs) - n ≡ length xs - suc n = omega arith in
    rw (same, take-take (length xs - suc n) m xs (omega arith)) at rest

-- args_set replaces one argument; past the end its assertion fails.
pub args_set-Holds :
    (xs : List Bytes) (a : Args) (i : ℕ) (s : Bytes)
    → Holds xs a
    → i < length xs
    → (b : Args) × (args_set a i s ≡ some b) × Holds (set xs i s) b
unfolding args_set
args_set-Holds xs a i s h lt = (
  record a { argv = set a.argv i (str s) },
  ground (arith, h.count),
  record {
    count = omega (arith, length-set xs i s, h.count);
    room = omega (arith, length-set xs i s, length-set a.argv i (str s), h.room);
    cells = λ j q. ground (
      arith,
      h.room,
      h.cells j,
      length-set xs i s,
      want-set xs i j s,
      get_or-set a.argv i j (str s) undef,
    );
  },
)

-- args_remove_first drops the first argument.
pub args_remove_first-Holds :
    (x : Bytes) (xs : List Bytes) (a : Args) → Holds (x ∷ xs) a → Holds xs (args_remove_first a)
unfolding args_remove_first
args_remove_first-Holds x xs a h =
    let size = length-memmove a.argv 0 1 a.argc (omega (arith, h.count)) (omega (arith, h.count)) in
    record {
      count = omega (arith, h.count);
      room = omega (arith, size);
      cells = λ i q. ground (
        arith,
        h.count,
        h.cells (suc i),
        plus_one i,
        get-memmove a.argv 0 1 a.argc (omega (arith, h.count)) (omega (arith, h.count)) i,
      );
    }
  where
    plus_one : (i : ℕ) → get_or a.argv (i - 0 + 1) undef ≡ get_or a.argv (suc i) undef
    plus_one i = ap (λ k. get_or a.argv k undef) (omega arith)

-- args_add_prefix puts one argument in front.
pub args_add_prefix-Holds :
    (xs : List Bytes) (a : Args) (s : Bytes) → Holds xs a → Holds (s ∷ xs) (args_add_prefix a s)
unfolding args_add_prefix
args_add_prefix-Holds xs a s h =
    let grown = realloc (a.argc + 2) a.argv in
    let size = length-realloc (a.argc + 2) a.argv in
    let moved = memmove grown 1 0 (a.argc + 1) in
    let size' = length-memmove grown 1 0 (a.argc + 1) (omega arith) (omega arith) in
    record {
      count = omega (arith, h.count);
      room = omega (arith, length-set moved 0 (str s), size, size', h.count);
      cells = λ i q. ground (
        arith,
        h.count,
        h.cells (i - 1),
        want_cons i,
        size,
        size',
        get_or-set moved 0 i (str s) undef,
        get-memmove grown 1 0 (a.argc + 1) (omega arith) (omega arith) i,
        at_pred i,
        get-realloc (a.argc + 2) a.argv (i - 1),
      );
    }
  where
    at_pred :
        (i : ℕ)
        → get_or (realloc (a.argc + 2) a.argv) (i - 1 + 0) undef
          ≡ get_or (realloc (a.argc + 2) a.argv) (i - 1) undef
    at_pred i = ap (λ k. get_or (realloc (a.argc + 2) a.argv) k undef) (omega arith)

    want_cons : (i : ℕ) → want (s ∷ xs) i ≡ (if i == 0 then str s else want xs (i - 1))
    want_cons zero = ground arith
    want_cons (suc i) = ground (arith, ap (want xs) (pred i))
      where
        pred : (i : ℕ) → suc i - 1 ≡ i
        pred i = omega arith
