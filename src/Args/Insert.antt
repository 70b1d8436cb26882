-- ===== src/Args/Insert.antt =====
-- args_insert of src/args.c: its three loops cell by cell, and the list that results.
use memccache.Base.{
  ℕ, zero, suc, ◌+◌, ◌-◌, ◌≤◌, ◌<◌, ◌≡◌, refl, ap, List, [], ◌∷◌, ◌++◌, Bool, true, false, ◌&&◌,
  arith, ltb, leb, ◌==◌, if◌then◌else◌, get_or, set, take, drop, length, length-append, length-take,
  length-drop, length-set, get_or-set, take-append-drop, Bytes,
}
use memccache.Args.{Cell, undef, Args, realloc, shift_down, shift_up, copy_in, args_insert}
use memccache.Args.Repr.{
  want, Holds, length-realloc, get-realloc, want-append, want-take, want-drop,
}

length-shift_down : (k i : ℕ) (v : List Cell) → length (shift_down k i v) ≡ length v
unfolding shift_down
length-shift_down zero i v = refl
length-shift_down (suc k) i v = omega (
  arith,
  length-shift_down k (i + 1) (set v i (get_or v (i + 1) undef)),
  length-set v i (get_or v (i + 1) undef),
)

length-shift_up : (k lo d : ℕ) (v : List Cell) → length (shift_up k lo d v) ≡ length v
unfolding shift_up
length-shift_up zero lo d v = refl
length-shift_up (suc k) lo d v = omega (
  arith,
  length-shift_up k lo d (set v (lo + k + d) (get_or v (lo + k) undef)),
  length-set v (lo + k + d) (get_or v (lo + k) undef),
)

length-copy_in : (k i index : ℕ) (src v : List Cell) → length (copy_in k i index src v) ≡ length v
unfolding copy_in
length-copy_in zero i index src v = refl
length-copy_in (suc k) i index src v = omega (
  arith,
  length-copy_in k (i + 1) index src (set v (i + index) (get_or src i undef)),
  length-set v (i + index) (get_or src i undef),
)

get-shift_down :
    (k i : ℕ) (v : List Cell) (j : ℕ)
    → i + k < length v
    → get_or (shift_down k i v) j undef
      ≡ (if leb i j && ltb j (i + k) then get_or v (j + 1) undef else get_or v j undef)
unfolding shift_down
get-shift_down zero i v j h = ground arith
get-shift_down (suc k) i v j h =
    let w = set v i (get_or v (i + 1) undef) in
    let n = length-set v i (get_or v (i + 1) undef) in
    ground (
      arith,
      n,
      get-shift_down k (i + 1) w j (omega arith),
      get_or-set v i j (get_or v (i + 1) undef) undef,
      get_or-set v i (j + 1) (get_or v (i + 1) undef) undef,
    )

get-shift_up :
    (k lo d : ℕ) (v : List Cell) (j : ℕ)
    → lo + k + d ≤ length v
    → get_or (shift_up k lo d v) j undef
      ≡ (if leb (lo + d) j && ltb j (lo + d + k) then get_or v (j - d) undef else get_or v j undef)
unfolding shift_up
get-shift_up zero lo d v j h = ground arith
get-shift_up (suc k) lo d v j h =
    let x = get_or v (lo + k) undef in
    let w = set v (lo + k + d) x in
    let n = length-set v (lo + k + d) x in
    ground (
      arith,
      n,
      get-shift_up k lo d w j (omega arith),
      get_or-set v (lo + k + d) j x undef,
      get_or-set v (lo + k + d) (j - d) x undef,
      last,
    )
  where
    last : j ≡ lo + k + d → get_or v (j - d) undef ≡ get_or v (lo + k) undef
    last e = ap (λ t. get_or v t undef) (omega arith)

get-copy_in :
    (k i index : ℕ) (src v : List Cell) (j : ℕ)
    → index + i + k ≤ length v
    → get_or (copy_in k i index src v) j undef ≡ (
        if leb (index + i) j && ltb j (index + i + k)
        then get_or src (j - index) undef
        else get_or v j undef)
unfolding copy_in
get-copy_in zero i index src v j h = ground arith
get-copy_in (suc k) i index src v j h =
    let x = get_or src i undef in
    let n = length-set v (i + index) x in
    ground (
      arith,
      n,
      get-copy_in k (i + 1) index src (set v (i + index) x) j (omega arith),
      get_or-set v (i + index) j x undef,
      first,
    )
  where
    first : j ≡ i + index → get_or src (j - index) undef ≡ get_or src i undef
    first e = ap (λ t. get_or src t undef) (omega arith)

-- The list that args_insert is to leave: `n` arguments of `ds` from `index` give way to `ss`.
abbrev pub spliced : List Bytes → ℕ → List Bytes → ℕ → List Bytes
spliced ds index ss n = take index ds ++ (ss ++ drop (index + n) ds)

length-spliced :
    (ds ss : List Bytes) (index n : ℕ)
    → index + n ≤ length ds
    → length (spliced ds index ss n) + n ≡ length ds + length ss
length-spliced ds ss index n h = omega (
  arith,
  length-append (take index ds) (ss ++ drop (index + n) ds),
  length-append ss (drop (index + n) ds),
  length-take index ds,
  length-drop (index + n) ds,
)

want-spliced :
    (ds ss : List Bytes) (index n j : ℕ)
    → index + n ≤ length ds
    → want (spliced ds index ss n) j ≡ (
        if ltb j index
        then want ds j
        else if ltb j (index + length ss)
        then want ss (j - index)
        else want ds (index + n + (j - index - length ss)))
want-spliced ds ss index n j h = ground (
  arith,
  length-take index ds,
  want-append (take index ds) (ss ++ drop (index + n) ds) j,
  want-append ss (drop (index + n) ds) (j - index),
  want-take index ds j,
  want-drop (index + n) ds (j - index - length ss),
)

module _ (ds ss : List Bytes) (dest src : Args) (hd : Holds ds dest) (hs : Holds ss src) where
  -- Replacing by nothing.
  insert_none :
      (index : ℕ)
      → index < length ds
      → Holds
          (spliced ds index [] 1)
          (record { argc = dest.argc - 1; argv = shift_down (dest.argc - index) index dest.argv })
  insert_none index h =
      let size = length-spliced ds [] index 1 (omega arith) in
      let k = dest.argc - index in
      record {
        count = omega (arith, hd.count);
        room = omega (arith, hd.count, hd.room, length-shift_down k index dest.argv);
        cells = λ j q. ground (
          arith,
          hd.count,
          hd.room,
          size,
          hd.cells j,
          hd.cells (j + 1),
          want-spliced ds [] index 1 j (omega arith),
          get-shift_down k index dest.argv j (omega (arith, hd.count, hd.room)),
          later j,
        );
      }
    where
      later : (j : ℕ) → index ≤ j → want ds (index + 1 + (j - index - 0)) ≡ want ds (j + 1)
      later j p = ap (want ds) (omega arith)

  -- Replacing one argument by one.
  insert_one :
      (index : ℕ)
      → index < length ds
      → length ss ≡ 1
      → Holds
          (spliced ds index ss 1)
          (record dest { argv = set dest.argv index (get_or src.argv 0 undef) })
  insert_one index h one =
      let size = length-spliced ds ss index 1 (omega arith) in
      let x = get_or src.argv 0 undef in
      record {
        count = omega (arith, hd.count);
        room = omega (arith, hd.room, length-set dest.argv index x);
        cells = λ j q. ground (
          arith,
          hd.room,
          size,
          one,
          hd.cells j,
          hs.cells 0,
          want-spliced ds ss index 1 j (omega arith),
          get_or-set dest.argv index j x undef,
          here j,
          later j,
        );
      }
    where
      here : (j : ℕ) → j ≡ index → want ss (j - index) ≡ want ss 0
      here j e = ap (want ss) (omega arith)

      later : (j : ℕ) → index < j → want ds (index + 1 + (j - index - length ss)) ≡ want ds j
      later j p = ap (want ds) (omega arith)

  -- The general case: shift up, then copy in.
  insert_many :
      (index n : ℕ)
      → index + n ≤ length ds
      → n ≤ length ss
      → Holds (spliced ds index ss n) (record {
        argc = dest.argc + (src.argc - n);
        argv = copy_in src.argc 0 index src.argv (
            shift_up
              (dest.argc + 1 - (index + n))
              (index + n)
              (src.argc - n)
              (realloc (src.argc + dest.argc + 1 - n) dest.argv));
      })
  insert_many index n h le =
      let size = length-spliced ds ss index n h in
      let grown = realloc (src.argc + dest.argc + 1 - n) dest.argv in
      let lo = index + n in
      let k = dest.argc + 1 - lo in
      let d = src.argc - n in
      let shifted = shift_up k lo d grown in
      let sg = length-realloc (src.argc + dest.argc + 1 - n) dest.argv in
      let ss' = length-shift_up k lo d grown in
      let sc = length-copy_in src.argc 0 index src.argv shifted in
      record {
        count = omega (arith, hd.count, hs.count);
        room = omega (arith, hd.count, hs.count, sg, ss', sc);
        cells = λ j q. ground (
          arith,
          hd.count,
          hs.count,
          size,
          hd.cells j,
          hd.cells (j - d),
          hs.cells (j - index),
          want-spliced ds ss index n j h,
          get-copy_in src.argc 0 index src.argv shifted j
              (omega (arith, hd.count, hs.count, sg, ss')),
          get-shift_up k lo d grown j (omega (arith, hd.count, hs.count, sg)),
          get-realloc (src.argc + dest.argc + 1 - n) dest.argv j,
          get-realloc (src.argc + dest.argc + 1 - n) dest.argv (j - d),
          later j,
        );
      }
    where
      later :
          (j : ℕ)
          → index + length ss ≤ j
          → want ds (index + n + (j - index - length ss)) ≡ want ds (j - (src.argc - n))
      later j p = ap (want ds) (omega (arith, hs.count))

-- If `dest` holds the arguments `ds` and `src` holds `ss`, and `index` is at most the number of
-- arguments in `ds`, or below it if `replace` is set, then args_insert leaves a structure that
-- holds `ds` with `ss` put at `index`, in place of the argument there if `replace` is set and
-- in front of it otherwise; all others keep their order, and the NULL behind the last one stays
-- in place.
pub args_insert-Holds :
    (ds ss : List Bytes) (dest src : Args) (index : ℕ) (replace : Bool)
    → Holds ds dest
    → Holds ss src
    → (if replace then 1 else 0) + index ≤ length ds
    → Holds (spliced ds index ss (if replace then 1 else 0)) (args_insert dest index src replace)
unfolding args_insert
args_insert-Holds ds [] dest src index true hd hs h =
    rw hs.count (insert_none ds [] dest src hd hs index (omega arith))
args_insert-Holds ds [] dest src index false hd hs h =
    let same : take index ds ++ drop (index + 0) ds ≡ ds =
      (let e : index + 0 ≡ index = omega arith in rw e (take-append-drop index ds)) in
    rw (hs.count, same) hd
args_insert-Holds ds (s ∷ []) dest src index true hd hs h =
    rw hs.count (insert_one ds (s ∷ []) dest src hd hs index (omega arith) refl)
args_insert-Holds ds (s ∷ []) dest src index false hd hs h =
    let some_args : src.argc == 0 ≡ false = ground (arith, hs.count) in
    let many : src.argc == 1 && false ≡ false = ground arith in
    rw (some_args, many)
      (insert_many ds (s ∷ []) dest src hd hs index 0 (omega arith) (omega arith))
args_insert-Holds ds (s ∷ t ∷ ss) dest src index true hd hs h =
    let some_args : src.argc == 0 ≡ false = ground (arith, hs.count) in
    let many : src.argc == 1 && true ≡ false = ground (arith, hs.count) in
    rw (some_args, many)
      (insert_many ds (s ∷ t ∷ ss) dest src hd hs index 1 (omega arith) (omega arith))
args_insert-Holds ds (s ∷ t ∷ ss) dest src index false hd hs h =
    let some_args : src.argc == 0 ≡ false = ground (arith, hs.count) in
    let many : src.argc == 1 && false ≡ false = ground arith in
    rw (some_args, many)
      (insert_many ds (s ∷ t ∷ ss) dest src hd hs index 0 (omega arith) (omega arith))
