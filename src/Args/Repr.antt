-- ===== src/Args/Repr.antt =====
-- What an args structure of src/args.c stands for: `Holds xs a` says that `a` holds exactly the
-- arguments `xs`, in a buffer with room for them and for the NULL behind them.
use memccache.Base.{
  ℕ, zero, suc, ◌+◌, ◌-◌, ◌≤◌, ◌<◌, ◌≡◌, refl, ap, List, [], ◌∷◌, ◌++◌, arith, ltb, ◌==◌,
  if◌then◌else◌, get_or, set, take, drop, length, length-append, length-take, length-drop,
  get_or-append, get_or-take, get_or-drop, Bytes,
}
use memccache.Args.{Cell, undef, null, str, Args, cell, realloc, memmove}

-- The cell that index `i` must have: an argument, the NULL, or anything past it.
abbrev pub want : List Bytes → ℕ → Cell
want [] i = null
want (x ∷ xs) zero = str x
want (x ∷ xs) (suc i) = want xs i

pub record Holds (xs : List Bytes) (a : Args) : Type 0 where
  pub count : a.argc ≡ length xs
  pub room : length xs < length a.argv
  pub cells : (i : ℕ) → i ≤ length xs → cell a i ≡ want xs i

pub length-realloc : (n : ℕ) (a : List Cell) → length (realloc n a) ≡ n
unfolding realloc
length-realloc zero a = refl
length-realloc (suc n) [] = ap suc (length-realloc n [])
length-realloc (suc n) (x ∷ a) = ap suc (length-realloc n a)

pub get-realloc :
    (n : ℕ) (a : List Cell) (i : ℕ)
    → get_or (realloc n a) i undef ≡ (if ltb i n then get_or a i undef else undef)
unfolding realloc
get-realloc zero a i = ground arith
get-realloc (suc n) [] zero = ground arith
get-realloc (suc n) [] (suc i) = ground (arith, get-realloc n [] i)
get-realloc (suc n) (x ∷ a) zero = ground arith
get-realloc (suc n) (x ∷ a) (suc i) = ground (arith, get-realloc n a i)

module _ (a : List Cell) (dst src n : ℕ) (hd : dst + n ≤ length a) (hs : src + n ≤ length a) where
  pub length-memmove : length (memmove a dst src n) ≡ length a
  unfolding memmove
  length-memmove = omega (
    arith,
    length-append (take dst a) (take n (drop src a) ++ drop (dst + n) a),
    length-append (take n (drop src a)) (drop (dst + n) a),
    length-take dst a,
    length-take n (drop src a),
    length-drop src a,
    length-drop (dst + n) a,
  )

  pub get-memmove :
      (i : ℕ)
      → get_or (memmove a dst src n) i undef ≡ (
          if ltb i dst
          then get_or a i undef
          else if ltb i (dst + n)
          then get_or a (i - dst + src) undef
          else get_or a i undef)
  unfolding memmove
  get-memmove i = ground (
    arith,
    get_or-append (take dst a) (take n (drop src a) ++ drop (dst + n) a) i undef,
    get_or-append (take n (drop src a)) (drop (dst + n) a) (i - dst) undef,
    length-take dst a,
    length-take n (drop src a),
    length-drop src a,
    get_or-take dst a i undef,
    get_or-take n (drop src a) (i - dst) undef,
    get_or-drop src a (i - dst) undef,
    get_or-drop (dst + n) a (i - dst - n) undef,
    move_index,
    keep_index,
  )
    where
      move_index : dst ≤ i → get_or a (src + (i - dst)) undef ≡ get_or a (i - dst + src) undef
      move_index h = ap (λ k. get_or a k undef) (omega arith)

      keep_index : dst + n ≤ i → get_or a (dst + n + (i - dst - n)) undef ≡ get_or a i undef
      keep_index h = ap (λ k. get_or a k undef) (omega arith)

-- The expected cells of lists that are built from others.
pub want_beyond : (xs : List Bytes) (i : ℕ) → length xs ≤ i → want xs i ≡ null
want_beyond [] i h = refl
want_beyond (x ∷ xs) zero h = absurd (omega arith)
want_beyond (x ∷ xs) (suc i) h = want_beyond xs i (omega arith)

pub want-append :
    (xs ys : List Bytes) (i : ℕ)
    → want (xs ++ ys) i ≡ (if ltb i (length xs) then want xs i else want ys (i - length xs))
want-append [] ys i = ground arith
want-append (x ∷ xs) ys zero = ground arith
want-append (x ∷ xs) ys (suc i) = ground (arith, want-append xs ys i)

pub want-take :
    (n : ℕ) (xs : List Bytes) (i : ℕ) → want (take n xs) i ≡ (if ltb i n then want xs i else null)
want-take zero xs i = ground arith
want-take (suc n) [] i = ground arith
want-take (suc n) (x ∷ xs) zero = ground arith
want-take (suc n) (x ∷ xs) (suc i) = ground (arith, want-take n xs i)

pub want-drop : (n : ℕ) (xs : List Bytes) (i : ℕ) → want (drop n xs) i ≡ want xs (n + i)
want-drop zero xs i = ground arith
want-drop (suc n) [] i = refl
want-drop (suc n) (x ∷ xs) i = ground (arith, want-drop n xs i)

pub want-set :
    (xs : List Bytes) (i j : ℕ) (s : Bytes)
    → i < length xs
    → want (set xs i s) j ≡ (if i == j then str s else want xs j)
want-set [] i j s h = elim h [ ]
want-set (x ∷ xs) zero zero s h = ground arith
want-set (x ∷ xs) zero (suc j) s h = ground arith
want-set (x ∷ xs) (suc i) zero s h = ground arith
want-set (x ∷ xs) (suc i) (suc j) s h = ground (arith, want-set xs i j s)

-- Inside the argument count there is always a string.
pub want_str : (xs : List Bytes) (i : ℕ) → i < length xs → (s : Bytes) × (want xs i ≡ str s)
want_str [] i h = elim h [ ]
want_str (x ∷ xs) zero h = (x, refl)
want_str (x ∷ xs) (suc i) h = want_str xs i (omega arith)

pub drop_all : (xs : List Bytes) (i : ℕ) → length xs ≤ i → drop i xs ≡ []
drop_all [] zero h = refl
drop_all [] (suc i) h = refl
drop_all (x ∷ xs) zero h = absurd (omega arith)
drop_all (x ∷ xs) (suc i) h = drop_all xs i (omega arith)

pub drop_one :
    (xs : List Bytes) (i : ℕ) (s : Bytes) → want xs i ≡ str s → drop i xs ≡ s ∷ drop (i + 1) xs
drop_one [] i s h = absurd (ground arith)
drop_one (x ∷ xs) zero s h = ground arith
drop_one (x ∷ xs) (suc i) s h = rw (shift xs i) (drop_one xs i s h)
  where
    shift : (xs : List Bytes) (i : ℕ) → drop (suc i + 1) (x ∷ xs) ≡ drop (i + 1) xs
    shift xs i = let e : suc i + 1 ≡ suc (i + 1) = omega arith in rw e

pub take_all : (xs : List Bytes) (n : ℕ) → length xs ≤ n → take n xs ≡ xs
take_all [] zero h = refl
take_all [] (suc n) h = refl
take_all (x ∷ xs) zero h = absurd (omega arith)
take_all (x ∷ xs) (suc n) h = ap (◌∷◌ x) (take_all xs n (omega arith))

pub take-take : (n m : ℕ) (xs : List Bytes) → n ≤ m → take n (take m xs) ≡ take n xs
take-take zero m xs h = refl
take-take (suc n) zero xs h = absurd (omega arith)
take-take (suc n) (suc m) [] h = refl
take-take (suc n) (suc m) (x ∷ xs) h = ap (◌∷◌ x) (take-take n m xs (omega arith))
