-- ===== src/Args.antt =====
-- src/args.c and struct args of src/ccache.h: a growable argv array that ends in NULL.
-- The buffer is a list of cells. A cell that realloc adds is undefined, a read out of bounds is
-- undefined, and a write out of bounds is lost, so a result that holds argument for argument was
-- built inside the buffer. Strings are byte lists without their NUL; allocation failure ends the
-- program in the source and is left out, as is free.
pub mod Repr
pub mod Edit
pub mod Insert
pub mod Strip
pub mod Atfile
mod Examples
use memccache.Base.{
  ℕ, zero, suc, ◌+◌, ◌-◌, List, [], ◌∷◌, ◌++◌, Bool, true, false, ◌&&◌, Option, none, some, ltb,
  leb, ◌==◌, if◌then◌else◌, get_or, set, take, drop, length, Bytes, bytes_eq, starts_with,
}

pub data Cell : Type 0 where
  undef null : Cell
  str : Bytes → Cell

pub record Args : Type 0 where
  pub argc : ℕ
  pub argv : List Cell

abbrev pub cell : Args → ℕ → Cell
cell a i = get_or a.argv i undef

-- realloc(p, n * sizeof(char *))
unfoldable pub realloc : ℕ → List Cell → List Cell
realloc zero a = []
realloc (suc n) [] = undef ∷ realloc n []
realloc (suc n) (x ∷ a) = x ∷ realloc n a

-- memmove(&a[dst], &a[src], n * sizeof(char *))
unfoldable pub memmove : List Cell → ℕ → ℕ → ℕ → List Cell
memmove a dst src n = take dst a ++ (take n (drop src a) ++ drop (dst + n) a)

unfoldable pub args_add : Args → Bytes → Args
unfolding realloc
args_add a s =
    let grown = realloc (a.argc + 2) a.argv in
    let stored = set grown a.argc (str s) in
    let argc = a.argc + 1 in record { argc = argc; argv = set stored argc null }

-- args_init: the loop over init_args
unfoldable pub add_all : Args → List Bytes → Args
add_all a [] = a
add_all a (s ∷ ss) = add_all (args_add a s) ss

unfoldable pub args_init : List Bytes → Args
unfolding add_all args_add
args_init ss = add_all (record { argc = 0; argv = null ∷ [] }) ss

-- The loop of args_extend, with `k` rounds left, and of args_copy through args_init. A cell that is
-- no string is undefined behaviour of x_strdup in the source, and ends the model's loop.
extend_loop : ℕ → ℕ → Args → Args → Args
extend_loop zero i a from = a
extend_loop (suc k) i a from = elim (cell from i) [
  | str s ↦ extend_loop k (i + 1) (args_add a s) from
  | undef ↦ a
  | null ↦ a
]

unfoldable pub args_extend : Args → Args → Args
unfolding extend_loop args_add
args_extend a to_append = extend_loop to_append.argc 0 a to_append

unfoldable pub args_copy : Args → Args
unfolding args_extend args_init
args_copy a = args_extend (args_init []) a

unfoldable pub args_pop : Args → ℕ → Args
args_pop a zero = a
args_pop a (suc n) =
    let argc = a.argc - 1 in args_pop (record { argc = argc; argv = set a.argv argc null }) n

-- `none` where the assertion index < argc fails
unfoldable pub args_set : Args → ℕ → Bytes → Option Args
args_set a index value =
    if ltb index a.argc then some (record a { argv = set a.argv index (str value) }) else none

unfoldable pub args_remove_first : Args → Args
unfolding memmove
args_remove_first a = record { argc = a.argc - 1; argv = memmove a.argv 0 1 a.argc }

unfoldable pub args_add_prefix : Args → Bytes → Args
unfolding memmove realloc
args_add_prefix a s =
    let grown = realloc (a.argc + 2) a.argv in
    let moved = memmove grown 1 0 (a.argc + 1) in
    record { argc = a.argc + 1; argv = set moved 0 (str s) }

-- for (i = index; i < argc; i++) argv[i] = argv[i + 1], with `k` rounds left
shift_down : ℕ → ℕ → List Cell → List Cell
shift_down zero i v = v
shift_down (suc k) i v = shift_down k (i + 1) (set v i (get_or v (i + 1) undef))

-- for (i = lo + k - 1; i >= lo; i--) argv[i + d] = argv[i]
shift_up : ℕ → ℕ → ℕ → List Cell → List Cell
shift_up zero lo d v = v
shift_up (suc k) lo d v = shift_up k lo d (set v (lo + k + d) (get_or v (lo + k) undef))

-- for (i = 0; i < argc; i++) argv[i + index] = src->argv[i], with `k` rounds left
copy_in : ℕ → ℕ → ℕ → List Cell → List Cell → List Cell
copy_in zero i index src v = v
copy_in (suc k) i index src v = copy_in k (i + 1) index src (set v (i + index) (get_or src i undef))

unfoldable pub args_insert : Args → ℕ → Args → Bool → Args
unfolding shift_down shift_up copy_in realloc
args_insert dest index src replace =
    let offset = if replace then 1 else 0 in
    if src.argc == 0
    then (if replace
        then record { argc = dest.argc - 1; argv = shift_down (dest.argc - index) index dest.argv }
        else dest)
    else if src.argc == 1 && replace
    then record dest { argv = set dest.argv index (get_or src.argv 0 undef) }
    else let grown = realloc (src.argc + dest.argc + 1 - offset) dest.argv in
      let lo = index + offset in
      let shifted = shift_up (dest.argc + 1 - lo) lo (src.argc - offset) grown in
      record {
        argc = dest.argc + (src.argc - offset);
        argv = copy_in src.argc 0 index src.argv shifted;
      }

-- The loop of args_strip; `f` bounds the rounds, of which there are argc - i.
strip_loop : ℕ → ℕ → Args → Bytes → Args
strip_loop zero i a prefix = a
strip_loop (suc f) i a prefix =
    let removed =
      strip_loop f i (record { argc = a.argc - 1; argv = memmove a.argv i (i + 1) (a.argc - i) })
        prefix in
    let kept = strip_loop f (i + 1) a prefix in
    elim (ltb i a.argc) [
      | false ↦ a
      | true ↦ elim (cell a i) [
        | str s ↦ if starts_with s prefix then removed else kept
        | undef ↦ a
        | null ↦ a
      ]
    ]

unfoldable pub args_strip : Args → Bytes → Args
unfolding strip_loop memmove starts_with
args_strip a prefix = strip_loop a.argc 0 a prefix

-- str_eq of two cells; NULL or an undefined cell is undefined behaviour, and counts as different
cell_eq : Cell → Cell → Bool
unfolding bytes_eq
cell_eq (str a) (str b) = bytes_eq a b
cell_eq _ _ = false

equal_loop : ℕ → ℕ → Args → Args → Bool
equal_loop zero i a b = true
equal_loop (suc k) i a b = elim (cell_eq (cell a i) (cell b i)) [
  | true ↦ equal_loop k (i + 1) a b
  | false ↦ false
]

unfoldable pub args_equal : Args → Args → Bool
unfolding equal_loop cell_eq
args_equal a b = if a.argc == b.argc then equal_loop a.argc 0 a b else false
