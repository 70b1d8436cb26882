-- ===== src/Compopt.antt =====
-- src/compopt.c: the table of compiler options and the questions asked of it.
-- The flags are powers of two and no row names one twice, so that `|` is a sum. The C library's
-- bsearch is a parameter: it takes the comparison with the key and the table.
pub mod Search
mod Examples
use memccache.Base.{
  ℕ, suc, ◌+◌, ◌/◌, ◌%◌, List, [], ◌∷◌, take, Bool, true, false, not, ◌&&◌, Option, none, some, ltb,
  ◌==◌, if◌then◌else◌, Bytes, bytes_eq, codes, starts_with, compare, Ordering,
}

abbrev pub too_hard : ℕ
too_hard = 1

abbrev pub too_hard_direct : ℕ
too_hard_direct = 2

abbrev pub takes_arg : ℕ
takes_arg = 4

abbrev pub takes_concat_arg : ℕ
takes_concat_arg = 8

abbrev pub takes_path : ℕ
takes_path = 16

abbrev pub affects_cpp : ℕ
affects_cpp = 32

abbrev pub affects_comp : ℕ
affects_comp = 64

abbrev pub Compopt : Type 0
Compopt = Bytes × ℕ

abbrev pub compopts : List Compopt
compopts =
    (codes "--Werror", takes_arg)
    ∷ (codes "--analyze", too_hard)
    ∷ (codes "--compiler-bindir", affects_cpp + takes_arg)
    ∷ (codes "--libdevice-directory", affects_cpp + takes_arg)
    ∷ (codes "--output-directory", affects_cpp + takes_arg)
    ∷ (codes "--param", takes_arg)
    ∷ (codes "--save-temps", too_hard)
    ∷ (codes "--save-temps=cwd", too_hard)
    ∷ (codes "--save-temps=obj", too_hard)
    ∷ (codes "--serialize-diagnostics", takes_arg + takes_path)
    ∷ (codes "-A", takes_arg)
    ∷ (codes "-B", takes_arg + takes_concat_arg + takes_path)
    ∷ (codes "-D", affects_cpp + takes_arg + takes_concat_arg)
    ∷ (codes "-E", too_hard)
    ∷ (codes "-F", affects_cpp + takes_arg + takes_concat_arg + takes_path)
    ∷ (codes "-G", takes_arg)
    ∷ (codes "-I", affects_cpp + takes_arg + takes_concat_arg + takes_path)
    ∷ (codes "-L", takes_arg)
    ∷ (codes "-M", too_hard)
    ∷ (codes "-MF", takes_arg)
    ∷ (codes "-MM", too_hard)
    ∷ (codes "-MQ", takes_arg)
    ∷ (codes "-MT", takes_arg)
    ∷ (codes "-P", too_hard)
    ∷ (codes "-U", affects_cpp + takes_arg + takes_concat_arg)
    ∷ (codes "-V", takes_arg)
    ∷ (codes "-Wa,", takes_concat_arg + affects_comp)
    ∷ (codes "-Werror", affects_comp)
    ∷ (codes "-Wl,", takes_concat_arg + affects_comp)
    ∷ (codes "-Wno-error", affects_comp)
    ∷ (codes "-Xassembler", takes_arg + takes_concat_arg + affects_comp)
    ∷ (codes "-Xclang", takes_arg)
    ∷ (codes "-Xlinker", takes_arg + takes_concat_arg + affects_comp)
    ∷ (codes "-Xpreprocessor", affects_cpp + too_hard_direct + takes_arg)
    ∷ (codes "-all_load", affects_comp)
    ∷ (codes "-analyze", too_hard)
    ∷ (codes "-arch", takes_arg)
    ∷ (codes "-aux-info", takes_arg)
    ∷ (codes "-b", takes_arg)
    ∷ (codes "-bind_at_load", affects_comp)
    ∷ (codes "-bundle", affects_comp)
    ∷ (codes "-ccbin", affects_cpp + takes_arg)
    ∷ (codes "-fmodules", too_hard)
    ∷ (codes "-fno-working-directory", affects_cpp)
    ∷ (codes "-fplugin=libcc1plugin", too_hard)
    ∷ (codes "-frepo", too_hard)
    ∷ (codes "-ftime-trace", too_hard)
    ∷ (codes "-fworking-directory", affects_cpp)
    ∷ (codes "-gtoggle", too_hard)
    ∷ (codes "-idirafter", affects_cpp + takes_arg + takes_concat_arg + takes_path)
    ∷ (codes "-iframework", affects_cpp + takes_arg + takes_concat_arg + takes_path)
    ∷ (codes "-imacros", affects_cpp + takes_arg + takes_concat_arg + takes_path)
    ∷ (codes "-imultilib", affects_cpp + takes_arg + takes_concat_arg + takes_path)
    ∷ (codes "-include", affects_cpp + takes_arg + takes_concat_arg + takes_path)
    ∷ (codes "-include-pch", affects_cpp + takes_arg + takes_concat_arg + takes_path)
    ∷ (codes "-install_name", takes_arg)
    ∷ (codes "-iprefix", affects_cpp + takes_arg + takes_concat_arg + takes_path)
    ∷ (codes "-iquote", affects_cpp + takes_arg + takes_concat_arg + takes_path)
    ∷ (codes "-isysroot", affects_cpp + takes_arg + takes_concat_arg + takes_path)
    ∷ (codes "-isystem", affects_cpp + takes_arg + takes_concat_arg + takes_path)
    ∷ (codes "-iwithprefix", affects_cpp + takes_arg + takes_concat_arg + takes_path)
    ∷ (codes "-iwithprefixbefore", affects_cpp + takes_arg + takes_concat_arg + takes_path)
    ∷ (codes "-ldir", affects_cpp + takes_arg)
    ∷ (codes "-nolibc", affects_comp)
    ∷ (codes "-nostdinc", affects_cpp)
    ∷ (codes "-nostdinc++", affects_cpp)
    ∷ (codes "-odir", affects_cpp + takes_arg)
    ∷ (codes "-pie", affects_comp)
    ∷ (codes "-prebind", affects_comp)
    ∷ (codes "-preload", affects_comp)
    ∷ (codes "-rdynamic", affects_comp)
    ∷ (codes "-remap", affects_cpp)
    ∷ (codes "-save-temps", too_hard)
    ∷ (codes "-save-temps=cwd", too_hard)
    ∷ (codes "-save-temps=obj", too_hard)
    ∷ (codes "-stdlib=", affects_cpp + takes_concat_arg)
    ∷ (codes "-trigraphs", affects_cpp)
    ∷ (codes "-u", takes_arg + takes_concat_arg)
    ∷ []

-- type & flag, for a flag that is a power of two
abbrev pub has_flag : ℕ → ℕ → Bool
has_flag type flag = type / flag % 2 == 1

-- strcmp of unsigned characters
unfoldable pub strcmp : Bytes → Bytes → Ordering
strcmp [] [] = Ordering.eq
strcmp [] (b ∷ bs) = Ordering.lt
strcmp (a ∷ as') [] = Ordering.gt
strcmp (a ∷ as') (b ∷ bs) = elim (compare a b) [
  | Ordering.lt ↦ Ordering.lt
  | Ordering.gt ↦ Ordering.gt
  | Ordering.eq ↦ strcmp as' bs
]

-- strncmp(option, name, strlen(name))
unfoldable pub strncmp : Bytes → Bytes → Ordering
strncmp option [] = Ordering.eq
strncmp [] (b ∷ bs) = Ordering.lt
strncmp (a ∷ as') (b ∷ bs) = elim (compare a b) [
  | Ordering.lt ↦ Ordering.lt
  | Ordering.gt ↦ Ordering.gt
  | Ordering.eq ↦ strncmp as' bs
]

unfoldable pub compare_compopts : Bytes → Compopt → Ordering
compare_compopts option co = strcmp option co.0

unfoldable pub compare_prefix_compopts : Bytes → Compopt → Ordering
compare_prefix_compopts option co = strncmp option co.0

-- co && (co->type & flag)
abbrev pub found_with : ℕ → Option Compopt → Bool
found_with flag none = false
found_with flag (some co) = has_flag co.1 flag

-- The parameter's type: how the key compares with a row, and the table.
abbrev pub Bsearch : Type 0
Bsearch = (Compopt → Ordering) → List Compopt → Option Compopt

module _ (bsearch : Bsearch) where
  unfoldable pub find : Bytes → Option Compopt
  find option = bsearch (compare_compopts option) compopts

  unfoldable pub find_prefix : Bytes → Option Compopt
  find_prefix option = bsearch (compare_prefix_compopts option) compopts

  unfoldable pub compopt_affects_cpp : Bytes → Bool
  compopt_affects_cpp option = found_with affects_cpp (find option)

  unfoldable pub compopt_affects_comp : Bytes → Bool
  compopt_affects_comp option = found_with affects_comp (find option)

  unfoldable pub compopt_too_hard : Bytes → Bool
  compopt_too_hard option = found_with too_hard (find option)

  unfoldable pub compopt_too_hard_for_direct_mode : Bytes → Bool
  compopt_too_hard_for_direct_mode option = found_with too_hard_direct (find option)

  unfoldable pub compopt_takes_path : Bytes → Bool
  compopt_takes_path option = found_with takes_path (find option)

  unfoldable pub compopt_takes_arg : Bytes → Bool
  compopt_takes_arg option = found_with takes_arg (find option)

  unfoldable pub compopt_takes_concat_arg : Bytes → Bool
  compopt_takes_concat_arg option = found_with takes_concat_arg (find option)

  unfoldable pub compopt_prefix_affects_cpp : Bytes → Bool
  compopt_prefix_affects_cpp option =
      found_with takes_concat_arg (find_prefix option)
      && found_with affects_cpp (find_prefix option)

  unfoldable pub compopt_prefix_affects_comp : Bytes → Bool
  compopt_prefix_affects_comp option =
      found_with takes_concat_arg (find_prefix option)
      && found_with affects_comp (find_prefix option)

unfoldable pub compopt_short : (Bytes → Bool) → Bytes → Bool
compopt_short fn option = fn (take 2 option)

-- The test of one row, then of its order with the next.
unfoldable pub verify_rows : List Compopt → Bool
verify_rows [] = true
verify_rows (x ∷ []) = not (has_flag x.1 too_hard && has_flag x.1 takes_concat_arg)
verify_rows (x ∷ (y ∷ t)) =
    not (has_flag x.1 too_hard && has_flag x.1 takes_concat_arg)
    && (elim (strcmp x.0 y.0) [ Ordering.lt ↦ true | _ ↦ false ] && verify_rows (y ∷ t))

unfoldable pub compopt_verify_sortedness_and_flags : Bool
compopt_verify_sortedness_and_flags = verify_rows compopts
