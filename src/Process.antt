-- ===== src/Process.antt =====
-- cc_process_args of src/ccache.c: the pass over the compiler's arguments.
-- The argument structures are the lists of strings that they hold (Args.Repr.Holds), and the
-- arguments ahead in expanded_args are a list. The global variables that the pass assigns, those of
-- conf included, are fields of a state. What it asks of the system is a parameter. The code behind
-- the loop is not modelled.
pub mod Path
pub mod Nearest
pub mod Profile
pub mod Options
pub mod Flags
pub mod Loop
pub mod Ends
mod Examples
use memccache.Base.{ℕ, List, [], Bool, Option, none, Bytes, false}
use memccache.Compopt.{Bsearch}

pub data GuessedCompiler : Type 0 where
  clang gcc nvcc pump unknown : GuessedCompiler

-- Files by path, the environment, the settings that are only read, and the C library's bsearch.
pub record Host : Type 1 where
  pub bsearch : Bsearch
  pub guessed_compiler : GuessedCompiler
  pub base_dir : Bytes
  pub sloppiness : ℕ
  pub depend_mode : Bool
  -- the text of a file
  pub read_file : Bytes → Option Bytes
  -- stat() == 0, and of a regular file
  pub exists : Bytes → Bool
  pub is_regular : Bytes → Bool
  pub is_symlink : Bytes → Bool
  pub realpath : Bytes → Option Bytes
  -- get_current_working_dir(), and get_cwd(), which may be NULL
  pub current_dir : Bytes
  pub cwd : Option Bytes
  pub isatty : Bool
  pub term : Option Bytes

pub record State : Type 0 where
  pub common_args : List Bytes
  pub cpp_args : List Bytes
  pub dep_args : List Bytes
  pub compiler_only_args : List Bytes
  pub depend_extra_args : List Bytes
  pub arch_args : List Bytes
  pub debug_prefix_maps : List Bytes
  pub sanitize_blacklists : List Bytes
  pub found_c_opt : Bool
  pub found_dc_opt : Bool
  pub found_s_opt : Bool
  pub found_pch : Bool
  pub found_fpch_preprocess : Bool
  pub found_color_diagnostics : Bool
  pub found_directives_only : Bool
  pub found_rewrite_includes : Bool
  pub dependency_filename_specified : Bool
  pub dependency_target_specified : Bool
  pub explicit_language : Option Bytes
  pub input_charset : Option Bytes
  pub input_file : Option Bytes
  pub output_obj : Option Bytes
  pub output_dep : Option Bytes
  pub output_dia : Option Bytes
  pub included_pch_file : Option Bytes
  pub profile_path : Option Bytes
  pub profile_generate : Bool
  pub profile_use : Bool
  pub profile_arcs : Bool
  pub generating_coverage : Bool
  pub generating_stackusage : Bool
  pub generating_dependencies : Bool
  pub generating_diagnostics : Bool
  pub generating_debuginfo : Bool
  pub generating_debuginfo_level_3 : Bool
  pub using_split_dwarf : Bool
  pub direct_mode : Bool
  pub run_second_cpp : Bool

-- A round of the loop over one argument: the next one is the one behind it, or behind its own
-- argument; or the pass ends with false, a statistic being updated; or failed() is called; or a
-- NULL is read; or the loop of make_relative_path does not end.
pub data Step : Type 0 where
  one : State → Step
  two : State → Step
  stop : ℕ → Step
  failed : Step
  null_read : Step
  endless : Step
