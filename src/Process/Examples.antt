-- ===== src/Process/Examples.antt =====
-- cc_process_args of src/ccache.c at a small command line.
use memccache.Base.{
  ◌≡◌, refl, List, [], ◌∷◌, Bytes, codes, bytes_eq, starts_with, Option, none, some, true, false,
  if◌then◌else◌,
}
use memccache.Compopt.{
  compopt_too_hard, compopt_too_hard_for_direct_mode, compopt_affects_comp, compopt_takes_arg,
  compopt_prefix_affects_comp, compopt_affects_cpp, compopt_takes_path, compopt_takes_concat_arg,
  compopt_prefix_affects_cpp, find, find_prefix,
}
use memccache.Process.{Host, State, GuessedCompiler}
use memccache.Process.Flags.{is_nvcc, process_option}
use memccache.Process.Options.{on_path, with_arg, add_common, add_cpp, contains}
use memccache.Process.Path.{make_relative_path, split_existing, suffix_behind, nearest_dir}
use memccache.Util.{dirname, before_slash}
use memccache.Process.Loop.{
  is_atfile, is_optf, argument_round, step_round, next_of, Outcome, process_loop, file_args,
  strings,
}
use memccache.Process.Ends.{process_loop_forever}
use memccache.Args.{args_add, args_init}
use memccache.Args.Atfile.{args_init_from_gcc_atfile, atfile_loop, classify, end_token}

-- The file "a" holds "@a".
abbrev small_host : Host
small_host = record {
  bsearch = λ order rows. none;
  guessed_compiler = GuessedCompiler.gcc;
  base_dir = [];
  sloppiness = 0;
  depend_mode = false;
  read_file = λ path. if bytes_eq path (codes "a") then some (codes "@a") else none;
  exists = λ path. true;
  is_regular = λ path. true;
  is_symlink = λ path. false;
  realpath = λ path. some path;
  current_dir = codes "/";
  cwd = some (codes "/");
  isatty = false;
  term = none;
}

abbrev start : State
start = record {
  common_args = codes "gcc" ∷ [];
  cpp_args = [];
  dep_args = [];
  compiler_only_args = [];
  depend_extra_args = [];
  arch_args = [];
  debug_prefix_maps = [];
  sanitize_blacklists = [];
  found_c_opt = false;
  found_dc_opt = false;
  found_s_opt = false;
  found_pch = false;
  found_fpch_preprocess = false;
  found_color_diagnostics = false;
  found_directives_only = false;
  found_rewrite_includes = false;
  dependency_filename_specified = false;
  dependency_target_specified = false;
  explicit_language = none;
  input_charset = none;
  input_file = none;
  output_obj = none;
  output_dep = none;
  output_dia = none;
  included_pch_file = none;
  profile_path = none;
  profile_generate = false;
  profile_use = false;
  profile_arcs = false;
  generating_coverage = false;
  generating_stackusage = false;
  generating_dependencies = false;
  generating_diagnostics = false;
  generating_debuginfo = false;
  generating_debuginfo_level_3 = false;
  using_split_dwarf = false;
  direct_mode = true;
  run_second_cpp = true;
}

self_file : file_args small_host (codes "a") ≡ some (codes "@a" ∷ [])
unfolding file_args strings bytes_eq args_init_from_gcc_atfile atfile_loop classify end_token
    args_add args_init
self_file = refl

process_loop_forever_example :
    process_loop small_host 50 start (codes "@a" ∷ codes "-c" ∷ []) ≡ Outcome.out_of_fuel
process_loop_forever_example =
    process_loop_forever small_host (codes "a") self_file 50 start (codes "-c" ∷ [])

-- -c, the input and the output are taken out; -O2 and -DX are sorted by whom they concern.
sorted_state : Outcome → Option (List Bytes × (List Bytes × (Option Bytes × Option Bytes)))
sorted_state (Outcome.finished s) = some (s.common_args, (s.cpp_args, (s.input_file, s.output_obj)))
sorted_state _ = none

test_command :
    sorted_state (
      process_loop small_host 9 start
        (codes "-O2" ∷ codes "-c" ∷ codes "x.c" ∷ codes "-o" ∷ codes "x.o" ∷ codes "-Wp,-DX" ∷ []))
    ≡ some (
      codes "gcc" ∷ codes "-O2" ∷ [],
      (codes "-DX" ∷ [], (some (codes "x.c"), some (codes "x.o"))),
    )
unfolding sorted_state process_loop argument_round step_round next_of is_atfile is_optf is_nvcc
    starts_with bytes_eq process_option compopt_too_hard compopt_too_hard_for_direct_mode
    compopt_affects_comp compopt_takes_arg compopt_prefix_affects_comp compopt_affects_cpp
    compopt_takes_path compopt_takes_concat_arg compopt_prefix_affects_cpp find find_prefix
    make_relative_path on_path contains with_arg add_common add_cpp
test_command = refl

-- Only the root exists.
abbrev root_host : Host
root_host = record small_host { exists = λ path. bytes_eq path (codes "/") }

test_split : split_existing root_host (codes "/a/b") ≡ some (codes "/", some (codes "a/b"))
unfolding split_existing nearest_dir suffix_behind bytes_eq dirname before_slash
test_split = refl
