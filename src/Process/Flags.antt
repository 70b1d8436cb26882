-- ===== src/Process/Flags.antt =====
-- cc_process_args of src/ccache.c: from the options that are always too hard to -Wp, the last tests
-- of a round come first.
use memccache.Base.{
  ℕ, [], ◌∷◌, ◌++◌, take, drop, get_or, length, reverse, Bytes, codes, bytes_eq, starts_with,
  Option, none, some, Bool, true, false, not, ◌&&◌, ◌||◌, ◌==◌, ltb, leb, if◌then◌else◌,
}
use memccache.Compopt.{
  compopt_too_hard, compopt_too_hard_for_direct_mode, compopt_affects_comp, compopt_takes_arg,
  compopt_prefix_affects_comp,
}
use memccache.Stats.Info.{stats_unsupported_option}
use memccache.Process.{Host, State, Step, GuessedCompiler}
use memccache.Process.Path.{make_relative_path}
use memccache.Process.Profile.{process_profiling_option}
use memccache.Process.Options.{
  append, with_arg, on_path, add_common, add_cpp, add_dep, contains, misc_option,
}

unfoldable pub is_nvcc : GuessedCompiler → Bool
is_nvcc GuessedCompiler.nvcc = true
is_nvcc _ = false

-- strchr(text, c)
unfoldable pub has_char : Bytes → ℕ → Bool
has_char [] c = false
has_char (d ∷ ds) c = d == c || has_char ds c

-- -Wp,-MD,file and -Wp,-MMD,file
unfoldable pub wp_dependencies : Host → State → Bytes → Bytes → Step
unfolding add_dep on_path make_relative_path
wp_dependencies host s arg file = on_path (make_relative_path host file) (λ relpath. Step.one (
    add_dep
      (record s {
        generating_dependencies = true;
        dependency_filename_specified = true;
        output_dep = some relpath;
      })
      arg))

-- -Wp,-MP and -Wp,-MF,x or the like
unfoldable pub is_wp_dependency : Bytes → Bool
unfolding has_char
is_wp_dependency arg =
    bytes_eq arg (codes "-Wp,-MP")
    || ((ltb 8 (length arg) && (starts_with arg (codes "-Wp,-M") && get_or arg 7 0 == b','))
        && ((get_or arg 6 0 == b'F' || (get_or arg 6 0 == b'Q' || get_or arg 6 0 == b'T'))
            && not (has_char (drop 8 arg) b',')))

unfoldable pub wp_option : Host → State → Bytes → Step
unfolding has_char wp_dependencies is_wp_dependency add_cpp add_dep contains
wp_option host s arg =
    if bytes_eq arg (codes "-Wp,-P")
      || (contains arg (codes ",-P,") || starts_with (reverse arg) (codes "P-,"))
    then Step.failed
    else if starts_with arg (codes "-Wp,-MD,") && not (has_char (drop 8 arg) b',')
    then wp_dependencies host s arg (drop 8 arg)
    else if starts_with arg (codes "-Wp,-MMD,") && not (has_char (drop 9 arg) b',')
    then wp_dependencies host s arg (drop 9 arg)
    else if starts_with arg (codes "-Wp,-D") && not (has_char (drop 6 arg) b',')
    then Step.one (add_cpp s (drop 4 arg))
    else if is_wp_dependency arg
    then Step.one (add_dep s arg)
    else Step.one (add_cpp (record s { direct_mode = false }) arg)

-- From -fprofile-arcs to -Wp.
unfoldable pub codegen_option : Host → State → Bytes → Option Bytes → Step
unfolding with_arg on_path add_common wp_option make_relative_path process_profiling_option
    misc_option
codegen_option host s arg next =
    let kept = add_common s arg in
    let starts = λ (p : Bytes). starts_with arg p in
    if bytes_eq arg (codes "-fprofile-arcs")
    then Step.one (record kept { profile_arcs = true })
    else if bytes_eq arg (codes "-ftest-coverage")
    then Step.one (record kept { generating_coverage = true })
    else if bytes_eq arg (codes "-fstack-usage")
    then Step.one (record kept { generating_stackusage = true })
    else if bytes_eq arg (codes "--coverage") || bytes_eq arg (codes "-coverage")
    then Step.one (record kept { profile_arcs = true; generating_coverage = true })
    else if starts (codes "-fprofile-")
        || (starts (codes "-fauto-profile") || bytes_eq arg (codes "-fbranch-probabilities"))
    then elim (process_profiling_option host s arg) [
      | none ↦ Step.stop stats_unsupported_option
      | some s' ↦ Step.one (add_common s' arg)
    ]
    else if starts (codes "-fsanitize-blacklist=")
    then Step.one (record kept { sanitize_blacklists = append s.sanitize_blacklists (drop 21 arg) })
    else if starts (codes "--sysroot=")
    then on_path (make_relative_path host (drop 10 arg))
        (λ relpath. Step.one (add_common s (codes "--sysroot=" ++ relpath)))
    else if bytes_eq arg (codes "--sysroot")
    then with_arg next
        (λ n. on_path (make_relative_path host n) (λ relpath. Step.two (add_common kept relpath)))
    else if bytes_eq arg (codes "-target")
    then with_arg next (λ n. Step.two (add_common kept n))
    else if starts (codes "-Wp,")
    then wp_option host s arg
    else misc_option host s arg next

-- -MF with its argument in the same word: -MFarg or -MF=arg
unfoldable pub joined_file : Bytes → Bytes
joined_file [] = []
joined_file (c ∷ cs) = if c == b'=' then cs else c ∷ cs

unfoldable pub mf_option : Host → State → Bytes → Option Bytes → Step
unfolding with_arg on_path add_dep joined_file make_relative_path
mf_option host s arg next =
    if length arg == 3
    then with_arg next (λ n. on_path (make_relative_path host n) (λ dep.
      let s' = record s { dependency_filename_specified = true; output_dep = some dep } in
      Step.two (add_dep (add_dep s' (codes "-MF")) dep)))
    else on_path (make_relative_path host (joined_file (drop 3 arg))) (λ dep.
      let s' = record s { dependency_filename_specified = true; output_dep = some dep } in
      Step.one (add_dep s' (codes "-MF" ++ dep)))

-- -MQ and -MT
unfoldable pub target_option : Host → State → Bytes → Option Bytes → Step
unfolding with_arg on_path add_dep make_relative_path
target_option host s arg next =
    let s' = record s { dependency_target_specified = true } in
    if length arg == 3
    then with_arg next (λ n.
      on_path (make_relative_path host n) (λ relpath. Step.two (add_dep (add_dep s' arg) relpath)))
    else on_path (make_relative_path host (drop 3 arg))
        (λ relpath. Step.one (add_dep s' (take 3 arg ++ relpath)))

-- -g...: the last character tells the level.
unfoldable pub debug_option : State → Bytes → Step
unfolding add_common
debug_option s arg =
    let kept = add_common s arg in
    let last = get_or (reverse arg) 0 0 in
    if starts_with arg (codes "-gdwarf")
    then Step.one (record kept { generating_debuginfo = true })
    else if starts_with arg (codes "-gz")
    then Step.one kept
    else if last == b'0'
    then Step.one
        (record kept { generating_debuginfo = false; generating_debuginfo_level_3 = false })
    else Step.one (record kept {
      generating_debuginfo = true;
      generating_debuginfo_level_3 = last == b'3' || kept.generating_debuginfo_level_3;
      using_split_dwarf = bytes_eq arg (codes "-gsplit-dwarf") || kept.using_split_dwarf;
    })

-- From -o to -MT.
unfoldable pub output_option : Host → State → Bytes → Option Bytes → Step
unfolding with_arg add_common add_dep debug_option mf_option target_option codegen_option on_path
    make_relative_path
output_option host s arg next =
    let starts = λ (p : Bytes). starts_with arg p in
    if bytes_eq arg (codes "-o")
    then with_arg next (λ n.
      on_path (make_relative_path host n)
        (λ relpath. Step.two (record s { output_obj = some relpath })))
    else if starts (codes "-o") && not (is_nvcc host.guessed_compiler)
    then on_path (make_relative_path host (drop 2 arg))
        (λ relpath. Step.one (record s { output_obj = some relpath }))
    else if starts (codes "-fdebug-prefix-map=") || starts (codes "-ffile-prefix-map=")
    then Step.one (
        add_common
          (record s {
            debug_prefix_maps =
                append s.debug_prefix_maps (drop (if get_or arg 2 0 == b'f' then 18 else 19) arg);
          })
          arg)
    else if starts (codes "-g")
    then debug_option s arg
    else if bytes_eq arg (codes "-MD") || bytes_eq arg (codes "-MMD")
    then Step.one (add_dep (record s { generating_dependencies = true }) arg)
    else if starts (codes "-MF")
    then mf_option host s arg next
    else if starts (codes "-MQ") || starts (codes "-MT")
    then target_option host s arg next
    else codegen_option host s arg next

-- The language of -x, if no input file stands in front of it.
unfoldable pub set_language : State → Bytes → State
set_language s language = elim s.input_file [
  | none ↦ record s { explicit_language = some language }
  | some file ↦ s
]

-- -fpch-preprocess and its like are seen here and go on; then -c to -x.
unfoldable pub mode_option : Host → State → Bytes → Option Bytes → Step
unfolding with_arg add_common set_language output_option
mode_option host s0 arg next =
    let pch =
      bytes_eq arg (codes "-fpch-preprocess")
      || (bytes_eq arg (codes "-emit-pch") || bytes_eq arg (codes "-emit-pth")) in
    let s = record s0 { found_fpch_preprocess = pch || s0.found_fpch_preprocess } in
    let third = get_or arg 2 0 in
    if bytes_eq arg (codes "-c")
    then Step.one (record s { found_c_opt = true })
    else if (bytes_eq arg (codes "-dc") || bytes_eq arg (codes "--device-c"))
        && is_nvcc host.guessed_compiler
    then Step.one (record s { found_dc_opt = true })
    else if bytes_eq arg (codes "-S")
    then Step.one (record (add_common s arg) { found_s_opt = true })
    else if leb 3 (length arg)
        && (starts_with arg (codes "-x") && not (leb b'a' third && leb third b'z'))
    then Step.one (add_common s arg)
    else if bytes_eq arg (codes "-x")
    then with_arg next (λ n. Step.two (set_language s n))
    else if starts_with arg (codes "-x")
    then Step.one (set_language s (drop 2 arg))
    else output_option host s arg next

-- Options that are not passed to the preprocessor.
unfoldable pub compiler_option : Host → State → Bytes → Option Bytes → Step
unfolding with_arg is_nvcc mode_option
compiler_option host s arg next =
    let kept = record s { compiler_only_args = append s.compiler_only_args arg } in
    if compopt_affects_comp host.bsearch arg
    then if compopt_takes_arg host.bsearch arg
        || (is_nvcc host.guessed_compiler && bytes_eq arg (codes "-Werror"))
      then with_arg next
          (λ n. Step.two (record kept { compiler_only_args = append kept.compiler_only_args n }))
      else Step.one kept
    else if compopt_prefix_affects_comp host.bsearch arg
    then Step.one kept
    else mode_option host s arg next

-- -arch; x_strdup does not take the NULL behind the last argument.
unfoldable pub arch_option : State → Option Bytes → Step
arch_option s next =
    if length s.arch_args == 9 then Step.stop stats_unsupported_option else elim next [
      | none ↦ Step.null_read
      | some n ↦ Step.two (record s {
        arch_args = append s.arch_args n;
        run_second_cpp = length s.arch_args == 1 || s.run_second_cpp;
      })
    ]

-- A round of the loop behind the arguments that stand for files of arguments.
unfoldable pub process_option : Host → State → Bytes → Option Bytes → Step
unfolding arch_option compiler_option
process_option host s0 arg next =
    let hard = s0.direct_mode && compopt_too_hard_for_direct_mode host.bsearch arg in
    let s = record s0 { direct_mode = s0.direct_mode && not hard } in
    if compopt_too_hard host.bsearch arg
      || (starts_with arg (codes "-fdump-") || starts_with arg (codes "-MJ"))
    then Step.stop stats_unsupported_option
    else if starts_with arg (codes "-Xarch_")
    then Step.stop stats_unsupported_option
    else if bytes_eq arg (codes "-arch")
    then arch_option s next
    else compiler_option host s arg next
