-- ===== src/Process/Options.antt =====
-- cc_process_args of src/ccache.c: from the input charset to the input file, the last tests of a
-- round come first.
use memccache.Base.{
  List, [], ◌∷◌, ◌++◌, Bytes, codes, bytes_eq, starts_with, Option, none, some, Bool, true, false,
  not, ◌&&◌, ◌||◌, ◌==◌, if◌then◌else◌,
}
use Prim.Native.Nat.{bit_and}
use memccache.Compopt.{
  compopt_affects_cpp, compopt_takes_path, compopt_takes_arg, compopt_takes_concat_arg,
  compopt_prefix_affects_cpp,
}
use memccache.Language.{language_for_file}
use memccache.Stats.Info.{stats_args, stats_multiple, stats_conftest, stats_link, stats_sourcelang}
use memccache.Conf.Parsers.{sloppy_clang_index_store}
use memccache.Conf.Setting.{case_eq}
use memccache.Process.{Host, State, Step}
use memccache.Process.Path.{make_relative_path, detect_pch}

abbrev pub append : List Bytes → Bytes → List Bytes
append args arg = args ++ arg ∷ []

-- The argument of an option; without one the pass ends.
unfoldable pub with_arg : Option Bytes → (Bytes → Step) → Step
with_arg none k = Step.stop stats_args
with_arg (some arg) k = k arg

-- A relative path, if make_relative_path ends.
unfoldable pub on_path : Option Bytes → (Bytes → Step) → Step
on_path none k = Step.endless
on_path (some relpath) k = k relpath

unfoldable pub add_common : State → Bytes → State
add_common s arg = record s { common_args = append s.common_args arg }

unfoldable pub add_cpp : State → Bytes → State
add_cpp s arg = record s { cpp_args = append s.cpp_args arg }

unfoldable pub add_dep : State → Bytes → State
add_dep s arg = record s { dep_args = append s.dep_args arg }

-- An option goes to cpp_args if it affects the preprocessor, and else to common_args.
unfoldable pub add_option : Bool → State → Bytes → State
unfolding add_common add_cpp
add_option cpp s arg = if cpp then add_cpp s arg else add_common s arg

-- strstr(text, part)
unfoldable pub contains : Bytes → Bytes → Bool
contains [] part = starts_with [] part
contains (c ∷ cs) part = let rest = contains cs part in starts_with (c ∷ cs) part || rest

-- A plain file behind the first input file.
unfoldable pub second_input : State → Bytes → Step
unfolding contains
second_input s arg = elim (language_for_file arg) [
  | some l ↦ Step.stop stats_multiple
  | none ↦
      if not s.found_c_opt && not s.found_dc_opt
      then Step.stop (if contains arg (codes "conftest.") then stats_conftest else stats_link)
      else Step.stop stats_sourcelang
]

-- A plain file, beside the input file found before.
unfoldable pub plain_file : Host → State → Bytes → Option Bytes → Step
unfolding second_input on_path make_relative_path
plain_file host s arg (some file) = second_input s arg
plain_file host s arg none =
    if s.generating_coverage || host.is_symlink arg
    then Step.one (record s { input_file = some arg })
    else on_path (make_relative_path host arg)
        (λ relpath. Step.one (record s { input_file = some relpath }))

unfoldable pub input_argument : Host → State → Bytes → Step
unfolding plain_file add_common
input_argument host s arg =
    if not (bytes_eq arg (codes "/dev/null")) && not (host.is_regular arg)
    then Step.one (add_common s arg)
    else plain_file host s arg s.input_file

unfoldable pub is_option : Bytes → Bool
is_option [] = false
is_option (c ∷ cs) = c == b'-'

-- Options that take an argument, and other options.
unfoldable pub other_option : Host → State → Bytes → Option Bytes → Step
unfolding with_arg add_option is_option input_argument
other_option host s arg next =
    let cpp = compopt_affects_cpp host.bsearch arg in
    if compopt_takes_arg host.bsearch arg
    then with_arg next (λ n. Step.two (add_option cpp (add_option cpp s arg) n))
    else if is_option arg
    then Step.one (add_option (cpp || compopt_prefix_affects_cpp host.bsearch arg) s arg)
    else input_argument host s arg

-- strchr(text, '/'): what stands in front of it, and the rest from it on.
unfoldable pub split_slash : Bytes → Option (Bytes × Bytes)
split_slash [] = none
split_slash (c ∷ cs) =
    let rest = split_slash cs in
    if c == b'/'
    then some ([], c ∷ cs)
    else elim rest [ none ↦ none | some (front, path) ↦ some (c ∷ front, path) ]

-- Options with a concatenated argument beginning with a slash.
unfoldable pub concat_option : Host → State → Bytes → Option Bytes → Step
unfolding split_slash is_option add_option on_path other_option
concat_option host s arg next =
    let other = other_option host s arg next in
    elim (split_slash arg) [
      | none ↦ other
      | some (option, path) ↦
          if is_option arg
            && (compopt_takes_concat_arg host.bsearch option
                && compopt_takes_path host.bsearch option)
          then on_path (make_relative_path host path) (λ relpath.
            Step.one (add_option (compopt_affects_cpp host.bsearch option) s (option ++ relpath)))
          else other
    ]

-- Options with a path behind them.
unfoldable pub path_argument : Host → State → Bytes → Bytes → Step
unfolding detect_pch on_path add_option
path_argument host s arg n = elim (detect_pch host s arg n) [
  | none ↦ Step.stop stats_args
  | some s' ↦
      let cpp = compopt_affects_cpp host.bsearch arg in
      on_path (make_relative_path host n)
        (λ relpath. Step.two (add_option cpp (add_option cpp s' arg) relpath))
]

unfoldable pub path_option : Host → State → Bytes → Option Bytes → Step
unfolding with_arg path_argument concat_option
path_option host s arg next =
    if compopt_takes_path host.bsearch arg
    then with_arg next (λ n. path_argument host s arg n)
    else concat_option host s arg next

-- add_extra_arg
unfoldable pub add_extra_arg : Host → State → Bytes → State
add_extra_arg host s arg =
    if host.depend_mode then record s { depend_extra_args = append s.depend_extra_args arg } else s

unfoldable pub color_output_possible : Host → Bool
color_output_possible host = elim host.term [
  | none ↦ false
  | some term ↦ host.isatty && not (case_eq term (codes "DUMB"))
]

unfoldable pub color_option : Host → State → Bytes → Step
unfolding add_extra_arg color_output_possible add_common
color_option host s arg =
    let found = record s { found_color_diagnostics = true } in
    let always = codes "-fdiagnostics-color=always" in
    if not (bytes_eq arg (codes "-fdiagnostics-color=auto"))
    then Step.one (add_common found arg)
    else if color_output_possible host
    then Step.one (add_extra_arg host (add_common found always) always)
    else Step.one (add_common found arg)

-- Membership in a list of options.
unfoldable pub is_any : Bytes → List Bytes → Bool
is_any arg [] = false
is_any arg (o ∷ os) = bytes_eq arg o || is_any arg os

unfoldable pub color_options : List Bytes
color_options =
    codes "-fcolor-diagnostics"
    ∷ codes "-fno-color-diagnostics"
    ∷ codes "-fdiagnostics-color"
    ∷ codes "-fdiagnostics-color=always"
    ∷ codes "-fno-diagnostics-color"
    ∷ codes "-fdiagnostics-color=never"
    ∷ codes "-fdiagnostics-color=auto"
    ∷ []

-- From -MP to -index-store-path.
unfoldable pub misc_option : Host → State → Bytes → Option Bytes → Step
unfolding with_arg add_dep is_any color_options color_option path_option on_path make_relative_path
misc_option host s arg next =
    if bytes_eq arg (codes "-MP")
    then Step.one (add_dep s arg)
    else if starts_with arg (codes "-finput-charset=")
    then Step.one (record s { input_charset = some arg })
    else if bytes_eq arg (codes "--serialize-diagnostics")
    then with_arg next (λ n.
      on_path (make_relative_path host n) (λ relpath.
        Step.two (record s { generating_diagnostics = true; output_dia = some relpath })))
    else if is_any arg color_options
    then color_option host s arg
    else if bytes_eq arg (codes "-fdirectives-only")
    then Step.one (record s { found_directives_only = true })
    else if bytes_eq arg (codes "-frewrite-includes")
    then Step.one (record s { found_rewrite_includes = true })
    else if not (bit_and host.sloppiness sloppy_clang_index_store == 0)
        && bytes_eq arg (codes "-index-store-path")
    then Step.two s
    else path_option host s arg next
