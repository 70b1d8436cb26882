-- ===== src/Process/Loop.antt =====
-- cc_process_args of src/ccache.c: the loop over the arguments, which files of arguments extend.
use memccache.Base.{
  ℕ, zero, suc, List, [], ◌∷◌, ◌++◌, drop, Bytes, codes, bytes_eq, starts_with, Option, none, some,
  Bool, ◌&&◌, ◌||◌, ◌==◌, if◌then◌else◌,
}
use memccache.Args.{Cell}
use memccache.Args.Atfile.{args_init_from_gcc_atfile}
use memccache.Stats.Info.{stats_args, stats_preprocessing}
use memccache.Process.{Host, State, Step}
use memccache.Process.Options.{add_common}
use memccache.Process.Flags.{is_nvcc, process_option}

-- The strings in front of the NULL.
unfoldable pub strings : List Cell → List Bytes
strings [] = []
strings (Cell.undef ∷ cs) = []
strings (Cell.null ∷ cs) = []
strings (Cell.str s ∷ cs) = s ∷ strings cs

-- The arguments in a file; `none` where it cannot be read.
unfoldable pub file_args : Host → Bytes → Option (List Bytes)
unfolding strings
file_args host path = elim (args_init_from_gcc_atfile (host.read_file path)) [
  | none ↦ none
  | some a ↦ some (strings a.argv)
]

-- How the pass ends: at the last argument; with false and a statistic; in failed(); with a read of
-- NULL; or never, in the loop of make_relative_path; or without enough fuel.
pub data Outcome : Type 0 where
  finished : State → Outcome
  rejected : ℕ → Outcome
  failed_called : Outcome
  null_argument : Outcome
  hung : Outcome
  out_of_fuel : Outcome

-- A round: the state and the arguments ahead, or the end.
pub data ArgumentRound : Type 0 where
  ahead : State → List Bytes → ArgumentRound
  ended : Outcome → ArgumentRound

unfoldable pub next_of : List Bytes → Option Bytes
next_of [] = none
next_of (n ∷ rest) = some n

unfoldable pub step_round : List Bytes → Step → ArgumentRound
step_round rest (Step.one s) = ArgumentRound.ahead s rest
step_round rest (Step.two s) = ArgumentRound.ahead s (drop 1 rest)
step_round rest (Step.stop statistic) = ArgumentRound.ended (Outcome.rejected statistic)
step_round rest Step.failed = ArgumentRound.ended Outcome.failed_called
step_round rest Step.null_read = ArgumentRound.ended Outcome.null_argument
step_round rest Step.endless = ArgumentRound.ended Outcome.hung

-- --ccache-skip
unfoldable pub skip_round : State → List Bytes → ArgumentRound
unfolding add_common
skip_round s [] = ArgumentRound.ended (Outcome.rejected stats_args)
skip_round s (n ∷ rest) = ArgumentRound.ahead (add_common s n) rest

-- The arguments of a file take the place of the argument.
unfoldable pub expanded_round : State → List Bytes → Option (List Bytes) → ArgumentRound
expanded_round s rest none = ArgumentRound.ended (Outcome.rejected stats_args)
expanded_round s rest (some args) = ArgumentRound.ahead s (args ++ rest)

-- The text in front of the first comma.
unfoldable pub first_file : Bytes → Bytes
first_file [] = []
first_file (c ∷ cs) = let rest = first_file cs in if c == b',' then [] else c ∷ rest

-- -optf and --options-file: behind the first file the scan stands on the NUL that has replaced its
-- comma, so the loop over the list ends.
unfoldable pub optf_round : Host → State → List Bytes → ArgumentRound
unfolding first_file expanded_round file_args
optf_round host s [] = ArgumentRound.ended (Outcome.rejected stats_args)
optf_round host s (list ∷ rest) = expanded_round s rest (file_args host (first_file list))

unfoldable pub is_atfile : Bytes → Bool
is_atfile arg = starts_with arg (codes "@") || starts_with arg (codes "-@")

unfoldable pub atfile_path : Bytes → Bytes
atfile_path arg = if starts_with arg (codes "-@") then drop 2 arg else drop 1 arg

unfoldable pub is_optf : Host → Bytes → Bool
is_optf host arg =
    is_nvcc host.guessed_compiler
    && (bytes_eq arg (codes "-optf") || bytes_eq arg (codes "--options-file"))

unfoldable pub argument_round : Host → State → Bytes → List Bytes → ArgumentRound
unfolding skip_round is_atfile atfile_path expanded_round file_args optf_round step_round next_of
argument_round host s arg rest =
    if bytes_eq arg (codes "--ccache-skip")
    then skip_round s rest
    else if bytes_eq arg (codes "-E")
    then ArgumentRound.ended (Outcome.rejected stats_preprocessing)
    else if is_atfile arg
    then expanded_round s rest (file_args host (atfile_path arg))
    else if is_optf host arg
    then optf_round host s rest
    else step_round rest (process_option host s arg (next_of rest))

unfoldable pub process_loop : Host → ℕ → State → List Bytes → Outcome
unfolding argument_round
process_loop host fuel s [] = Outcome.finished s
process_loop host zero s (arg ∷ rest) = Outcome.out_of_fuel
process_loop host (suc f) s (arg ∷ rest) = elim (argument_round host s arg rest) [
  | ArgumentRound.ahead s' rest' ↦ process_loop host f s' rest'
  | ArgumentRound.ended outcome ↦ outcome
]

-- The pass over the arguments behind the compiler's name.
unfoldable pub process_args : Host → ℕ → State → List Bytes → Outcome
unfolding process_loop add_common
process_args host fuel s [] = Outcome.null_argument
process_args host fuel s (compiler ∷ args) = process_loop host fuel (add_common s compiler) args
