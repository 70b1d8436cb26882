-- ===== src/Process/Profile.antt =====
-- src/ccache.c: process_profiling_option.
use memccache.Base.{
  ◌∷◌, [], Bytes, codes, bytes_eq, starts_with, Option, none, some, Bool, true, false, ◌&&◌, ◌||◌,
  ◌==◌, if◌then◌else◌,
}
use memccache.Process.{Host, State, GuessedCompiler}

-- What an option says: nothing; the directory; profile_generate with the directory, if any; the use of
-- profile data, with the directory if it gives one; or it is unknown.
pub data Profiling : Type 0 where
  neutral : Profiling
  directory : Bytes → Profiling
  generate : Option Bytes → Profiling
  using : Option Bytes → Profiling
  unknown : Profiling

-- strchr(arg, '=') + 1
unfoldable pub behind_equal : Bytes → Bytes
behind_equal [] = []
behind_equal (c ∷ cs) = let rest = behind_equal cs in if c == b'=' then cs else rest

unfoldable pub is_clang : GuessedCompiler → Bool
is_clang GuessedCompiler.clang = true
is_clang _ = false

unfoldable pub profiling : Host → Bytes → Profiling
unfolding behind_equal is_clang
profiling host arg =
    let is = λ (o : Bytes). bytes_eq arg o in
    let starts = λ (p : Bytes). starts_with arg p in
    if starts (codes "-fprofile-dir=")
    then Profiling.directory (behind_equal arg)
    else if is (codes "-fprofile-generate") || is (codes "-fprofile-instr-generate")
    then Profiling.generate (if is_clang host.guessed_compiler then some (codes ".") else host.cwd)
    else if starts (codes "-fprofile-generate=") || starts (codes "-fprofile-instr-generate=")
    then Profiling.generate (some (behind_equal arg))
    else if is (codes "-fprofile-use")
        || (is (codes "-fprofile-instr-use")
            || (is (codes "-fprofile-sample-use")
                || (is (codes "-fbranch-probabilities") || is (codes "-fauto-profile"))))
    then Profiling.using none
    else if starts (codes "-fprofile-use=")
        || (starts (codes "-fprofile-instr-use=")
            || (starts (codes "-fprofile-sample-use=") || starts (codes "-fauto-profile=")))
    then Profiling.using (some (behind_equal arg))
    else if is (codes "-fprofile-correction")
        || (is (codes "-fprofile-reorder-functions")
            || (is (codes "-fprofile-sample-accurate") || is (codes "-fprofile-values")))
    then Profiling.neutral
    else Profiling.unknown

-- profile_generate and profile_use together are too hard.
unfoldable pub checked : State → Option State
checked s = if s.profile_generate && s.profile_use then none else some s

unfoldable pub use_profile : State → Option Bytes → Option State
unfolding checked
use_profile s path = if s.profile_use then none else elim path [
  | some p ↦ checked (record s { profile_use = true; profile_path = some p })
  | none ↦ elim s.profile_path [
    | some old ↦ checked (record s { profile_use = true })
    | none ↦ checked (record s { profile_use = true; profile_path = some (codes ".") })
  ]
]

unfoldable pub apply_profiling : State → Profiling → Option State
unfolding use_profile checked
apply_profiling s Profiling.neutral = some s
apply_profiling s (Profiling.directory p) = checked (record s { profile_path = some p })
apply_profiling s (Profiling.generate none) = checked (record s { profile_generate = true })
apply_profiling s (Profiling.generate (some p)) =
    checked (record s { profile_generate = true; profile_path = some p })
apply_profiling s (Profiling.using p) = use_profile s p
apply_profiling s Profiling.unknown = none

-- `none` where it returns false, behind an update of STATS_UNSUPPORTED_OPTION.
unfoldable pub process_profiling_option : Host → State → Bytes → Option State
unfolding profiling apply_profiling
process_profiling_option host s arg = apply_profiling s (profiling host arg)
