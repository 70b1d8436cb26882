-- ===== src/Process/Path.antt =====
-- src/ccache.c: make_relative_path and detect_pch.
use memccache.Base.{
  ℕ, zero, suc, ◌+◌, [], ◌++◌, length, drop, get_or, Bytes, codes, bytes_eq, starts_with, Option,
  none, some, true, not, ◌||◌, ◌==◌, if◌then◌else◌,
}
use memccache.Util.{dirname}
use memccache.Util.Relative.{get_relative_path}
use memccache.Process.{Host, State}

-- while (stat(dir, &st) != 0), with fuel for its rounds; `none` where it does not end in them.
unfoldable pub nearest_dir : Host → ℕ → Bytes → Option Bytes
nearest_dir host zero dir = none
nearest_dir host (suc f) dir =
    let rest = nearest_dir host f (dirname dir) in if host.exists dir then some dir else rest

-- What stands behind the first bytes of a path and one delimiter.
unfoldable pub suffix_behind : ℕ → Bytes → Bytes
suffix_behind n path =
    let c = get_or path n 0 in drop (if c == b'/' || c == b'\\' then n + 1 else n) path

-- The path that is canonicalized, and the suffix of a path that does not exist. The fuel is enough
-- to come to the root or to the current directory, where the loop stays.
unfoldable pub split_existing : Host → Bytes → Option (Bytes × Option Bytes)
unfolding nearest_dir suffix_behind
split_existing host path =
    if host.exists path
    then some (path, none)
    else elim (nearest_dir host (length path + 2) (dirname path)) [
      | none ↦ none
      | some dir ↦ some (dir, some (suffix_behind (length dir) path))
    ]

-- get_relative_path reads outside its strings for no two absolute paths (Util.Relative); without
-- its result the path stays.
unfoldable pub relative_to : Bytes → Option Bytes → Bytes → Bytes → Bytes
relative_to cwd none path canon = elim (get_relative_path cwd canon) [
  | none ↦ path
  | some relpath ↦ relpath
]
relative_to cwd (some suffix) path canon = elim (get_relative_path cwd canon) [
  | none ↦ path
  | some relpath ↦ relpath ++ codes "/" ++ suffix
]

-- The path from the current directory to a path that exists, with the suffix.
unfoldable pub canonical_path : Host → Bytes × Option Bytes → Bytes
unfolding relative_to
canonical_path host (dir, suffix) = elim (host.realpath dir) [
  | none ↦ dir
  | some canon ↦ relative_to host.current_dir suffix dir canon
]

-- `none` where the loop over the parent directories does not end.
unfoldable pub make_relative_path : Host → Bytes → Option Bytes
unfolding split_existing canonical_path
make_relative_path host path =
    if bytes_eq host.base_dir [] || not (starts_with path host.base_dir)
    then some path
    else elim (split_existing host path) [
      | none ↦ none
      | some split ↦ some (canonical_path host split)
    ]

-- The precompiled header that an option with an argument uses.
unfoldable pub pch_file : Host → Bytes → Bytes → Option Bytes
pch_file host option arg =
    if bytes_eq option (codes "-include-pch") || bytes_eq option (codes "-include-pth")
    then if host.exists arg then some arg else none
    else if host.exists (arg ++ codes ".gch")
    then some (arg ++ codes ".gch")
    else if host.exists (arg ++ codes ".pch")
    then some (arg ++ codes ".pch")
    else if host.exists (arg ++ codes ".pth")
    then some (arg ++ codes ".pth")
    else none

unfoldable pub use_pch : State → Option Bytes → Option State
use_pch s none = some s
use_pch s (some file) = elim s.included_pch_file [
  | some other ↦ none
  | none ↦ some (record s { included_pch_file = some file; found_pch = true })
]

-- `none` where it returns false, behind an update of STATS_ARGS.
unfoldable pub detect_pch : Host → State → Bytes → Bytes → Option State
unfolding pch_file use_pch
detect_pch host s option arg = use_pch s (pch_file host option arg)
