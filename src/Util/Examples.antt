-- ===== src/Util/Examples.antt =====
-- src/util.c at two paths.
use memccache.Util.Files.{Errno, Stat, Dir, Entries, is_gone, is_skipped, traverse}
use memccache.Util.Environ.{
  Expands, Substituted, name_span, subst_env_in_string, subst_env_in_string-Expands,
}
use memccache.Util.Traverse.{visits, called, traverse-visits}
use memccache.Base.{
  arith, List, [], ◌∷◌, ◌++◌, ℕ, ◌≤◌, true, false, Option, none, some, if◌then◌else◌, starts_with,
  Bytes, codes, ◌≡◌, refl, bytes_eq,
}
use memccache.Util.Relative.{
  at_boundary, same_length, step_back, common_dir_prefix_length, common_dir_prefix_length_lem,
  IsCommonDir, root_is_empty, go_up, drop_slashes, get_relative_path,
}

relative : get_relative_path (codes "/usr/lib") (codes "/usr/local/x") ≡ some (codes "../local/x")
unfolding get_relative_path common_dir_prefix_length same_length step_back at_boundary go_up
    drop_slashes bytes_eq
relative = refl

common_dir_prefix_length_lem_example :
    (n : ℕ) × (common_dir_prefix_length (codes "/usr/lib") (codes "/usr/local")
      ≡ some (root_is_empty (codes "/usr/lib") (codes "/usr/local") n))
    × IsCommonDir (codes "/usr/lib") (codes "/usr/local") n
    × ((k : ℕ) → IsCommonDir (codes "/usr/lib") (codes "/usr/local") k → k ≤ n)
common_dir_prefix_length_lem_example =
    common_dir_prefix_length_lem (codes "/usr/lib") (codes "/usr/local") refl refl
      (refl, (refl, (refl, (refl, (refl, (refl, (refl, (refl, tt))))))))
      (refl, (refl, (refl, (refl, (refl, (refl, (refl, (refl, (refl, (refl, tt))))))))))

abbrev tree : Dir
tree = Dir.opened (
    Entries.directory (codes "a") (record { is_regular = false; mtime = 1; blocks = 8 })
      (Dir.opened (
        Entries.file (codes "x") (record { is_regular = true; mtime = 2; blocks = 1 })
          Entries.done))
      (Entries.unknown (codes "gone") Errno.enoent Entries.done))

abbrev append_name : Bytes → Stat → List Bytes → List Bytes
append_name fname st names = names ++ fname ∷ []

traverse-visits_example :
    traverse append_name (codes "d") tree [] ≡ called append_name (visits (codes "d") tree) []
traverse-visits_example = traverse-visits append_name (codes "d") tree []

in_order : traverse append_name (codes "d") tree [] ≡ some (codes "d/a/x" ∷ codes "d/a" ∷ [])
unfolding traverse is_skipped is_gone bytes_eq
in_order = refl

abbrev home : Bytes → Option Bytes
home name = if bytes_eq name (codes "HOME") then some (codes "/home/u") else none

-- "$HOME/a$ ${HOME}"
subst_env_in_string-Expands_example :
    subst_env_in_string home (codes "$HOME/a$ ${HOME}")
    ≡ Substituted.substituted (codes "/home/u/a$ /home/u")
unfolding name_span starts_with bytes_eq
subst_env_in_string-Expands_example =
    subst_env_in_string-Expands home (codes "$HOME/a$ ${HOME}") (codes "/home/u/a$ /home/u") (
      Expands.bare {c = b'H'} {cs = codes "OME"} (ground arith) refl refl (
        Expands.letter refl (
          Expands.letter refl (
            Expands.dollar refl refl (
              Expands.letter refl
                (Expands.braced {c = b'H'} {cs = codes "OME"} (ground arith) refl Expands.done))))))
