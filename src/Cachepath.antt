-- ===== src/Cachepath.antt =====
-- src/ccache.c: get_path_in_cache, the file of the cache for a name.
pub mod Distinct
mod Examples
use memccache.Base.{ℕ, zero, suc, ◌-◌, List, [], ◌∷◌, ◌++◌, Option, none, some, Bytes, drop}

-- The loop for the next `n` characters of the name; `none` where it would read behind its end.
unfoldable pub add_levels : ℕ → Bytes → Bytes → Option Bytes
add_levels zero path name = some path
add_levels (suc n) path [] = none
add_levels (suc n) path (c ∷ name) = add_levels n (path ++ (b'/' ∷ c ∷ [])) name

-- `levels` is conf->cache_dir_levels.
unfoldable pub get_path_in_cache : Bytes → ℕ → Bytes → Bytes → Option Bytes
unfolding add_levels
get_path_in_cache cache_dir levels name suffix = elim (add_levels levels cache_dir name) [
  | none ↦ none
  | some path ↦ some (path ++ (b'/' ∷ (drop levels name ++ suffix)))
]
