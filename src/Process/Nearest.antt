-- ===== src/Process/Nearest.antt =====
-- make_relative_path of src/ccache.c: the loop over the parent directories.
use memccache.Base.{ℕ, zero, suc, ◌<◌, false, ◌⊎◌, Bytes, codes, ◌≡◌}
use memccache.Util.{dirname}
use memccache.Process.{Host}

-- The directory of a path, the directory of that, and so on.
abbrev pub parent : ℕ → Bytes → Bytes
parent zero path = dirname path
parent (suc k) path = dirname (parent k path)

-- The two paths that are their own directories.
abbrev IsTop : Bytes → Type 0
IsTop path = (path ≡ codes ".") ⊎ (path ≡ codes "/")

module _ (host : Host) where
  -- The parents below `k` do not exist.
  abbrev pub NoneBelow : ℕ → Bytes → Type 0
  NoneBelow k path = (j : ℕ) → j < k → host.exists (parent j path) ≡ false

  -- No parent exists.
  abbrev pub NoParent : Bytes → Type 0
  NoParent path =
      ((k : ℕ) → host.exists (parent k path) ≡ false)
      × ((host.exists (codes ".") ≡ false) ⊎ (host.exists (codes "/") ≡ false))
