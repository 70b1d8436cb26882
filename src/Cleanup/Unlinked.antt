-- ===== src/Cleanup/Unlinked.antt =====
-- src/cleanup.c: what sort_and_clean asks to be removed.
use memccache.Base.{
  ℕ, List, [], ◌∷◌, ◌++◌, Bool, true, false, ◌&&◌, Bool-cases, inl, inr, if◌then◌else◌, Bytes,
  codes, bytes_eq, ◌≡◌, refl, ap, ◌∙◌,
}
use memccache.Language.{get_extension, remove_extension}
use memccache.Util.Files.{System, x_try_unlink}
use memccache.Cleanup.{CacheFile, State, is_deleted, delete_file, clean_file}
use memccache.Cleanup.Oldest.{clean_files}

-- The paths that go with a file: the object file before its .stderr file.
abbrev pub paths_of : CacheFile → List Bytes
paths_of f =
    if bytes_eq (get_extension f.fname) (codes ".stderr")
    then (remove_extension f.fname ++ codes ".o") ∷ f.fname ∷ []
    else f.fname ∷ []

module _ {World : Type 0} (sys : System World) where
  abbrev pub unlink_all : List Bytes → World → World
  unlink_all [] w = w
  unlink_all (path ∷ paths) w = unlink_all paths (x_try_unlink sys path w).0

  -- The paths of all the files, one after the other.
  abbrev pub unlink_files : List CacheFile → World → World
  unlink_files [] w = w
  unlink_files (f ∷ fs) w = unlink_files fs (unlink_all (paths_of f) w)

  delete_file-world :
      (path : Bytes) (size : ℕ) (b : Bool) (s : State World)
      → (delete_file sys path size b s).world ≡ (x_try_unlink sys path s.world).0
  unfolding delete_file
  delete_file-world path size b s =
      elim (Bool-cases (is_deleted (x_try_unlink sys path s.world).1 && b)) [
        | inl e ↦ rw (delete_file, e)
        | inr e ↦ rw (delete_file, e)
      ]

  clean_file-world :
      (f : CacheFile) (s : State World)
      → (clean_file sys f s).world ≡ unlink_all (paths_of f) s.world
  unfolding clean_file
  clean_file-world f s = elim (Bool-cases (bytes_eq (get_extension f.fname) (codes ".stderr"))) [
    | inr e ↦ rw (clean_file, e) (delete_file-world f.fname f.size true s)
    | inl e ↦
        let object = remove_extension f.fname ++ codes ".o" in
        rw (clean_file, e)
          (delete_file-world f.fname f.size true (delete_file sys object 0 false s)
            ∙ ap (λ w. (x_try_unlink sys f.fname w).0) (delete_file-world object 0 false s))
  ]

  pub clean_files-world :
      (fs : List CacheFile) (s : State World)
      → (clean_files sys fs s).world ≡ unlink_files fs s.world
  unfolding clean_files
  clean_files-world [] s = refl
  clean_files-world (f ∷ fs) s =
      clean_files-world fs (clean_file sys f s) ∙ ap (unlink_files fs) (clean_file-world f s)
