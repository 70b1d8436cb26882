-- ===== src/Manifest/Put.antt =====
-- src/manifest.c: an object that manifest_put adds is what manifest_get finds.
use mathlib.Core.List.{reverse-append}
use memccache.Base.{
  ℕ, List, [], ◌∷◌, ◌++◌, append-nil, reverse, Bool, true, false, not, ◌&&◌, Option, none, some,
  ◌==◌, ==_refl, length, get_elem?, take, inl, inr, ◌⊎◌, if◌then◌else◌, Bytes, bytes_eq,
  bytes_eq_refl, ◌≡◌, refl, sym, ap, ◌∙◌, arith,
}
use memccache.Base.Table.{HashTable}
use memccache.Manifest.{
  manifest_version, FileInfo, FileHash, Object, Manifest, ok, read_manifest, write_manifest,
}
use memccache.Manifest.Codec.{IsManifest, read_manifest-write_manifest}
use memccache.Manifest.Verify.{
  FileStats, Settings, Disk, file_hash, stat_verdict, same_hash, manifest_get,
}
use memccache.Manifest.Lookup.{file_matches, files_match, first_match, manifest_get-first_match}
use memccache.Manifest.Entry.{
  Moment, file_infos_equal, add_file_info_indexes, add_object_entry, open_manifest, manifest_put,
}
use memccache.Manifest.Indexed.{DescribesAll, add_file_info_indexes_lem}

DescribesAll-same :
    (mf mf' : Manifest) (included : List (Bytes × FileHash)) (is' : List ℕ)
    → mf'.files ≡ mf.files
    → mf'.file_infos ≡ mf.file_infos
    → DescribesAll mf included is'
    → DescribesAll mf' included is'
DescribesAll-same mf mf' [] [] f g d = tt
DescribesAll-same mf mf' [] (i ∷ is') f g d = d
DescribesAll-same mf mf' ((path, fh) ∷ included) [] f g d = d
DescribesAll-same mf mf' ((path, fh) ∷ included) (i ∷ is') f g (d, ds) = (
  record {
    info = d.info;
    found = ap (λ l. get_elem? l i) g ∙ d.found;
    path_found = ap (λ l. get_elem? l d.info.index) f ∙ d.path_found;
    hash_kept = d.hash_kept;
    size_kept = d.size_kept;
  },
  DescribesAll-same mf mf' included is' f g ds,
)

-- The manifest that is read again.
abbrev reread : Manifest → Manifest
reread mf = record {
  version = manifest_version;
  hash_size = 16;
  reserved = 0;
  files = mf.files;
  file_infos = mf.file_infos;
  objects = mf.objects;
}

take-all {ℓ} : {A : Type ℓ} (xs : List A) → take (length xs) xs ≡ xs
take-all [] = refl
take-all (x ∷ xs) = ap (λ l. x ∷ l) (take-all xs)

hit :
    (b : Bool)
    → ((if b then some true else none) ≡ none) ⊎ ((if b then some true else none) ≡ some true)
hit true = inr refl
hit false = inl refl

hits :
    (f g a b : Bool)
    → let v : Option Bool =
        if f
        then (if not g then (if a then some true else none) else (if b then some true else none))
        else none in
      (v ≡ none) ⊎ (v ≡ some true)
hits true true a b = hit b
hits true false a b = hit a
hits false g a b = inl refl

module _ (conf : Settings) (disk : Disk) where
  -- On the disk, each file has the size and the digest that its entry says.
  abbrev pub Unchanged : List (Bytes × FileHash) → Type 0
  Unchanged [] = Unit
  Unchanged ((path, fh) ∷ included) =
      ((st : FileStats) × (disk.stat path ≡ some st)
        × (st.size ≡ fh.size)
        × (file_hash conf disk path ≡ some fh))
      × Unchanged included

  -- Without the check of precompiled headers no verdict is false.
  stat_verdict-true :
      (fi : FileInfo) (st : FileStats)
      → (conf.maybe_clang && conf.output_is_precompiled_header) ≡ false
      → (stat_verdict conf fi st ≡ none) ⊎ (stat_verdict conf fi st ≡ some true)
  unfolding stat_verdict
  stat_verdict-true fi st h =
      let passed : conf.maybe_clang
            && (conf.output_is_precompiled_header && not (fi.mtime == st.mtime))
          ≡ false =
        ground arith in
      rw (stat_verdict, passed)
        (hits conf.file_stat_matches conf.file_stat_matches_ctime
          ((fi.mtime == st.mtime) && (fi.ctime == st.ctime)) (fi.mtime == st.mtime))

  file_matches_lem :
      (n : ℕ) (fi : FileInfo) (path : Bytes) (fh : FileHash) (st : FileStats)
      → (conf.maybe_clang && conf.output_is_precompiled_header) ≡ false
      → disk.stat path ≡ some st
      → fi.size ≡ st.size
      → file_hash conf disk path ≡ some fh
      → fi.hash ≡ fh.hash
      → fi.size ≡ fh.size
      → file_matches conf disk n fi path ≡ true
  unfolding file_matches same_hash
  file_matches_lem n fi path fh st h e size f eh es =
      let fits : fi.size == st.size ≡ true = ground arith in
      let same : bytes_eq (take n fi.hash) (take n fh.hash) && (fi.size == fh.size) ≡ true =
        rw (eh, es, bytes_eq_refl (take n fh.hash)) (==_refl fh.size) in
      elim (stat_verdict-true fi st h) [
        | inl v ↦ rw (file_matches, e, fits, file_matches, v, file_matches, f) same
        | inr v ↦ rw (file_matches, e, fits, file_matches, v)
      ]

  files_match_lem :
      (mf : Manifest) (included : List (Bytes × FileHash)) (is' : List ℕ)
      → (conf.maybe_clang && conf.output_is_precompiled_header) ≡ false
      → DescribesAll mf included is'
      → Unchanged included
      → files_match conf disk mf is' ≡ some true
  unfolding files_match
  files_match_lem mf [] [] h d u = refl
  files_match_lem mf [] (i ∷ is') h d u = absurd d
  files_match_lem mf ((path, fh) ∷ included) [] h d u = absurd d
  files_match_lem mf ((path, fh) ∷ included) (i ∷ is') h (d, ds) ((st, e, size, f), u) =
      let found = d.found in
      let path_found = d.path_found in
      let matches =
        file_matches_lem mf.hash_size d.info path fh st h e (d.size_kept ∙ sym size) f d.hash_kept
          d.size_kept in
      rw (files_match, found, files_match, path_found, files_match, matches)
        (files_match_lem mf included is' h ds u)

-- An object that fits, and the manifest that it is added to.
module _ (paths : HashTable Bytes ℕ bytes_eq) (infos : HashTable FileInfo ℕ file_infos_equal)
    (now : Moment) (mf : Manifest) (object_hash : FileHash)
    (included : List (Bytes × FileHash)) where
  -- add_object_entry appends one object, whose indexes lead in turn to the paths, digests and sizes
  -- of the included files, and leaves all entries of the manifest where they are.
  pub add_object_entry_lem :
      let mf' = add_object_entry paths infos now mf object_hash included in
      (is' : List ℕ) × (mf'.objects
        ≡ mf.objects
          ++ record {
            file_info_indexes = is';
            hash = record { hash = take mf.hash_size object_hash.hash; size = object_hash.size };
          }
            ∷ [])
      × DescribesAll mf' included is'
      × ((i : ℕ) (s : Bytes) → get_elem? mf.files i ≡ some s → get_elem? mf'.files i ≡ some s)
      × ((i : ℕ) (fi : FileInfo)
          → get_elem? mf.file_infos i ≡ some fi
          → get_elem? mf'.file_infos i ≡ some fi)
      × (mf'.hash_size ≡ mf.hash_size)
  unfolding add_object_entry
  add_object_entry_lem =
      let (g, d) = add_file_info_indexes_lem paths infos now mf included in
      let r = add_file_info_indexes paths infos now mf included in
      let obj : Object = record {
        file_info_indexes = r.1;
        hash = record { hash = take mf.hash_size object_hash.hash; size = object_hash.size };
      } in
      (
        r.1,
        ap (λ l. l ++ obj ∷ []) g.objects_same,
        DescribesAll-same r.0 (add_object_entry paths infos now mf object_hash included) included
            r.1 refl refl d,
        g.files_stay,
        g.infos_stay,
        g.hash_size_same,
      )

  module _ (conf : Settings) (disk : Disk) (stated : HashTable Bytes FileStats bytes_eq)
      (hashed : HashTable Bytes FileHash bytes_eq) where
    added-get :
        let mf' = add_object_entry paths infos now mf object_hash included in
        IsManifest mf'
        → mf.hash_size ≡ length object_hash.hash
        → (conf.maybe_clang && conf.output_is_precompiled_header) ≡ false
        → Unchanged conf disk included
        → manifest_get stated hashed conf disk (some (write_manifest mf')) ≡ some (some object_hash)
    unfolding first_match
    added-get w n h u =
        let mf' = add_object_entry paths infos now mf object_hash included in
        let (is', objects, d, files, infos_stay, size) = add_object_entry_lem in
        let again : Manifest = reread mf' in
        let read : read_manifest (write_manifest mf') ≡ ok (again, []) =
          ap read_manifest (sym (append-nil (write_manifest mf')))
          ∙ read_manifest-write_manifest mf' [] w in
        let obj : Object = record {
          file_info_indexes = is';
          hash = record { hash = take mf.hash_size object_hash.hash; size = object_hash.size };
        } in
        let whole : take mf.hash_size object_hash.hash ≡ object_hash.hash =
          rw n (take-all object_hash.hash) in
        let newest : reverse mf'.objects ≡ obj ∷ reverse mf.objects =
          ap reverse objects ∙ reverse-append mf.objects (obj ∷ []) in
        let described = DescribesAll-same mf' again included is' refl refl d in
        let matches = files_match_lem conf disk again included is' h described u in
        let found : first_match conf disk again (obj ∷ reverse mf.objects) ≡ some (some obj.hash) =
          rw (first_match, matches) in
        manifest_get-first_match conf disk stated hashed (write_manifest mf') [] again read
        ∙ ap (first_match conf disk again) newest
        ∙ found
        ∙ ap (λ bs. some (some (record { hash = bs; size = object_hash.size }))) whole

-- What manifest_put writes, manifest_get reads, with hash tables in which a search finds only
-- what was inserted under an equal key: if the new manifest keeps to the widths of the file
-- format, the digest of the object has 16 bytes, no precompiled header is made with a compiler
-- that may be clang, and every included file is on the disk with the size and digest given,
-- then manifest_get finds just this object, whatever the file held before.
pub manifest_get-manifest_put :
    (paths : HashTable Bytes ℕ bytes_eq) (infos : HashTable FileInfo ℕ file_infos_equal)
    (stated : HashTable Bytes FileStats bytes_eq) (hashed : HashTable Bytes FileHash bytes_eq)
    (now : Moment) (text : Option Bytes) (object_hash : FileHash)
    (included : List (Bytes × FileHash)) (conf : Settings) (disk : Disk)
    → IsManifest (add_object_entry paths infos now (open_manifest text) object_hash included)
    → length object_hash.hash ≡ 16
    → (conf.maybe_clang && conf.output_is_precompiled_header) ≡ false
    → Unchanged conf disk included
    → manifest_get stated hashed conf disk
        (some (manifest_put paths infos now text object_hash included))
      ≡ some (some object_hash)
unfolding manifest_put
manifest_get-manifest_put paths infos stated hashed now text object_hash included conf disk w n h
      u =
    let (is', objects, d, files, infos_stay, size) =
      add_object_entry_lem paths infos now (open_manifest text) object_hash included in
    let sixteen : (open_manifest text).hash_size ≡ length object_hash.hash =
      sym size ∙ w.0 ∙ sym n in
    added-get paths infos now (open_manifest text) object_hash included conf disk stated hashed w
      sixteen h u
