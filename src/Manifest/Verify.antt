-- ===== src/Manifest/Verify.antt =====
-- src/manifest.c: verify_object and manifest_get.
-- The file system is a parameter: what x_stat and the hashing of src/hashutil.c read. Paths are
-- keys of the two hash tables, stated_files and hashed_files.
use memccache.Base.{
  ℕ, ◌%◌, ◌^◌, List, [], ◌∷◌, Bool, true, false, not, ◌&&◌, Option, none, some, ◌==◌, if◌then◌else◌,
  get_elem?, take, reverse, Bytes, bytes_eq,
}
use memccache.Base.Table.{HashTable}
use memccache.Hash.{hash_init, hash_result_as_bytes, hash_input_size}
use memccache.Hashutil.Source.{Files, hash_source_code_file}
use memccache.Manifest.{FileInfo, FileHash, Object, Manifest, ok, err, read_manifest}

-- struct file_stats; the size is a uint32_t.
pub record FileStats : Type 0 where
  pub size : ℕ
  pub mtime : ℕ
  pub ctime : ℕ

-- The settings and globals that verify_object reads.
pub record Settings : Type 0 where
  pub sloppy_time_macros : Bool
  pub file_stat_matches : Bool
  pub file_stat_matches_ctime : Bool
  -- guessed_compiler is GUESSED_CLANG or GUESSED_UNKNOWN
  pub maybe_clang : Bool
  pub output_is_precompiled_header : Bool

-- The files as x_stat and the hash functions see them.
pub record Disk : Type 0 where
  pub stat : Bytes → Option FileStats
  pub files : Files

-- The digest of a file and the bytes fed; `none` for an error or if __TIME__ was found.
unfoldable pub file_hash : Settings → Disk → Bytes → Option FileHash
file_hash conf disk path =
    let (hash, result) = hash_source_code_file disk.files conf.sloppy_time_macros hash_init path in
    elim result [
      | none ↦ none
      | some found ↦
          if found.time
          then none
          else some
              (record { hash = hash_result_as_bytes hash; size = hash_input_size hash % 2 ^ 32 })
    ]

-- The test of one file after its size, without the digest: `some` if it decides.
unfoldable pub stat_verdict : Settings → FileInfo → FileStats → Option Bool
stat_verdict conf fi st =
    if conf.maybe_clang && (conf.output_is_precompiled_header && not (fi.mtime == st.mtime))
    then some false
    else if conf.file_stat_matches
    then (if not conf.file_stat_matches_ctime
        then (if (fi.mtime == st.mtime) && (fi.ctime == st.ctime) then some true else none)
        else (if fi.mtime == st.mtime then some true else none))
    else none

-- memcmp over hash_size bytes, and the sizes
unfoldable pub same_hash : ℕ → FileInfo → FileHash → Bool
same_hash hash_size fi actual =
    bytes_eq (take hash_size fi.hash) (take hash_size actual.hash) && (fi.size == actual.size)

module _ (stated : HashTable Bytes FileStats bytes_eq)
    (hashed : HashTable Bytes FileHash bytes_eq) where
  pub record Tables : Type 0 where
    pub stats : stated.Table
    pub hashes : hashed.Table

  -- The table entry, or x_stat and a new entry.
  unfoldable pub stat_file : Disk → Tables → Bytes → Tables × Option FileStats
  stat_file disk t path = elim (stated.search t.stats path) [
    | some st ↦ (t, some st)
    | none ↦ elim (disk.stat path) [
      | none ↦ (t, none)
      | some st ↦ (record t { stats = stated.insert t.stats path st }, some st)
    ]
  ]

  unfoldable pub hash_source : Settings → Disk → Tables → Bytes → Tables × Option FileHash
  hash_source conf disk t path = elim (hashed.search t.hashes path) [
    | some fh ↦ (t, some fh)
    | none ↦ elim (file_hash conf disk path) [
      | none ↦ (t, none)
      | some fh ↦ (record t { hashes = hashed.insert t.hashes path fh }, some fh)
    ]
  ]

  -- One round of the loop.
  unfoldable pub verify_file : Settings → Disk → ℕ → FileInfo → Bytes → Tables → Tables × Bool
  unfolding stat_file hash_source
  verify_file conf disk hash_size fi path t =
      let (t', status) = stat_file disk t path in
      elim status [
        | none ↦ (t', false)
        | some st ↦
            if not (fi.size == st.size) then (t', false) else elim (stat_verdict conf fi st) [
              | some verdict ↦ (t', verdict)
              | none ↦
                  let (t'', actual) = hash_source conf disk t' path in
                  elim actual [ none ↦ (t'', false) | some fh ↦ (t'', same_hash hash_size fi fh) ]
            ]
      ]

  -- The loop over file_info_indexes; `none` for an index outside its array.
  unfoldable pub verify_indexes :
      Settings → Disk → Manifest → List ℕ → Tables → Option (Tables × Bool)
  unfolding verify_file
  verify_indexes conf disk mf [] t = some (t, true)
  verify_indexes conf disk mf (i ∷ is') t = elim (get_elem? mf.file_infos i) [
    | none ↦ none
    | some fi ↦ elim (get_elem? mf.files fi.index) [
      | none ↦ none
      | some path ↦
          let (t', same) = verify_file conf disk mf.hash_size fi path t in
          elim same [ false ↦ some (t', false) | true ↦ verify_indexes conf disk mf is' t' ]
    ]
  ]

  unfoldable pub verify_object :
      Settings → Disk → Manifest → Object → Tables → Option (Tables × Bool)
  unfolding verify_indexes
  verify_object conf disk mf obj t = verify_indexes conf disk mf obj.file_info_indexes t

  -- The loop of manifest_get over the objects, the last one first; the list is in that order.
  unfoldable pub find_object :
      Settings → Disk → Manifest → List Object → Tables → Option (Option FileHash)
  unfolding verify_object
  find_object conf disk mf [] t = some none
  find_object conf disk mf (obj ∷ objs) t = elim (verify_object conf disk mf obj t) [
    | none ↦ none
    | some (t', false) ↦ find_object conf disk mf objs t'
    | some (t', true) ↦ some (some obj.hash)
  ]

  -- manifest_get on an opened file, or `none` where it cannot be opened.
  unfoldable pub manifest_get : Settings → Disk → Option Bytes → Option (Option FileHash)
  unfolding find_object
  manifest_get conf disk none = some none
  manifest_get conf disk (some text) = elim (read_manifest text) [
    | err e ↦ some none
    | ok (mf, rest) ↦
        find_object conf disk mf (reverse mf.objects)
          (record { stats = stated.create; hashes = hashed.create })
  ]
