-- ===== src/Manifest/Entry.antt =====
-- src/manifest.c: the entry of a new object, and manifest_put.
-- Paths and file_infos are keys of two hash tables, which are filled before the loop and not
-- changed in it. The included files are the pairs that the iterator delivers. Times are 64-bit
-- patterns of signed numbers. Creating, writing and renaming the file succeed.
use memccache.Base.{
  ℕ, ◌+◌, ◌-◌, ◌%◌, ◌^◌, List, [], ◌∷◌, ◌++◌, Bool, ◌&&◌, Option, none, some, ltb, ◌==◌,
  if◌then◌else◌, length, take, Bytes, bytes_eq,
}
use memccache.Base.Table.{HashTable}
use memccache.Manifest.{
  FileInfo, FileHash, Object, Manifest, ok, err, create_empty_manifest, read_manifest,
  write_manifest,
}
use memccache.Manifest.Verify.{FileStats}

abbrev pub max_manifest_entries : ℕ
max_manifest_entries = 100

abbrev pub max_manifest_file_info_entries : ℕ
max_manifest_file_info_entries = 10000

unfoldable pub file_infos_equal : FileInfo → FileInfo → Bool
file_infos_equal fi1 fi2 =
    (fi1.index == fi2.index)
    && (bytes_eq fi1.hash fi2.hash
        && ((fi1.size == fi2.size) && ((fi1.mtime == fi2.mtime) && (fi1.ctime == fi2.ctime))))

-- Order of int64_t patterns.
abbrev signed : ℕ → ℕ
signed x = (x + 2 ^ 63) % 2 ^ 64

-- What the caller gives: stat, time_of_compilation and save_timestamp.
pub record Moment : Type 0 where
  pub stat : Bytes → Option FileStats
  pub time_of_compilation : ℕ
  pub save_timestamp : Bool

-- mtime and ctime to store, or -1 for both.
unfoldable pub stored_times : Moment → Bytes → ℕ × ℕ
stored_times now path = elim (now.stat path) [
  | none ↦ (2 ^ 64 - 1, 2 ^ 64 - 1)
  | some st ↦
      if now.save_timestamp
        && (ltb (signed st.mtime) (signed now.time_of_compilation)
            && ltb (signed st.ctime) (signed now.time_of_compilation))
      then (st.mtime, st.ctime)
      else (2 ^ 64 - 1, 2 ^ 64 - 1)
]

-- The manifest that an object is added to: the one in the file, if it can be read and is not too
-- large.
unfoldable pub open_manifest : Option Bytes → Manifest
open_manifest none = create_empty_manifest
open_manifest (some text) = elim (read_manifest text) [
  | err e ↦ create_empty_manifest
  | ok (mf, rest) ↦
      if ltb max_manifest_entries (length mf.objects)
      then create_empty_manifest
      else if ltb max_manifest_file_info_entries (length mf.file_infos)
      then create_empty_manifest
      else mf
]

module _ (paths : HashTable Bytes ℕ bytes_eq) (infos : HashTable FileInfo ℕ file_infos_equal) where
  -- create_string_index_map from index `i` on, and create_file_info_index_map
  unfoldable pub create_string_index_map : List Bytes → ℕ → paths.Table → paths.Table
  create_string_index_map [] i h = h
  create_string_index_map (s ∷ strings) i h =
      create_string_index_map strings (i + 1) (paths.insert h s i)

  unfoldable pub create_file_info_index_map : List FileInfo → ℕ → infos.Table → infos.Table
  create_file_info_index_map [] i h = h
  create_file_info_index_map (fi ∷ fis) i h =
      create_file_info_index_map fis (i + 1) (infos.insert h fi i)

  unfoldable pub get_include_file_index : Manifest → Bytes → paths.Table → Manifest × ℕ
  get_include_file_index mf path mf_files = elim (paths.search mf_files path) [
    | some index ↦ (mf, index)
    | none ↦ (record mf { files = mf.files ++ path ∷ [] }, length mf.files)
  ]

  unfoldable pub get_file_hash_index :
      Moment → Manifest → Bytes → FileHash → paths.Table → infos.Table → Manifest × ℕ
  unfolding get_include_file_index
  get_file_hash_index now mf path fh mf_files mf_file_infos =
      let (mf', index) = get_include_file_index mf path mf_files in
      let (mtime, ctime) = stored_times now path in
      let fi : FileInfo = record {
        index = index;
        hash = fh.hash;
        size = fh.size;
        mtime = mtime;
        ctime = ctime;
      } in
      elim (infos.search mf_file_infos fi) [
        | some fi_index ↦ (mf', fi_index)
        | none ↦ (record mf' { file_infos = mf'.file_infos ++ fi ∷ [] }, length mf'.file_infos)
      ]

  -- The loop over the included files.
  unfoldable pub add_each :
      Moment → Manifest → List (Bytes × FileHash) → paths.Table → infos.Table → Manifest × List ℕ
  unfolding get_file_hash_index
  add_each now mf [] mf_files mf_file_infos = (mf, [])
  add_each now mf ((path, fh) ∷ included) mf_files mf_file_infos =
      let (mf', i) = get_file_hash_index now mf path fh mf_files mf_file_infos in
      let (mf'', is') = add_each now mf' included mf_files mf_file_infos in (mf'', i ∷ is')

  unfoldable pub add_file_info_indexes :
      Moment → Manifest → List (Bytes × FileHash) → Manifest × List ℕ
  unfolding add_each create_string_index_map create_file_info_index_map
  add_file_info_indexes now mf included =
      if length included == 0
      then (mf, [])
      else add_each now mf included (create_string_index_map mf.files 0 paths.create)
          (create_file_info_index_map mf.file_infos 0 infos.create)

  unfoldable pub add_object_entry :
      Moment → Manifest → FileHash → List (Bytes × FileHash) → Manifest
  unfolding add_file_info_indexes
  add_object_entry now mf object_hash included =
      let (mf', indexes) = add_file_info_indexes now mf included in
      let obj : Object = record {
        file_info_indexes = indexes;
        hash = record { hash = take mf.hash_size object_hash.hash; size = object_hash.size };
      } in
      record mf' { objects = mf'.objects ++ obj ∷ [] }

  -- The new text of the file.
  unfoldable pub manifest_put : Moment → Option Bytes → FileHash → List (Bytes × FileHash) → Bytes
  unfolding open_manifest add_object_entry
  manifest_put now text object_hash included =
      write_manifest (add_object_entry now (open_manifest text) object_hash included)
