-- ===== src/Manifest/Examples.antt =====
-- src/manifest.c at a manifest with one object, and on a disk with one file.
use memccache.Base.{
  List, ◌⊎◌, inl, inr, Bool-cases, sym, ◌≡◌, ◌≢◌, refl, [], ◌∷◌, ◌++◌, Option, none, some, Bool,
  true, false, if◌then◌else◌, arith, replicate, codes, Bytes, bytes_eq,
}
use memccache.Base.Table.{HashTable}
use memccache.Mdfour.{mdfour_begin, mdfour_update, update_loop, mdfour_result, mdfour_tail, copy4}
use memccache.Hash.{
  hash_init, hash_string_buffer, hash_buffer, do_hash_buffer, do_debug_text, hash_result_as_bytes,
  hash_input_size,
}
use memccache.Hashutil.Source.{
  is_precompiled_header, hash_source_code_string, hash_source_code_file,
}
use memccache.Language.{get_extension, walk_back}
use memccache.Util.{dirname}
use memccache.Manifest.{
  FileInfo, FileHash, Object, Manifest, ok, read_manifest, write_manifest, create_empty_manifest,
}
use memccache.Manifest.Codec.{read_manifest-write_manifest}
use memccache.Manifest.Verify.{
  FileStats, Settings, Disk, Tables, verify_object, file_hash, manifest_get,
}
use memccache.Manifest.Lookup.{first_match, manifest_get-first_match}
use memccache.Manifest.Entry.{
  Moment, file_infos_equal, stored_times, add_object_entry, open_manifest, manifest_put,
}
use memccache.Hash.{hash_delimiter, hash_int}
use memccache.Hashutil.{
  check_for_temporal_macros, macro_loop, check_at, looks_like_macro, is_date, is_time, skip,
}
use memccache.Manifest.Lookup.{create-Agrees}
use memccache.Manifest.Dated.{dated, verify_object-dated}
use memccache.Manifest.Put.{manifest_get-manifest_put}

abbrev header : FileInfo
header = record {
  index = 0;
  hash = replicate 16 7;
  size = 12;
  mtime = 1_700_000_000;
  ctime = 1_700_000_001;
}

abbrev object : Object
object = record { file_info_indexes = 0 ∷ []; hash = record { hash = replicate 16 9; size = 99 } }

abbrev manifest : Manifest
manifest = record {
  version = 1;
  hash_size = 16;
  reserved = 0;
  files = codes "a.h" ∷ [];
  file_infos = header ∷ [];
  objects = object ∷ [];
}

read_manifest-write_manifest_example :
    read_manifest (write_manifest manifest ++ codes "more") ≡ ok (manifest, codes "more")
read_manifest-write_manifest_example = read_manifest-write_manifest manifest (codes "more") (
  refl,
  omega arith,
  ((omega arith, omega arith), tt),
  omega arith,
  ((omega arith, refl, omega arith, omega arith, omega arith), tt),
  omega arith,
  ((omega arith, omega arith, refl, omega arith), tt),
)

-- A table as the list of its pairs, the last one first.
abbrev Among : {K V : Type 0} → List (K × V) → K → V → Type 0
Among [] k v = ⊥
Among ((j, u) ∷ t) k v = ((k ≡ j) × (v ≡ u)) ⊎ Among t k v

first_value : {K V : Type 0} (equal : K → K → Bool) → List (K × V) → K → Option V
first_value equal [] k = none
first_value equal ((j, u) ∷ t) k = if equal k j then some u else first_value equal t k

first_value-Among :
    {K V : Type 0} (equal : K → K → Bool) (t : List (K × V)) (k : K) (v : V)
    → first_value equal t k ≡ some v
    → (j : K) × (equal k j ≡ true) × Among t j v
unfolding first_value
first_value-Among equal [] k v h = absurd (ground arith)
first_value-Among equal ((j, u) ∷ t) k v h = elim (Bool-cases (equal k j)) [
  | inl same ↦ let value : u ≡ v = ground arith in (j, same, inl (refl, sym value))
  | inr other ↦
      let (i, same, held) = first_value-Among equal t k v (ground arith) in (i, same, inr held)
]

abbrev list_table : (K V : Type 0) (equal : K → K → Bool) → HashTable K V equal
list_table K V equal = record {
  Table = List (K × V);
  create = [];
  search = first_value equal;
  insert = λ t k v. (k, v) ∷ t;
  Holds = Among;
  create-empty = λ k v h. h;
  insert-Holds = λ t k j v u h. h;
  search-Holds = first_value-Among equal;
}

abbrev settings : Settings
settings = record {
  sloppy_time_macros = true;
  file_stat_matches = false;
  file_stat_matches_ctime = false;
  maybe_clang = false;
  output_is_precompiled_header = false;
}

abbrev stats : FileStats
stats = record { size = 3; mtime = 5; ctime = 6 }

-- Every file has the text "abc".
abbrev disk : Disk
disk = record {
  stat = λ path. some stats;
  files = record { open_reads = λ path. none; contents = λ path. some (codes "abc"); today = none };
}

abbrev digest : FileHash
digest = record {
  hash =
      0xa4 ∷ 0x48 ∷ 0x01 ∷ 0x7a ∷ 0xaf ∷ 0x21 ∷ 0xd8 ∷ 0x52 ∷ 0x5f ∷ 0xc1 ∷ 0x0a ∷ 0xe8 ∷ 0x7a
      ∷ 0xa6 ∷ 0x72 ∷ 0x9d ∷ [];
  size = 3;
}

on_disk : file_hash settings disk (codes "a.h") ≡ some digest
unfolding file_hash hash_source_code_file is_precompiled_header hash_source_code_string hash_init
    hash_string_buffer hash_buffer do_hash_buffer do_debug_text hash_result_as_bytes hash_input_size
    mdfour_begin mdfour_update update_loop mdfour_result mdfour_tail copy4 bytes_eq get_extension
    walk_back dirname
on_disk = refl

manifest_get-first_match_example :
    manifest_get
      (list_table Bytes FileStats bytes_eq)
      (list_table Bytes FileHash bytes_eq)
      settings
      disk
      (some (write_manifest manifest ++ codes "more"))
    ≡ first_match settings disk manifest (object ∷ [])
manifest_get-first_match_example =
    manifest_get-first_match settings disk (list_table Bytes FileStats bytes_eq)
      (list_table Bytes FileHash bytes_eq) (write_manifest manifest ++ codes "more") (codes "more")
      manifest read_manifest-write_manifest_example

abbrev now : Moment
now = record { stat = λ path. some stats; time_of_compilation = 7; save_timestamp = true }

abbrev object_hash : FileHash
object_hash = record { hash = replicate 16 9; size = 99 }

manifest_get-manifest_put_example :
    manifest_get
      (list_table Bytes FileStats bytes_eq)
      (list_table Bytes FileHash bytes_eq)
      settings
      disk
      (some (
        manifest_put
          (list_table Bytes _ bytes_eq)
          (list_table FileInfo _ file_infos_equal)
          now
          none
          object_hash
          ((codes "a.h", digest) ∷ [])))
    ≡ some (some object_hash)
unfolding first_value add_object_entry open_manifest create_empty_manifest stored_times
manifest_get-manifest_put_example =
    manifest_get-manifest_put (list_table Bytes _ bytes_eq) (list_table FileInfo _ file_infos_equal)
      (list_table Bytes FileStats bytes_eq) (list_table Bytes FileHash bytes_eq) now none
      object_hash ((codes "a.h", digest) ∷ []) settings disk
      (
        refl,
        omega arith,
        ((omega arith, omega arith), tt),
        omega arith,
        ((omega arith, refl, omega arith, omega arith, omega arith), tt),
        omega arith,
        ((omega arith, (omega arith, tt), refl, omega arith), tt),
      )
      refl refl ((stats, refl, refl, on_disk), tt)

abbrev date_text : Bytes
date_text = codes "__DATE__"

-- Every file has the text "__DATE__".
abbrev date_disk : Disk
date_disk = record {
  stat = λ path. some (record { size = 8; mtime = 5; ctime = 6 });
  files = record {
    open_reads = λ path. none;
    contents = λ path. some date_text;
    today = some (126, 0, 1);
  };
}

abbrev careful : Settings
careful = record settings { sloppy_time_macros = false }

abbrev date_hash : FileHash
date_hash = record { hash = hash_result_as_bytes (dated date_text 126 0 1); size = 33 }

date_found : (check_for_temporal_macros date_text).date ≡ true
unfolding check_for_temporal_macros macro_loop check_at looks_like_macro is_date is_time skip
date_found = refl

plain : is_precompiled_header (codes "a.h") ≡ false
unfolding is_precompiled_header get_extension walk_back dirname bytes_eq
plain = refl

date_hashed : file_hash careful date_disk (codes "a.h") ≡ some date_hash
unfolding file_hash hash_source_code_file is_precompiled_header hash_source_code_string hash_init
    hash_string_buffer hash_buffer do_hash_buffer do_debug_text hash_result_as_bytes hash_input_size
    mdfour_begin mdfour_update update_loop mdfour_result mdfour_tail copy4 bytes_eq get_extension
    walk_back dirname hash_delimiter hash_int check_for_temporal_macros macro_loop check_at
    looks_like_macro is_date is_time skip
date_hashed = refl

abbrev date_info : FileInfo
date_info = record { index = 0; hash = date_hash.hash; size = 33; mtime = 5; ctime = 6 }

abbrev date_manifest : Manifest
date_manifest = record manifest { file_infos = date_info ∷ [] }

abbrev date_stats : FileStats
date_stats = record { size = 8; mtime = 5; ctime = 6 }

abbrev no_tables : Tables (list_table Bytes FileStats bytes_eq) (list_table Bytes FileHash bytes_eq)
no_tables = record { stats = []; hashes = [] }

verify_object-dated_example :
    verify_object
      (list_table Bytes FileStats bytes_eq)
      (list_table Bytes FileHash bytes_eq)
      careful
      date_disk
      date_manifest
      object
      no_tables
    ≢ some (no_tables, true)
verify_object-dated_example =
    verify_object-dated careful date_disk (codes "a.h") date_text 126 0 1 refl plain (omega arith)
      refl refl date_found (list_table Bytes FileStats bytes_eq)
      (list_table Bytes FileHash bytes_eq) date_manifest object no_tables no_tables 0 0 date_info
      date_hash date_stats
      (create-Agrees careful date_disk (list_table Bytes FileStats bytes_eq)
        (list_table Bytes FileHash bytes_eq))
      refl refl refl date_hashed refl refl refl
