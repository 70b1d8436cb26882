-- ===== src/Hashutil/Source.antt =====
-- src/hashutil.c: hashing source code, and is_precompiled_header of src/ccache.c.
-- The files are a parameter: the reads of an opened file, and the contents that read_file
-- delivers. `today` is what localtime_r makes of the time: year, month and day, or `none`.
use memccache.Base.{
  ◌%◌, ◌^◌, length, ℕ, List, Bool, true, false, ◌||◌, Option, none, some, if◌then◌else◌, Bytes,
  codes, bytes_eq,
}
use memccache.Hash.{Hash, Read, hash_string_buffer, hash_delimiter, hash_int, hash_file}
use memccache.Hashutil.{Found, check_for_temporal_macros}
use memccache.Language.{get_extension}
use memccache.Util.{dirname}

pub record Files : Type 0 where
  pub open_reads : Bytes → Option (List Read)
  pub contents : Bytes → Option Bytes
  pub today : Option (ℕ × ℕ × ℕ)

unfoldable pub is_precompiled_header : Bytes → Bool
is_precompiled_header path =
    let ext = get_extension path in
    bytes_eq ext (codes ".gch")
    || (bytes_eq ext (codes ".pch")
        || (bytes_eq ext (codes ".pth") || bytes_eq (get_extension (dirname path)) (codes ".gch")))

abbrev nothing_found : Found
nothing_found = record { date = false; time = false }

-- The result is the digest and the bits found, or `none` for HASH_SOURCE_CODE_ERROR.
unfoldable pub hash_source_code_string : Files → Bool → Hash → Bytes → Hash × Option Found
hash_source_code_string files sloppy_time_macros hash str =
    let result = if sloppy_time_macros then nothing_found else check_for_temporal_macros str in
    let fed = hash_string_buffer hash str (length str % 2 ^ 32) in
    elim result.date [
      | false ↦ (fed, some result)
      | true ↦
          let delimited = hash_delimiter fed (codes "date") in
          elim files.today [
            | none ↦ (delimited, none)
            | some (year, month, day) ↦
                (hash_int (hash_int (hash_int delimited year) month) day, some result)
          ]
    ]

unfoldable pub hash_source_code_file : Files → Bool → Hash → Bytes → Hash × Option Found
unfolding hash_source_code_string is_precompiled_header
hash_source_code_file files sloppy_time_macros hash path = elim (is_precompiled_header path) [
  | true ↦
      let (hash', ok) = hash_file hash (files.open_reads path) in
      (hash', if ok then some nothing_found else none)
  | false ↦ elim (files.contents path) [
    | none ↦ (hash, none)
    | some str ↦ hash_source_code_string files sloppy_time_macros hash str
  ]
]
