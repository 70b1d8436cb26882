-- ===== src/Manifest/Dated.antt =====
-- src/manifest.c: the size in the entry of a file with __DATE__.
use memccache.Base.{
  ℕ, zero, suc, List, [], ◌∷◌, Bool, Option, get_elem?, Option-cases, bytes_eq, ◌≢◌, ◌+◌, ◌%◌, ◌^◌,
  ◌<◌, true, false, none, some, if◌then◌else◌, ◌==◌, Bool-cases, inl, inr, length, Bytes, codes,
  ◌≡◌, sym, ap, ◌∙◌, arith,
}
use memccache.Hash.{
  Hash, hash_init, hash_input_size, hash_result_as_bytes, hash_string_buffer, hash_delimiter,
  hash_int,
}
use memccache.Hash.Size.{hash_string_buffer-Fed, hash_delimiter-Fed, hash_int-Fed}
use memccache.Hashutil.{Found, check_for_temporal_macros}
use memccache.Hashutil.Source.{
  is_precompiled_header, hash_source_code_string, hash_source_code_file,
}
use memccache.Mdfour.{mdfour_begin}
use memccache.Manifest.{FileInfo, FileHash, Object, Manifest}
use memccache.Manifest.Verify.{FileStats, Settings, Disk, Tables, file_hash, verify_object}
use memccache.Base.Table.{HashTable}
use memccache.Manifest.Lookup.{file_matches, files_match, Agrees, with_tables, verify_indexes_lem}

-- The digest after the text and the date.
abbrev pub dated : Bytes → ℕ → ℕ → ℕ → Hash
dated text year month day =
    hash_int
      (hash_int
        (hash_int
          (hash_delimiter (hash_string_buffer hash_init text (length text % 2 ^ 32)) (codes "date"))
          year)
        month)
      day

dated-size :
    (text : Bytes) (year month day : ℕ)
    → length text < 2 ^ 31
    → hash_input_size (dated text year month day) ≡ (length text + 25) % 2 ^ 64
unfolding hash_input_size hash_init mdfour_begin
dated-size text year month day small =
    let h1 = hash_string_buffer hash_init text (length text % 2 ^ 32) in
    let h2 = hash_delimiter h1 (codes "date") in
    let h3 = hash_int h2 year in
    let h4 = hash_int h3 month in
    let f1 = hash_string_buffer-Fed hash_init text (omega arith) small in
    let f2 = hash_delimiter-Fed h1 (codes "date") f1.0 in
    let f3 = hash_int-Fed h2 year f2.0 in
    let f4 = hash_int-Fed h3 month f3.0 in
    let f5 = hash_int-Fed h4 day f4.0 in omega (arith, f1.1, f2.1, f3.1, f4.1, f5.1)

files_match-tail :
    (conf : Settings) (disk : Disk) (mf : Manifest) (k : ℕ) (is' : List ℕ)
    → files_match conf disk mf (k ∷ is') ≡ some true
    → files_match conf disk mf is' ≡ some true
unfolding files_match
files_match-tail conf disk mf k is' m = elim (Option-cases (get_elem? mf.file_infos k)) [
  | inl e ↦
      let got : files_match conf disk mf (k ∷ is') ≡ none = rw (files_match, e) in
      absurd (ground arith)
  | inr (fi, e) ↦ elim (Option-cases (get_elem? mf.files fi.index)) [
    | inl f ↦
        let got : files_match conf disk mf (k ∷ is') ≡ none = rw (files_match, e, files_match, f) in
        absurd (ground arith)
    | inr (path, f) ↦ elim (Bool-cases (file_matches conf disk mf.hash_size fi path)) [
      | inr differs ↦
          let got : files_match conf disk mf (k ∷ is') ≡ some false =
            rw (files_match, e, files_match, f, files_match, differs) in
          absurd (ground arith)
      | inl agrees ↦
          let got : files_match conf disk mf (k ∷ is') ≡ files_match conf disk mf is' =
            rw (files_match, e, files_match, f, files_match, agrees) in
          sym got ∙ m
    ]
  ]
]

module _ (conf : Settings) (disk : Disk) (path text : Bytes) (year month day : ℕ)
    (careful : conf.sloppy_time_macros ≡ false) (plain : is_precompiled_header path ≡ false)
    (small : length text < 2 ^ 31) (contents : disk.files.contents path ≡ some text)
    (today : disk.files.today ≡ some (year, month, day))
    (has_date : (check_for_temporal_macros text).date ≡ true) where
  -- The size that a digest of the file gets.
  file_hash-size :
      (fh : FileHash) → file_hash conf disk path ≡ some fh → fh.size ≡ (length text + 25) % 2 ^ 32
  unfolding file_hash hash_source_code_file hash_source_code_string
  file_hash-size fh h =
      let size = dated-size text year month day small in
      let found : Found =
        if conf.sloppy_time_macros
        then record { date = false; time = false }
        else check_for_temporal_macros text in
      let date_found : found.date ≡ true = rw careful has_date in
      let hashed : hash_source_code_file disk.files conf.sloppy_time_macros hash_init path
          ≡ (dated text year month day, some found) =
        rw (
          hash_source_code_file, plain, hash_source_code_file, contents, hash_source_code_string,
          date_found, hash_source_code_string, today,
        ) in
      let outcome : (hash_source_code_file disk.files conf.sloppy_time_macros hash_init path).1
          ≡ some found =
        ap (λ p. p.1) hashed in
      let state : (hash_source_code_file disk.files conf.sloppy_time_macros hash_init path).0
          ≡ dated text year month day =
        ap (λ p. p.0) hashed in
      elim (Bool-cases found.time) [
        | inl e ↦
            let nothing : file_hash conf disk path ≡ none = rw (file_hash, outcome, e) in
            absurd (ground arith)
        | inr e ↦
            let result : file_hash conf disk path
                ≡ some (record {
                  hash = hash_result_as_bytes (dated text year month day);
                  size = hash_input_size (dated text year month day) % 2 ^ 32;
                }) =
              rw (file_hash, outcome, e, state) in
            let same = sym result ∙ h in
            let kept : hash_input_size (dated text year month day) % 2 ^ 32 ≡ fh.size =
              ground arith in
            omega arith
      ]

  -- An entry with that size does not match the file.
  file_matches-dated :
      (n : ℕ) (fi : FileInfo) (fh : FileHash) (st : FileStats)
      → file_hash conf disk path ≡ some fh
      → fi.size ≡ fh.size
      → disk.stat path ≡ some st
      → st.size ≡ length text
      → file_matches conf disk n fi path ≡ false
  unfolding file_matches
  file_matches-dated n fi fh st h kept stat size =
      let more = file_hash-size fh h in
      let differ : fi.size == st.size ≡ false = ground arith in rw (file_matches, stat, differ)

  -- If all files match, so does each.
  files_match-at :
      (mf : Manifest) (is' : List ℕ) (j i : ℕ) (fi : FileInfo)
      → files_match conf disk mf is' ≡ some true
      → get_elem? is' j ≡ some i
      → get_elem? mf.file_infos i ≡ some fi
      → get_elem? mf.files fi.index ≡ some path
      → file_matches conf disk mf.hash_size fi path ≡ true
  unfolding files_match
  files_match-at mf [] j i fi m e info named = absurd (ground arith)
  files_match-at mf (k ∷ is') zero i fi m e info named =
      let same : k ≡ i = ground arith in
      elim (Bool-cases (file_matches conf disk mf.hash_size fi path)) [
        | inl agrees ↦ agrees
        | inr differs ↦
            let stops : files_match conf disk mf (i ∷ is') ≡ some false =
              rw (files_match, info, files_match, named, files_match, differs) in
            let agreed = rw same at m in absurd (ground arith)
      ]
  files_match-at mf (k ∷ is') (suc j) i fi m e info named =
      files_match-at mf is' j i fi (files_match-tail conf disk mf k is' m) e info named

  module _ (stated : HashTable Bytes FileStats bytes_eq)
      (hashed : HashTable Bytes FileHash bytes_eq) where
    -- If time macros are not sloppy, a file is not a precompiled header, the date is known,
    -- and its text, shorter than 2^31 bytes, has __DATE__ in it, then verify_object never
    -- finds that an object matches which leads to a file_info of that file with the size
    -- that the hashing of the file gives, for tables that hold what the disk says, the
    -- empty ones of manifest_get included: the size counts the date too, and differs from
    -- that of the file.
    pub verify_object-dated :
        (mf : Manifest) (obj : Object) (t t' : Tables stated hashed) (j i : ℕ) (fi : FileInfo)
        (fh : FileHash) (st : FileStats)
        → Agrees conf disk stated hashed t
        → get_elem? obj.file_info_indexes j ≡ some i
        → get_elem? mf.file_infos i ≡ some fi
        → get_elem? mf.files fi.index ≡ some path
        → file_hash conf disk path ≡ some fh
        → fi.size ≡ fh.size
        → disk.stat path ≡ some st
        → st.size ≡ length text
        → verify_object stated hashed conf disk mf obj t ≢ some (t', true)
    unfolding verify_object
    verify_object-dated mf obj t t' j i fi fh st a at_j info named h kept stat size verified =
        let (t'', o, a'', m, v) =
          verify_indexes_lem conf disk stated hashed mf obj.file_info_indexes t a in
        let differs = file_matches-dated mf.hash_size fi fh st h kept stat size in
        let all : o ≡ some true = only_true t' t'' o (sym v ∙ verified) in
        let agrees = files_match-at mf obj.file_info_indexes j i fi (m ∙ all) at_j info named in
        absurd (ground arith)
      where
        only_true :
            (t' t'' : Tables stated hashed) (o : Option Bool)
            → with_tables conf disk stated hashed t'' o ≡ some (t', true)
            → o ≡ some true
        only_true t' t'' none e = absurd (ground arith)
        only_true t' t'' (some b) e = let flag : b ≡ true = ground arith in ap some flag
