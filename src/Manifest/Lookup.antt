-- ===== src/Manifest/Lookup.antt =====
-- src/manifest.c: what manifest_get finds, said without the tables in which it keeps what it read.
use memccache.Base.{
  ℕ, List, [], ◌∷◌, Bool, true, false, not, Option, none, some, ◌==◌, if◌then◌else◌, get_elem?,
  reverse, Bool-cases, Option-cases, inl, inr, Bytes, bytes_eq, ◌≡◌, refl, sym, ◌∙◌,
}
use memccache.Base.Table.{HashTable, Caches, create-Caches, insert-Caches, search-Caches}
use memccache.Manifest.{FileInfo, FileHash, Object, Manifest, ok, read_manifest}
use memccache.Manifest.Verify.{
  FileStats, Settings, Disk, file_hash, stat_verdict, same_hash, Tables, stat_file, hash_source,
  verify_file, verify_indexes, verify_object, find_object, manifest_get,
}

module _ (conf : Settings) (disk : Disk) where
  -- Whether a file is as its file_info says.
  unfoldable pub file_matches : ℕ → FileInfo → Bytes → Bool
  file_matches hash_size fi path = elim (disk.stat path) [
    | none ↦ false
    | some st ↦ if not (fi.size == st.size) then false else elim (stat_verdict conf fi st) [
      | some verdict ↦ verdict
      | none ↦ elim (file_hash conf disk path) [
        | none ↦ false
        | some fh ↦ same_hash hash_size fi fh
      ]
    ]
  ]

  -- Whether all files are; `none` if an index outside its array is reached.
  unfoldable pub files_match : Manifest → List ℕ → Option Bool
  files_match mf [] = some true
  files_match mf (i ∷ is') = elim (get_elem? mf.file_infos i) [
    | none ↦ none
    | some fi ↦ elim (get_elem? mf.files fi.index) [
      | none ↦ none
      | some path ↦ elim (file_matches mf.hash_size fi path) [
        | false ↦ some false
        | true ↦ files_match mf is'
      ]
    ]
  ]

  -- The hash of the first object whose files match.
  unfoldable pub first_match : Manifest → List Object → Option (Option FileHash)
  first_match mf [] = some none
  first_match mf (obj ∷ objs) = elim (files_match mf obj.file_info_indexes) [
    | none ↦ none
    | some false ↦ first_match mf objs
    | some true ↦ some (some obj.hash)
  ]

  module _ (stated : HashTable Bytes FileStats bytes_eq)
      (hashed : HashTable Bytes FileHash bytes_eq) where
    -- What the tables hold is what the disk says.
    pub record Agrees (t : Tables stated hashed) : Type 0 where
      pub stats_agree : Caches stated disk.stat t.stats
      pub hashes_agree : Caches hashed (file_hash conf disk) t.hashes

    pub create-Agrees : Agrees (record { stats = stated.create; hashes = hashed.create })
    create-Agrees = record {
      stats_agree = create-Caches stated disk.stat;
      hashes_agree = create-Caches hashed (file_hash conf disk);
    }

    stat_file_lem :
        (t : Tables stated hashed) (path : Bytes)
        → Agrees t
        → Agrees (stat_file stated hashed disk t path).0
          × ((stat_file stated hashed disk t path).1 ≡ disk.stat path)
    unfolding stat_file
    stat_file_lem t path a = elim (Option-cases (stated.search t.stats path)) [
      | inr (st, e) ↦
          rw (stat_file, e)
            (a, sym (search-Caches stated disk.stat t.stats path st a.stats_agree e))
      | inl e ↦ elim (Option-cases (disk.stat path)) [
        | inl f ↦ rw (stat_file, e, f) (a, refl)
        | inr (st, f) ↦
            rw (stat_file, e, f)
              (
                record {
                  stats_agree = insert-Caches stated disk.stat t.stats path st a.stats_agree f;
                  hashes_agree = a.hashes_agree;
                },
                refl,
              )
      ]
    ]

    hash_source_lem :
        (t : Tables stated hashed) (path : Bytes)
        → Agrees t
        → Agrees (hash_source stated hashed conf disk t path).0
          × ((hash_source stated hashed conf disk t path).1 ≡ file_hash conf disk path)
    unfolding hash_source
    hash_source_lem t path a = elim (Option-cases (hashed.search t.hashes path)) [
      | inr (fh, e) ↦
          rw (hash_source, e)
            (a, sym (search-Caches hashed (file_hash conf disk) t.hashes path fh a.hashes_agree e))
      | inl e ↦ elim (Option-cases (file_hash conf disk path)) [
        | inl f ↦ rw (hash_source, e, f) (a, refl)
        | inr (fh, f) ↦
            rw (hash_source, e, f)
              (
                record {
                  stats_agree = a.stats_agree;
                  hashes_agree =
                      insert-Caches hashed (file_hash conf disk) t.hashes path fh a.hashes_agree f;
                },
                refl,
              )
      ]
    ]

    verify_file_lem :
        (hash_size : ℕ) (fi : FileInfo) (path : Bytes) (t : Tables stated hashed)
        → Agrees t
        → Agrees (verify_file stated hashed conf disk hash_size fi path t).0
          × ((verify_file stated hashed conf disk hash_size fi path t).1
              ≡ file_matches hash_size fi path)
    unfolding verify_file file_matches
    verify_file_lem hash_size fi path t a =
        let (a', e) = stat_file_lem t path a in
        let t' = (stat_file stated hashed disk t path).0 in
        elim (Option-cases (disk.stat path)) [
          | inl f ↦ let status = e ∙ f in rw (verify_file, status, file_matches, f) (a', refl)
          | inr (st, f) ↦
              let status = e ∙ f in
              elim (Bool-cases (fi.size == st.size)) [
                | inr other ↦ rw (verify_file, status, other, file_matches, f, other) (a', refl)
                | inl same ↦ elim (Option-cases (stat_verdict conf fi st)) [
                  | inr (v, g) ↦
                      rw
                        (
                          verify_file, status, same, verify_file, g, file_matches, f, same,
                          file_matches, g,
                        )
                        (a', refl)
                  | inl g ↦
                      let (a'', e'') = hash_source_lem t' path a' in
                      elim (Option-cases (file_hash conf disk path)) [
                        | inl k ↦
                            let actual = e'' ∙ k in
                            rw
                              (
                                verify_file, status, same, verify_file, g, verify_file, actual,
                                file_matches, f, same, file_matches, g, file_matches, k,
                              )
                              (a'', refl)
                        | inr (fh, k) ↦
                            let actual = e'' ∙ k in
                            rw
                              (
                                verify_file, status, same, verify_file, g, verify_file, actual,
                                file_matches, f, same, file_matches, g, file_matches, k,
                              )
                              (a'', refl)
                      ]
                ]
              ]
        ]

    abbrev pub with_tables :
        Tables stated hashed → Option Bool → Option (Tables stated hashed × Bool)
    with_tables t none = none
    with_tables t (some b) = some (t, b)

    pub verify_indexes_lem :
        (mf : Manifest) (is' : List ℕ) (t : Tables stated hashed)
        → Agrees t
        → (t' : Tables stated hashed) × (o : Option Bool) × Agrees t'
          × (files_match mf is' ≡ o)
          × (verify_indexes stated hashed conf disk mf is' t ≡ with_tables t' o)
    unfolding verify_indexes files_match
    verify_indexes_lem mf [] t a = (t, some true, a, refl, refl)
    verify_indexes_lem mf (i ∷ is') t a = elim (Option-cases (get_elem? mf.file_infos i)) [
      | inl e ↦ (t, none, a, rw (files_match, e), rw (verify_indexes, e))
      | inr (fi, e) ↦ elim (Option-cases (get_elem? mf.files fi.index)) [
        | inl f ↦ (t, none, a, rw (files_match, e, f), rw (verify_indexes, e, f))
        | inr (path, f) ↦
            let (a', same) = verify_file_lem mf.hash_size fi path t a in
            let t' = (verify_file stated hashed conf disk mf.hash_size fi path t).0 in
            elim (Bool-cases (file_matches mf.hash_size fi path)) [
              | inr differs ↦
                  let got = same ∙ differs in
                  (
                    t',
                    some false,
                    a',
                    rw (files_match, e, files_match, f, files_match, differs),
                    rw (verify_indexes, e, verify_indexes, f, verify_indexes, got),
                  )
              | inl agrees ↦
                  let got = same ∙ agrees in
                  let (t'', o, a'', m, v) = verify_indexes_lem mf is' t' a' in
                  (
                    t'',
                    o,
                    a'',
                    rw (files_match, e, files_match, f, files_match, agrees) m,
                    rw (verify_indexes, e, verify_indexes, f, verify_indexes, got) v,
                  )
            ]
      ]
    ]

    find_step :
        (mf : Manifest) (obj : Object) (objs : List Object) (t t' : Tables stated hashed)
        (o : Option Bool)
        → files_match mf obj.file_info_indexes ≡ o
        → verify_indexes stated hashed conf disk mf obj.file_info_indexes t ≡ with_tables t' o
        → find_object stated hashed conf disk mf objs t' ≡ first_match mf objs
        → find_object stated hashed conf disk mf (obj ∷ objs) t ≡ first_match mf (obj ∷ objs)
    unfolding find_object first_match verify_object
    find_step mf obj objs t t' none m v rest = rw (find_object, v, first_match, m)
    find_step mf obj objs t t' (some false) m v rest = rw (find_object, v, first_match, m) rest
    find_step mf obj objs t t' (some true) m v rest = rw (find_object, v, first_match, m)

    find_object_lem :
        (mf : Manifest) (objs : List Object) (t : Tables stated hashed)
        → Agrees t
        → find_object stated hashed conf disk mf objs t ≡ first_match mf objs
    unfolding find_object first_match
    find_object_lem mf [] t a = refl
    find_object_lem mf (obj ∷ objs) t a =
        let (t', o, a', m, v) = verify_indexes_lem mf obj.file_info_indexes t a in
        find_step mf obj objs t t' o m v (find_object_lem mf objs t' a')

    -- On a manifest that read_manifest accepts, manifest_get with its two tables, in which
    -- a search finds only what was inserted under an equal key, yields what the plain
    -- search without tables does: the hash of the newest object whose files are all as the
    -- manifest says.
    pub manifest_get-first_match :
        (text rest : Bytes) (mf : Manifest)
        → read_manifest text ≡ ok (mf, rest)
        → manifest_get stated hashed conf disk (some text) ≡ first_match mf (reverse mf.objects)
    unfolding manifest_get
    manifest_get-first_match text rest mf h =
        rw (manifest_get, h)
          (find_object_lem mf (reverse mf.objects)
            (record { stats = stated.create; hashes = hashed.create }) create-Agrees)
