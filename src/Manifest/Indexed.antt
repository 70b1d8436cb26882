-- ===== src/Manifest/Indexed.antt =====
-- src/manifest.c: the indexes of a new entry lead to its files, and no old entry changes.
use memccache.Base.{
  ℕ, zero, suc, ◌+◌, ◌<◌, List, [], ◌∷◌, ◌++◌, append-nil, append_assoc, Bool, true, false, some,
  ◌==◌, length, length-append, get_elem?, Option-cases, inl, inr, Bytes, bytes_eq, bytes_eq_sound,
  ◌≡◌, refl, sym, ap, ◌∙◌, arith,
}
use memccache.Base.Table.{HashTable}
use memccache.Manifest.{FileInfo, FileHash, Manifest}
use memccache.Manifest.Entry.{
  Moment, file_infos_equal, stored_times, create_string_index_map, create_file_info_index_map,
  get_include_file_index, get_file_hash_index, add_each, add_file_info_indexes,
}

-- What an array holds stays where it is.
abbrev pub Keeps {ℓ} : {A : Type ℓ} → List A → List A → Type ℓ
Keeps xs ys = (i : ℕ) → i < length xs → get_elem? ys i ≡ get_elem? xs i

get_elem?-append {ℓ} :
    {A : Type ℓ} (xs ys : List A) (i : ℕ) → i < length xs → get_elem? (xs ++ ys) i ≡ get_elem? xs i
get_elem?-append [] ys i h = absurd (omega arith)
get_elem?-append (x ∷ xs) ys zero h = refl
get_elem?-append (x ∷ xs) ys (suc i) h = get_elem?-append xs ys i (omega arith)

get_elem?-last {ℓ} :
    {A : Type ℓ} (xs : List A) (x : A) → get_elem? (xs ++ x ∷ []) (length xs) ≡ some x
get_elem?-last [] x = refl
get_elem?-last (y ∷ xs) x = get_elem?-last xs x

get_elem?-lt {ℓ} :
    {A : Type ℓ} (xs : List A) (i : ℕ) (x : A) → get_elem? xs i ≡ some x → i < length xs
get_elem?-lt [] i x h = absurd (ground arith)
get_elem?-lt (y ∷ xs) zero x h = omega arith
get_elem?-lt (y ∷ xs) (suc i) x h = omega (arith, get_elem?-lt xs i x h)

file_infos_equal_sound : (a b : FileInfo) → file_infos_equal a b ≡ true → a ≡ b
unfolding file_infos_equal
file_infos_equal_sound a b h =
    let hash = bytes_eq_sound a.hash b.hash (ground arith) in ground arith

-- The manifest grows: files and file infos stay, objects and the hash size are the same.
pub record Grows (mf mf' : Manifest) : Type 0 where
  pub files_stay :
      (i : ℕ) (s : Bytes) → get_elem? mf.files i ≡ some s → get_elem? mf'.files i ≡ some s
  pub infos_stay :
      (i : ℕ) (fi : FileInfo)
      → get_elem? mf.file_infos i ≡ some fi
      → get_elem? mf'.file_infos i ≡ some fi
  pub objects_same : mf'.objects ≡ mf.objects
  pub hash_size_same : mf'.hash_size ≡ mf.hash_size

Grows-trans : {a b c : Manifest} → Grows a b → Grows b c → Grows a c
Grows-trans p q = record {
  files_stay = λ i s h. q.files_stay i s (p.files_stay i s h);
  infos_stay = λ i fi h. q.infos_stay i fi (p.infos_stay i fi h);
  objects_same = q.objects_same ∙ p.objects_same;
  hash_size_same = q.hash_size_same ∙ p.hash_size_same;
}

-- The file_info at the index is that of the file.
pub record Describes (mf : Manifest) (path : Bytes) (fh : FileHash) (i : ℕ) : Type 0 where
  pub info : FileInfo
  pub found : get_elem? mf.file_infos i ≡ some info
  pub path_found : get_elem? mf.files info.index ≡ some path
  pub hash_kept : info.hash ≡ fh.hash
  pub size_kept : info.size ≡ fh.size

pub Describes-Grows :
    {mf mf' : Manifest} (path : Bytes) (fh : FileHash) (i : ℕ)
    → Grows mf mf'
    → Describes mf path fh i
    → Describes mf' path fh i
Describes-Grows path fh i g d = record {
  info = d.info;
  found = g.infos_stay i d.info d.found;
  path_found = g.files_stay d.info.index path d.path_found;
  hash_kept = d.hash_kept;
  size_kept = d.size_kept;
}

-- The indexes of the included files, one by one.
abbrev pub DescribesAll : Manifest → List (Bytes × FileHash) → List ℕ → Type 0
DescribesAll mf [] [] = Unit
DescribesAll mf [] (i ∷ is') = ⊥
DescribesAll mf ((path, fh) ∷ included) [] = ⊥
DescribesAll mf ((path, fh) ∷ included) (i ∷ is') =
    Describes mf path fh i × DescribesAll mf included is'

module _ {K : Type 0} {equal : K → K → Bool} (tables : HashTable K ℕ equal)
    (sound : (a b : K) → equal a b ≡ true → a ≡ b) where
  -- A table leads to the entries of an array.
  abbrev Indexes : List K → tables.Table → Type 0
  Indexes xs t = (k : K) (i : ℕ) → tables.Holds t k i → get_elem? xs i ≡ some k

  search-Indexes :
      (xs : List K) (t : tables.Table) (k : K) (i : ℕ)
      → Indexes xs t
      → tables.search t k ≡ some i
      → get_elem? xs i ≡ some k
  search-Indexes xs t k i h e =
      let (j, same, held) = tables.search-Holds t k i e in
      h j i held ∙ ap some (sym (sound k j same))

  insert-Indexes :
      (xs : List K) (t : tables.Table) (k : K)
      → Indexes xs t
      → Indexes (xs ++ k ∷ []) (tables.insert t k (length xs))
  insert-Indexes xs t k h j i e = elim (tables.insert-Holds t k j (length xs) i e) [
    | inl (same, place) ↦
        ap (get_elem? (xs ++ k ∷ [])) place ∙ get_elem?-last xs k ∙ ap some (sym same)
    | inr held ↦
        let old = h j i held in get_elem?-append xs (k ∷ []) i (get_elem?-lt xs i j old) ∙ old
  ]

module _ (paths : HashTable Bytes ℕ bytes_eq) (infos : HashTable FileInfo ℕ file_infos_equal) where
  abbrev Paths : List Bytes → paths.Table → Type 0
  Paths files t = Indexes paths bytes_eq_sound files t

  abbrev Infos : List FileInfo → infos.Table → Type 0
  Infos fis t = Indexes infos file_infos_equal_sound fis t

  get_include_file_index_lem :
      (mf : Manifest) (path : Bytes) (t : paths.Table)
      → Paths mf.files t
      → let r = get_include_file_index paths infos mf path t in
        Grows mf r.0 × (get_elem? r.0.files r.1 ≡ some path) × (r.0.file_infos ≡ mf.file_infos)
  unfolding get_include_file_index
  get_include_file_index_lem mf path t h = elim (Option-cases (paths.search t path)) [
    | inr (i, e) ↦
        rw (get_include_file_index, e)
          (same, search-Indexes paths bytes_eq_sound mf.files t path i h e, refl)
    | inl e ↦ rw (get_include_file_index, e) (grown, get_elem?-last mf.files path, refl)
  ]
    where
      same : Grows mf mf
      same = record {
        files_stay = λ i s h. h;
        infos_stay = λ i fi h. h;
        objects_same = refl;
        hash_size_same = refl;
      }

      grown : Grows mf (record mf { files = mf.files ++ path ∷ [] })
      grown = record {
        files_stay =
            λ i s h. get_elem?-append mf.files (path ∷ []) i (get_elem?-lt mf.files i s h) ∙ h;
        infos_stay = λ i fi h. h;
        objects_same = refl;
        hash_size_same = refl;
      }

  get_file_hash_index_lem :
      (now : Moment) (mf : Manifest) (path : Bytes) (fh : FileHash) (t : paths.Table)
      (u : infos.Table)
      → Paths mf.files t
      → Infos mf.file_infos u
      → let r = get_file_hash_index paths infos now mf path fh t u in
        Grows mf r.0 × Describes r.0 path fh r.1
  unfolding get_file_hash_index
  get_file_hash_index_lem now mf path fh t u h k =
      let (g, at_path, same) = get_include_file_index_lem mf path t h in
      let mf' = (get_include_file_index paths infos mf path t).0 in
      let fi : FileInfo = record {
        index = (get_include_file_index paths infos mf path t).1;
        hash = fh.hash;
        size = fh.size;
        mtime = (stored_times now path).0;
        ctime = (stored_times now path).1;
      } in
      elim (Option-cases (infos.search u fi)) [
        | inr (i, e) ↦
            rw (get_file_hash_index, e)
              (
                g,
                record {
                  info = fi;
                  found =
                      ap (λ l. get_elem? l i) same
                      ∙ search-Indexes infos file_infos_equal_sound mf.file_infos u fi i k e;
                  path_found = at_path;
                  hash_kept = refl;
                  size_kept = refl;
                },
              )
        | inl e ↦
            rw (get_file_hash_index, e)
              (
                Grows-trans g (grown mf' fi),
                record {
                  info = fi;
                  found = get_elem?-last mf'.file_infos fi;
                  path_found = at_path;
                  hash_kept = refl;
                  size_kept = refl;
                },
              )
      ]
    where
      grown :
          (m : Manifest) (fi : FileInfo)
          → Grows m (record m { file_infos = m.file_infos ++ fi ∷ [] })
      grown m fi = record {
        files_stay = λ i s h. h;
        infos_stay = λ i x h.
            get_elem?-append m.file_infos (fi ∷ []) i (get_elem?-lt m.file_infos i x h) ∙ h;
        objects_same = refl;
        hash_size_same = refl;
      }

  add_each_lem :
      (now : Moment) (mf : Manifest) (included : List (Bytes × FileHash)) (t : paths.Table)
      (u : infos.Table)
      → Paths mf.files t
      → Infos mf.file_infos u
      → let r = add_each paths infos now mf included t u in
        Grows mf r.0 × DescribesAll r.0 included r.1
  unfolding add_each
  add_each_lem now mf [] t u h k = (
    record {
      files_stay = λ i s e. e;
      infos_stay = λ i fi e. e;
      objects_same = refl;
      hash_size_same = refl;
    },
    tt,
  )
  add_each_lem now mf ((path, fh) ∷ included) t u h k =
      let (g, d) = get_file_hash_index_lem now mf path fh t u h k in
      let mf' = (get_file_hash_index paths infos now mf path fh t u).0 in
      let (g', ds) =
        add_each_lem now mf' included t u (λ s i e. g.files_stay i s (h s i e))
          (λ fi i e. g.infos_stay i fi (k fi i e)) in
      (Grows-trans g g', (Describes-Grows path fh _ g' d, ds))

  -- Filling the tables.
  create_string_index_map_lem :
      (files rest : List Bytes) (n : ℕ) (t : paths.Table)
      → n ≡ length files
      → Paths files t
      → Paths (files ++ rest) (create_string_index_map paths infos rest n t)
  unfolding create_string_index_map
  create_string_index_map_lem files [] n t q h path i e =
      ap (λ l. get_elem? l i) (append-nil files) ∙ h path i e
  create_string_index_map_lem files (s ∷ rest) n t q h path i e =
      ap (λ l. get_elem? l i) (sym (append_assoc files (s ∷ []) rest))
      ∙ create_string_index_map_lem (files ++ s ∷ []) rest (n + 1) (paths.insert t s n)
          (omega (arith, length-append files (s ∷ [])))
          (rw q (insert-Indexes paths bytes_eq_sound files t s h)) path i e

  create_file_info_index_map_lem :
      (fis rest : List FileInfo) (n : ℕ) (t : infos.Table)
      → n ≡ length fis
      → Infos fis t
      → Infos (fis ++ rest) (create_file_info_index_map paths infos rest n t)
  unfolding create_file_info_index_map
  create_file_info_index_map_lem fis [] n t q h fi i e =
      ap (λ l. get_elem? l i) (append-nil fis) ∙ h fi i e
  create_file_info_index_map_lem fis (x ∷ rest) n t q h fi i e =
      ap (λ l. get_elem? l i) (sym (append_assoc fis (x ∷ []) rest))
      ∙ create_file_info_index_map_lem (fis ++ x ∷ []) rest (n + 1) (infos.insert t x n)
          (omega (arith, length-append fis (x ∷ [])))
          (rw q (insert-Indexes infos file_infos_equal_sound fis t x h)) fi i e

  create-Indexes :
      {K : Type 0} {equal : K → K → Bool} (tables : HashTable K ℕ equal)
      (sound : (a b : K) → equal a b ≡ true → a ≡ b) (xs : List K)
      → Indexes tables sound xs tables.create
  create-Indexes tables sound xs k i e = absurd (tables.create-empty k i e)

  pub add_file_info_indexes_lem :
      (now : Moment) (mf : Manifest) (included : List (Bytes × FileHash))
      → let r = add_file_info_indexes paths infos now mf included in
        Grows mf r.0 × DescribesAll r.0 included r.1
  unfolding add_file_info_indexes
  add_file_info_indexes_lem now mf [] =
      add_each_lem now mf [] paths.create infos.create
        (create-Indexes paths bytes_eq_sound mf.files)
        (create-Indexes infos file_infos_equal_sound mf.file_infos)
  add_file_info_indexes_lem now mf (x ∷ included) =
      let some_left : length (x ∷ included) == 0 ≡ false = ground arith in
      rw (add_file_info_indexes, some_left)
        (add_each_lem now mf (x ∷ included) _ _
          (create_string_index_map_lem [] mf.files 0 paths.create refl
            (create-Indexes paths bytes_eq_sound []))
          (create_file_info_index_map_lem [] mf.file_infos 0 infos.create refl
            (create-Indexes infos file_infos_equal_sound [])))
