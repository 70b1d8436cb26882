-- ===== src/Manifest/Codec.antt =====
-- src/manifest.c: what write_manifest hands to gzputc, read_manifest reads back.
use memccache.Base.{
  ℕ, zero, suc, ◌^◌, ◌<◌, List, [], ◌∷◌, ◌++◌, append_assoc, true, false, ◌==◌, length, All, Bytes,
  ◌≡◌, ◌≢◌, refl, sym, ap, ◌∙◌, arith,
}
use mathlib.Core.Path.{subst}
use memccache.Manifest.{
  FileInfo, Object, Manifest, Result, Error, ok, err, Reader, ◌>>=◌, ◌>>◌, return, check, magic,
  manifest_version, read_byte, read_int, read_str, read_bytes, read_many, read_file_info,
  read_object, read_lists, read_manifest, write_int, write_str, write_bytes, write_many,
  write_file_info, write_object, write_manifest,
}

-- `read` takes the bytes `w` off the front, whatever follows, and yields `a`.
pub data Reads {A : Type 0} (read : Reader A) (w : Bytes) (a : A) : Type 0 where
  yields : ((r : Bytes) → read (w ++ r) ≡ ok (a, r)) → Reads read w a

abbrev run :
    {A : Type 0} {read : Reader A} {w : Bytes} {a : A}
    → Reads read w a
    → (r : Bytes) → read (w ++ r) ≡ ok (a, r)
run (Reads.yields f) = f

pub read_byte-write_int : (u : ℕ) → u < 256 → Reads read_byte (write_int 1 u) u
unfolding read_byte write_int
read_byte-write_int u h = Reads.yields (λ r. ap (λ v. ok (v, r)) (omega arith))

pub read_int-write_int2 : (u : ℕ) → u < 2 ^ 16 → Reads (read_int 2 0) (write_int 2 u) u
unfolding read_int write_int
read_int-write_int2 u h = Reads.yields (λ r. ap (λ v. ok (v, r)) (omega arith))

pub read_int-write_int4 : (u : ℕ) → u < 2 ^ 32 → Reads (read_int 4 0) (write_int 4 u) u
unfolding read_int write_int
read_int-write_int4 u h = Reads.yields (λ r. ap (λ v. ok (v, r)) (omega arith))

pub read_int-write_int8 : (u : ℕ) → u < 2 ^ 64 → Reads (read_int 8 0) (write_int 8 u) u
unfolding read_int write_int
read_int-write_int8 u h = Reads.yields (λ r. ap (λ v. ok (v, r)) (omega arith))

read_str_lem :
    (k : ℕ) (s r : Bytes)
    → length s < k
    → All (λ c. c ≢ 0) s
    → read_str k (write_str s ++ r) ≡ ok (s, r)
unfolding read_str write_str
read_str_lem zero s r h p = absurd (omega arith)
read_str_lem (suc k) [] r h p = refl
read_str_lem (suc k) (c ∷ s) r h (p, ps) =
    let ih : read_str k ((s ++ 0 ∷ []) ++ r) ≡ ok (s, r) = read_str_lem k s r (omega arith) ps in
    let full : c == 0 ≡ false = ground arith in rw (ih, full)

-- A path fits the reader's buffer when it and its terminator take at most 1024 bytes.
pub read_str-write_str :
    (k : ℕ) (s : Bytes) → length s < k → All (λ c. c ≢ 0) s → Reads (read_str k) (write_str s) s
read_str-write_str k s h p = Reads.yields (λ r. read_str_lem k s r h p)

read_bytes_lem :
    (bs r : Bytes) → read_bytes (length bs) (write_bytes (length bs) bs ++ r) ≡ ok (bs, r)
unfolding read_bytes write_bytes
read_bytes_lem [] r = refl
read_bytes_lem (c ∷ bs) r = rw (read_bytes_lem bs r)

pub read_bytes-write_bytes :
    (n : ℕ) (bs : Bytes) → length bs ≡ n → Reads (read_bytes n) (write_bytes n bs) bs
read_bytes-write_bytes n bs e =
    subst (λ n. Reads (read_bytes n) (write_bytes n bs) bs) e (Reads.yields (read_bytes_lem bs))

read_many_lem :
    {A : Type 0} (read : Reader A) (write : A → Bytes) (xs : List A) (r : Bytes)
    → All (λ a. Reads read (write a) a) xs
    → read_many read (length xs) (write_many write xs ++ r) ≡ ok (xs, r)
unfolding read_many write_many
read_many_lem read write [] r p = refl
read_many_lem read write (a ∷ xs) r (p, ps) = rw (
  append_assoc (write a) (write_many write xs) r,
  run p (write_many write xs ++ r),
  read_many_lem read write xs r ps,
)

pub read_many-write_many :
    {A : Type 0} (read : Reader A) (write : A → Bytes) (xs : List A)
    → All (λ a. Reads read (write a) a) xs
    → Reads (read_many read (length xs)) (write_many write xs) xs
read_many-write_many read write xs p = Reads.yields (λ r. read_many_lem read write xs r p)

-- What follows a reader goes on behind the bytes that it took.
pub bind-Reads :
    {A B : Type 0} {m : Reader A} (f : A → Reader B) {w w' : Bytes} {a : A} {b : B}
    → Reads m w a
    → Reads (f a) w' b
    → Reads (m >>= f) (w ++ w') b
bind-Reads {A} {B} {m} f {w} {w'} {a} {b} p q =
    let next : Result (A × Bytes) → Result (B × Bytes) =
      λ z. elim z [ ok (x, y) ↦ f x y | err e ↦ err e ] in
    Reads.yields
      (λ r. ap (λ bs. next (m bs)) (append_assoc w w' r) ∙ ap next (run p (w' ++ r)) ∙ run q r)

pub map-Reads :
    {A B : Type 0} {m : Reader A} (g : A → B) {w : Bytes} {a : A}
    → Reads m w a
    → Reads (m >>= λ x. return (g x)) w (g a)
map-Reads {A} {B} {m} g {w} {a} p =
    let last : Result (A × Bytes) → Result (B × Bytes) =
      λ z. elim z [ ok (x, y) ↦ ok (g x, y) | err e ↦ err e ] in
    Reads.yields (λ r. ap last (run p r))

abbrev pub IsFileInfo : FileInfo → Type 0
IsFileInfo fi =
    (fi.index < 2 ^ 32)
    × (length fi.hash ≡ 16)
    × (fi.size < 2 ^ 32)
    × (fi.mtime < 2 ^ 64)
    × (fi.ctime < 2 ^ 64)

abbrev pub IsObject : Object → Type 0
IsObject o =
    (length o.file_info_indexes < 2 ^ 32)
    × All (λ i. i < 2 ^ 32) o.file_info_indexes
    × (length o.hash.hash ≡ 16)
    × (o.hash.size < 2 ^ 32)

pub read_file_info-write_file_info :
    (fi : FileInfo) → IsFileInfo fi → Reads (read_file_info 16) (write_file_info 16 fi) fi
unfolding read_file_info write_file_info
read_file_info-write_file_info fi (hi, hh, hs, hm, hc) =
    bind-Reads _ (read_int-write_int4 fi.index hi) (
      bind-Reads _ (read_bytes-write_bytes 16 fi.hash hh) (
        bind-Reads _ (read_int-write_int4 fi.size hs) (
          bind-Reads _ (read_int-write_int8 fi.mtime hm)
            (map-Reads _ (read_int-write_int8 fi.ctime hc)))))

All-map :
    {A : Type 0} {P Q : A → Type 0} (xs : List A) → ((a : A) → P a → Q a) → All P xs → All Q xs
All-map [] f p = tt
All-map (x ∷ xs) f (p, ps) = (f x p, All-map xs f ps)

pub read_object-write_object :
    (o : Object) → IsObject o → Reads (read_object 16) (write_object 16 o) o
unfolding read_object write_object
read_object-write_object o (hn, hi, hh, hs) =
    let indexes = All-map o.file_info_indexes read_int-write_int4 hi in
    bind-Reads _ (read_int-write_int4 (length o.file_info_indexes) hn) (
      bind-Reads _ (read_many-write_many (read_int 4 0) (write_int 4) o.file_info_indexes indexes) (
        bind-Reads _ (read_bytes-write_bytes 16 o.hash.hash hh)
          (map-Reads _ (read_int-write_int4 o.hash.size hs))))

-- A manifest that fits its file: every field in the width that it is written in, every path short
-- enough for the reader's buffer, every array short enough for its count.
abbrev pub IsManifest : Manifest → Type 0
IsManifest mf =
    (mf.hash_size ≡ 16)
    × (length mf.files < 2 ^ 32)
    × All (λ s. (length s < 1024) × All (λ c. c ≢ 0) s) mf.files
    × (length mf.file_infos < 2 ^ 32)
    × All IsFileInfo mf.file_infos
    × (length mf.objects < 2 ^ 32)
    × All IsObject mf.objects

read_lists-write :
    (mf : Manifest)
    → IsManifest mf
    → Reads
        (read_lists 1 16 0)
        (write_int 4 (length mf.files)
          ++ (write_many write_str mf.files
              ++ (write_int 4 (length mf.file_infos)
                  ++ (write_many (write_file_info mf.hash_size) mf.file_infos
                      ++ (write_int 4 (length mf.objects)
                          ++ write_many (write_object mf.hash_size) mf.objects)))))
        (record {
          version = 1;
          hash_size = 16;
          reserved = 0;
          files = mf.files;
          file_infos = mf.file_infos;
          objects = mf.objects;
        })
unfolding read_lists
read_lists-write mf (e, nf, fs, ni, is', n_os, os') =
    let files = All-map mf.files (λ s (h, p). read_str-write_str 1024 s h p) fs in
    let info : (fi : FileInfo)
        → IsFileInfo fi
        → Reads (read_file_info 16) (write_file_info mf.hash_size fi) fi =
      λ fi h.
        subst (λ n. Reads (read_file_info 16) (write_file_info n fi) fi) (sym e)
          (read_file_info-write_file_info fi h) in
    let object : (o : Object)
        → IsObject o
        → Reads (read_object 16) (write_object mf.hash_size o) o =
      λ o h.
        subst (λ n. Reads (read_object 16) (write_object n o) o) (sym e)
          (read_object-write_object o h) in
    bind-Reads _ (read_int-write_int4 (length mf.files) nf) (
      bind-Reads _ (read_many-write_many (read_str 1024) write_str mf.files files) (
        bind-Reads _ (read_int-write_int4 (length mf.file_infos) ni) (
          bind-Reads _
            (read_many-write_many (read_file_info 16) (write_file_info mf.hash_size) mf.file_infos
              (All-map mf.file_infos info is'))
            (bind-Reads _ (read_int-write_int4 (length mf.objects) n_os) (
              map-Reads _ (
                read_many-write_many (read_object 16) (write_object mf.hash_size) mf.objects
                  (All-map mf.objects object os')))))))

check-Reads :
    {B : Type 0} {k : Reader B} (e : Error) {w : Bytes} {b : B}
    → Reads k w b
    → Reads (check true e >> k) w b
check-Reads e p = Reads.yields (run p)

read_manifest-Reads :
    (mf : Manifest)
    → IsManifest mf
    → Reads read_manifest (write_manifest mf) (record {
      version = 1;
      hash_size = 16;
      reserved = 0;
      files = mf.files;
      file_infos = mf.file_infos;
      objects = mf.objects;
    })
unfolding read_manifest write_manifest
read_manifest-Reads mf h = bind-Reads _ (read_int-write_int4 magic (omega arith)) (
    check-Reads (Error.bad_magic magic) (
      bind-Reads _ (read_byte-write_int 1 (omega arith)) (
        check-Reads (Error.bad_version 1) (
          bind-Reads _ (read_byte-write_int 16 (omega arith)) (
            check-Reads (Error.bad_hash_size 16)
              (bind-Reads _ (read_int-write_int2 0 (omega arith)) (read_lists-write mf h)))))))

-- For a manifest whose hash size is 16, whose fields fit the widths they are written in, whose
-- paths are free of NUL and shorter than 1024 bytes and whose arrays have 32-bit lengths,
-- read_manifest yields from the bytes of write_manifest, whatever follows them, the same files,
-- file infos and objects, with the current version, hash size 16 and reserved 0, and leaves
-- what follows.
pub read_manifest-write_manifest :
    (mf : Manifest) (r : Bytes)
    → IsManifest mf
    → read_manifest (write_manifest mf ++ r)
      ≡ ok (
        record {
          version = manifest_version;
          hash_size = 16;
          reserved = 0;
          files = mf.files;
          file_infos = mf.file_infos;
          objects = mf.objects;
        },
        r,
      )
read_manifest-write_manifest mf r h = run (read_manifest-Reads mf h) r
