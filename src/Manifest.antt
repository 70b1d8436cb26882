-- ===== src/Manifest.antt =====
-- src/manifest.c: the manifest file, its reader and its writer.
-- The reader sees the bytes that gzgetc delivers, the writer yields the bytes that it hands to
-- gzputc; compression is zlib's. An int64_t is its 64-bit pattern. Each count field is the length
-- of its list.
pub mod Codec
pub mod Verify
pub mod Lookup
pub mod Entry
pub mod Indexed
pub mod Put
pub mod Dated
mod Examples
use memccache.Base.{
  ℕ, zero, suc, ◌+◌, ◌-◌, ◌*◌, ◌/◌, ◌%◌, ◌^◌, List, [], ◌∷◌, ◌++◌, Bool, true, false, ◌&&◌, Option,
  none, some, ltb, ◌==◌, if◌then◌else◌, length, get_or, set, Bytes, bytes_eq,
}

pub record FileInfo : Type 0 where
  pub index : ℕ
  pub hash : Bytes
  pub size : ℕ
  pub mtime : ℕ
  pub ctime : ℕ

pub record FileHash : Type 0 where
  pub hash : Bytes
  pub size : ℕ

pub record Object : Type 0 where
  pub file_info_indexes : List ℕ
  pub hash : FileHash

pub record Manifest : Type 0 where
  pub version : ℕ
  pub hash_size : ℕ
  pub reserved : ℕ
  pub files : List Bytes
  pub file_infos : List FileInfo
  pub objects : List Object

abbrev pub magic : ℕ
magic = 0x6343_6d46

abbrev pub manifest_version : ℕ
manifest_version = 1

-- version and reserved are not set by the source, and not read before the reader sets them.
unfoldable pub create_empty_manifest : Manifest
create_empty_manifest = record {
  version = 0;
  hash_size = 16;
  reserved = 0;
  files = [];
  file_infos = [];
  objects = [];
}

-- The messages that read_manifest leaves in errmsg.
pub data Error : Type 0 where
  bad_magic bad_version bad_hash_size : ℕ → Error
  corrupt : Error

pub data Result {ℓ} (A : Type ℓ) : Type ℓ where
  ok : A → Result A
  err : Error → Result A

-- A reader takes the bytes ahead and leaves the rest.
abbrev pub Reader : Type 0 → Type 0
Reader A = Bytes → Result (A × Bytes)

infixl 5 ◌>>=◌ ◌>>◌
abbrev pub ◌>>=◌ : {A B : Type 0} → Reader A → (A → Reader B) → Reader B
◌>>=◌ m f bs = elim (m bs) [ ok (a, r) ↦ f a r | err e ↦ err e ]

abbrev pub ◌>>◌ : {B : Type 0} → Reader (Unit {0}) → Reader B → Reader B
m >> k = m >>= λ _. k

abbrev pub return : {A : Type 0} → A → Reader A
return a bs = ok (a, bs)

abbrev pub check : Bool → Error → Reader (Unit {0})
check true e bs = ok (tt, bs)
check false e bs = err e

-- READ_BYTE
unfoldable pub read_byte : Reader ℕ
read_byte [] = err corrupt
read_byte (c ∷ bs) = ok (c % 256, bs)

-- READ_INT, with `k` bytes still to come on top of `u`
unfoldable pub read_int : ℕ → ℕ → Reader ℕ
read_int zero u bs = ok (u, bs)
read_int (suc k) u [] = err corrupt
read_int (suc k) u (c ∷ bs) = read_int k (u * 256 % 2 ^ 64 + c % 256) bs

-- READ_STR, with room for `k` more bytes in buf_
unfoldable pub read_str : ℕ → Reader Bytes
read_str zero bs = err corrupt
read_str (suc k) [] = err corrupt
read_str (suc k) (c ∷ bs) =
    let rest = read_str k bs in
    if c == 0 then ok ([], bs) else elim rest [ ok (s, r) ↦ ok (c ∷ s, r) | err e ↦ err e ]

-- READ_BYTES
unfoldable pub read_bytes : ℕ → Reader Bytes
read_bytes zero bs = ok ([], bs)
read_bytes (suc k) [] = err corrupt
read_bytes (suc k) (c ∷ bs) = elim (read_bytes k bs) [ ok (s, r) ↦ ok (c ∷ s, r) | err e ↦ err e ]

-- A loop of `n` rounds that fills an array.
unfoldable pub read_many : {A : Type 0} → Reader A → ℕ → Reader (List A)
read_many read zero bs = ok ([], bs)
read_many read (suc n) bs = elim (read bs) [
  | err e ↦ err e
  | ok (a, r) ↦ elim (read_many read n r) [ ok (as', r') ↦ ok (a ∷ as', r') | err e ↦ err e ]
]

unfoldable pub read_file_info : ℕ → Reader FileInfo
read_file_info hash_size = do
  index ← read_int 4 0
  hash ← read_bytes hash_size
  size ← read_int 4 0
  mtime ← read_int 8 0
  ctime ← read_int 8 0
  return (record { index = index; hash = hash; size = size; mtime = mtime; ctime = ctime })

unfoldable pub read_object : ℕ → Reader Object
read_object hash_size = do
  n ← read_int 4 0
  indexes ← read_many (read_int 4 0) n
  hash ← read_bytes hash_size
  size ← read_int 4 0
  return (record { file_info_indexes = indexes; hash = record { hash = hash; size = size } })

unfoldable pub read_lists : ℕ → ℕ → ℕ → Reader Manifest
read_lists version hash_size reserved = do
  n_files ← read_int 4 0
  files ← read_many (read_str 1024) n_files
  n_infos ← read_int 4 0
  infos ← read_many (read_file_info hash_size) n_infos
  n_objects ← read_int 4 0
  objects ← read_many (read_object hash_size) n_objects
  return (record {
    version = version;
    hash_size = hash_size;
    reserved = reserved;
    files = files;
    file_infos = infos;
    objects = objects;
  })

unfoldable pub read_manifest : Reader Manifest
read_manifest = do
  found ← read_int 4 0
  check (found == magic) (bad_magic found)
  version ← read_byte
  check (version == manifest_version) (bad_version version)
  hash_size ← read_byte
  check (hash_size == 16) (bad_hash_size hash_size)
  reserved ← read_int 2 0
  read_lists version hash_size reserved

-- WRITE_INT: byte i is u_ >> (8 * (size - i - 1)); `k` bytes are left.
unfoldable pub write_int : ℕ → ℕ → Bytes
write_int zero u = []
write_int (suc k) u = (u / 2 ^ (8 * k) % 256) ∷ write_int k u

-- WRITE_STR
unfoldable pub write_str : Bytes → Bytes
write_str s = s ++ 0 ∷ []

-- WRITE_BYTES; the array has at least n bytes.
unfoldable pub write_bytes : ℕ → Bytes → Bytes
write_bytes zero bs = []
write_bytes (suc n) [] = 0 ∷ write_bytes n []
write_bytes (suc n) (c ∷ bs) = c ∷ write_bytes n bs

unfoldable pub write_many : {A : Type 0} → (A → Bytes) → List A → Bytes
write_many write [] = []
write_many write (a ∷ as') = write a ++ write_many write as'

unfoldable pub write_file_info : ℕ → FileInfo → Bytes
write_file_info n fi =
    write_int 4 fi.index
    ++ (write_bytes n fi.hash
        ++ (write_int 4 fi.size ++ (write_int 8 fi.mtime ++ write_int 8 fi.ctime)))

unfoldable pub write_object : ℕ → Object → Bytes
write_object n o =
    write_int 4 (length o.file_info_indexes)
    ++ (write_many (write_int 4) o.file_info_indexes
        ++ (write_bytes n o.hash.hash ++ write_int 4 o.hash.size))

unfoldable pub write_manifest : Manifest → Bytes
write_manifest mf =
    write_int 4 magic
    ++ (write_int 1 manifest_version
        ++ (write_int 1 16
            ++ (write_int 2 0
                ++ (write_int 4 (length mf.files)
                    ++ (write_many write_str mf.files
                        ++ (write_int 4 (length mf.file_infos)
                            ++ (write_many (write_file_info mf.hash_size) mf.file_infos
                                ++ (write_int 4 (length mf.objects)
                                    ++ write_many (write_object mf.hash_size) mf.objects))))))))
