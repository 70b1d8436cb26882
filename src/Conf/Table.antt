-- ===== src/Conf/Table.antt =====
-- src/confitems.gperf and src/envtoconfitems.gperf: the options by name and by environment
-- variable. The perfect hash is generated from these files; it finds the row of a name.
use memccache.Base.{
  ℕ, suc, List, [], ◌∷◌, Bytes, codes, bytes_eq, Option, none, some, if◌then◌else◌,
}
use memccache.Conf.Parsers.{
  Value, Doubles, confitem_parse_bool, confitem_parse_env_string, confitem_parse_double,
  confitem_parse_int, confitem_parse_size, confitem_parse_sloppiness, confitem_parse_string,
  confitem_parse_umask, confitem_parse_unsigned, confitem_format_bool, format_string,
  confitem_format_double, confitem_format_int, confitem_format_size, confitem_format_sloppiness,
  confitem_format_umask, confitem_format_unsigned, confitem_verify_absolute_path,
  confitem_verify_dir_levels,
}

-- The parsers, each with its formatter.
pub data Kind : Type 0 where
  bool env_string double int size sloppiness string umask unsigned : Kind

pub data Verifier : Type 0 where
  unverified absolute_path dir_levels : Verifier

-- A row of the table. The number of an item is its position, and so is its offset.
pub record Row : Type 0 where
  pub name : Bytes
  pub kind : Kind
  pub verifier : Verifier

pub record ConfItem : Type 0 where
  pub row : Row
  pub number : ℕ

unfoldable pub item : Bytes → Kind → Row
item n k = record { name = n; kind = k; verifier = unverified }

unfoldable pub item_v : Bytes → Kind → Verifier → Row
item_v n k v = record { name = n; kind = k; verifier = v }

unfoldable pub confitems : List Row
unfolding item item_v
confitems =
    item_v (codes "base_dir") env_string absolute_path
    ∷ item (codes "cache_dir") env_string
    ∷ item_v (codes "cache_dir_levels") unsigned dir_levels
    ∷ item (codes "compiler") string
    ∷ item (codes "compiler_check") string
    ∷ item (codes "compression") bool
    ∷ item (codes "compression_level") int
    ∷ item (codes "compression_type") string
    ∷ item (codes "couchbase_conf") string
    ∷ item (codes "cpp_extension") string
    ∷ item (codes "debug") bool
    ∷ item (codes "depend_mode") bool
    ∷ item (codes "direct_mode") bool
    ∷ item (codes "disable") bool
    ∷ item (codes "extra_files_to_hash") env_string
    ∷ item (codes "hard_link") bool
    ∷ item (codes "hash_dir") bool
    ∷ item (codes "ignore_headers_in_manifest") env_string
    ∷ item (codes "keep_comments_cpp") bool
    ∷ item (codes "limit_multiple") double
    ∷ item (codes "log_file") env_string
    ∷ item (codes "max_files") unsigned
    ∷ item (codes "max_size") size
    ∷ item (codes "memcached_conf") string
    ∷ item (codes "memcached_only") bool
    ∷ item (codes "path") env_string
    ∷ item (codes "pch_external_checksum") bool
    ∷ item (codes "prefix_command") env_string
    ∷ item (codes "prefix_command_cpp") env_string
    ∷ item (codes "read_only") bool
    ∷ item (codes "read_only_direct") bool
    ∷ item (codes "read_only_memcached") bool
    ∷ item (codes "recache") bool
    ∷ item (codes "run_second_cpp") bool
    ∷ item (codes "sloppiness") sloppiness
    ∷ item (codes "stats") bool
    ∷ item (codes "temporary_dir") env_string
    ∷ item (codes "umask") umask
    ∷ []

unfoldable pub envtoconfitems : List (Bytes × Bytes)
envtoconfitems =
    (codes "BASEDIR", codes "base_dir")
    ∷ (codes "CC", codes "compiler")
    ∷ (codes "COMPILER", codes "compiler")
    ∷ (codes "COMPILERCHECK", codes "compiler_check")
    ∷ (codes "COMPRESS", codes "compression")
    ∷ (codes "COMPRESSLEVEL", codes "compression_level")
    ∷ (codes "COMPRESSTYPE", codes "compression_type")
    ∷ (codes "COUCHBASE_CONF", codes "couchbase_conf")
    ∷ (codes "CPP2", codes "run_second_cpp")
    ∷ (codes "COMMENTS", codes "keep_comments_cpp")
    ∷ (codes "DEPEND", codes "depend_mode")
    ∷ (codes "DIR", codes "cache_dir")
    ∷ (codes "DEBUG", codes "debug")
    ∷ (codes "DIRECT", codes "direct_mode")
    ∷ (codes "DISABLE", codes "disable")
    ∷ (codes "EXTENSION", codes "cpp_extension")
    ∷ (codes "EXTRAFILES", codes "extra_files_to_hash")
    ∷ (codes "HARDLINK", codes "hard_link")
    ∷ (codes "HASHDIR", codes "hash_dir")
    ∷ (codes "IGNOREHEADERS", codes "ignore_headers_in_manifest")
    ∷ (codes "LIMIT_MULTIPLE", codes "limit_multiple")
    ∷ (codes "LOGFILE", codes "log_file")
    ∷ (codes "MAXFILES", codes "max_files")
    ∷ (codes "MAXSIZE", codes "max_size")
    ∷ (codes "MEMCACHED_CONF", codes "memcached_conf")
    ∷ (codes "MEMCACHED_ONLY", codes "memcached_only")
    ∷ (codes "NLEVELS", codes "cache_dir_levels")
    ∷ (codes "PATH", codes "path")
    ∷ (codes "PCH_EXTSUM", codes "pch_external_checksum")
    ∷ (codes "PREFIX", codes "prefix_command")
    ∷ (codes "PREFIX_CPP", codes "prefix_command_cpp")
    ∷ (codes "READONLY", codes "read_only")
    ∷ (codes "READONLY_DIRECT", codes "read_only_direct")
    ∷ (codes "READONLY_MEMCACHED", codes "read_only_memcached")
    ∷ (codes "RECACHE", codes "recache")
    ∷ (codes "SLOPPINESS", codes "sloppiness")
    ∷ (codes "STATS", codes "stats")
    ∷ (codes "TEMPDIR", codes "temporary_dir")
    ∷ (codes "UMASK", codes "umask")
    ∷ []

-- The row with the name, counted from i.
unfoldable pub confitems_from : ℕ → List Row → Bytes → Option ConfItem
confitems_from i [] name = none
confitems_from i (r ∷ rs) name =
    let rest = confitems_from (suc i) rs name in
    if bytes_eq r.name name then some (record { row = r; number = i }) else rest

unfoldable pub find_conf : Bytes → Option ConfItem
unfolding confitems_from confitems
find_conf name = confitems_from 0 confitems name

unfoldable pub find_env_from : List (Bytes × Bytes) → Bytes → Option (Bytes × Bytes)
find_env_from [] name = none
find_env_from (r ∷ rs) name =
    let rest = find_env_from rs name in if bytes_eq r.0 name then some r else rest

-- The name of the variable without CCACHE_ and NO, and the option.
unfoldable pub find_env_to_conf : Bytes → Option (Bytes × Bytes)
unfolding find_env_from envtoconfitems
find_env_to_conf name = find_env_from envtoconfitems name

module _ {D : Type 0} (doubles : Doubles D) (getenv : Bytes → Option Bytes) where
  -- item->parser
  unfoldable pub parse_value : Kind → Bytes → Value D → Value D × Option Bytes
  parse_value bool str old = confitem_parse_bool str old
  parse_value env_string str old = confitem_parse_env_string getenv str old
  parse_value double str old = confitem_parse_double doubles str old
  parse_value int str old = confitem_parse_int str old
  parse_value size str old = confitem_parse_size doubles str old
  parse_value sloppiness str old = confitem_parse_sloppiness str old
  parse_value string str old = confitem_parse_string str old
  parse_value umask str old = confitem_parse_umask str old
  parse_value unsigned str old = confitem_parse_unsigned str old

module _ {D : Type 0} (doubles : Doubles D) where
  -- item->formatter
  unfoldable pub format_value : Kind → Value D → Option Bytes
  format_value bool value = confitem_format_bool value
  format_value env_string value = format_string value
  format_value double value = confitem_format_double doubles value
  format_value int value = confitem_format_int value
  format_value size value = confitem_format_size doubles value
  format_value sloppiness value = confitem_format_sloppiness value
  format_value string value = format_string value
  format_value umask value = confitem_format_umask value
  format_value unsigned value = confitem_format_unsigned value

module _ {D : Type 0} where
  -- item->verifier
  unfoldable pub verify_value : Verifier → Value D → Option Bytes
  verify_value unverified value = none
  verify_value absolute_path value = confitem_verify_absolute_path value
  verify_value dir_levels value = confitem_verify_dir_levels value
