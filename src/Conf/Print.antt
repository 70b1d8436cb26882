-- ===== src/Conf/Print.antt =====
-- src/conf.c: printing the configuration.
use memccache.Base.{
  List, [], ◌∷◌, ◌++◌, get_or, Bytes, codes, Option, none, some, Bool, true, false,
}
use memccache.Conf.Parsers.{Doubles}
use memccache.Conf.Table.{find_conf, format_value}
use memccache.Conf.Setting.{Conf, field}
use memccache.Conf.File.{unknown_option}

-- Printing: the text; or the error; or a formatter gets NULL.
pub data Printed : Type 0 where
  printed : Bytes → Bytes → Printed
  unknown_key : Bytes → Printed
  null_value : Printed

module _ {D : Type 0} (doubles : Doubles D) where
  -- on the file's text
  unfoldable pub conf_print_value : Conf D → Bytes → Bytes → Printed
  unfolding find_conf format_value field unknown_option
  conf_print_value conf key file = elim (find_conf key) [
    | none ↦ Printed.unknown_key (unknown_option key)
    | some it ↦ elim (format_value doubles it.row.kind (field conf it.number)) [
      | none ↦ Printed.null_value
      | some str ↦ Printed.printed (file ++ str ++ 10 ∷ []) []
    ]
  ]

  -- print_item: what the printer gets, the text and the origin
  unfoldable pub print_item : Conf D → Bytes → Printed
  unfolding find_conf format_value field
  print_item conf key = elim (find_conf key) [
    | none ↦ Printed.unknown_key []
    | some it ↦ elim (format_value doubles it.row.kind (field conf it.number)) [
      | none ↦ Printed.null_value
      | some str ↦
          Printed.printed (key ++ codes " = " ++ str) (get_or conf.item_origins it.number [])
    ]
  ]

-- The keys in the order of the calls of print_item.
unfoldable pub printed_keys : List Bytes
printed_keys =
    codes "base_dir"
    ∷ codes "cache_dir"
    ∷ codes "cache_dir_levels"
    ∷ codes "compiler"
    ∷ codes "compiler_check"
    ∷ codes "compression"
    ∷ codes "compression_level"
    ∷ codes "compression_type"
    ∷ codes "couchbase_conf"
    ∷ codes "cpp_extension"
    ∷ codes "debug"
    ∷ codes "depend_mode"
    ∷ codes "direct_mode"
    ∷ codes "disable"
    ∷ codes "extra_files_to_hash"
    ∷ codes "hard_link"
    ∷ codes "hash_dir"
    ∷ codes "ignore_headers_in_manifest"
    ∷ codes "keep_comments_cpp"
    ∷ codes "limit_multiple"
    ∷ codes "log_file"
    ∷ codes "max_files"
    ∷ codes "max_size"
    ∷ codes "memcached_conf"
    ∷ codes "memcached_only"
    ∷ codes "path"
    ∷ codes "pch_external_checksum"
    ∷ codes "prefix_command"
    ∷ codes "prefix_command_cpp"
    ∷ codes "read_only"
    ∷ codes "read_only_direct"
    ∷ codes "read_only_memcached"
    ∷ codes "recache"
    ∷ codes "run_second_cpp"
    ∷ codes "sloppiness"
    ∷ codes "stats"
    ∷ codes "temporary_dir"
    ∷ codes "umask"
    ∷ []

-- What the printer has got, and the result; `none` where a formatter gets NULL.
add_item : Printed → Option (List (Bytes × Bytes) × Bool) → Option (List (Bytes × Bytes) × Bool)
add_item Printed.null_value rest = none
add_item (Printed.unknown_key message) none = none
add_item (Printed.unknown_key message) (some (items, ok)) = some (items, false)
add_item (Printed.printed descr origin) none = none
add_item (Printed.printed descr origin) (some (items, ok)) = some ((descr, origin) ∷ items, ok)

module _ {D : Type 0} (doubles : Doubles D) where
  unfoldable pub print_keys : Conf D → List Bytes → Option (List (Bytes × Bytes) × Bool)
  unfolding add_item print_item
  print_keys conf [] = some ([], true)
  print_keys conf (key ∷ keys) = add_item (print_item doubles conf key) (print_keys conf keys)

  unfoldable pub conf_print_items : Conf D → Option (List (Bytes × Bytes) × Bool)
  unfolding print_keys printed_keys
  conf_print_items conf = print_keys conf printed_keys
