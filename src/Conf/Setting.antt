-- ===== src/Conf/Setting.antt =====
-- src/conf.c: struct conf, its default, and settings from the environment.
-- struct conf is the list of its fields in the order of the items, beside item_origins.
use memccache.Base.{
  ℕ, ◌+◌, ◌-◌, ◌^◌, List, [], ◌∷◌, ◌++◌, get_or, set, replicate, drop, starts_with, Bytes, codes,
  bytes_eq, Option, none, some, Bool, true, false, not, ◌&&◌, ◌||◌, leb, ◌==◌, map, if◌then◌else◌,
}
use memccache.Conf.Parsers.{Value, Doubles}
use memccache.Conf.Table.{
  Kind, Verifier, ConfItem, find_conf, find_env_to_conf, parse_value, verify_value,
}

pub record Conf (D : Type 0) : Type 0 where
  pub values : List (Value D)
  pub item_origins : List Bytes

-- handle_conf_setting: HANDLE_CONF_OK, HANDLE_CONF_UNKNOWN, HANDLE_CONF_FAIL with *errmsg, or the
-- message of fatal.
pub data Handled (D : Type 0) : Type 0 where
  ok : Conf D → Handled D
  unknown : Handled D
  fail : Conf D → Bytes → Handled D
  fatal : Bytes → Handled D

-- tolower in the C locale
abbrev pub to_lower : ℕ → ℕ
to_lower c = if leb 65 c && leb c 90 then c + 32 else c

-- strcasecmp(a, b) == 0
unfoldable pub case_eq : Bytes → Bytes → Bool
case_eq a b = bytes_eq (map to_lower a) (map to_lower b)

unfoldable pub is_bool : Kind → Bool
is_bool Kind.bool = true
is_bool _ = false

-- The values that the special rule refuses.
unfoldable pub is_false_word : Bytes → Bool
unfolding case_eq
is_false_word value =
    bytes_eq value (codes "0")
    || (case_eq value (codes "false")
        || (case_eq value (codes "disable") || case_eq value (codes "no")))

fatal_message : Bytes → Bytes → Bool → Bytes
fatal_message value env_var_name negate =
    codes "invalid boolean environment variable value \""
    ++ value
    ++ codes "\" for CCACHE_"
    ++ (if negate then codes "NO" else [])
    ++ env_var_name
    ++ codes " (did you mean to set \"CCACHE_"
    ++ (if negate then [] else codes "NO")
    ++ env_var_name
    ++ codes "=true\"?)"

module _ {D : Type 0} where
  -- A field is assigned, or an origin.
  unfoldable pub assign : Conf D → ℕ → Value D → Conf D
  assign conf i v = record conf { values = set conf.values i v }

  unfoldable pub set_origin : Conf D → ℕ → Bytes → Conf D
  set_origin conf i origin = record conf { item_origins = set conf.item_origins i origin }

  unfoldable pub field : Conf D → ℕ → Value D
  field conf i = get_or conf.values i (Value.text none)

  -- Behind the verifier, which yields its message.
  unfoldable pub accepted : Conf D → ℕ → Bytes → Value D → Option Bytes → Handled D
  unfolding assign set_origin
  accepted conf i origin value none = Handled.ok (set_origin (assign conf i value) i origin)
  accepted conf i origin value (some errmsg) = Handled.fail (assign conf i value) errmsg

  -- Behind the parser: its message ends it.
  unfoldable pub verified : Verifier → Conf D → ℕ → Bytes → Value D × Option Bytes → Handled D
  unfolding assign accepted verify_value
  verified v conf i origin (value, some errmsg) = Handled.fail (assign conf i value) errmsg
  verified v conf i origin (value, none) = accepted conf i origin value (verify_value v value)

module _ {D : Type 0} (doubles : Doubles D) (getenv : Bytes → Option Bytes) where
  -- handle_conf_setting for an item; the environment gives env_var_name and negate_boolean.
  unfoldable pub handle_item : Conf D → ConfItem → Bytes → Option (Bytes × Bool) → Bytes → Handled D
  unfolding parse_value field verified fatal_message is_false_word
  handle_item conf it value none origin =
      verified it.row.verifier conf it.number origin
        (parse_value doubles getenv it.row.kind value (field conf it.number))
  handle_item conf it value (some (env_var_name, negate)) origin =
      if is_bool it.row.kind
      then if is_false_word value
        then Handled.fatal (fatal_message value env_var_name negate)
        else Handled.ok
            (set_origin (assign conf it.number (Value.flag (not negate))) it.number origin)
      else verified it.row.verifier conf it.number origin
          (parse_value doubles getenv it.row.kind value (field conf it.number))

  unfoldable pub handle_found :
      Conf D → Option ConfItem → Bytes → Option (Bytes × Bool) → Bytes → Handled D
  unfolding handle_item
  handle_found conf none value env origin = Handled.unknown
  handle_found conf (some it) value env origin = handle_item conf it value env origin

  unfoldable pub handle_conf_setting :
      Conf D → Bytes → Bytes → Option (Bytes × Bool) → Bytes → Handled D
  unfolding find_conf handle_found
  handle_conf_setting conf key value env origin = handle_found conf (find_conf key) value env origin

-- conf_create; the home directory is that of get_home_directory.
unfoldable pub conf_create : {D : Type 0} → Doubles D → Bytes → Conf D
conf_create doubles home = record {
  values =
      Value.text (some [])
      ∷ Value.text (some (home ++ codes "/.ccache"))
      ∷ Value.number 2
      ∷ Value.text (some [])
      ∷ Value.text (some (codes "mtime"))
      ∷ Value.flag false
      ∷ Value.number (2 ^ 32 - 1)
      ∷ Value.text (some (codes "gzip"))
      ∷ Value.text (some [])
      ∷ Value.text (some [])
      ∷ Value.flag false
      ∷ Value.flag false
      ∷ Value.flag true
      ∷ Value.flag false
      ∷ Value.text (some [])
      ∷ Value.flag false
      ∷ Value.flag true
      ∷ Value.text (some [])
      ∷ Value.flag false
      ∷ Value.real (doubles.quotient 8 10)
      ∷ Value.text (some [])
      ∷ Value.number 0
      ∷ Value.number 5000000000
      ∷ Value.text (some [])
      ∷ Value.flag false
      ∷ Value.text (some [])
      ∷ Value.flag false
      ∷ Value.text (some [])
      ∷ Value.text (some [])
      ∷ Value.flag false
      ∷ Value.flag false
      ∷ Value.flag false
      ∷ Value.flag false
      ∷ Value.flag true
      ∷ Value.number 0
      ∷ Value.flag true
      ∷ Value.text (some [])
      ∷ Value.number (2 ^ 32 - 1)
      ∷ [];
  item_origins = replicate 38 (codes "default");
}

-- conf_update_from_environment: it returns true, or false with *errmsg, or calls fatal; or format
-- gets a NULL message.
pub data Updated (D : Type 0) : Type 0 where
  updated : Conf D → Updated D
  refused : Conf D → Bytes → Updated D
  fatal : Bytes → Updated D
  null_message : Updated D

-- strchr(p, '='): what stands in front of it and behind it.
unfoldable pub split_equal : Bytes → Option (Bytes × Bytes)
split_equal [] = none
split_equal (c ∷ cs) =
    let rest = split_equal cs in
    if c == b'='
    then some ([], cs)
    else elim rest [ none ↦ none | some (name, value) ↦ some (c ∷ name, value) ]

-- negate and the key, of a name whose CCACHE_ is cut off.
unfoldable pub env_key : Bytes → Bool × Bytes
env_key name = if starts_with name (codes "NO") then (true, drop 2 name) else (false, name)

-- An entry of environ: the settings that it makes; `none` where the loop skips it.
unfoldable pub env_setting : Bytes → Option (Bool × Bytes × Bytes × (Bytes × Bytes))
unfolding split_equal env_key find_env_to_conf
env_setting entry =
    if starts_with entry (codes "CCACHE_")
    then elim (split_equal entry) [
      | none ↦ none
      | some (name, value) ↦
          let (negate, key) = env_key (drop 7 name) in
          elim (find_env_to_conf key) [ none ↦ none | some row ↦ some (negate, key, value, row) ]
    ]
    else none

module _ {D : Type 0} (doubles : Doubles D) (getenv : Bytes → Option Bytes) where
  unfoldable pub conf_update_from_environment : Conf D → List Bytes → Updated D
  unfolding env_setting handle_conf_setting
  conf_update_from_environment conf [] = Updated.updated conf
  conf_update_from_environment conf (entry ∷ environ) = elim (env_setting entry) [
    | none ↦ conf_update_from_environment conf environ
    | some (negate, key, value, (env_name, conf_name)) ↦
        elim (handle_conf_setting doubles getenv conf conf_name value (some (env_name, negate))
          (codes "environment")) [
            | Handled.ok conf' ↦ conf_update_from_environment conf' environ
            | Handled.unknown ↦ Updated.null_message
            | Handled.fail conf' errmsg2 ↦ Updated.refused conf' (key ++ codes ": " ++ errmsg2)
            | Handled.fatal message ↦ Updated.fatal message
          ]
  ]
