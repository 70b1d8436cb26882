-- ===== src/Conf/File.antt =====
-- src/conf.c: reading and writing the configuration file.
-- The file system is a parameter: the calls that the source makes, over a state of the world.
use memccache.Base.{
  ℕ, ◌+◌, ◌%◌, ◌^◌, List, [], ◌∷◌, ◌++◌, Bytes, codes, bytes_eq, Option, none, some, Bool, true,
  false, map, if◌then◌else◌,
}
use memccache.Base.Decimal.{decimal}
use memccache.Conf.Parsers.{Value, Doubles}
use memccache.Conf.Table.{ConfItem, find_conf, parse_value, verify_value}
use memccache.Conf.Setting.{Conf, Handled, handle_conf_setting}
use memccache.Conf.Line.{Parsed, parse_line, fgets_all, setting_line}

-- fopen(path, "r"): the text of the error, or the content that can be read and the error, if one
-- ends it.
pub data Opened : Type 0 where
  unopened : Bytes → Opened
  opened : Bytes → Option Bytes → Opened

-- *errmsg: of the system, with errno set, or of an invalid configuration, where errno is 0.
pub data ConfError : Type 0 where
  system : Bytes → ConfError
  invalid : Bytes → ConfError

-- conf_read: the result is true where there is no error.
pub data Reading (D : Type 0) : Type 0 where
  reading : Conf D → Option ConfError → Reading D
  fatal : Bytes → Reading D

module _ {D : Type 0} (doubles : Doubles D) (getenv : Bytes → Option Bytes) (path : Bytes) where
  unfoldable pub failed_at : Conf D → ℕ → Bytes → Reading D
  failed_at conf line_number errmsg2 = Reading.reading conf (
      some (
        ConfError.invalid
          (path ++ codes ":" ++ decimal (line_number % 2 ^ 32) ++ codes ": " ++ errmsg2)))

  -- The loop over the parsed lines, with ferror behind it; an unknown key is ignored.
  unfoldable pub read_lines : Conf D → ℕ → Option Bytes → List Parsed → Reading D
  unfolding failed_at handle_conf_setting
  read_lines conf n error [] = elim error [
    | none ↦ Reading.reading conf none
    | some message ↦ Reading.reading conf (some (ConfError.system message))
  ]
  read_lines conf n error (Parsed.blank ∷ ls) = read_lines conf (n + 1) error ls
  read_lines conf n error (Parsed.missing_equal_sign ∷ ls) =
      failed_at conf (n + 1) (codes "missing equal sign")
  read_lines conf n error (Parsed.setting key value ∷ ls) =
      elim (handle_conf_setting doubles getenv conf key value none path) [
        | Handled.ok conf' ↦ read_lines conf' (n + 1) error ls
        | Handled.unknown ↦ read_lines conf (n + 1) error ls
        | Handled.fail conf' errmsg2 ↦ failed_at conf' (n + 1) errmsg2
        | Handled.fatal message ↦ Reading.fatal message
      ]

  unfoldable pub conf_read : Conf D → Opened → Reading D
  unfolding read_lines fgets_all parse_line
  conf_read conf (Opened.unopened message) =
      Reading.reading conf (some (ConfError.system (path ++ codes ": " ++ message)))
  conf_read conf (Opened.opened content error) =
      read_lines conf 0 error (map parse_line (fgets_all content))

-- The loop of conf_set_value_in_file: whether the key was found, and what is written.
unfoldable pub is_setting_of : Bytes → Parsed → Bool
is_setting_of key Parsed.blank = false
is_setting_of key Parsed.missing_equal_sign = false
is_setting_of key (Parsed.setting key2 value2) = bytes_eq key2 key

unfoldable pub set_lines : Bytes → Bytes → List Bytes → Bool × Bytes
unfolding is_setting_of parse_line setting_line
set_lines key value [] = (false, [])
set_lines key value (buf ∷ bufs) =
    let (found, out) = set_lines key value bufs in
    if is_setting_of key (parse_line buf)
    then (true, setting_line key value ++ out)
    else (found, buf ++ out)

-- The text that is written for the text that is read.
unfoldable pub set_in_text : Bytes → Bytes → Bytes → Bytes
unfolding set_lines fgets_all setting_line
set_in_text key value content =
    let (found, out) = set_lines key value (fgets_all content) in
    if found then out else out ++ setting_line key value

-- Each call yields the text of its error, if it fails.
pub record FileSystem (World : Type 0) : Type 0 where
  pub realpath : Bytes → World → Option Bytes
  pub fopen : Bytes → World → Opened
  -- the path that it makes of the given one, for a new empty file
  pub create_tmp_file : Bytes → World → World × Bytes × Option Bytes
  -- the writes and fclose of an open file, which the code does not check
  pub write : Bytes → Bytes → World → World
  pub rename : Bytes → Bytes → World → World × Option Bytes

unfoldable pub unknown_option : Bytes → Bytes
unknown_option key = codes "unknown configuration option \"" ++ key ++ codes "\""

module _ {World : Type 0} (fs : FileSystem World) where
  real_path : Bytes → World → Bytes
  real_path conf_path w = elim (fs.realpath conf_path w) [ none ↦ conf_path | some path ↦ path ]

  rename_message : Bytes → Bytes → World × Option Bytes → World × Option Bytes
  rename_message outpath path (w, none) = (w, none)
  rename_message outpath path (w, some message) =
      (w, some (codes "rename " ++ outpath ++ codes " to " ++ path ++ codes ": " ++ message))

  -- Behind fopen: the new content is written to a new file, which then replaces the old one.
  replace_file : Bytes → Bytes → Bytes → Bytes → World → World × Option Bytes
  unfolding rename_message set_in_text
  replace_file path key value content w =
      let (w1, outpath, failure) = fs.create_tmp_file (path ++ codes ".tmp") w in
      let written = fs.write outpath (set_in_text key value content) w1 in
      elim failure [
        | some message ↦ (w1, some (outpath ++ codes ": " ++ message))
        | none ↦ rename_message outpath path (fs.rename outpath path written)
      ]

  rewrite_file : Bytes → Bytes → Bytes → World → World × Option Bytes
  unfolding replace_file
  rewrite_file path key value w = elim (fs.fopen path w) [
    | Opened.unopened message ↦ (w, some (path ++ codes ": " ++ message))
    | Opened.opened content error ↦ replace_file path key value content w
  ]

module _ {D : Type 0} (doubles : Doubles D) (getenv : Bytes → Option Bytes) where
  -- The value parsed into an empty field, and verified.
  unfoldable pub value_error : ConfItem → Bytes → Option Bytes
  unfolding parse_value verify_value
  value_error it value =
      let (parsed, errmsg) = parse_value doubles getenv it.row.kind value (Value.text none) in
      elim errmsg [ some message ↦ some message | none ↦ verify_value it.row.verifier parsed ]

module _ {D World : Type 0} (doubles : Doubles D) (getenv : Bytes → Option Bytes)
    (fs : FileSystem World) where
  -- The result is true where there is no *errmsg.
  unfoldable pub conf_set_value_in_file : Bytes → Bytes → Bytes → World → World × Option Bytes
  unfolding find_conf value_error real_path rewrite_file unknown_option
  conf_set_value_in_file conf_path key value w = elim (find_conf key) [
    | none ↦ (w, some (unknown_option key))
    | some it ↦ elim (value_error doubles getenv it value) [
      | some message ↦ (w, some message)
      | none ↦ rewrite_file fs (real_path fs conf_path w) key value w
    ]
  ]
