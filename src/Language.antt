-- ===== src/Language.antt =====
-- src/language.c, with get_extension of src/util.c: languages by file extension, and the language
-- that a preprocessed file has. A NULL string is `none`.
pub mod Extension
pub mod Tables
mod Examples
use memccache.Base.{
  ◌-◌, List, [], ◌∷◌, reverse, length, take, Bool, true, false, Option, none, some, ◌==◌, Bytes,
  bytes_eq, codes,
}

abbrev pub extensions : List (Bytes × Bytes)
extensions =
    (codes ".c", codes "c")
    ∷ (codes ".C", codes "c++")
    ∷ (codes ".cc", codes "c++")
    ∷ (codes ".CC", codes "c++")
    ∷ (codes ".cp", codes "c++")
    ∷ (codes ".CP", codes "c++")
    ∷ (codes ".cpp", codes "c++")
    ∷ (codes ".CPP", codes "c++")
    ∷ (codes ".cxx", codes "c++")
    ∷ (codes ".CXX", codes "c++")
    ∷ (codes ".c++", codes "c++")
    ∷ (codes ".C++", codes "c++")
    ∷ (codes ".m", codes "objective-c")
    ∷ (codes ".M", codes "objective-c++")
    ∷ (codes ".mm", codes "objective-c++")
    ∷ (codes ".sx", codes "assembler-with-cpp")
    ∷ (codes ".S", codes "assembler-with-cpp")
    ∷ (codes ".i", codes "cpp-output")
    ∷ (codes ".ii", codes "c++-cpp-output")
    ∷ (codes ".mi", codes "objective-c-cpp-output")
    ∷ (codes ".mii", codes "objective-c++-cpp-output")
    ∷ (codes ".s", codes "assembler")
    ∷ (codes ".h", codes "c-header")
    ∷ (codes ".H", codes "c++-header")
    ∷ (codes ".h++", codes "c++-header")
    ∷ (codes ".H++", codes "c++-header")
    ∷ (codes ".hh", codes "c++-header")
    ∷ (codes ".HH", codes "c++-header")
    ∷ (codes ".hp", codes "c++-header")
    ∷ (codes ".HP", codes "c++-header")
    ∷ (codes ".hpp", codes "c++-header")
    ∷ (codes ".HPP", codes "c++-header")
    ∷ (codes ".hxx", codes "c++-header")
    ∷ (codes ".HXX", codes "c++-header")
    ∷ (codes ".tcc", codes "c++-header")
    ∷ (codes ".TCC", codes "c++-header")
    ∷ (codes ".cu", codes "cu")
    ∷ []

abbrev pub languages : List (Bytes × Bytes)
languages =
    (codes "c", codes "cpp-output")
    ∷ (codes "cpp-output", codes "cpp-output")
    ∷ (codes "c-header", codes "cpp-output")
    ∷ (codes "c++", codes "c++-cpp-output")
    ∷ (codes "c++-cpp-output", codes "c++-cpp-output")
    ∷ (codes "c++-header", codes "c++-cpp-output")
    ∷ (codes "cu", codes "cpp-output")
    ∷ (codes "objective-c", codes "objective-c-cpp-output")
    ∷ (codes "objective-c-header", codes "objective-c-cpp-output")
    ∷ (codes "objc-cpp-output", codes "objective-c-cpp-output")
    ∷ (codes "objective-c-cpp-output", codes "objective-c-cpp-output")
    ∷ (codes "objective-c++", codes "objective-c++-cpp-output")
    ∷ (codes "objc++-cpp-output", codes "objective-c++-cpp-output")
    ∷ (codes "objective-c++-header", codes "objective-c++-cpp-output")
    ∷ (codes "objective-c++-cpp-output", codes "objective-c++-cpp-output")
    ∷ (codes "assembler-with-cpp", codes "assembler")
    ∷ (codes "assembler", codes "assembler")
    ∷ []

-- The walk back over the path; `passed` is what stands behind.
unfoldable pub walk_back : Bytes → Bytes → Bytes
walk_back [] passed = []
walk_back (c ∷ cs) passed = elim (c == 46) [
  | true ↦ c ∷ passed
  | false ↦ elim (c == 47) [ true ↦ [] | false ↦ walk_back cs (c ∷ passed) ]
]

unfoldable pub get_extension : Bytes → Bytes
get_extension path = walk_back (reverse path) []

unfoldable pub remove_extension : Bytes → Bytes
remove_extension path = take (length path - length (get_extension path)) path

-- The first row with the key in its first column, and with it in its second.
unfoldable pub lookup : Bytes → List (Bytes × Bytes) → Option Bytes
lookup key [] = none
lookup key ((k, v) ∷ t) = elim (bytes_eq key k) [ true ↦ some v | false ↦ lookup key t ]

unfoldable pub lookup_second : Bytes → List (Bytes × Bytes) → Option Bytes
lookup_second key [] = none
lookup_second key ((k, v) ∷ t) = elim (bytes_eq key v) [
  | true ↦ some k
  | false ↦ lookup_second key t
]

unfoldable pub language_for_file : Bytes → Option Bytes
language_for_file fname = lookup (get_extension fname) extensions

unfoldable pub p_language_for_language : Option Bytes → Option Bytes
p_language_for_language none = none
p_language_for_language (some language) = lookup language languages

unfoldable pub extension_for_language : Option Bytes → Option Bytes
extension_for_language none = none
extension_for_language (some language) = lookup_second language extensions

unfoldable pub language_is_supported : Option Bytes → Bool
language_is_supported language = elim (p_language_for_language language) [
  | none ↦ false
  | some p ↦ true
]

-- `none` where the assertion fails.
unfoldable pub language_is_preprocessed : Option Bytes → Option Bool
language_is_preprocessed none = some false
language_is_preprocessed (some language) = elim (p_language_for_language (some language)) [
  | none ↦ none
  | some p_language ↦ some (bytes_eq language p_language)
]
