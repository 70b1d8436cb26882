-- ===== src/Language/Examples.antt =====
-- src/language.c at concrete names.
use memccache.Base.{◌≡◌, refl, ◌++◌, true, some, codes, bytes_eq}
use memccache.Language.{
  lookup, lookup_second, language_for_file, p_language_for_language, extension_for_language,
  language_is_preprocessed,
}
use memccache.Language.Tables.{
  language_is_preprocessed-p_language, language_for_file-extension_for_language,
}

language_is_preprocessed-p_language_example :
    language_is_preprocessed (some (codes "objective-c-cpp-output")) ≡ some true
unfolding p_language_for_language lookup bytes_eq
language_is_preprocessed-p_language_example =
    language_is_preprocessed-p_language (codes "objective-c") (codes "objective-c-cpp-output") refl

language_for_file-extension_for_language_example :
    language_for_file (codes "tmp.XY" ++ codes ".ii") ≡ some (codes "c++-cpp-output")
unfolding extension_for_language lookup_second bytes_eq
language_for_file-extension_for_language_example =
    language_for_file-extension_for_language (codes "tmp.XY") (codes "c++-cpp-output") (codes ".ii")
      refl
