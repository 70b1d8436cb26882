-- ===== src/Stats/Info.antt =====
-- src/stats.c: the fields of a statistics file in display order, with enum stats of src/ccache.h.
use memccache.Base.{ℕ, ◌+◌, List, [], ◌∷◌, Option, none, some, Bytes, codes}

abbrev pub stats_none : ℕ
stats_none = 0

abbrev pub stats_stdout : ℕ
stats_stdout = 1

abbrev pub stats_status : ℕ
stats_status = 2

abbrev pub stats_error : ℕ
stats_error = 3

abbrev pub stats_cachemiss : ℕ
stats_cachemiss = 4

abbrev pub stats_preprocessor : ℕ
stats_preprocessor = 5

abbrev pub stats_compiler : ℕ
stats_compiler = 6

abbrev pub stats_missing : ℕ
stats_missing = 7

abbrev pub stats_cachehit_cpp : ℕ
stats_cachehit_cpp = 8

abbrev pub stats_args : ℕ
stats_args = 9

abbrev pub stats_link : ℕ
stats_link = 10

abbrev pub stats_numfiles : ℕ
stats_numfiles = 11

abbrev pub stats_totalsize : ℕ
stats_totalsize = 12

abbrev pub stats_obsolete_maxfiles : ℕ
stats_obsolete_maxfiles = 13

abbrev pub stats_obsolete_maxsize : ℕ
stats_obsolete_maxsize = 14

abbrev pub stats_sourcelang : ℕ
stats_sourcelang = 15

abbrev pub stats_badoutputfile : ℕ
stats_badoutputfile = 16

abbrev pub stats_noinput : ℕ
stats_noinput = 17

abbrev pub stats_multiple : ℕ
stats_multiple = 18

abbrev pub stats_conftest : ℕ
stats_conftest = 19

abbrev pub stats_unsupported_option : ℕ
stats_unsupported_option = 20

abbrev pub stats_outstdout : ℕ
stats_outstdout = 21

abbrev pub stats_cachehit_dir : ℕ
stats_cachehit_dir = 22

abbrev pub stats_nooutput : ℕ
stats_nooutput = 23

abbrev pub stats_emptyoutput : ℕ
stats_emptyoutput = 24

abbrev pub stats_badextrafile : ℕ
stats_badextrafile = 25

abbrev pub stats_compcheck : ℕ
stats_compcheck = 26

abbrev pub stats_cantusepch : ℕ
stats_cantusepch = 27

abbrev pub stats_preprocessing : ℕ
stats_preprocessing = 28

abbrev pub stats_numcleanups : ℕ
stats_numcleanups = 29

abbrev pub stats_unsupported_directive : ℕ
stats_unsupported_directive = 30

abbrev pub stats_zerotimestamp : ℕ
stats_zerotimestamp = 31

abbrev pub stats_end : ℕ
stats_end = 32

abbrev pub flag_nozero : ℕ
flag_nozero = 1

abbrev pub flag_always : ℕ
flag_always = 2

abbrev pub flag_never : ℕ
flag_never = 4

pub data Format : Type 0 where
  plain timestamp size_times_1024 : Format

pub record StatsInfo : Type 0 where
  pub stat : ℕ
  pub id : Option Bytes
  pub message : Option Bytes
  pub format : Format
  pub flags : ℕ

abbrev row : ℕ → Option Bytes → Option Bytes → Format → ℕ → StatsInfo
row s i m f g = record { stat = s; id = i; message = m; format = f; flags = g }

abbrev pub stats_info : List StatsInfo
stats_info =
    row stats_zerotimestamp (some (codes "stats_zeroed_timestamp")) (some (codes "stats zeroed"))
      Format.timestamp flag_always
    ∷ row stats_cachehit_dir (some (codes "direct_cache_hit")) (some (codes "cache hit (direct)"))
        Format.plain flag_always
    ∷ row stats_cachehit_cpp (some (codes "preprocessed_cache_hit"))
        (some (codes "cache hit (preprocessed)")) Format.plain flag_always
    ∷ row stats_cachemiss (some (codes "cache_miss")) (some (codes "cache miss")) Format.plain
        flag_always
    ∷ row stats_link (some (codes "called_for_link")) (some (codes "called for link")) Format.plain
        0
    ∷ row stats_preprocessing (some (codes "called_for_preprocessing"))
        (some (codes "called for preprocessing")) Format.plain 0
    ∷ row stats_multiple (some (codes "multiple_source_files"))
        (some (codes "multiple source files")) Format.plain 0
    ∷ row stats_stdout (some (codes "compiler_produced_stdout"))
        (some (codes "compiler produced stdout")) Format.plain 0
    ∷ row stats_nooutput (some (codes "compiler_produced_no_output"))
        (some (codes "compiler produced no output")) Format.plain 0
    ∷ row stats_emptyoutput (some (codes "compiler_produced_empty_output"))
        (some (codes "compiler produced empty output")) Format.plain 0
    ∷ row stats_status (some (codes "compile_failed")) (some (codes "compile failed")) Format.plain
        0
    ∷ row stats_error (some (codes "internal_error")) (some (codes "ccache internal error"))
        Format.plain 0
    ∷ row stats_preprocessor (some (codes "preprocessor_error")) (some (codes "preprocessor error"))
        Format.plain 0
    ∷ row stats_cantusepch (some (codes "could_not_use_precompiled_header"))
        (some (codes "can't use precompiled header")) Format.plain 0
    ∷ row stats_compiler (some (codes "could_not_find_compiler"))
        (some (codes "couldn't find the compiler")) Format.plain 0
    ∷ row stats_missing (some (codes "missing_cache_file")) (some (codes "cache file missing"))
        Format.plain 0
    ∷ row stats_args (some (codes "bad_compiler_arguments")) (some (codes "bad compiler arguments"))
        Format.plain 0
    ∷ row stats_sourcelang (some (codes "unsupported_source_language"))
        (some (codes "unsupported source language")) Format.plain 0
    ∷ row stats_compcheck (some (codes "compiler_check_failed"))
        (some (codes "compiler check failed")) Format.plain 0
    ∷ row stats_conftest (some (codes "autoconf_test")) (some (codes "autoconf compile/link"))
        Format.plain 0
    ∷ row stats_unsupported_option (some (codes "unsupported_compiler_option"))
        (some (codes "unsupported compiler option")) Format.plain 0
    ∷ row stats_unsupported_directive (some (codes "unsupported_code_directive"))
        (some (codes "unsupported code directive")) Format.plain 0
    ∷ row stats_outstdout (some (codes "output_to_stdout")) (some (codes "output to stdout"))
        Format.plain 0
    ∷ row stats_badoutputfile (some (codes "bad_output_file"))
        (some (codes "could not write to output file")) Format.plain 0
    ∷ row stats_noinput (some (codes "no_input_file")) (some (codes "no input file")) Format.plain 0
    ∷ row stats_badextrafile (some (codes "error_hashing_extra_file"))
        (some (codes "error hashing extra file")) Format.plain 0
    ∷ row stats_numcleanups (some (codes "cleanups_performed")) (some (codes "cleanups performed"))
        Format.plain flag_always
    ∷ row stats_numfiles (some (codes "files_in_cache")) (some (codes "files in cache"))
        Format.plain (flag_nozero + flag_always)
    ∷ row stats_totalsize (some (codes "cache_size_kibibyte")) (some (codes "cache size"))
        Format.size_times_1024 (flag_nozero + flag_always)
    ∷ row stats_obsolete_maxfiles (some (codes "OBSOLETE")) (some (codes "OBSOLETE")) Format.plain
        (flag_nozero + flag_never)
    ∷ row stats_obsolete_maxsize (some (codes "OBSOLETE")) (some (codes "OBSOLETE")) Format.plain
        (flag_nozero + flag_never)
    ∷ row stats_none none none Format.plain 0
    ∷ []
