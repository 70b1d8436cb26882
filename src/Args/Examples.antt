-- ===== src/Args/Examples.antt =====
-- src/args.c at concrete command lines.
use memccache.Base.{◌≡◌, ◌↔◌, refl, List, [], ◌∷◌, ◌++◌, true, some, arith, Bytes, codes}
use memccache.Args.{Args, args_init, args_extend, args_pop, args_insert, args_strip, args_equal}
use memccache.Args.Repr.{Holds}
use memccache.Args.Edit.{args_init-Holds, args_extend-Holds}
use memccache.Args.Insert.{spliced, args_insert-Holds}
use memccache.Args.Strip.{without_prefix, args_strip-Holds, args_equal_iff}
use memccache.Args.Atfile.{
  classify, Inside, Word, Text, args_init_from_gcc_atfile, args_init_from_gcc_atfile-Text,
}

abbrev command : List Bytes
command = codes "gcc" ∷ codes "-c" ∷ codes "@flags" ∷ codes "a.c" ∷ []

abbrev flags : List Bytes
flags = codes "-O2" ∷ codes "-DX" ∷ codes "-DY" ∷ []

-- Inserting the contents of an @file, as the option parser does.
args_insert-Holds_example :
    Holds (spliced command 2 flags 1) (args_insert (args_init command) 2 (args_init flags) true)
args_insert-Holds_example =
    args_insert-Holds command flags (args_init command) (args_init flags) 2 true
      (args_init-Holds command) (args_init-Holds flags) (omega arith)

args_extend-Holds_example :
    Holds (command ++ flags) (args_extend (args_init command) (args_init flags))
args_extend-Holds_example =
    args_extend-Holds command flags (args_init command) (args_init flags) (args_init-Holds command)
      (args_init-Holds flags)

args_strip-Holds_example :
    Holds (without_prefix (codes "-D") flags) (args_strip (args_init flags) (codes "-D"))
args_strip-Holds_example =
    args_strip-Holds flags (args_init flags) (codes "-D") (args_init-Holds flags)

strip_result : args_strip (args_init flags) (codes "-D") ≡ args_pop (args_init flags) 2
unfolding args_strip args_init args_pop
strip_result = refl

args_equal_iff_example :
    (args_equal (args_init command) (args_init flags) ≡ true) ↔ (command ≡ flags)
args_equal_iff_example =
    args_equal_iff command flags (args_init command) (args_init flags) (args_init-Holds command)
      (args_init-Holds flags)

-- -D"a b" c
abbrev quoted_text : Bytes
quoted_text = codes "-D\"a b\" c"

quoted_text-Text : Text (codes "-Da b" ∷ codes "c" ∷ []) quoted_text
unfolding classify
quoted_text-Text =
    Text.next 32 refl
      (Word.letter refl (
        Word.letter refl (
          Word.quoted {s = codes "a b"} {u = codes "a b"} refl
            (Inside.letter refl (Inside.space refl (Inside.letter refl Inside.done))) Word.done)))
      (Text.last (Word.letter refl Word.done))

args_init_from_gcc_atfile-Text_example :
    (a : Args) × (args_init_from_gcc_atfile (some quoted_text) ≡ some a)
    × Holds (codes "-Da b" ∷ codes "c" ∷ []) a
args_init_from_gcc_atfile-Text_example = args_init_from_gcc_atfile-Text quoted_text-Text
