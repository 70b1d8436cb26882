-- ===== src/Args/Atfile.antt =====
-- args_init_from_gcc_atfile of src/args.c: the tokenizer of GCC's @file, and a grammar of its input.
use memccache.Base.{
  ℕ, ◌≡◌, ◌≢◌, refl, List, [], ◌∷◌, ◌++◌, ◌||◌, ◌⊎◌, inl, inr, Option, none, some, arith, ◌==◌,
  if◌then◌else◌, append-nil, append_assoc, Bytes,
}
use memccache.Args.{Args, args_add, args_init}
use memccache.Args.Repr.{Holds}
use memccache.Args.Edit.{args_add-Holds, args_init-Holds}

-- The cases of the switch on *pos.
pub data Class : Type 0 where
  nul backslash quote blank other : Class

unfoldable pub classify : ℕ → Class
classify c =
    if c == 0
    then nul
    else if c == b'\\'
    then backslash
    else if c == b'"' || c == 39
    then quote
    else if (c == 10 || c == 13) || (c == 9 || c == 32)
    then blank
    else other

-- "End of token": argbuf becomes an argument unless it is empty.
unfoldable pub end_token : Args → Bytes → Args
end_token a [] = a
end_token a (c ∷ tok) = args_add a (c ∷ tok)

-- The loop. `quoting` is 0 or the character that opened the quotes, `tok` is argbuf up to argpos,
-- and the end of the list is the NUL that ends the text.
unfoldable pub atfile_loop : ℕ → Bytes → Args → Bytes → Args
atfile_loop quoting tok a [] = end_token a tok
atfile_loop quoting tok a (c ∷ []) = elim (classify c) [
  | nul ↦ end_token a tok
  | backslash ↦ end_token a tok
  | quote ↦
      if quoting == 0
      then end_token a tok
      else if quoting == c
      then end_token a tok
      else end_token a (tok ++ c ∷ [])
  | blank ↦ if quoting == 0 then end_token a tok else end_token a (tok ++ c ∷ [])
  | other ↦ end_token a (tok ++ c ∷ [])
]
atfile_loop quoting tok a (c ∷ (d ∷ text)) =
    let stored = atfile_loop quoting (tok ++ c ∷ []) a (d ∷ text) in
    let opened = atfile_loop c tok a (d ∷ text) in
    let closed = atfile_loop 0 tok a (d ∷ text) in
    let next = atfile_loop quoting [] (end_token a tok) (d ∷ text) in
    let escaped = atfile_loop quoting (tok ++ d ∷ []) a text in
    elim (classify c) [
      | nul ↦ end_token a tok
      | backslash ↦ if d == 0 then end_token a tok else escaped
      | quote ↦ if quoting == 0 then opened else if quoting == c then closed else stored
      | blank ↦ if quoting == 0 then next else stored
      | other ↦ stored
    ]

-- `none` where read_text_file cannot read the file.
unfoldable pub args_init_from_gcc_atfile : Option Bytes → Option Args
unfolding atfile_loop classify end_token
args_init_from_gcc_atfile none = none
args_init_from_gcc_atfile (some argtext) = some (atfile_loop 0 [] (args_init []) argtext)

-- A grammar of the text: `Inside q s u` says that `u` stands for `s` between quotes `q`.
pub data Inside (q : ℕ) : Bytes → Bytes → Type 0 where
  done : Inside q [] []
  letter : {c : ℕ} {s u : Bytes} → classify c ≡ other → Inside q s u → Inside q (c ∷ s) (c ∷ u)
  space : {c : ℕ} {s u : Bytes} → classify c ≡ blank → Inside q s u → Inside q (c ∷ s) (c ∷ u)
  other_quote :
      {c : ℕ} {s u : Bytes} → classify c ≡ quote → q ≢ c → Inside q s u → Inside q (c ∷ s) (c ∷ u)
  escape : {c : ℕ} {s u : Bytes} → c ≢ 0 → Inside q s u → Inside q (c ∷ s) (b'\\' ∷ (c ∷ u))

-- `Word x u`: the text `u` stands for the argument `x`.
pub data Word : Bytes → Bytes → Type 0 where
  done : Word [] []
  letter : {c : ℕ} {x u : Bytes} → classify c ≡ other → Word x u → Word (c ∷ x) (c ∷ u)
  escape : {c : ℕ} {x u : Bytes} → c ≢ 0 → Word x u → Word (c ∷ x) (b'\\' ∷ (c ∷ u))
  quoted :
      {q : ℕ} {s u x t : Bytes}
      → classify q ≡ quote
      → Inside q s u
      → Word x t
      → Word (s ++ x) (q ∷ (u ++ q ∷ t))

-- An argument that is empty, such as a pair of quotes, is dropped.
abbrev pub keep : Bytes → List Bytes → List Bytes
keep [] xs = xs
keep (c ∷ x) xs = (c ∷ x) ∷ xs

-- `Text xs t`: the whole text `t` stands for the arguments `xs`.
pub data Text : List Bytes → Bytes → Type 0 where
  last : {x u : Bytes} → Word x u → Text (keep x []) u
  next :
      {x u t : Bytes} {xs : List Bytes} (c : ℕ)
      → classify c ≡ blank
      → Word x u
      → Text xs t
      → Text (keep x xs) (u ++ c ∷ t)

quote-ne-zero : (q : ℕ) → classify q ≡ quote → q ≢ 0
unfolding classify
quote-ne-zero q h e = absurd (ground arith)

-- One round of the loop.
step_other :
    (q : ℕ) (tok : Bytes) (a : Args) (c : ℕ) (t : Bytes)
    → classify c ≡ other
    → atfile_loop q tok a (c ∷ t) ≡ atfile_loop q (tok ++ c ∷ []) a t
unfolding atfile_loop
step_other q tok a c [] h = rw (h, atfile_loop)
step_other q tok a c (d ∷ t) h = rw (h, atfile_loop)

step_escape :
    (q : ℕ) (tok : Bytes) (a : Args) (c : ℕ) (t : Bytes)
    → c ≢ 0
    → atfile_loop q tok a (b'\\' ∷ (c ∷ t)) ≡ atfile_loop q (tok ++ c ∷ []) a t
unfolding atfile_loop classify
step_escape q tok a c t h = ground arith

step_open :
    (tok : Bytes) (a : Args) (q : ℕ) (t : Bytes)
    → classify q ≡ quote
    → atfile_loop 0 tok a (q ∷ t) ≡ atfile_loop q tok a t
unfolding atfile_loop
step_open tok a q [] h = rw (h, atfile_loop)
step_open tok a q (d ∷ t) h = rw (h, atfile_loop)

step_close :
    (tok : Bytes) (a : Args) (q : ℕ) (t : Bytes)
    → classify q ≡ quote
    → atfile_loop q tok a (q ∷ t) ≡ atfile_loop 0 tok a t
unfolding atfile_loop
step_close tok a q [] h = rw (h, atfile_loop) (ground (arith, quote-ne-zero q h))
step_close tok a q (d ∷ t) h = rw (h, atfile_loop) (ground (arith, quote-ne-zero q h))

step_inside :
    (q : ℕ) (tok : Bytes) (a : Args) (c : ℕ) (t : Bytes)
    → q ≢ 0
    → (classify c ≡ blank) ⊎ ((classify c ≡ quote) × (q ≢ c))
    → atfile_loop q tok a (c ∷ t) ≡ atfile_loop q (tok ++ c ∷ []) a t
unfolding atfile_loop
step_inside q tok a c [] h (inl b) = rw (b, atfile_loop) (ground arith)
step_inside q tok a c [] h (inr (b, n)) = rw (b, atfile_loop) (ground arith)
step_inside q tok a c (d ∷ t) h (inl b) = rw (b, atfile_loop) (ground arith)
step_inside q tok a c (d ∷ t) h (inr (b, n)) = rw (b, atfile_loop) (ground arith)

step_blank :
    (tok : Bytes) (a : Args) (c : ℕ) (t : Bytes)
    → classify c ≡ blank
    → atfile_loop 0 tok a (c ∷ t) ≡ atfile_loop 0 [] (end_token a tok) t
unfolding atfile_loop end_token
step_blank tok a c [] h = rw (h, atfile_loop)
step_blank tok a c (d ∷ t) h = rw (h, atfile_loop)

snoc : (tok : Bytes) (c : ℕ) (s : Bytes) → (tok ++ c ∷ []) ++ s ≡ tok ++ c ∷ s
snoc tok c s = append_assoc tok (c ∷ []) s

Inside-run :
    (q : ℕ) {s u : Bytes} (tok : Bytes) (a : Args) (t : Bytes)
    → q ≢ 0
    → Inside q s u
    → atfile_loop q tok a (u ++ t) ≡ atfile_loop q (tok ++ s) a t
Inside-run q tok a t n done = rw append-nil refl
Inside-run q tok a t n (letter {c = c} {s = s} {u = u} h w) =
    rw (step_other q tok a c (u ++ t) h, Inside-run q (tok ++ c ∷ []) a t n w, snoc tok c s)
Inside-run q tok a t n (space {c = c} {s = s} {u = u} h w) =
    rw
      (step_inside q tok a c (u ++ t) n (inl h), Inside-run q (tok ++ c ∷ []) a t n w, snoc tok c s)
Inside-run q tok a t n (other_quote {c = c} {s = s} {u = u} h m w) = rw (
  step_inside q tok a c (u ++ t) n (inr (h, m)),
  Inside-run q (tok ++ c ∷ []) a t n w,
  snoc tok c s,
)
Inside-run q tok a t n (escape {c = c} {s = s} {u = u} h w) =
    rw (step_escape q tok a c (u ++ t) h, Inside-run q (tok ++ c ∷ []) a t n w, snoc tok c s)

Word-run :
    {x u : Bytes} (tok : Bytes) (a : Args) (t : Bytes)
    → Word x u
    → atfile_loop 0 tok a (u ++ t) ≡ atfile_loop 0 (tok ++ x) a t
Word-run tok a t done = rw append-nil refl
Word-run tok a t (letter {c = c} {x = x} {u = u} h w) =
    rw (step_other 0 tok a c (u ++ t) h, Word-run (tok ++ c ∷ []) a t w, snoc tok c x)
Word-run tok a t (escape {c = c} {x = x} {u = u} h w) =
    rw (step_escape 0 tok a c (u ++ t) h, Word-run (tok ++ c ∷ []) a t w, snoc tok c x)
Word-run tok a t (quoted {q = q} {s = s} {u = u} {x = x} {t = v} h i w) = rw (
  append_assoc u (q ∷ v) t,
  step_open tok a q (u ++ q ∷ (v ++ t)) h,
  Inside-run q tok a (q ∷ (v ++ t)) (quote-ne-zero q h) i,
  step_close (tok ++ s) a q (v ++ t) h,
  Word-run (tok ++ s) a t w,
  append_assoc tok s x,
)

end_token-Holds :
    (x : Bytes) (xs ys : List Bytes) (a : Args)
    → Holds xs a
    → (r : List Bytes) × Holds r (end_token a x) × (r ++ ys ≡ xs ++ keep x ys)
unfolding end_token
end_token-Holds [] xs ys a h = (xs, h, refl)
end_token-Holds (c ∷ x) xs ys a h =
    (xs ++ (c ∷ x) ∷ [], args_add-Holds xs a (c ∷ x) h, append_assoc xs ((c ∷ x) ∷ []) ys)

Text-run :
    {ys : List Bytes} {t : Bytes} (xs : List Bytes) (a : Args)
    → Holds xs a
    → Text ys t
    → Holds (xs ++ ys) (atfile_loop 0 [] a t)
unfolding atfile_loop
Text-run xs a h (last {x = x} {u = u} w) =
    let (r, hr, e) = end_token-Holds x xs [] a h in
    let run = rw append-nil at (Word-run [] a [] w) in rw (← e, append-nil, run) hr
Text-run xs a h (next {x = x} {u = u} {t = t} {xs = ys} c b w rest) =
    let (r, hr, e) = end_token-Holds x xs ys a h in
    rw (← e, Word-run [] a (c ∷ t) w, step_blank x a c t b) (Text-run r (end_token a x) hr rest)

-- For every text of the grammar of words, quotes, escapes and blanks, args_init_from_gcc_atfile
-- succeeds with a structure that holds exactly the arguments that the text stands for.
pub args_init_from_gcc_atfile-Text :
    {xs : List Bytes} {t : Bytes}
    → Text xs t
    → (a : Args) × (args_init_from_gcc_atfile (some t) ≡ some a) × Holds xs a
unfolding args_init_from_gcc_atfile
args_init_from_gcc_atfile-Text {t = t} w =
    (atfile_loop 0 [] (args_init []) t, refl, Text-run [] (args_init []) (args_init-Holds []) w)
