-- ===== src/Conf/Written.antt =====
-- src/conf.c: the lines that conf_set_value_in_file writes, read again.
use memccache.Base.{
  ◌+◌, ◌<◌, ◌≡◌, refl, sym, ap, ◌∙◌, List, [], ◌∷◌, ◌++◌, append_assoc, All, append-nil, length,
  length-append, Bytes, codes, Bool, true, false, if◌then◌else◌, map, arith, Bool-cases, inl, inr,
}
use memccache.Conf.Line.{fgets_all, is_key_char, Parsed, parse_line, setting_line}
use memccache.Conf.File.{is_setting_of, set_lines, set_in_text}
use memccache.Conf.Replace.{
  IsLineChar, IsLine, unlines, fgets_all-unlines, IsKey, IsPlain, parse_line-setting_line,
  replace_value, has_key, set_value, written_lines,
}

-- The written line without its newline.
abbrev pair : Bytes → Bytes → Bytes
pair key value = key ++ (codes " = " ++ value)

pair-append :
    (key value rest : Bytes) → pair key value ++ 10 ∷ rest ≡ setting_line key value ++ rest
unfolding setting_line
pair-append key value rest =
    let inner : (value ++ 10 ∷ []) ++ rest ≡ value ++ 10 ∷ rest =
      append_assoc value (10 ∷ []) rest in
    append_assoc key (codes " = " ++ value) (10 ∷ rest)
    ∙ ap (λ t. key ++ (codes " = " ++ t)) (sym inner)
    ∙ sym (append_assoc key (codes " = " ++ (value ++ 10 ∷ [])) rest)

IsKey-All : (key : Bytes) → All (λ d. is_key_char d ≡ true) key → All IsLineChar key
IsKey-All [] p = tt
IsKey-All (c ∷ cs) (e, p) = ((ground arith, ground arith), IsKey-All cs p)

key-All : (key : Bytes) → IsKey key → All IsLineChar key
key-All [] k = absurd k
key-All (c ∷ cs) k = IsKey-All (c ∷ cs) k

append-All : (a b : Bytes) → All IsLineChar a → All IsLineChar b → All IsLineChar (a ++ b)
append-All [] b p q = q
append-All (c ∷ cs) b (e, p) q = (e, append-All cs b p q)

module _ (key value : Bytes) (k : IsKey key) (v : IsPlain value)
    (short : length key + length value < 9996) where
  pair-IsLine : IsLine (pair key value)
  pair-IsLine =
      let (l, s, t) = v in
      let inner : All IsLineChar (codes " = " ++ value) =
        append-All (codes " = ") value (ground arith) l in
      let total = length-append key (codes " = " ++ value) in
      (append-All key (codes " = " ++ value) (key-All key k) inner, omega arith)

  abbrev parsed : List Bytes → List Parsed
  parsed ls = map parse_line (map (λ l. l ++ 10 ∷ []) ls)

  set_lines_lem :
      (ls : List Bytes)
      → set_lines key value (map (λ l. l ++ 10 ∷ []) ls)
        ≡ (has_key key (parsed ls), unlines (written_lines key value ls))
  unfolding set_lines has_key unlines written_lines
  set_lines_lem [] = refl
  set_lines_lem (l ∷ ls) = elim (Bool-cases (is_setting_of key (parse_line (l ++ 10 ∷ [])))) [
    | inl e ↦
        rw (e, set_lines_lem ls)
          (ap (λ t. (true, t)) (sym (pair-append key value (unlines (written_lines key value ls)))))
    | inr e ↦
        rw (e, set_lines_lem ls)
          (ap (λ t. (has_key key (parsed ls), t))
            (append_assoc l (10 ∷ []) (unlines (written_lines key value ls))))
  ]

  written_lines-All : (ls : List Bytes) → All IsLine ls → All IsLine (written_lines key value ls)
  unfolding written_lines
  written_lines-All [] p = tt
  written_lines-All (l ∷ ls) (p, ps) =
      elim (Bool-cases (is_setting_of key (parse_line (l ++ 10 ∷ [])))) [
        | inl e ↦ rw e (pair-IsLine, written_lines-All ls ps)
        | inr e ↦ rw e (p, written_lines-All ls ps)
      ]

  written : parse_line (pair key value ++ 10 ∷ []) ≡ Parsed.setting key value
  written =
      ap parse_line (pair-append key value [] ∙ append-nil (setting_line key value))
      ∙ parse_line-setting_line key value k v

  parsed-written_lines :
      (ls : List Bytes) → parsed (written_lines key value ls) ≡ replace_value key value (parsed ls)
  unfolding written_lines replace_value
  parsed-written_lines [] = refl
  parsed-written_lines (l ∷ ls) =
      elim (Bool-cases (is_setting_of key (parse_line (l ++ 10 ∷ [])))) [
        | inl e ↦
            rw (e, parsed-written_lines ls)
              (ap (λ p. p ∷ replace_value key value (parsed ls)) written)
        | inr e ↦ rw (e, parsed-written_lines ls)
      ]

  unlines-last :
      (ls : List Bytes) → unlines ls ++ setting_line key value ≡ unlines (ls ++ pair key value ∷ [])
  unfolding unlines
  unlines-last [] = sym (pair-append key value [] ∙ append-nil (setting_line key value))
  unlines-last (l ∷ ls) =
      append_assoc l (10 ∷ unlines ls) (setting_line key value)
      ∙ ap (λ t. l ++ 10 ∷ t) (unlines-last ls)

  last-All : (ls : List Bytes) → All IsLine ls → All IsLine (ls ++ pair key value ∷ [])
  last-All [] p = (pair-IsLine, tt)
  last-All (l ∷ ls) (p, ps) = (p, last-All ls ps)

  -- All lines of the new text.
  abbrev new_lines : Bool → List Bytes → List Bytes
  new_lines found ls = if found then ls else ls ++ pair key value ∷ []

  set_in_text-unlines :
      (ls : List Bytes)
      → All IsLine ls
      → set_in_text key value (unlines ls)
        ≡ unlines (new_lines (has_key key (parsed ls)) (written_lines key value ls))
  unfolding set_in_text
  set_in_text-unlines ls ps =
      let step : Bool × Bytes → Bytes = λ r. if r.0 then r.1 else r.1 ++ setting_line key value in
      ap (λ bufs. step (set_lines key value bufs)) (fgets_all-unlines ls ps)
      ∙ ap step (set_lines_lem ls)
      ∙ ends (has_key key (parsed ls))
    where
      ends :
          (b : Bool)
          → (if b
              then unlines (written_lines key value ls)
              else unlines (written_lines key value ls) ++ setting_line key value)
            ≡ unlines (new_lines b (written_lines key value ls))
      ends true = refl
      ends false = unlines-last (written_lines key value ls)

  parsed_last :
      (ls : List Bytes)
      → parsed (ls ++ pair key value ∷ []) ≡ parsed ls ++ Parsed.setting key value ∷ []
  parsed_last [] = ap (λ p. p ∷ []) written
  parsed_last (l ∷ ls) = ap (λ p. parse_line (l ++ 10 ∷ []) ∷ p) (parsed_last ls)

  parsed-new_lines :
      (ls : List Bytes)
      → parsed (new_lines (has_key key (parsed ls)) (written_lines key value ls))
        ≡ set_value key value (parsed ls)
  unfolding set_value
  parsed-new_lines ls = ends (has_key key (parsed ls))
    where
      ends :
          (b : Bool)
          → parsed (new_lines b (written_lines key value ls)) ≡ (
              if b
              then replace_value key value (parsed ls)
              else replace_value key value (parsed ls) ++ Parsed.setting key value ∷ [])
      ends true = parsed-written_lines ls
      ends false =
          parsed_last (written_lines key value ls)
          ∙ ap (λ p. p ++ Parsed.setting key value ∷ []) (parsed-written_lines ls)

  new_lines-All : (b : Bool) (ls : List Bytes) → All IsLine ls → All IsLine (new_lines b ls)
  new_lines-All true ls p = p
  new_lines-All false ls p = last-All ls p

  pub parse_line-set_in_text :
      (ls : List Bytes)
      → All IsLine ls
      → map parse_line (fgets_all (set_in_text key value (unlines ls)))
        ≡ set_value key value (map parse_line (fgets_all (unlines ls)))
  parse_line-set_in_text ls ps =
      let written = written_lines key value ls in
      let found = has_key key (parsed ls) in
      ap (λ t. map parse_line (fgets_all t)) (set_in_text-unlines ls ps)
      ∙ ap (map parse_line) (
          fgets_all-unlines (new_lines found written)
            (new_lines-All found written (written_lines-All ls ps)))
      ∙ parsed-new_lines ls
      ∙ ap (λ bufs. set_value key value (map parse_line bufs)) (sym (fgets_all-unlines ls ps))
