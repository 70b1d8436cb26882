-- ===== src/Conf/Typed.antt =====
-- src/conf.c: reading the file and the environment keeps the configuration sound.
use memccache.Base.{
  ℕ, ◌+◌, ◌≡◌, refl, sym, ap, ◌∙◌, List, [], ◌∷◌, length, length-set, get_elem?, set, Bytes, Option,
  none, some, Bool, true, false, ◌&&◌, ◌==◌, ltb, if◌then◌else◌, arith, inl, inr, map,
}
use memccache.Conf.Parsers.{Value, Doubles}
use memccache.Conf.Table.{Row, ConfItem, confitems, verify_value}
use memccache.Conf.Setting.{Conf, Handled, field, handle_conf_setting}
use memccache.Conf.Line.{Parsed, fgets_all, parse_line}
use memccache.Conf.File.{Reading, Opened, read_lines, conf_read, failed_at}
use memccache.Conf.Kept.{
  find_conf_sound, parsed_value, handle_conf_setting-ok, handle_conf_setting-not_fatal,
}
use memccache.Conf.Change.{field-set, Handled-cases}
use memccache.Conf.Sound.{is_none, is_sound, IsSound, parse_value-Fits}

module _ {D : Type 0} where
  -- The row of an item is assigned a sound value.
  pub set-IsSound :
      (c c' : Conf D) (it : ConfItem) (v : Value D)
      → IsSound c
      → get_elem? confitems it.number ≡ some it.row
      → is_sound it.row v ≡ true
      → c'.values ≡ set c.values it.number v
      → IsSound c'
  set-IsSound c c' it v (fields, sound) at good values =
      (ap length values ∙ length-set c.values it.number v ∙ fields, λ i row e. each i row e)
    where
      each :
          (i : ℕ) (row : Row) → get_elem? confitems i ≡ some row → is_sound row (field c' i) ≡ true
      each i row e =
          let changed = field-set c c' it.number i v values in
          ap (is_sound row) changed
          ∙ branch ((it.number == i) && ltb it.number (length c.values))
              (λ t.
                let same : it.number ≡ i = ground arith in
                let rows : Path (Option Row) (some it.row) (some row) =
                  sym at ∙ ap (get_elem? confitems) same ∙ e in
                let one : it.row ≡ row = ground arith in ap (λ r. is_sound r v) (sym one) ∙ good)
              (sound i row e)
        where
          branch :
              (b : Bool)
              → (b ≡ true → is_sound row v ≡ true)
              → is_sound row (field c i) ≡ true
              → is_sound row (if b then v else field c i) ≡ true
          branch true p q = p refl
          branch false p q = q

module _ {D : Type 0} (doubles : Doubles D) (getenv : Bytes → Option Bytes) where
  pub parsed-is_sound :
      (c : Conf D) (it : ConfItem) (value : Bytes)
      → (parsed_value doubles getenv c it value).1 ≡ none
      → verify_value it.row.verifier (parsed_value doubles getenv c it value).0 ≡ none
      → is_sound it.row (parsed_value doubles getenv c it value).0 ≡ true
  unfolding is_sound is_none
  parsed-is_sound c it value p q =
      rw (parse_value-Fits doubles getenv it.row.kind value (field c it.number) p, q)

  file_setting-IsSound :
      (c c' : Conf D) (key value origin : Bytes)
      → IsSound c
      → handle_conf_setting doubles getenv c key value none origin ≡ Handled.ok c'
      → IsSound c'
  file_setting-IsSound c c' key value origin sound h =
      let (it, f, (p, q, values)) = handle_conf_setting-ok doubles getenv c key value origin c' h in
      set-IsSound c c' it (parsed_value doubles getenv c it value).0 sound
        (find_conf_sound key it f).1 (parsed-is_sound c it value p q) values

  -- A reading without an error is sound, and a reading never calls fatal.
  abbrev pub WellRead : Reading D → Type 0
  WellRead (Reading.reading c none) = IsSound c
  WellRead (Reading.reading c (some e)) = Unit
  WellRead (Reading.fatal m) = ⊥

  read_lines-WellRead :
      (path : Bytes) (c : Conf D) (k : ℕ) (error : Option Bytes) (ls : List Parsed)
      → IsSound c
      → WellRead (read_lines doubles getenv path c k error ls)
  unfolding read_lines failed_at
  read_lines-WellRead path c k none [] sound = sound
  read_lines-WellRead path c k (some m) [] sound = tt
  read_lines-WellRead path c k error (Parsed.blank ∷ ls) sound =
      read_lines-WellRead path c (k + 1) error ls sound
  read_lines-WellRead path c k error (Parsed.missing_equal_sign ∷ ls) sound = tt
  read_lines-WellRead path c k error (Parsed.setting key value ∷ ls) sound =
      elim (Handled-cases (handle_conf_setting doubles getenv c key value none path)) [
        | inl (c', e) ↦
            rw (read_lines, e)
              (read_lines-WellRead path c' (k + 1) error ls
                (file_setting-IsSound c c' key value path sound e))
        | inr (inl e) ↦ rw (read_lines, e) (read_lines-WellRead path c (k + 1) error ls sound)
        | inr (inr (inl (c', m, e))) ↦ rw (read_lines, e) tt
        | inr (inr (inr (m, e))) ↦
            absurd (handle_conf_setting-not_fatal doubles getenv c key value path m e)
      ]

  -- From a configuration whose fields have the types of their items, no NULL among the texts,
  -- and are accepted by the verifiers, conf_read of any file never calls fatal, and where it
  -- returns without an error the new configuration is again such.
  pub conf_read-WellRead :
      (path : Bytes) (c : Conf D) (file : Opened)
      → IsSound c
      → WellRead (conf_read doubles getenv path c file)
  unfolding conf_read
  conf_read-WellRead path c (Opened.unopened m) sound = tt
  conf_read-WellRead path c (Opened.opened content error) sound =
      read_lines-WellRead path c 0 error (map parse_line (fgets_all content)) sound
