-- ===== src/Conf/Change.antt =====
-- src/conf.c: conf_read of a file that conf_set_value_in_file has changed.
use memccache.Base.{
  ℕ, ◌+◌, ◌≡◌, ◌≢◌, refl, ap, ◌∙◌, List, ◌∷◌, length, get_or, set, get_or-set, Bytes, Option, none,
  some, ◌&&◌, ◌==◌, ltb, if◌then◌else◌, arith, ◌⊎◌, inl, inr,
}
use memccache.Conf.Parsers.{Value, Doubles}
use memccache.Conf.Table.{ConfItem, confitems, find_conf, verify_value, Verifier}
use memccache.Conf.Setting.{
  Conf, Handled, assign, accepted, set_origin, field, verified, handle_item, handle_found,
  handle_conf_setting,
}
use memccache.Conf.Line.{Parsed}
use memccache.Conf.File.{Reading, failed_at, read_lines}
use memccache.Conf.Kept.{parsed_value}

module _ {D : Type 0} where
  verified-accepts :
      (v : Verifier) (c : Conf D) (i : ℕ) (origin : Bytes) (r : Value D × Option Bytes)
      → r.1 ≡ none
      → verify_value v r.0 ≡ none
      → verified v c i origin r ≡ Handled.ok (set_origin (assign c i r.0) i origin)
  unfolding verified accepted
  verified-accepts v c i origin (value, some m) e a = absurd (ground arith)
  verified-accepts v c i origin (value, none) e a = rw a

  pub field-assign :
      (c : Conf D) (i j : ℕ) (v : Value D) (origin : Bytes)
      → field (set_origin (assign c i v) i origin) j
        ≡ (if (i == j) && ltb i (length c.values) then v else field c j)
  unfolding field assign set_origin
  field-assign c i j v origin = get_or-set c.values i j v (Value.text none)

  pub field-set :
      (c c' : Conf D) (i j : ℕ) (v : Value D)
      → c'.values ≡ set c.values i v
      → field c' j ≡ (if (i == j) && ltb i (length c.values) then v else field c j)
  unfolding field
  field-set c c' i j v e =
      ap (λ vs. get_or vs j (Value.text none)) e ∙ get_or-set c.values i j v (Value.text none)

  pub Handled-cases :
      (h : Handled D)
      → ((c : Conf D) × (h ≡ Handled.ok c))
        ⊎ ((h ≡ Handled.unknown)
            ⊎ (((c : Conf D) × (m : Bytes) × (h ≡ Handled.fail c m))
                ⊎ ((m : Bytes) × (h ≡ Handled.fatal m))))
  Handled-cases (Handled.ok c) = inl (c, refl)
  Handled-cases Handled.unknown = inr (inl refl)
  Handled-cases (Handled.fail c m) = inr (inr (inl (c, m, refl)))
  Handled-cases (Handled.fatal m) = inr (inr (inr (m, refl)))

  -- The same fields but for one.
  abbrev pub Agree : ℕ → Conf D → Conf D → Type 0
  Agree n c d = (j : ℕ) → j ≢ n → field c j ≡ field d j

  -- All fields are there.
  abbrev pub HasFields : Conf D → Type 0
  HasFields c = length c.values ≡ length confitems

module _ {D : Type 0} (doubles : Doubles D) (getenv : Bytes → Option Bytes) where
  -- The conf that a good setting leaves.
  abbrev pub next : Conf D → ConfItem → Bytes → Bytes → Conf D
  next c it value path =
      set_origin (assign c it.number (parsed_value doubles getenv c it value).0) it.number path

  pub handle_conf_setting-accepts :
      (c : Conf D) (key value path : Bytes) (it : ConfItem)
      → find_conf key ≡ some it
      → (parsed_value doubles getenv c it value).1 ≡ none
      → verify_value it.row.verifier (parsed_value doubles getenv c it value).0 ≡ none
      → handle_conf_setting doubles getenv c key value none path ≡ Handled.ok (next c it value path)
  unfolding handle_conf_setting handle_found handle_item
  handle_conf_setting-accepts c key value path it f p v =
      rw (f, handle_found, handle_item)
        (verified-accepts it.row.verifier c it.number path (parsed_value doubles getenv c it value)
          p v)

  pub handle_conf_setting-none :
      (c : Conf D) (key value path : Bytes)
      → find_conf key ≡ none
      → handle_conf_setting doubles getenv c key value none path ≡ Handled.unknown
  unfolding handle_conf_setting handle_found
  handle_conf_setting-none c key value path f = rw f

  -- A reading without an error goes on behind a setting.
  pub read_lines_setting :
      (path : Bytes) (c c1 : Conf D) (k : ℕ) (key value : Bytes) (ls : List Parsed)
      → read_lines doubles getenv path c k none (Parsed.setting key value ∷ ls)
        ≡ Reading.reading c1 none
      → ((c' : Conf D) × (handle_conf_setting doubles getenv c key value none path ≡ Handled.ok c')
          × (read_lines doubles getenv path c' (k + 1) none ls ≡ Reading.reading c1 none))
        ⊎ ((handle_conf_setting doubles getenv c key value none path ≡ Handled.unknown)
            × (read_lines doubles getenv path c (k + 1) none ls ≡ Reading.reading c1 none))
  unfolding read_lines failed_at
  read_lines_setting path c c1 k key value ls h =
      elim (Handled-cases (handle_conf_setting doubles getenv c key value none path)) [
        | inl (c', e) ↦ inl (c', e, rw (read_lines, e) at h)
        | inr (inl e) ↦ inr (e, rw (read_lines, e) at h)
        | inr (inr (inl (c', m, e))) ↦ let bad = rw (read_lines, e) at h in absurd (ground arith)
        | inr (inr (inr (m, e))) ↦ let bad = rw (read_lines, e) at h in absurd (ground arith)
      ]
