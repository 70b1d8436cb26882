-- ===== src/Conf/Changed.antt =====
-- src/conf.c: conf_read behind conf_set_value_in_file changes one option.
use memccache.Base.{
  ℕ, ◌+◌, ◌≡◌, ◌≢◌, refl, sym, ap, ◌∙◌, List, [], ◌∷◌, ◌++◌, length, Bytes, bytes_eq, bytes_eq_refl,
  bytes_eq_sound, Option, none, some, true, false, ◌&&◌, ◌==◌, ltb, length-set, arith, Bool-cases,
  inl, inr,
}
use mathlib.Core.Path.{subst}
use memccache.Conf.Parsers.{Value, Doubles}
use memccache.Conf.Table.{ConfItem, find_conf, parse_value, verify_value}
use memccache.Conf.Setting.{Conf, assign, set_origin, field}
use memccache.Conf.Line.{Parsed}
use memccache.Conf.File.{Reading, read_lines, is_setting_of, failed_at}
use memccache.Conf.Replace.{replace_value, has_key}
use memccache.Conf.Kept.{
  Assigned, parsed_value, handle_conf_setting-ok, handle_conf_setting-unknown, find_conf_number,
}
use memccache.Conf.Change.{
  next, field-assign, handle_conf_setting-accepts, handle_conf_setting-none, read_lines_setting,
}
use memccache.Conf.Simulate.{
  IsChange, Related, Follows, setting_key-Related, setting_other-Related, setting_key-Follows,
  setting_other-Follows, setting_unknown-Follows, item-length, otherwise,
}

module _ {D : Type 0} (doubles : Doubles D) (getenv : Bytes → Option Bytes) (path : Bytes)
    (key value : Bytes) (it : ConfItem) (v : Value D)
    (change : IsChange doubles getenv path key value it v) where
  abbrev pub Goal : Conf D → Conf D → ℕ → List Parsed → Type 0
  Goal c1 d k ls = Follows doubles getenv path key value it v c1 d k ls

  abbrev pub Alike : Conf D → Conf D → Type 0
  Alike c d = Related doubles getenv path key value it v c d

  same_item : (x : ConfItem) → find_conf key ≡ some x → it ≡ x
  same_item x h =
      let (f, p, q) = change in
      let both : Path (Option ConfItem) (some it) (some x) = sym f ∙ h in ground arith

  other_number :
      (key2 : Bytes) (x : ConfItem)
      → find_conf key2 ≡ some x
      → bytes_eq key2 key ≡ false
      → x.number ≢ it.number
  other_number key2 x f2 e n =
      let (f, p, q) = change in
      let same = find_conf_number key2 key x it f2 f n in
      let equal : bytes_eq key2 key ≡ true = rw same (bytes_eq_refl key) in ground arith

  unknown_key : (key2 : Bytes) → find_conf key2 ≡ none → bytes_eq key2 key ≡ false
  unknown_key key2 h =
      let (f, p, q) = change in
      elim (Bool-cases (bytes_eq key2 key)) [
        | inl e ↦
            let both : Path (Option ConfItem) none (some it) =
              sym h ∙ ap find_conf (bytes_eq_sound key2 key e) ∙ f in
            absurd (ground arith)
        | inr e ↦ e
      ]

  simulate_ok :
      (c d c' c1 : Conf D) (k : ℕ) (key2 value2 : Bytes) (x : ConfItem) (ls : List Parsed)
      → Alike c d
      → find_conf key2 ≡ some x
      → Assigned doubles getenv c x value2 c'
      → ((d' : Conf D) → Alike c' d' → Goal c1 d' (k + 1) ls)
      → Goal c1 d k (Parsed.setting key2 value2 ∷ ls)
  simulate_ok c d c' c1 k key2 value2 x ls related f2 assigned go =
      elim (Bool-cases (bytes_eq key2 key)) [
        | inl e ↦
            let found = sym (ap find_conf (bytes_eq_sound key2 key e)) ∙ f2 in
            let back : x ≡ it = sym (same_item x found) in
            let as_it = subst (λ y. Assigned doubles getenv c y value2 c') back assigned in
            let (related', now) =
              setting_key-Related doubles getenv path key value it v c d c' value2 change related
                as_it in
            setting_key-Follows doubles getenv path key value it v c1 d k key2 value2 ls change e
              now (go (next doubles getenv d it value path) related')
        | inr e ↦
            let other = other_number key2 x f2 e in
            let (lc, ld, agree) = related in
            let (good, accepted, values) = assigned in
            let parse : Value D → Value D × Option Bytes =
              λ old. parse_value doubles getenv x.row.kind value2 old in
            let same : parse (field c x.number) ≡ parse (field d x.number) =
              ap parse (agree x.number other) in
            let ok =
              handle_conf_setting-accepts doubles getenv d key2 value2 path x f2
                (ap (λ t. t.1) (sym same) ∙ good)
                (ap (λ t. verify_value x.row.verifier t.0) (sym same) ∙ accepted) in
            let (related', kept) =
              setting_other-Related doubles getenv path key value it v c d c' x value2 other related
                assigned in
            setting_other-Follows doubles getenv path key value it v c1 d k key2 value2 x ls e ok
              kept (go (next doubles getenv d x value2 path) related')
      ]

  pub simulate :
      (c d c1 : Conf D) (k : ℕ) (ls : List Parsed)
      → Alike c d
      → read_lines doubles getenv path c k none ls ≡ Reading.reading c1 none
      → Goal c1 d k ls
  unfolding read_lines failed_at replace_value has_key is_setting_of
  simulate c d c1 k [] related h =
      let same : c ≡ c1 = ground arith in
      (
        d,
        refl,
        subst (λ y. Alike y d) same related,
        λ p. elim p [ inl t ↦ absurd (ground arith) | inr t ↦ t ],
      )
  simulate c d c1 k (Parsed.blank ∷ ls) related h = simulate c d c1 (k + 1) ls related h
  simulate c d c1 k (Parsed.missing_equal_sign ∷ ls) related h = absurd (ground arith)
  simulate c d c1 k (Parsed.setting key2 value2 ∷ ls) related h =
      elim (read_lines_setting doubles getenv path c c1 k key2 value2 ls h) [
        | inl (c', e, rest) ↦
            let (x, f2, assigned) = handle_conf_setting-ok doubles getenv c key2 value2 path c' e in
            simulate_ok c d c' c1 k key2 value2 x ls related f2 assigned
              (λ d' related'. simulate c' d' c1 (k + 1) ls related' rest)
        | inr (e, rest) ↦
            let f2 = handle_conf_setting-unknown doubles getenv c key2 value2 path e in
            setting_unknown-Follows doubles getenv path key value it v c1 d k key2 value2 ls
              (unknown_key key2 f2) (handle_conf_setting-none doubles getenv d key2 value2 path f2)
              (simulate c d c1 (k + 1) ls related rest)
      ]

  -- What is read before more lines.
  pub read_lines-append :
      (c c1 : Conf D) (k : ℕ) (ls more : List Parsed)
      → read_lines doubles getenv path c k none ls ≡ Reading.reading c1 none
      → (n : ℕ) × (read_lines doubles getenv path c k none (ls ++ more)
          ≡ read_lines doubles getenv path c1 n none more)
  unfolding read_lines failed_at
  read_lines-append c c1 k [] more h =
      let same : c ≡ c1 = ground arith in
      (k, ap (λ y. read_lines doubles getenv path y k none more) same)
  read_lines-append c c1 k (Parsed.blank ∷ ls) more h = read_lines-append c c1 (k + 1) ls more h
  read_lines-append c c1 k (Parsed.missing_equal_sign ∷ ls) more h = absurd (ground arith)
  read_lines-append c c1 k (Parsed.setting key2 value2 ∷ ls) more h =
      elim (read_lines_setting doubles getenv path c c1 k key2 value2 ls h) [
        | inl (c', e, rest) ↦
            let (n, r) = read_lines-append c' c1 (k + 1) ls more rest in (n, rw (read_lines, e) r)
        | inr (e, rest) ↦
            let (n, r) = read_lines-append c c1 (k + 1) ls more rest in (n, rw (read_lines, e) r)
      ]

  -- The setting alone.
  pub setting_last-Related :
      (c d : Conf D)
      → Alike c d
      → Alike c (next doubles getenv d it value path)
        × (field (next doubles getenv d it value path) it.number ≡ v)
  unfolding assign set_origin
  setting_last-Related c d (lc, ld, agree) =
      let (f, p, q) = change in
      let n = it.number in
      let new = parsed_value doubles getenv d it value in
      let below = item-length doubles getenv path key value it v f in
      let here : ((n == n) && ltb n (length d.values)) ≡ true = ground arith in
      (
        (
          lc,
          length-set d.values n new.0 ∙ ld,
          λ j other.
              let away : ((n == j) && ltb n (length d.values)) ≡ false = ground arith in
              agree j other
              ∙ sym (field-assign d n j new.0 path ∙ otherwise new.0 (field d j) away),
        ),
        field-assign d n n new.0 path ∙ rw here (ap (λ r. r.0) (p (field d n))),
      )

  pub read_last :
      (d : Conf D) (k : ℕ)
      → read_lines doubles getenv path d k none (Parsed.setting key value ∷ [])
        ≡ Reading.reading (next doubles getenv d it value path) none
  unfolding read_lines
  read_last d k =
      let (f, p, q) = change in
      let ok =
        handle_conf_setting-accepts doubles getenv d key value path it f
          (ap (λ t. t.1) (p (field d it.number)))
          (ap (λ t. verify_value it.row.verifier t.0) (p (field d it.number)) ∙ q) in
      rw (read_lines, ok)
