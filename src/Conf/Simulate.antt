-- ===== src/Conf/Simulate.antt =====
-- src/conf.c: conf_read of two files that differ in the value of one key.
use memccache.Base.{
  ℕ, zero, suc, ◌+◌, ◌<◌, ◌≡◌, ◌≢◌, sym, ap, ◌∙◌, List, [], ◌∷◌, length, get_elem?, length-set,
  Bytes, bytes_eq, Option, none, some, Bool, true, false, ◌&&◌, ◌==◌, ltb, if◌then◌else◌, arith,
  ◌⊎◌, inl, inr,
}
use memccache.Conf.Parsers.{Value, Doubles}
use memccache.Conf.Table.{ConfItem, confitems, find_conf, parse_value, verify_value}
use memccache.Conf.Setting.{Conf, Handled, set_origin, assign, field, handle_conf_setting}
use memccache.Conf.Line.{Parsed}
use memccache.Conf.File.{Reading, read_lines, is_setting_of}
use memccache.Conf.Replace.{replace_value, has_key}
use memccache.Conf.Kept.{Assigned, parsed_value, find_conf_sound}
use memccache.Conf.Change.{
  Agree, HasFields, next, field-assign, field-set, handle_conf_setting-accepts,
}

-- The numbers of the items are below the length of the table.
pub get_elem?-length :
    {A : Type 0} (xs : List A) (i : ℕ) (a : A) → get_elem? xs i ≡ some a → i < length xs
get_elem?-length [] i a h = absurd (ground arith)
get_elem?-length (x ∷ xs) zero a h = omega arith
get_elem?-length (x ∷ xs) (suc i) a h = let ih = get_elem?-length xs i a h in omega arith

pub otherwise : {A : Type 0} {b : Bool} (x y : A) → b ≡ false → (if b then x else y) ≡ y
otherwise x y e = λ i. if e i then x else y

choice :
    {A : Type 0} (b b' : Bool) (x x' y y' : A)
    → b ≡ b'
    → x ≡ x'
    → y ≡ y'
    → (if b then x else y) ≡ (if b' then x' else y')
choice b b' x x' y y' e p q = λ i. if e i then p i else q i

module _ {D : Type 0} (doubles : Doubles D) (getenv : Bytes → Option Bytes) (path : Bytes)
    (key value : Bytes) (it : ConfItem) (v : Value D) where
  -- What is known of the setting: its item, and the value that the parser gives for all fields.
  abbrev pub IsChange : Type 0
  IsChange =
      (find_conf key ≡ some it)
      × ((old : Value D) → parse_value doubles getenv it.row.kind value old ≡ (v, none))
      × (verify_value it.row.verifier v ≡ none)

  -- The two readings: fields but for the item's agree.
  abbrev pub Related : Conf D → Conf D → Type 0
  Related c d = HasFields c × HasFields d × Agree it.number c d

  pub item-length : find_conf key ≡ some it → it.number < length confitems
  item-length f = get_elem?-length confitems it.number it.row (find_conf_sound key it f).1

  pub setting_key-Related :
      (c d c' : Conf D) (value2 : Bytes)
      → IsChange
      → Related c d
      → Assigned doubles getenv c it value2 c'
      → Related c' (next doubles getenv d it value path)
        × (field (next doubles getenv d it value path) it.number ≡ v)
  unfolding assign set_origin
  setting_key-Related c d c' value2 (f, p, q) (lc, ld, agree) (e, w, values) =
      let n = it.number in
      let old = parsed_value doubles getenv c it value2 in
      let new = parsed_value doubles getenv d it value in
      let below = item-length f in
      let fields = field-assign d n n new.0 path in
      let here : ((n == n) && ltb n (length d.values)) ≡ true = ground arith in
      (
        (
          ap length values ∙ length-set c.values n old.0 ∙ lc,
          length-set d.values n new.0 ∙ ld,
          λ j other.
              let away : ((n == j) && ltb n (length c.values)) ≡ false = ground arith in
              let away2 : ((n == j) && ltb n (length d.values)) ≡ false = ground arith in
              field-set c c' n j old.0 values
              ∙ otherwise old.0 (field c j) away
              ∙ agree j other
              ∙ sym (field-assign d n j new.0 path ∙ otherwise new.0 (field d j) away2),
        ),
        fields ∙ rw here (ap (λ r. r.0) (p (field d n))),
      )

  pub setting_other-Related :
      (c d c' : Conf D) (x : ConfItem) (value2 : Bytes)
      → x.number ≢ it.number
      → Related c d
      → Assigned doubles getenv c x value2 c'
      → Related c' (next doubles getenv d x value2 path)
        × (field (next doubles getenv d x value2 path) it.number ≡ field d it.number)
  unfolding assign set_origin
  setting_other-Related c d c' x value2 other (lc, ld, agree) (e, w, values) =
      let m = x.number in
      let old = parsed_value doubles getenv c x value2 in
      let new = parsed_value doubles getenv d x value2 in
      let same : old.0 ≡ new.0 =
        ap (λ t. (parse_value doubles getenv x.row.kind value2 t).0) (agree m other) in
      let lengths : length c.values ≡ length d.values = lc ∙ sym ld in
      let away : ((m == it.number) && ltb m (length d.values)) ≡ false = ground arith in
      (
        (
          ap length values ∙ length-set c.values m old.0 ∙ lc,
          length-set d.values m new.0 ∙ ld,
          λ j apart.
              field-set c c' m j old.0 values
              ∙ choice ((m == j) && ltb m (length c.values)) ((m == j) && ltb m (length d.values))
                  old.0 new.0 (field c j) (field d j) (ap (λ l. (m == j) && ltb m l) lengths) same
                  (agree j apart)
              ∙ sym (field-assign d m j new.0 path),
        ),
        field-assign d m it.number new.0 path ∙ otherwise new.0 (field d it.number) away,
      )

  -- The item has the value, if it had it before or the key is set.
  abbrev pub Has : Conf D → Conf D → List Parsed → Type 0
  Has d d1 ls = ((has_key key ls ≡ true) ⊎ (field d it.number ≡ v)) → field d1 it.number ≡ v

  -- The second reading, beside a first one that ends with c1.
  abbrev pub Follows : Conf D → Conf D → ℕ → List Parsed → Type 0
  Follows c1 d k ls =
      (d1 : Conf D) × (read_lines doubles getenv path d k none (replace_value key value ls)
        ≡ Reading.reading d1 none)
      × Related c1 d1
      × Has d d1 ls

  -- A setting of the key itself.
  pub setting_key-Follows :
      (c1 d : Conf D) (k : ℕ) (key2 value2 : Bytes) (ls : List Parsed)
      → IsChange
      → bytes_eq key2 key ≡ true
      → field (next doubles getenv d it value path) it.number ≡ v
      → Follows c1 (next doubles getenv d it value path) (k + 1) ls
      → Follows c1 d k (Parsed.setting key2 value2 ∷ ls)
  unfolding replace_value is_setting_of read_lines has_key
  setting_key-Follows c1 d k key2 value2 ls (f, p, q) e now (d1, r, related, has) =
      let fine : (parsed_value doubles getenv d it value).1 ≡ none =
        ap (λ t. t.1) (p (field d it.number)) in
      let accepted : verify_value it.row.verifier (parsed_value doubles getenv d it value).0
          ≡ none =
        ap (λ t. verify_value it.row.verifier t.0) (p (field d it.number)) ∙ q in
      let ok = handle_conf_setting-accepts doubles getenv d key value path it f fine accepted in
      (d1, rw (e, read_lines, ok) r, related, λ h. has (inr now))

  -- A setting of another key that has an item.
  pub setting_other-Follows :
      (c1 d : Conf D) (k : ℕ) (key2 value2 : Bytes) (x : ConfItem) (ls : List Parsed)
      → bytes_eq key2 key ≡ false
      → handle_conf_setting doubles getenv d key2 value2 none path
        ≡ Handled.ok (next doubles getenv d x value2 path)
      → field (next doubles getenv d x value2 path) it.number ≡ field d it.number
      → Follows c1 (next doubles getenv d x value2 path) (k + 1) ls
      → Follows c1 d k (Parsed.setting key2 value2 ∷ ls)
  unfolding replace_value is_setting_of read_lines has_key
  setting_other-Follows c1 d k key2 value2 x ls e ok same (d1, r, related, has) = (
    d1,
    rw (e, read_lines, ok) r,
    related,
    λ h. elim h [ inl t ↦ has (inl (rw e at t)) | inr t ↦ has (inr (same ∙ t)) ],
  )

  -- A setting of a key without an item.
  pub setting_unknown-Follows :
      (c1 d : Conf D) (k : ℕ) (key2 value2 : Bytes) (ls : List Parsed)
      → bytes_eq key2 key ≡ false
      → handle_conf_setting doubles getenv d key2 value2 none path ≡ Handled.unknown
      → Follows c1 d (k + 1) ls
      → Follows c1 d k (Parsed.setting key2 value2 ∷ ls)
  unfolding replace_value is_setting_of read_lines has_key
  setting_unknown-Follows c1 d k key2 value2 ls e unknown (d1, r, related, has) = (
    d1,
    rw (e, read_lines, unknown) r,
    related,
    λ h. elim h [ inl t ↦ has (inl (rw e at t)) | inr t ↦ has (inr t) ],
  )
