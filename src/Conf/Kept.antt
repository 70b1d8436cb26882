-- ===== src/Conf/Kept.antt =====
-- src/conf.c: what conf_read leaves in the item of a key.
use memccache.Base.{
  ℕ, suc, ◌-◌, ◌≤◌, ◌≡◌, refl, sym, ap, ◌∙◌, List, [], ◌∷◌, get_elem?, set, Bytes, bytes_eq,
  bytes_eq_sound, Option, none, some, arith, Bool-cases, inl, inr,
}
use memccache.Conf.Parsers.{Value, Doubles}
use memccache.Conf.Table.{
  Row, ConfItem, confitems, confitems_from, find_conf, parse_value, verify_value, Verifier,
}
use memccache.Conf.Setting.{
  Conf, Handled, assign, accepted, set_origin, field, verified, handle_item, handle_found,
  handle_conf_setting,
}

-- A row that is found has the name, and stands at its number.
confitems_from_sound :
    (i : ℕ) (rs : List Row) (name : Bytes) (it : ConfItem)
    → confitems_from i rs name ≡ some it
    → (it.row.name ≡ name) × (i ≤ it.number) × (get_elem? rs (it.number - i) ≡ some it.row)
unfolding confitems_from
confitems_from_sound i [] name it h = absurd (ground arith)
confitems_from_sound i (r ∷ rs) name it h = elim (Bool-cases (bytes_eq r.name name)) [
  | inl e ↦
      let here : Path ConfItem (record { row = r; number = i }) it = ground arith in
      let row : r ≡ it.row = ap (λ t. t.row) here in
      let number : i ≡ it.number = ap (λ t. t.number) here in
      let first : it.number - i ≡ 0 = omega arith in
      (
        sym (ap (λ t. t.row.name) here) ∙ bytes_eq_sound r.name name e,
        omega arith,
        rw first (ap some row),
      )
  | inr e ↦
      let (n, lo, at) = confitems_from_sound (suc i) rs name it (rw e at h) in
      let next : it.number - i ≡ suc (it.number - suc i) = omega arith in
      (n, omega arith, rw next at)
]

-- The item that find_conf yields: its name is the key, and its row stands at its number.
pub find_conf_sound :
    (key : Bytes) (it : ConfItem)
    → find_conf key ≡ some it
    → (it.row.name ≡ key) × (get_elem? confitems it.number ≡ some it.row)
unfolding find_conf
find_conf_sound key it h =
    let (n, lo, stands) = confitems_from_sound 0 confitems key it h in
    let number : it.number - 0 ≡ it.number = omega arith in (n, rw number at stands)

-- Two keys with one number are the same.
pub find_conf_number :
    (a b : Bytes) (x y : ConfItem)
    → find_conf a ≡ some x
    → find_conf b ≡ some y
    → x.number ≡ y.number
    → a ≡ b
find_conf_number a b x y h g e =
    let (na, ra) = find_conf_sound a x h in
    let (nb, rb) = find_conf_sound b y g in
    let rows : Path (Option Row) (some x.row) (some y.row) =
      sym ra ∙ ap (get_elem? confitems) e ∙ rb in
    let row : x.row ≡ y.row = ground arith in sym na ∙ ap (λ r. r.name) row ∙ nb

values_of : {D : Type 0} → Handled D → List (Value D)
values_of (Handled.ok c) = c.values
values_of Handled.unknown = []
values_of (Handled.fail c m) = []
values_of (Handled.fatal m) = []

accepted-ok :
    {D : Type 0} (c : Conf D) (i : ℕ) (origin : Bytes) (value : Value D) (o : Option Bytes)
    (c' : Conf D)
    → accepted c i origin value o ≡ Handled.ok c'
    → (o ≡ none) × (c'.values ≡ set c.values i value)
unfolding accepted assign set_origin values_of
accepted-ok c i origin value none c' h = (refl, sym (ap values_of h))
accepted-ok c i origin value (some m) c' h = absurd (ground arith)

-- A setting that succeeds has assigned what the parser gives and the verifier accepts.
pub verified-ok :
    {D : Type 0} (v : Verifier) (c : Conf D) (i : ℕ) (origin : Bytes) (r : Value D × Option Bytes)
    (c' : Conf D)
    → verified v c i origin r ≡ Handled.ok c'
    → (r.1 ≡ none) × (verify_value v r.0 ≡ none) × (c'.values ≡ set c.values i r.0)
unfolding verified
verified-ok v c i origin (value, some errmsg) c' h = absurd (ground arith)
verified-ok v c i origin (value, none) c' h =
    let (e, values) = accepted-ok c i origin value (verify_value v value) c' h in (refl, e, values)

accepted-known :
    {D : Type 0} (c : Conf D) (i : ℕ) (origin : Bytes) (value : Value D) (o : Option Bytes)
    → accepted c i origin value o ≡ Handled.unknown
    → ⊥
unfolding accepted
accepted-known c i origin value none h = ground arith
accepted-known c i origin value (some m) h = ground arith

accepted-not_fatal :
    {D : Type 0} (c : Conf D) (i : ℕ) (origin : Bytes) (value : Value D) (o : Option Bytes)
    (m : Bytes)
    → accepted c i origin value o ≡ Handled.fatal m
    → ⊥
unfolding accepted
accepted-not_fatal c i origin value none m h = ground arith
accepted-not_fatal c i origin value (some n) m h = ground arith

verified-not_fatal :
    {D : Type 0} (v : Verifier) (c : Conf D) (i : ℕ) (origin : Bytes) (r : Value D × Option Bytes)
    (m : Bytes)
    → verified v c i origin r ≡ Handled.fatal m
    → ⊥
unfolding verified
verified-not_fatal v c i origin (value, some errmsg) m h = ground arith
verified-not_fatal v c i origin (value, none) m h =
    accepted-not_fatal c i origin value (verify_value v value) m h

pub verified-known :
    {D : Type 0} (v : Verifier) (c : Conf D) (i : ℕ) (origin : Bytes) (r : Value D × Option Bytes)
    → verified v c i origin r ≡ Handled.unknown
    → ⊥
unfolding verified accepted
verified-known v c i origin (value, some errmsg) h = ground arith
verified-known v c i origin (value, none) h =
    accepted-known c i origin value (verify_value v value) h

module _ {D : Type 0} (doubles : Doubles D) (getenv : Bytes → Option Bytes) where
  abbrev pub parsed_value : Conf D → ConfItem → Bytes → Value D × Option Bytes
  parsed_value c it value = parse_value doubles getenv it.row.kind value (field c it.number)

  -- A setting from a file that succeeds: the parsed and verified value is in the item's field.
  abbrev pub Assigned : Conf D → ConfItem → Bytes → Conf D → Type 0
  Assigned c it value c' =
      ((parsed_value c it value).1 ≡ none)
      × (verify_value it.row.verifier (parsed_value c it value).0 ≡ none)
      × (c'.values ≡ set c.values it.number (parsed_value c it value).0)

  handle_found-ok :
      (c : Conf D) (o : Option ConfItem) (value origin : Bytes) (c' : Conf D)
      → handle_found doubles getenv c o value none origin ≡ Handled.ok c'
      → (it : ConfItem) × (o ≡ some it) × Assigned c it value c'
  unfolding handle_found handle_item
  handle_found-ok c none value origin c' h = absurd (ground arith)
  handle_found-ok c (some it) value origin c' h =
      (it, refl, verified-ok it.row.verifier c it.number origin (parsed_value c it value) c' h)

  pub handle_conf_setting-ok :
      (c : Conf D) (key value origin : Bytes) (c' : Conf D)
      → handle_conf_setting doubles getenv c key value none origin ≡ Handled.ok c'
      → (it : ConfItem) × (find_conf key ≡ some it) × Assigned c it value c'
  unfolding handle_conf_setting
  handle_conf_setting-ok c key value origin c' h =
      handle_found-ok c (find_conf key) value origin c' h

  -- A setting from a file is unknown exactly without an item, and never fatal.
  handle_found-unknown :
      (c : Conf D) (o : Option ConfItem) (value origin : Bytes)
      → handle_found doubles getenv c o value none origin ≡ Handled.unknown
      → o ≡ none
  unfolding handle_found handle_item
  handle_found-unknown c none value origin h = refl
  handle_found-unknown c (some it) value origin h =
      absurd (verified-known it.row.verifier c it.number origin (parsed_value c it value) h)

  pub handle_conf_setting-unknown :
      (c : Conf D) (key value origin : Bytes)
      → handle_conf_setting doubles getenv c key value none origin ≡ Handled.unknown
      → find_conf key ≡ none
  unfolding handle_conf_setting
  handle_conf_setting-unknown c key value origin h =
      handle_found-unknown c (find_conf key) value origin h

  handle_found-not_fatal :
      (c : Conf D) (o : Option ConfItem) (value origin m : Bytes)
      → handle_found doubles getenv c o value none origin ≡ Handled.fatal m
      → ⊥
  unfolding handle_found handle_item
  handle_found-not_fatal c none value origin m h = ground arith
  handle_found-not_fatal c (some it) value origin m h =
      verified-not_fatal it.row.verifier c it.number origin (parsed_value c it value) m h

  -- A setting from a file never calls fatal.
  pub handle_conf_setting-not_fatal :
      (c : Conf D) (key value origin m : Bytes)
      → handle_conf_setting doubles getenv c key value none origin ≡ Handled.fatal m
      → ⊥
  unfolding handle_conf_setting
  handle_conf_setting-not_fatal c key value origin m h =
      handle_found-not_fatal c (find_conf key) value origin m h
