-- ===== src/Conf/Environ.antt =====
-- src/conf.c: conf_update_from_environment.
use memccache.Base.{
  ◌≡◌, refl, sym, ap, ◌∙◌, List, [], ◌∷◌, get_elem?, drop, starts_with, Bytes, codes, bytes_eq,
  Option, none, some, Bool, true, false, not, ◌&&◌, arith, Bool-cases, Option-cases, inl, inr,
}
use memccache.Conf.Parsers.{
  Value, Doubles, confitem_verify_absolute_path, confitem_verify_dir_levels,
}
use memccache.Conf.Table.{
  Kind, Row, ConfItem, confitems, confitems_from, item, item_v, find_conf, find_env_to_conf,
  find_env_from, envtoconfitems, verify_value, Verifier,
}
use memccache.Conf.Setting.{
  Conf, Handled, Updated, is_bool, is_false_word, handle_item, handle_found, handle_conf_setting,
  assign, set_origin, verified, env_setting, env_key, split_equal, conf_update_from_environment,
}
use memccache.Conf.Kept.{find_conf_sound, verified-ok, verified-known, parsed_value}
use memccache.Conf.Change.{Handled-cases}
use memccache.Conf.Sound.{fits, is_none, is_sound, IsSound}
use memccache.Conf.Typed.{set-IsSound, parsed-is_sound}

-- The option of a row of envtoconfitems is in the table.
is_known : Option ConfItem → Bool
is_known none = false
is_known (some it) = true

all_known : List (Bytes × Bytes) → Bool
unfolding is_known
all_known [] = true
all_known (r ∷ rs) = is_known (find_conf r.1) && all_known rs

envtoconfitems_known : all_known envtoconfitems ≡ true
unfolding all_known is_known envtoconfitems find_conf confitems_from confitems item item_v bytes_eq
envtoconfitems_known = refl

find_env_from-known :
    (rs : List (Bytes × Bytes)) (name : Bytes) (r : Bytes × Bytes)
    → all_known rs ≡ true
    → find_env_from rs name ≡ some r
    → is_known (find_conf r.1) ≡ true
unfolding all_known find_env_from
find_env_from-known [] name r h e = absurd (ground arith)
find_env_from-known (x ∷ xs) name r h e = elim (Bool-cases (bytes_eq x.0 name)) [
  | inl q ↦
      let found = rw (find_env_from, q) at e in
      let same : x ≡ r = ground arith in
      let here : is_known (find_conf x.1) ≡ true = ground arith in
      ap (λ y. is_known (find_conf y.1)) (sym same) ∙ here
  | inr q ↦ find_env_from-known xs name r (ground arith) (rw (find_env_from, q) at e)
]

-- What an entry of the environment sets is an option of the table.
env_setting-known :
    (entry : Bytes) (negate : Bool) (key value : Bytes) (row : Bytes × Bytes)
    → env_setting entry ≡ some (negate, key, value, row)
    → is_known (find_conf row.1) ≡ true
unfolding env_setting find_env_to_conf
env_setting-known entry negate key value row h =
    elim (Bool-cases (starts_with entry (codes "CCACHE_"))) [
      | inr e ↦ let bad = rw (env_setting, e) at h in absurd (ground arith)
      | inl e ↦ elim (Option-cases (split_equal entry)) [
        | inl e2 ↦ let bad = rw (env_setting, e, e2) at h in absurd (ground arith)
        | inr ((name, v), e2) ↦ elim (Option-cases (find_env_to_conf (env_key (drop 7 name)).1)) [
          | inl e3 ↦ let bad = rw (env_setting, e, e2, e3) at h in absurd (ground arith)
          | inr (r, e3) ↦
              let found = rw (env_setting, e, e2, e3) at h in
              let row_of : Option (Bool × Bytes × Bytes × (Bytes × Bytes)) → Bytes × Bytes =
                λ o. elim o [ none ↦ r | some (n, k, w, y) ↦ y ] in
              let same : r ≡ row = ap row_of found in
              let key' = (env_key (drop 7 name)).1 in
              ap (λ y. is_known (find_conf y.1)) (sym same)
              ∙ find_env_from-known envtoconfitems key' r envtoconfitems_known e3
        ]
      ]
    ]

is_bool_kind : (kind : Kind) → is_bool kind ≡ true → kind ≡ Kind.bool
unfolding is_bool
is_bool_kind Kind.bool h = refl
is_bool_kind Kind.env_string h = absurd (ground arith)
is_bool_kind Kind.double h = absurd (ground arith)
is_bool_kind Kind.int h = absurd (ground arith)
is_bool_kind Kind.size h = absurd (ground arith)
is_bool_kind Kind.sloppiness h = absurd (ground arith)
is_bool_kind Kind.string h = absurd (ground arith)
is_bool_kind Kind.umask h = absurd (ground arith)
is_bool_kind Kind.unsigned h = absurd (ground arith)

module _ (D : Type 0) where
  verify_flag : (v : Verifier) (b : Bool) → verify_value {D = D} v (Value.flag b) ≡ none
  unfolding verify_value confitem_verify_absolute_path confitem_verify_dir_levels
  verify_flag Verifier.unverified b = refl
  verify_flag Verifier.absolute_path b = refl
  verify_flag Verifier.dir_levels b = refl

  flag-is_sound :
      (row : Row) (b : Bool) → is_bool row.kind ≡ true → is_sound {D = D} row (Value.flag b) ≡ true
  unfolding is_sound fits is_none
  flag-is_sound row b h = rw (is_bool_kind row.kind h, verify_flag row.verifier b)

module _ {D : Type 0} where
  -- What the environment leaves: a sound configuration, or one of the two kinds of error; no
  -- message is NULL.
  abbrev pub WellUpdated : Updated D → Type 0
  WellUpdated (Updated.updated c) = IsSound c
  WellUpdated (Updated.refused c m) = Unit
  WellUpdated (Updated.fatal m) = Unit
  WellUpdated Updated.null_message = ⊥

  abbrev WellHandled : Handled D → Type 0
  WellHandled (Handled.ok c) = IsSound c
  WellHandled (Handled.fail c m) = Unit
  WellHandled (Handled.fatal m) = Unit
  WellHandled Handled.unknown = ⊥

module _ {D : Type 0} (doubles : Doubles D) (getenv : Bytes → Option Bytes) where
  verified-WellHandled :
      (c : Conf D) (it : ConfItem) (value origin : Bytes)
      → IsSound c
      → get_elem? confitems it.number ≡ some it.row
      → WellHandled
          (verified it.row.verifier c it.number origin (parsed_value doubles getenv c it value))
  verified-WellHandled c it value origin sound stands =
      let r = parsed_value doubles getenv c it value in
      elim (Handled-cases (verified it.row.verifier c it.number origin r)) [
        | inl (c', e) ↦
            let (p, q, values) = verified-ok it.row.verifier c it.number origin r c' e in
            rw e (
              set-IsSound c c' it r.0 sound stands (parsed-is_sound doubles getenv c it value p q)
                values)
        | inr (inl e) ↦ absurd (verified-known it.row.verifier c it.number origin r e)
        | inr (inr (inl (c', m, e))) ↦ rw e tt
        | inr (inr (inr (m, e))) ↦ rw e tt
      ]

  handle_item-WellHandled :
      (c : Conf D) (it : ConfItem) (value env_name : Bytes) (negate : Bool) (origin : Bytes)
      → IsSound c
      → get_elem? confitems it.number ≡ some it.row
      → WellHandled (handle_item doubles getenv c it value (some (env_name, negate)) origin)
  unfolding handle_item assign set_origin
  handle_item-WellHandled c it value env_name negate origin sound stands =
      elim (Bool-cases (is_bool it.row.kind)) [
        | inr e ↦ rw (handle_item, e) (verified-WellHandled c it value origin sound stands)
        | inl e ↦ elim (Bool-cases (is_false_word value)) [
          | inl e2 ↦ rw (handle_item, e, e2) tt
          | inr e2 ↦
              let v = Value.flag (not negate) in
              rw (handle_item, e, e2)
                (set-IsSound c (set_origin (assign c it.number v) it.number origin) it v sound
                  stands (flag-is_sound D it.row (not negate) e) refl)
        ]
      ]

  handle_known-WellHandled :
      (c : Conf D) (conf_name value env_name : Bytes) (negate : Bool) (origin : Bytes)
      → IsSound c
      → is_known (find_conf conf_name) ≡ true
      → WellHandled
          (handle_conf_setting doubles getenv c conf_name value (some (env_name, negate)) origin)
  unfolding handle_conf_setting handle_found is_known
  handle_known-WellHandled c conf_name value env_name negate origin sound known =
      elim (Option-cases (find_conf conf_name)) [
        | inl e ↦ let bad = rw e at known in absurd (ground arith)
        | inr (it, e) ↦
            rw (handle_conf_setting, e, handle_found)
              (handle_item-WellHandled c it value env_name negate origin sound
                (find_conf_sound conf_name it e).1)
      ]

  -- From such a sound configuration, conf_update_from_environment with any environment ends
  -- with a sound configuration, with an error message, or in fatal; it never formats a
  -- message that is NULL, because each variable of its table names an item.
  pub conf_update_from_environment-WellUpdated :
      (c : Conf D) (environ : List Bytes)
      → IsSound c
      → WellUpdated (conf_update_from_environment doubles getenv c environ)
  unfolding conf_update_from_environment
  conf_update_from_environment-WellUpdated c [] sound = sound
  conf_update_from_environment-WellUpdated c (entry ∷ environ) sound =
      elim (Option-cases (env_setting entry)) [
        | inl e ↦
            rw (conf_update_from_environment, e)
              (conf_update_from_environment-WellUpdated c environ sound)
        | inr ((negate, key, value, row), e) ↦
            let known = env_setting-known entry negate key value row e in
            let origin = codes "environment" in
            let well = handle_known-WellHandled c row.1 value row.0 negate origin sound known in
            elim (Handled-cases
              (handle_conf_setting doubles getenv c row.1 value (some (row.0, negate)) origin)) [
                | inl (c', h) ↦
                    rw (conf_update_from_environment, e, h)
                      (conf_update_from_environment-WellUpdated c' environ (rw h at well))
                | inr (inl h) ↦ absurd (rw h at well)
                | inr (inr (inl (c', m, h))) ↦ rw (conf_update_from_environment, e, h) tt
                | inr (inr (inr (m, h))) ↦ rw (conf_update_from_environment, e, h) tt
              ]
      ]
