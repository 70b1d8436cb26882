-- ===== src/Conf/Created.antt =====
-- src/conf.c: conf_create makes a sound configuration.
use memccache.Base.{
  ℕ, zero, suc, ◌≡◌, refl, List, [], ◌∷◌, get_elem?, get_or, Bytes, none, some, Bool, true, false,
  ◌&&◌, arith, ap, sym, ◌∙◌,
}
use memccache.Conf.Parsers.{
  Value, Doubles, confitem_verify_absolute_path, confitem_verify_dir_levels,
}
use memccache.Conf.Table.{Row, confitems, item, item_v, verify_value}
use memccache.Conf.Setting.{field, conf_create}
use memccache.Conf.Sound.{fits, is_none, is_sound, IsSound}

module _ {D : Type 0} where
  all_sound : List Row → List (Value D) → Bool
  unfolding is_sound
  all_sound [] vs = true
  all_sound (r ∷ rs) [] = false
  all_sound (r ∷ rs) (v ∷ vs) = is_sound r v && all_sound rs vs

  all_sound-get_or :
      (rs : List Row) (vs : List (Value D)) (i : ℕ) (row : Row)
      → all_sound rs vs ≡ true
      → get_elem? rs i ≡ some row
      → is_sound row (get_or vs i (Value.text none)) ≡ true
  unfolding all_sound
  all_sound-get_or [] vs i row h e = absurd (ground arith)
  all_sound-get_or (r ∷ rs) [] i row h e = absurd (ground arith)
  all_sound-get_or (r ∷ rs) (v ∷ vs) zero row h e =
      let same : r ≡ row = ground arith in
      let here : is_sound r v ≡ true = ground arith in ap (λ y. is_sound y v) (sym same) ∙ here
  all_sound-get_or (r ∷ rs) (v ∷ vs) (suc i) row h e = all_sound-get_or rs vs i row (ground arith) e

  conf_create_sound :
      (doubles : Doubles D) (home : Bytes)
      → all_sound confitems (conf_create doubles home).values ≡ true
  unfolding all_sound confitems item item_v conf_create is_sound fits is_none verify_value
      confitem_verify_absolute_path confitem_verify_dir_levels
  conf_create_sound doubles home = refl

  pub conf_create-IsSound :
      (doubles : Doubles D) (home : Bytes) → IsSound (conf_create doubles home)
  unfolding confitems conf_create field
  conf_create-IsSound doubles home = (
    refl,
    λ i row e.
        all_sound-get_or confitems (conf_create doubles home).values i row
          (conf_create_sound doubles home) e,
  )
