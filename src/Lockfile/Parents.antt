-- ===== src/Lockfile/Parents.antt =====
-- src/util.c: create_parent_dirs comes to an end.
use mathlib.Core.List.{reverse-append}
use memccache.Base.{
  ℕ, zero, suc, ◌<◌, List, [], ◌∷◌, reverse, length, length-append, Bool, true, false, none, some,
  ◌==◌, Bool-cases, Option-cases, inl, inr, ◌⊎◌, Bytes, codes, ◌≡◌, refl, sym, ap, ◌∙◌, arith,
}
use memccache.Util.{before_slash, dirname}
use memccache.Lockfile.{System, is_made, create_parent_dirs}

length-reverse {ℓ} : {A : Type ℓ} (xs : List A) → length (reverse xs) ≡ length xs
length-reverse [] = refl
length-reverse (x ∷ xs) =
    let e = ap length (reverse-append (x ∷ []) xs) in
    omega (arith, e, length-append (reverse xs) (x ∷ []), length-reverse xs)

length-before_slash : (s t : Bytes) → before_slash s ≡ some t → length t < length s
unfolding before_slash
length-before_slash [] t h = absurd (ground arith)
length-before_slash (c ∷ s) t h = elim (Bool-cases (c == 47)) [
  | inl e ↦
      let now : before_slash (c ∷ s) ≡ some s = rw (before_slash, e) in
      let same : some s ≡ some t = sym now ∙ h in ground arith
  | inr e ↦
      let later : before_slash (c ∷ s) ≡ before_slash s = rw (before_slash, e) in
      let less = length-before_slash s t (sym later ∙ h) in omega arith
]

-- The directory of a path is shorter, or one of the two that have no directory of their own.
pub dirname-cases :
    (path : Bytes)
    → (length (dirname path) < length path)
      ⊎ ((dirname path ≡ codes ".") ⊎ (dirname path ≡ codes "/"))
unfolding dirname
dirname-cases path = elim (Option-cases (before_slash (reverse path))) [
  | inl e ↦ inr (inl (rw (dirname, e)))
  | inr ([], e) ↦ inr (inr (rw (dirname, e)))
  | inr (c ∷ cs, e) ↦
      let less = length-before_slash (reverse path) (c ∷ cs) e in
      let shorter : dirname path ≡ reverse (c ∷ cs) = rw (dirname, e) in
      inl (omega (arith, ap length shorter, length-reverse path, length-reverse (c ∷ cs)))
]

module _ {World : Type 0} (sys : System World) where
  -- stat succeeds on a path, whatever the others do.
  abbrev pub Exists : Bytes → Type 0
  Exists path = (w : World) → (is_dir : Bool) × ((sys.stat path w).1 ≡ some is_dir)

  found_lem :
      (f : ℕ) (path : Bytes) (w : World) (is_dir : Bool)
      → (sys.stat (dirname path) w).1 ≡ some is_dir
      → (r : World × Bool) × (create_parent_dirs sys (suc f) path w ≡ some r)
  unfolding create_parent_dirs
  found_lem f path w is_dir h =
      ((((sys.stat (dirname path) w).0), is_dir), rw (create_parent_dirs, h))

  parent_lem :
      (f : ℕ) (path : Bytes) (w w' : World) (made : Bool)
      → (sys.stat (dirname path) w).1 ≡ none
      → create_parent_dirs sys f (dirname path) (sys.stat (dirname path) w).0 ≡ some (w', made)
      → (r : World × Bool) × (create_parent_dirs sys (suc f) path w ≡ some r)
  unfolding create_parent_dirs
  parent_lem f path w w' false h k = ((w', false), rw (create_parent_dirs, h, k))
  parent_lem f path w w' true h k = (
    ((sys.mkdir (dirname path) w').0, is_made (sys.mkdir (dirname path) w').1),
    rw (create_parent_dirs, h, k),
  )

  -- If stat always succeeds on the root and on the current directory, then with more fuel
  -- than the path has bytes create_parent_dirs returns, whatever the other system calls do.
  pub create_parent_dirs-returns :
      (f : ℕ) (path : Bytes) (w : World)
      → Exists (codes ".")
      → Exists (codes "/")
      → length path < f
      → (r : World × Bool) × (create_parent_dirs sys f path w ≡ some r)
  unfolding create_parent_dirs
  create_parent_dirs-returns zero path w dot root h = absurd (omega arith)
  create_parent_dirs-returns (suc f) path w dot root h = elim (dirname-cases path) [
    | inr (inl e) ↦ let (is_dir, k) = dot w in found_lem f path w is_dir (rw e k)
    | inr (inr e) ↦ let (is_dir, k) = root w in found_lem f path w is_dir (rw e k)
    | inl less ↦ elim (Option-cases (sys.stat (dirname path) w).1) [
      | inr (is_dir, k) ↦ found_lem f path w is_dir k
      | inl k ↦
          let ((w'', made), r) =
            create_parent_dirs-returns f (dirname path) (sys.stat (dirname path) w).0 dot root
              (omega arith) in
          parent_lem f path w w'' made k r
    ]
  ]
