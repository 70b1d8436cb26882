-- ===== src/Util/Traverse.antt =====
-- src/util.c: the order in which traverse calls its function.
use memccache.Base.{
  List, [], ◌∷◌, ◌++◌, Option, none, some, Bool-cases, inl, inr, if◌then◌else◌, Bytes, ◌≡◌, refl,
  sym, ap, ◌∙◌,
}
use memccache.Util.Files.{is_gone, Stat, Dir, Entries, is_skipped, traverse, traverse_entries}

abbrev joined :
    Option (List (Bytes × Stat)) → Option (List (Bytes × Stat)) → Option (List (Bytes × Stat))
joined none l = none
joined (some k) none = none
joined (some k) (some l) = some (k ++ l)

-- The calls of the function: the contents of a directory come before the directory itself.
unfoldable mutual
  pub visits : Bytes → Dir → Option (List (Bytes × Stat))
  visits dir Dir.absent = some []
  visits dir (Dir.opened es) = visits_entries dir es

  pub visits_entries : Bytes → Entries → Option (List (Bytes × Stat))
  visits_entries dir Entries.done = some []
  visits_entries dir (Entries.unknown name e es) =
      let rest = visits_entries dir es in
      if is_skipped name then rest else if is_gone e then rest else none
  visits_entries dir (Entries.file name st es) =
      let rest = visits_entries dir es in
      if is_skipped name then rest else joined (some ((dir ++ b'/' ∷ name, st) ∷ [])) rest
  visits_entries dir (Entries.directory name st sub es) =
      let rest = visits_entries dir es in
      let inside = visits (dir ++ b'/' ∷ name) sub in
      if is_skipped name
      then rest
      else joined inside (joined (some ((dir ++ b'/' ∷ name, st) ∷ [])) rest)

module _ {S : Type 0} (fn : Bytes → Stat → S → S) where
  abbrev pub call_all : List (Bytes × Stat) → S → S
  call_all [] s = s
  call_all ((fname, st) ∷ l) s = call_all l (fn fname st s)

  call_all-append :
      (k l : List (Bytes × Stat)) (s : S) → call_all (k ++ l) s ≡ call_all l (call_all k s)
  call_all-append [] l s = refl
  call_all-append ((fname, st) ∷ k) l s = call_all-append k l (fn fname st s)

  abbrev pub called : Option (List (Bytes × Stat)) → S → Option S
  called none s = none
  called (some l) s = some (call_all l s)

  -- The rest of a traversal after what was called first.
  abbrev then_rest : Option S → (S → Option S) → Option S
  then_rest none rest = none
  then_rest (some s) rest = rest s

  called-joined :
      (k l : Option (List (Bytes × Stat))) (s : S)
      → called (joined k l) s ≡ then_rest (called k s) (called l)
  called-joined none l s = refl
  called-joined (some k) none s = refl
  called-joined (some k) (some l) s = ap some (call_all-append k l s)

  after :
      (o : Option S) (f g : S → Option S)
      → ((s : S) → f s ≡ g s)
      → (elim o [ none ↦ none | some s' ↦ f s' ]) ≡ then_rest o g
  after none f g h = refl
  after (some s) f g h = h s

  mutual
    unfolding traverse traverse_entries visits visits_entries

    traverse_lem : (dir : Bytes) (d : Dir) (s : S) → traverse fn dir d s ≡ called (visits dir d) s
    traverse_lem dir Dir.absent s = refl
    traverse_lem dir (Dir.opened es) s = traverse_entries_lem dir es s

    traverse_entries_lem :
        (dir : Bytes) (es : Entries) (s : S)
        → traverse_entries fn dir es s ≡ called (visits_entries dir es) s
    traverse_entries_lem dir Entries.done s = refl
    traverse_entries_lem dir (Entries.unknown name e es) s =
        let rest = traverse_entries_lem dir es s in
        elim (Bool-cases (is_skipped name)) [
          | inl h ↦ rw (traverse_entries, visits_entries, h) rest
          | inr h ↦ elim (Bool-cases (is_gone e)) [
            | inl k ↦ rw (traverse_entries, visits_entries, h, k) rest
            | inr k ↦ rw (traverse_entries, visits_entries, h, k)
          ]
        ]
    traverse_entries_lem dir (Entries.file name st es) s = elim (Bool-cases (is_skipped name)) [
      | inl h ↦ rw (traverse_entries, visits_entries, h) (traverse_entries_lem dir es s)
      | inr h ↦
          rw (traverse_entries, visits_entries, h)
            (traverse_entries_lem dir es (fn (dir ++ b'/' ∷ name) st s)
              ∙ sym
                  (called-joined (some ((dir ++ b'/' ∷ name, st) ∷ [])) (visits_entries dir es) s))
    ]
    traverse_entries_lem dir (Entries.directory name st sub es) s =
        elim (Bool-cases (is_skipped name)) [
          | inl h ↦ rw (traverse_entries, visits_entries, h) (traverse_entries_lem dir es s)
          | inr h ↦
              let inside = traverse_lem (dir ++ b'/' ∷ name) sub s in
              rw (traverse_entries, visits_entries, h, inside)
                (after (called (visits (dir ++ b'/' ∷ name) sub) s)
                    (λ s'. traverse_entries fn dir es (fn (dir ++ b'/' ∷ name) st s'))
                    (called (joined (some ((dir ++ b'/' ∷ name, st) ∷ [])) (visits_entries dir es)))
                    (λ s'.
                      traverse_entries_lem dir es (fn (dir ++ b'/' ∷ name) st s')
                      ∙ sym (
                          called-joined (some ((dir ++ b'/' ∷ name, st) ∷ []))
                            (visits_entries dir es) s'))
                  ∙ sym (called-joined (visits (dir ++ b'/' ∷ name) sub) _ s))
        ]

  -- traverse calls its function on exactly the paths that visits lists and in that order, in
  -- which the contents of a directory come before the directory itself, and is stopped by a
  -- fatal error exactly if that list is not defined.
  pub traverse-visits :
      (dir : Bytes) (d : Dir) (s : S) → traverse fn dir d s ≡ called (visits dir d) s
  traverse-visits dir d s = traverse_lem dir d s
