-- ===== src/Exitfn/Order.antt =====
-- src/exitfn.c: the order of the calls.
use mathlib.Core.List.{reverse-append}
use memccache.Base.{List, [], ◌∷◌, ◌++◌, append_assoc, append-nil, reverse, ◌≡◌, refl, sym, ap, ◌∙◌}
use memccache.Exitfn.{
  ExitFunction, State, exitfn_add, exitfn_add_nullary, append_last, exitfn_add_last, call_each,
  exitfn_call,
}

-- The three ways to register.
pub data Registration (F C : Type 0) : Type 0 where
  add : F → C → Registration F C
  add_nullary : F → Registration F C
  add_last : F → C → Registration F C

module _ {F C : Type 0} where
  -- What the registrations put first, and what last, in the order of the registrations.
  abbrev pub firsts : List (Registration F C) → List (ExitFunction F C)
  firsts [] = []
  firsts (Registration.add f c ∷ r) = ExitFunction.function f c ∷ firsts r
  firsts (Registration.add_nullary f ∷ r) = ExitFunction.nullary f ∷ firsts r
  firsts (Registration.add_last f c ∷ r) = firsts r

  abbrev pub lasts : List (Registration F C) → List (ExitFunction F C)
  lasts [] = []
  lasts (Registration.add f c ∷ r) = lasts r
  lasts (Registration.add_nullary f ∷ r) = lasts r
  lasts (Registration.add_last f c ∷ r) = ExitFunction.function f c ∷ lasts r

  append_last_lem :
      (ps : List (ExitFunction F C)) (p : ExitFunction F C) → append_last ps p ≡ ps ++ p ∷ []
  unfolding append_last
  append_last_lem [] p = refl
  append_last_lem (q ∷ qs) p = ap (λ l. q ∷ l) (append_last_lem qs p)

  step :
      (p : ExitFunction F C) (fs mid ls : List (ExitFunction F C))
      → reverse fs ++ ((p ∷ mid) ++ ls) ≡ reverse (p ∷ fs) ++ (mid ++ ls)
  step p fs mid ls =
      sym (append_assoc (reverse fs) (p ∷ []) (mid ++ ls))
      ∙ ap (λ l. l ++ (mid ++ ls)) (sym (reverse-append (p ∷ []) fs))

  module _ {World : Type 0} where
    unfoldable pub register : List (Registration F C) → State F C World → State F C World
    register [] s = s
    register (Registration.add f c ∷ r) s = register r (exitfn_add s (ExitFunction.function f c))
    register (Registration.add_nullary f ∷ r) s = register r (exitfn_add_nullary s f)
    register (Registration.add_last f c ∷ r) s =
        register r (exitfn_add_last s (ExitFunction.function f c))

    register_lem :
        (r : List (Registration F C)) (s : State F C World)
        → (register r s).exit_functions ≡ reverse (firsts r) ++ (s.exit_functions ++ lasts r)
    unfolding register exitfn_add exitfn_add_nullary exitfn_add_last
    register_lem [] s = sym (append-nil s.exit_functions)
    register_lem (Registration.add f c ∷ r) s =
        register_lem r (exitfn_add s (ExitFunction.function f c))
        ∙ step (ExitFunction.function f c) (firsts r) s.exit_functions (lasts r)
    register_lem (Registration.add_nullary f ∷ r) s =
        register_lem r (exitfn_add_nullary s f)
        ∙ step (ExitFunction.nullary f) (firsts r) s.exit_functions (lasts r)
    register_lem (Registration.add_last f c ∷ r) s =
        register_lem r (exitfn_add_last s (ExitFunction.function f c))
        ∙ ap (λ l. reverse (firsts r) ++ (l ++ lasts r))
            (append_last_lem s.exit_functions (ExitFunction.function f c))
        ∙ ap (λ l. reverse (firsts r) ++ l)
            (append_assoc s.exit_functions (ExitFunction.function f c ∷ []) (lasts r))

    register-world :
        (r : List (Registration F C)) (s : State F C World) → (register r s).world ≡ s.world
    unfolding register exitfn_add exitfn_add_nullary exitfn_add_last
    register-world [] s = refl
    register-world (Registration.add f c ∷ r) s = register-world r _
    register-world (Registration.add_nullary f ∷ r) s = register-world r _
    register-world (Registration.add_last f c ∷ r) s = register-world r _

    -- After some registrations with exitfn_add, exitfn_add_nullary and exitfn_add_last on
    -- an empty list, exitfn_call runs the functions of the first two in reverse order of
    -- registration, and then those of exitfn_add_last in their order, starting with an
    -- empty list.
    pub exitfn_call-register :
        (run : ExitFunction F C → State F C World → State F C World) (r : List (Registration F C))
        (w : World)
        → exitfn_call run (register r (record { exit_functions = []; world = w }))
          ≡ call_each run
              (reverse (firsts r) ++ lasts r)
              (record { exit_functions = []; world = w })
    unfolding exitfn_call
    exitfn_call-register run r w =
        let order = register_lem r (record { exit_functions = []; world = w }) in
        let same = register-world r (record { exit_functions = []; world = w }) in
        rw (exitfn_call, order, same)
