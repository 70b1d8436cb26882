-- ===== src/Exitfn/Examples.antt =====
-- src/exitfn.c with functions that write a letter.
use memccache.Base.{ℕ, List, [], ◌∷◌, ◌++◌, Bytes, ◌≡◌}
use memccache.Exitfn.{ExitFunction, State, call_each, exitfn_call}
use memccache.Exitfn.Order.{Registration, register, exitfn_call-register}

-- A function is the letter that it writes before its context.
abbrev run : ExitFunction ℕ Bytes → State ℕ Bytes Bytes → State ℕ Bytes Bytes
run (ExitFunction.function f c) s = record s { world = s.world ++ f ∷ c }
run (ExitFunction.nullary f) s = record s { world = s.world ++ f ∷ [] }

abbrev registrations : List (Registration ℕ Bytes)
registrations =
    Registration.add 1 []
    ∷ Registration.add_last 2 []
    ∷ Registration.add_nullary 3
    ∷ Registration.add_last 4 []
    ∷ []

exitfn_call-register_example :
    exitfn_call run (register registrations (record { exit_functions = []; world = [] }))
    ≡ record { exit_functions = []; world = 3 ∷ 1 ∷ 2 ∷ 4 ∷ [] }
unfolding call_each
exitfn_call-register_example = exitfn_call-register run registrations []
