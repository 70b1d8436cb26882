-- ===== src/Exitfn.antt =====
-- src/exitfn.c: the functions that are called when the program exits.
-- The list exit_functions is part of a state with the rest of the program's world. What calling a
-- function does to that state is a parameter. exitfn_init registers exitfn_call with atexit.
pub mod Order
mod Examples
use memccache.Base.{List, [], ◌∷◌}

-- A function with its context, or the wrapped nullary function.
pub data ExitFunction (F C : Type 0) : Type 0 where
  function : F → C → ExitFunction F C
  nullary : F → ExitFunction F C

pub record State (F C World : Type 0) : Type 0 where
  pub exit_functions : List (ExitFunction F C)
  pub world : World

module _ {F C : Type 0} where
  -- The walk to the end of the list.
  unfoldable pub append_last : List (ExitFunction F C) → ExitFunction F C → List (ExitFunction F C)
  append_last [] p = p ∷ []
  append_last (q ∷ qs) p = q ∷ append_last qs p

module _ {F C World : Type 0} where
  unfoldable pub exitfn_add : State F C World → ExitFunction F C → State F C World
  exitfn_add s p = record s { exit_functions = p ∷ s.exit_functions }

  unfoldable pub exitfn_add_nullary : State F C World → F → State F C World
  unfolding exitfn_add
  exitfn_add_nullary s f = exitfn_add s (ExitFunction.nullary f)

  unfoldable pub exitfn_add_last : State F C World → ExitFunction F C → State F C World
  unfolding append_last
  exitfn_add_last s p = record s { exit_functions = append_last s.exit_functions p }

  module _ (run : ExitFunction F C → State F C World → State F C World) where
    -- The loop over the taken list.
    unfoldable pub call_each : List (ExitFunction F C) → State F C World → State F C World
    call_each [] s = s
    call_each (p ∷ ps) s = call_each ps (run p s)

    unfoldable pub exitfn_call : State F C World → State F C World
    unfolding call_each
    exitfn_call s = call_each s.exit_functions (record s { exit_functions = [] })
