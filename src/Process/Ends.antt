-- ===== src/Process/Ends.antt =====
-- cc_process_args of src/ccache.c: the loop over the arguments and a file that names itself.
use memccache.Base.{ℕ, zero, suc, ◌≡◌, refl, List, [], ◌∷◌, Bytes, bytes_eq, starts_with, some}
use memccache.Process.{Host, State}
use memccache.Process.Loop.{
  Outcome, expanded_round, argument_round, file_args, is_atfile, atfile_path, process_loop,
}

-- If the file behind @path holds the one argument @path, then the loop over the arguments does
-- not end: from @path on, no number of rounds is enough, whatever stands behind it.
pub process_loop_forever :
    (host : Host) (path : Bytes)
    → file_args host path ≡ some ((b'@' ∷ path) ∷ [])
    → (fuel : ℕ) (s : State) (rest : List Bytes)
    → process_loop host fuel s ((b'@' ∷ path) ∷ rest) ≡ Outcome.out_of_fuel
unfolding process_loop argument_round is_atfile atfile_path starts_with bytes_eq expanded_round
process_loop_forever host path h zero s rest = refl
process_loop_forever host path h (suc f) s rest =
    rw (process_loop, argument_round, atfile_path, h) (process_loop_forever host path h f s rest)
