-- ===== src/Env/Tests.antt =====
-- The files of src/env_posix.cc on the small kernel.
use mini_lsm.Prelude.{◌≡◌, [], ◌∷◌, none, true, arith}
use mini_lsm.Status.{success, is_ok}
use mini_lsm.Env.Files.{posix-IsReliable}
use mini_lsm.Env.Posix.{append, read, close}
use mini_lsm.Env.Append.{ReturnsAppended, append-ReturnsAppended}
use mini_lsm.Env.Read.{ReturnsRead, read-ReturnsRead}
use mini_lsm.Env.Implements.{posix_read, close_again}
use mini_lsm.Env.Kernel.{
  kernel, log_file, small_calls, small_contents, small_promises, small_steady,
}

-- Three interruptions and three writes.
append-ReturnsAppended_example :
    ReturnsAppended small_calls small_contents small_promises log_file
      (1 ∷ 2 ∷ 3 ∷ 4 ∷ 5 ∷ [])
      (kernel 3 [] [])
      (append small_calls 9 log_file (1 ∷ 2 ∷ 3 ∷ 4 ∷ 5 ∷ []) (kernel 3 [] []))
append-ReturnsAppended_example =
    append-ReturnsAppended small_calls small_contents small_promises 9 log_file
      (1 ∷ 2 ∷ 3 ∷ 4 ∷ 5 ∷ []) (kernel 3 [] []) (omega arith)

-- Four bytes are asked for and three are there.
read-ReturnsRead_example :
    ReturnsRead small_calls small_contents small_promises log_file 4
      (7 ∷ 8 ∷ 9 ∷ [])
      (read small_calls 7 log_file 4 (kernel 2 [] (7 ∷ 8 ∷ 9 ∷ [])))
read-ReturnsRead_example =
    read-ReturnsRead small_calls small_contents small_promises 7 log_file 4
      (kernel 2 [] (7 ∷ 8 ∷ 9 ∷ [])) (omega arith)

closed_twice :
    let closed = close small_calls log_file (kernel 0 [] []) in
    (closed.1.fd ≡ none) × (close small_calls closed.1 closed.2 ≡ (success, closed.1, closed.2))
closed_twice = close_again small_calls log_file (kernel 0 [] [])

posix-IsReliable_example :
    is_ok
      (posix_read small_calls small_contents small_promises 4
        (log_file, kernel 2 [] (7 ∷ 8 ∷ 9 ∷ []))).0
    ≡ true
posix-IsReliable_example =
    posix-IsReliable small_calls small_steady small_contents small_promises 4
      (log_file, kernel 2 [] (7 ∷ 8 ∷ 9 ∷ []))
