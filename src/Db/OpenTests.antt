-- ===== src/Db/OpenTests.antt =====
-- A store of src/db.cc that is opened on a file of src/env_posix.cc, over the small kernel of Env/Kernel.
use mini_lsm.Prelude.{ℕ, refl, true, List, [], ◌∷◌, arith}
use mini_lsm.Coding.{encode_fixed32}
use mini_lsm.Wal.Writer.{Writer, header}
use mini_lsm.Wal.Physical.{physical}
use mini_lsm.Wal.Frame.{frame, record_frame}
use mini_lsm.Wal.Records.{frames}
use mini_lsm.Wal.Log.{HoldsLog, log_bytes, log_offset}
use mini_lsm.Env.Implements.{OnKernel}
use mini_lsm.Env.Files.{posix-IsReliable}
use mini_lsm.Env.Kernel.{
  kernel, log_file, small_calls, small_contents, small_promises, small_steady, small-IsTold,
  small_writable, small_environment,
}
use mini_lsm.Db.Open.{table_of, open_store}
use mini_lsm.Wal.Opened.{Opens}
use mini_lsm.Db.Recovered.{open_store-Opens}

-- Key 1 was put with the value 10.
abbrev kept : List (List ℕ)
kept = (1 ∷ 1 ∷ 0 ∷ 0 ∷ 0 ∷ 1 ∷ 1 ∷ 0 ∷ 0 ∷ 0 ∷ 10 ∷ []) ∷ []

abbrev last_writer : Writer (OnKernel small_calls small_contents small_promises)
last_writer = record {
  dest = (log_file, kernel 0 (log_bytes kept) []);
  block_offset = log_offset kept;
}

last_writer-HoldsLog : HoldsLog small_writable kept last_writer
unfolding frames record_frame frame physical header encode_fixed32
last_writer-HoldsLog = record { bytes = refl; aligned = (omega arith, omega arith); place = refl }

-- Three calls are interrupted by a signal.
open_store-Opens_example :
    Opens small_environment table_of kept
      (open_store small_environment true (100 ∷ []) (kernel 3 (log_bytes kept) []))
open_store-Opens_example =
    open_store-Opens small_environment true (100 ∷ []) (kernel 3 (log_bytes kept) []) kept
      last_writer (posix-IsReliable small_calls small_steady small_contents small_promises)
      (small-IsTold _) last_writer-HoldsLog refl
