-- ===== src/Storage/OpenTests.antt =====
-- A Raft storage of src/raft/storage.cc that is opened on a file of src/env_posix.cc, over the small kernel of
-- Env/Kernel.
use mini_lsm.Prelude.{ℕ, refl, List, [], ◌∷◌, arith}
use mini_lsm.Coding.{encode_fixed32}
use mini_lsm.Wal.Writer.{Writer, header}
use mini_lsm.Wal.Physical.{physical}
use mini_lsm.Wal.Frame.{frame, record_frame}
use mini_lsm.Wal.Records.{frames}
use mini_lsm.Wal.Log.{HoldsLog, log_bytes, log_offset}
use mini_lsm.Wal.Opened.{Opens}
use mini_lsm.Env.Implements.{OnKernel}
use mini_lsm.Env.Files.{posix-IsReliable}
use mini_lsm.Env.Kernel.{
  kernel, log_file, small_calls, small_contents, small_promises, small_steady, small-IsTold,
  small_writable, small_environment,
}
use mini_lsm.Storage.Codec.{hard_record, truncate_record, put_u32, put_u64}
use mini_lsm.Storage.Open.{recovered_of, open_storage, open_storage-Opens}

-- A hard state, and a truncation of nothing.
abbrev saved : List (List ℕ)
saved = hard_record 2 3 ∷ truncate_record 1 ∷ []

abbrev last_writer : Writer (OnKernel small_calls small_contents small_promises)
last_writer = record {
  dest = (log_file, kernel 0 (log_bytes saved) []);
  block_offset = log_offset saved;
}

last_writer-HoldsLog : HoldsLog small_writable saved last_writer
unfolding frames record_frame frame physical header encode_fixed32 hard_record truncate_record
    put_u32 put_u64
last_writer-HoldsLog = record { bytes = refl; aligned = (omega arith, omega arith); place = refl }

-- Two calls are interrupted by a signal.
open_storage-Opens_example :
    Opens small_environment recovered_of saved
      (open_storage small_environment (114 ∷ []) (kernel 2 (log_bytes saved) []))
open_storage-Opens_example =
    open_storage-Opens small_environment (114 ∷ []) (kernel 2 (log_bytes saved) []) saved
      last_writer (posix-IsReliable small_calls small_steady small_contents small_promises)
      (small-IsTold _) last_writer-HoldsLog refl
