-- ===== src/Wal/Open.antt =====
-- How src/db.cc and src/raft/storage.cc open their logs, which is the same in both but for what they make
-- of the records: `Recover` with `ReplayWal`, and `RaftStorage::Open` with `ReplayFile`.
use mini_lsm.Prelude.{ℕ, suc, Option, none, some, List, [], if◌then◌else◌, length}
use mini_lsm.Status.{Status, success, is_ok}
use mini_lsm.Wal.File.{WritableFile, SequentialFile}
use mini_lsm.Wal.Writer.{Writer, resume}
use mini_lsm.Wal.Reader.{Reader, read_records, open_reader}
use mini_lsm.Env.Interface.{Environment}

module _ {K F R A : Type 0} {out : WritableFile F} {in_ : SequentialFile R}
    (env : Environment K out in_) (build : List (List ℕ) → A) where
  -- What is left of a call: its status, a value, and the file system; `none` where it does not return.
  abbrev pub Result : Type 0 → Type 0
  Result A = Option (Status × A × K)

  -- What a loop over the records makes of them.
  unfoldable pub replayed : Option (List (List ℕ) × Reader R) → K → Result A
  replayed none k = none
  replayed (some (records, r)) k = some (success, build records, k)

  unfoldable pub replay_opened : Option R → K → Result A
  replay_opened none k = none
  replay_opened (some file) k =
      replayed (read_records in_ (suc (length (in_.left file))) (open_reader file (some []))) k

  unfoldable pub replay_log : List ℕ → K → Result A
  replay_log path k =
      let (s, file, k') = env.new_sequential_file path k in
      if is_ok s then replay_opened file k' else some (s, build [], k')

  unfoldable pub writer_of : A → ℕ → Option F → K → Result (Option (A × Writer F))
  writer_of made size none k = none
  writer_of made size (some file) k = some (success, some (made, resume file size), k)

  -- The second half of `Recover`: the log is opened again, to append.
  unfoldable pub resume_log : List ℕ → A → K → Result (Option (A × Writer F))
  resume_log path made k =
      let (exists, k1) = env.file_exists path k in
      let (sized, size, k2) = if exists then env.get_file_size path k1 else (success, 0, k1) in
      if is_ok sized
      then (let (s, file, k3) = env.new_appendable_file path k2 in
          if is_ok s then writer_of made size file k3 else some (s, none, k3))
      else some (sized, none, k2)

  unfoldable pub recover_with : List ℕ → Result A → Result (Option (A × Writer F))
  recover_with path none = none
  recover_with path (some (s, made, k)) =
      if is_ok s then resume_log path made k else some (s, none, k)

  unfoldable pub recover : List ℕ → K → Result (Option (A × Writer F))
  recover path k =
      let (exists, k1) = env.file_exists path k in
      recover_with path (if exists then replay_log path k1 else some (success, build [], k1))
