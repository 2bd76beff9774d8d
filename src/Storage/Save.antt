-- ===== src/Storage/Save.antt =====
-- `Save` of src/raft/storage.cc over the log writer and the file that it appends to.
use mini_lsm.Prelude.{ℕ, zero, suc, false, List, leb, ltb, if◌then◌else◌, length, add64}
use mini_lsm.Status.{Status, success, is_ok}
use mini_lsm.Raft.State.{Raft, last_index, entry_at}
use mini_lsm.Storage.Codec.{hard_record, truncate_record, entry_record}
use mini_lsm.Wal.{RecordLog}

-- The fields of `RaftStorage` that `Save` changes.
pub record RaftStorage (W : Type 0) : Type 0 where
  pub writer : W
  pub persisted_index : ℕ

module _ {W : Type 0} {IsSound : W → Type 0} (L : RecordLog W IsSound) where
  -- Adds a record; where that fails the call returns the status and what had happened so far.
  unfoldable pub write_record :
      List ℕ
      → RaftStorage W
      → Raft
      → (RaftStorage W → Raft → Status × RaftStorage W × Raft)
      → Status × RaftStorage W × Raft
  write_record bytes store raft next =
      let (s, w) = L.add_record bytes store.writer in
      if is_ok s
      then next (record store { writer = w }) raft
      else (s, record store { writer = w }, raft)

  -- The sync that covers the batch, and the watermarks.
  unfoldable pub save_sync : RaftStorage W → Raft → Status × RaftStorage W × Raft
  save_sync store raft =
      let (s, w) = L.sync store.writer in
      if is_ok s
      then (
        success,
        record { writer = w; persisted_index = last_index raft.log },
        record raft { stable_index = last_index raft.log },
      )
      else (s, record store { writer = w }, raft)

  -- The loop over the entries from `i` on; `fuel` bounds its rounds.
  unfoldable pub save_entries : ℕ → ℕ → RaftStorage W → Raft → Status × RaftStorage W × Raft
  save_entries zero i store raft = save_sync store raft
  save_entries (suc fuel) i store raft =
      if leb i (last_index raft.log)
      then write_record (entry_record (entry_at raft.log i)) store raft
          (save_entries fuel (add64 i 1))
      else save_sync store raft

  unfoldable pub save_from_persisted : RaftStorage W → Raft → Status × RaftStorage W × Raft
  save_from_persisted store raft =
      save_entries (length raft.log) (add64 store.persisted_index 1) store raft

  unfoldable pub save_truncation : RaftStorage W → Raft → Status × RaftStorage W × Raft
  save_truncation store raft =
      if ltb raft.stable_index store.persisted_index
      then write_record (truncate_record (add64 raft.stable_index 1)) store raft (λ store' raft'.
        save_from_persisted (record store' { persisted_index = raft'.stable_index }) raft')
      else save_from_persisted store raft

  unfoldable pub save : RaftStorage W → Raft → Status × RaftStorage W × Raft
  save store raft =
      if raft.hard_state_dirty
      then write_record (hard_record raft.current_term raft.voted_for) store raft
          (λ store' raft'. save_truncation store' (record raft' { hard_state_dirty = false }))
      else save_truncation store raft
