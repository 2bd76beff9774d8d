-- ===== src/Replicated/Store.antt =====
-- The class `ReplicatedDB` of src/raft/replicated_db.cc.
use mini_lsm.Prelude.{
  ℕ, zero, suc, Option, none, some, List, [], ◌∷◌, leb, ◌==◌, if◌then◌else◌, length, add64, pos,
}
use mini_lsm.Status.{Status, success, is_ok, invalid, codes}
use mini_lsm.Wal.{RecordLog}
use mini_lsm.Raft.Messages.{NodeId, LogEntry}
use mini_lsm.Raft.State.{Raft, Role, leader, follower, candidate, Config, init, entry_at}
use mini_lsm.Raft.Core.{propose, restore, tick}
use mini_lsm.Storage.Replay.{fresh, replay_file, persisted_of}
use mini_lsm.Storage.Save.{RaftStorage, save}
use mini_lsm.Db.Table.{Table, empty, apply, Operation, put, delete}
use mini_lsm.Db.Store.{found}
use mini_lsm.Replicated.Command.{
  Command, command_put, command_delete, encode_command, decode_command,
}

pub record ReplicatedDb (W : Type 0) : Type 0 where
  pub raft : Raft
  pub storage : RaftStorage W
  pub table : Table
  pub applied_index : ℕ

-- What a decoded command does to the table; one that cannot be decoded is skipped.
unfoldable pub apply_command : Option Command → Table → Table
apply_command none table = table
apply_command (some c) table = apply c.type c.key c.value table

-- The loop of `Open` over the recovered entries.
unfoldable pub apply_entries : List LogEntry → Table → Table
apply_entries [] table = table
apply_entries (e ∷ es) table = apply_entries es (apply_command (decode_command e.payload) table)

-- The loop of `ApplyCommitted` from index `i` on; `fuel` bounds its rounds.
unfoldable pub apply_from : ℕ → ℕ → Raft → Table → Table
apply_from zero i raft table = table
apply_from (suc fuel) i raft table =
    let rest =
      apply_from fuel (add64 i 1) raft
        (apply_command (decode_command (entry_at raft.log i).payload) table) in
    if leb i raft.commit_index then rest else table

unfoldable pub apply_committed : {W : Type 0} → ReplicatedDb W → ReplicatedDb W
apply_committed db = record db {
  table = apply_from db.raft.commit_index (add64 db.applied_index 1) db.raft db.table;
  applied_index = db.raft.commit_index;
}

unfoldable pub get_applied : {W : Type 0} → List ℕ → ReplicatedDb W → Status × Option (List ℕ)
get_applied key db = found key (db.table key)

unfoldable pub command_bytes : Operation → List ℕ
command_bytes (put key value) = encode_command command_put key value
command_bytes (delete key) = encode_command command_delete key []

-- The loop of `Open` that ticks until the node leads; `none` where the fuel does not suffice.
unfoldable pub elect : ℕ → Raft → Option Raft
elect zero r = none
elect (suc fuel) r =
    let next = elect fuel (tick r) in
    elim r.role [ leader ↦ some r | follower ↦ next | candidate ↦ next ]

abbrev pub open_config : NodeId → List NodeId → Config
open_config id peers = record {
  id = id;
  peers = peers;
  election_timeout = pos 1;
  heartbeat_timeout = pos 1;
}

module _ {W : Type 0} {IsSound : W → Type 0} (L : RecordLog W IsSound) where
  -- `Sync`: durable before visible.
  unfoldable pub save_and_apply : ReplicatedDb W → Status × ReplicatedDb W
  save_and_apply db =
      let (s, storage, raft) = save L db.storage db.raft in
      let saved = record db { raft = raft; storage = storage } in
      if is_ok s then (success, apply_committed saved) else (s, saved)

  -- `Put` and `Delete`, by the role.
  unfoldable pub submit_as : Role → Operation → ReplicatedDb W → Status × ReplicatedDb W
  submit_as leader o db =
      save_and_apply (record db { raft = (propose (command_bytes o) db.raft).0 })
  submit_as follower o db = (invalid (codes "not leader"), db)
  submit_as candidate o db = (invalid (codes "not leader"), db)

  unfoldable pub submit : Operation → ReplicatedDb W → Status × ReplicatedDb W
  unfolding submit_as
  submit o db = submit_as db.raft.role o db

  -- The node of `Open` before a single node elects itself: the file is replayed and recovered, the
  -- node is restored and the table is rebuilt.
  unfoldable pub recovered_db : NodeId → List NodeId → W → ReplicatedDb W
  recovered_db id peers w =
      let r = replay_file (L.records w) fresh in
      record {
        raft = restore r.hs.term r.hs.vote r.entries (init (open_config id peers));
        storage = record { writer = w; persisted_index = persisted_of r.entries };
        table = apply_entries r.entries empty;
        applied_index = persisted_of r.entries;
      }

  -- The end of `Open`; `none` where the loop does not end within the fuel.
  unfoldable pub open_db : NodeId → List NodeId → W → Option (Status × ReplicatedDb W)
  open_db id peers w =
      let db = recovered_db id peers w in
      if length peers == 1
      then elim (elect 2 db.raft) [
        | none ↦ none
        | some raft ↦ some (save_and_apply (record db { raft = raft }))
      ]
      else some (success, db)
