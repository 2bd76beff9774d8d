-- ===== src/Storage/Tests.antt =====
-- `Save` on a small disk, and the theorems about it at concrete inputs.
use mini_lsm.Prelude.{ℕ, zero, suc, ◌≡◌, refl, true, List, [], ◌∷◌, ◌++◌, arith, pos}
use mini_lsm.Wal.{RecordLog}
use mini_lsm.Status.{codes, Status, success, is_ok, io_error}
use mini_lsm.Raft.Messages.{LogEntry}
use mini_lsm.Raft.State.{Raft, follower, sentinel, clear, last_index, init}
use mini_lsm.Storage.Codec.{
  get_u64, put_u64, get_u32, put_u32, get_bytes, hard_record, entry_record,
}
use mini_lsm.Coding.{encode_fixed32, decode_fixed32}
use mini_lsm.Storage.Replay.{
  replay_file, replay_record, replay_hard_state, replay_entry, persisted_of,
}
use mini_lsm.Storage.Save.{
  RaftStorage, save, write_record, save_sync, save_entries, save_from_persisted, save_truncation,
}
use mini_lsm.Storage.Recovery.{FitsRaft, Covers, IsSaved, on_disk}
use mini_lsm.Storage.Durable.{save-IsSaved}
use mini_lsm.Storage.Open.{parent_dir, parent_of, before_slash}
use mini_lsm.Storage.Restart.{restart, save-Covers, save-restart}

-- A disk with room for some more records.
record Disk : Type 0 where
  room : ℕ
  kept : List (List ℕ)

abbrev full : Status
full = record { code = io_error; message = [] }

abbrev add_at : ℕ → List ℕ → List (List ℕ) → Status × Disk
add_at zero b kept = (full, record { room = 0; kept = kept })
add_at (suc n) b kept = (success, record { room = n; kept = kept ++ b ∷ [] })

added_at :
    (n : ℕ) (b : List ℕ) (kept : List (List ℕ))
    → is_ok (add_at n b kept).0 ≡ true
    → (add_at n b kept).1.kept ≡ kept ++ b ∷ []
added_at zero b kept h = absurd (ground arith)
added_at (suc n) b kept h = refl

abbrev small_disk : RecordLog Disk (λ w. Unit)
small_disk = record {
  add_record = λ b w. add_at w.room b w.kept;
  sync = λ w. (success, w);
  records = λ w. w.kept;
  added = λ b w sound h. (added_at w.room b w.kept h, tt);
  synced = λ w sound. (refl, tt);
}

abbrev entry : ℕ → ℕ → LogEntry
entry t i = record { term = t; index = i; payload = i ∷ [] }

-- A node whose second entry was replaced in term 2, and which has got a third.
abbrev changed : Raft
changed = record {
  config = record {
    id = 2;
    peers = 1 ∷ 2 ∷ 3 ∷ [];
    election_timeout = pos 2;
    heartbeat_timeout = pos 1;
  };
  role = follower;
  current_term = 2;
  voted_for = 3;
  log = sentinel ∷ entry 1 1 ∷ entry 2 2 ∷ entry 2 3 ∷ [];
  commit_index = 1;
  last_applied = 0;
  stable_index = 1;
  leader_id = 3;
  election_elapsed = 0;
  heartbeat_elapsed = 0;
  votes_granted = [];
  next_index = clear;
  match_index = clear;
  hard_state_dirty = true;
  out_msgs = [];
}

-- Its disk has the first entry and the one that was replaced.
abbrev before : RaftStorage Disk
before = record {
  writer = record {
    room = 9;
    kept = hard_record 1 1 ∷ entry_record (entry 1 1) ∷ entry_record (entry 1 2) ∷ [];
  };
  persisted_index = 2;
}

changed-FitsRaft : FitsRaft changed
changed-FitsRaft = record {
  shape = omega arith;
  term = omega arith;
  vote = omega arith;
  size = omega arith;
  each = omega arith;
}

before-Covers : Covers small_disk before changed
unfolding replay_file replay_record replay_hard_state replay_entry get_u64 get_u32 get_bytes
    decode_fixed32 last_index hard_record entry_record put_u64 put_u32 encode_fixed32
before-Covers = record {
  behind = omega arith;
  within = omega arith;
  count = refl;
  indexed = omega arith;
  same = refl;
  clean = λ e. absurd (ground arith);
}

before_saved : is_ok (save small_disk before changed).0 ≡ true
unfolding save write_record save_truncation save_from_persisted save_entries save_sync last_index
before_saved = refl

save-IsSaved_example : IsSaved small_disk changed (save small_disk before changed)
save-IsSaved_example =
    save-IsSaved small_disk before changed changed-FitsRaft tt before-Covers before_saved

save-Covers_example :
    Unit {0}
    × Covers small_disk (save small_disk before changed).1 (save small_disk before changed).2
    × (persisted_of (on_disk small_disk (save small_disk before changed).1).entries
        ≡ (save small_disk before changed).1.persisted_index)
save-Covers_example =
    save-Covers small_disk before changed changed-FitsRaft tt before-Covers before_saved

save-restart_example :
    restart changed.config (small_disk.records (save small_disk before changed).1.writer)
    ≡ record (init changed.config) {
      current_term = 2;
      voted_for = 3;
      log = changed.log;
      stable_index = last_index changed.log;
    }
save-restart_example =
    save-restart small_disk before changed changed-FitsRaft tt before-Covers refl before_saved

-- A disk without room makes the save fail, and nothing of the node has changed.
no_room :
    (save small_disk (record before { writer = record { room = 0; kept = [] } }) changed).2
    ≡ changed
unfolding save write_record
no_room = refl

-- The three branches of `ParentDir`.
parent_dirs :
    (parent_dir (codes "dir/raft.log") ≡ codes "dir")
    × (parent_dir (codes "/raft.log") ≡ codes "/")
    × (parent_dir (codes "raft.log") ≡ codes ".")
unfolding parent_dir parent_of before_slash
parent_dirs = (refl, refl, refl)
