-- ===== src/Storage/Recovery.antt =====
-- What a restart recovers after `Save` of src/raft/storage.cc.
use mini_lsm.Prelude.{
  ℕ, zero, suc, ◌≤◌, ◌<◌, ◌≡◌, refl, ap, ◌∙◌, inl, inr, true, false, Bool-cases, List, [], ◌∷◌,
  ◌++◌, arith, length, take, drop, get_or, length-drop, All, u64,
}
use mini_lsm.Wal.{RecordLog}
use mini_lsm.Status.{Status, is_ok}
use mini_lsm.Raft.Messages.{LogEntry}
use mini_lsm.Raft.State.{Raft, last_index, entry_at, sentinel}
use mini_lsm.Raft.HardState.{hard}
use mini_lsm.Raft.Log.{Indexed, IsLog, suc-last_index}
use mini_lsm.Storage.Replay.{Recovered, fresh, replay_file, FitsEntry}
use mini_lsm.Storage.Save.{RaftStorage, write_record, save_sync}

-- The entries behind the sentinel.
abbrev pub stored : Raft → List LogEntry
stored raft = drop 1 raft.log

-- The numbers of a node fit their fields in the records.
pub record FitsRaft (raft : Raft) : Type 0 where
  pub shape : IsLog raft.log
  pub term : raft.current_term < u64
  pub vote : raft.voted_for < u64
  pub size : length raft.log < u64
  pub each : All FitsEntry (stored raft)

pub All-get_or :
    (n : ℕ) (xs : List LogEntry)
    → n < length xs
    → All FitsEntry xs
    → FitsEntry (get_or xs n sentinel)
All-get_or n [] h all = absurd (omega arith)
All-get_or zero (x ∷ xs) h all = all.0
All-get_or (suc n) (x ∷ xs) h all = All-get_or n xs (omega arith) all.1

pub entry_at-suc : (n : ℕ) (log : List LogEntry) → entry_at log (suc n) ≡ entry_at (drop 1 log) n
entry_at-suc n [] = refl
entry_at-suc n (x ∷ xs) = refl

pub length-stored : (raft : Raft) → IsLog raft.log → length (stored raft) ≡ last_index raft.log
length-stored raft h = omega (arith, length-drop 1 raft.log, suc-last_index raft.log h)

module _ {W : Type 0} {IsSound : W → Type 0} (L : RecordLog W IsSound) where
  -- What a restart reads back.
  abbrev pub on_disk : RaftStorage W → Recovered
  on_disk store = replay_file (L.records store.writer) fresh

  -- Everything of the node is on disk, and the watermarks say so.
  pub record IsSaved (raft : Raft) (out : Status × RaftStorage W × Raft) : Type 0 where
    pub sound : IsSound out.1.writer
    pub disk : on_disk out.1 ≡ record { hs = hard raft; entries = stored raft }
    pub persisted : out.1.persisted_index ≡ last_index raft.log
    pub core : out.2 ≡ record raft { stable_index = last_index raft.log; hard_state_dirty = false }

  -- What is on disk agrees with the node up to the stable index, and the hard state is there
  -- unless it is dirty.
  pub record Covers (store : RaftStorage W) (raft : Raft) : Type 0 where
    pub behind : raft.stable_index ≤ store.persisted_index
    pub within : raft.stable_index ≤ last_index raft.log
    pub count : length (on_disk store).entries ≡ store.persisted_index
    pub indexed : Indexed 1 (on_disk store).entries
    pub same : take raft.stable_index (on_disk store).entries ≡ take raft.stable_index (stored raft)
    pub clean : raft.hard_state_dirty ≡ false → (on_disk store).hs ≡ hard raft

  pub write_record_ok :
      (bytes : List ℕ) (store : RaftStorage W) (raft : Raft)
      (next : RaftStorage W → Raft → Status × RaftStorage W × Raft)
      → IsSound store.writer
      → is_ok (write_record L bytes store raft next).0 ≡ true
      → (L.records (L.add_record bytes store.writer).1 ≡ L.records store.writer ++ bytes ∷ [])
        × IsSound (L.add_record bytes store.writer).1
        × (write_record L bytes store raft next
            ≡ next (record store { writer = (L.add_record bytes store.writer).1 }) raft)
  unfolding write_record
  write_record_ok bytes store raft next sound h =
      elim (Bool-cases (is_ok (L.add_record bytes store.writer).0)) [
        | inl fine ↦ let a = L.added bytes store.writer sound fine in (a.0, a.1, rw fine refl)
        | inr bad ↦ absurd (ground (arith, bad, h))
      ]

  pub save_sync-IsSaved :
      (store : RaftStorage W) (raft : Raft)
      → raft.hard_state_dirty ≡ false
      → IsSound store.writer
      → on_disk store ≡ record { hs = hard raft; entries = stored raft }
      → is_ok (save_sync L store raft).0 ≡ true
      → IsSaved raft (save_sync L store raft)
  unfolding save_sync
  save_sync-IsSaved store raft clean sound disk h =
      elim (Bool-cases (is_ok (L.sync store.writer).0)) [
        | inl fine ↦ rw fine (record {
          sound = (L.synced store.writer sound).1;
          disk = ap (λ rs. replay_file rs fresh) (L.synced store.writer sound).0 ∙ disk;
          persisted = refl;
          core = rw clean refl;
        })
        | inr bad ↦ absurd (ground (arith, bad, h))
      ]
