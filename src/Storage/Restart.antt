-- ===== src/Storage/Restart.antt =====
-- A saved node restarts: `Save`, then `ReplayFile`, `Recover` and `Restore`.
use mini_lsm.Prelude.{
  ℕ, zero, suc, ◌+◌, ◌<◌, ◌≡◌, refl, sym, ap, ◌∙◌, inl, inr, true, false, Bool-cases, List, [], ◌∷◌,
  arith, leb, ltb, length, drop, add64,
}
use mini_lsm.Wal.{RecordLog}
use mini_lsm.Status.{Status, is_ok}
use mini_lsm.Raft.Messages.{LogEntry}
use mini_lsm.Raft.State.{Raft, last_index, entry_at, sentinel, init, Config}
use mini_lsm.Raft.Core.{restore}
use mini_lsm.Raft.Log.{Indexed, IsLog}
use mini_lsm.Storage.Replay.{Recovered, fresh, replay_file, persisted_of}
use mini_lsm.Storage.Codec.{hard_record, truncate_record, entry_record}
use mini_lsm.Storage.Save.{
  RaftStorage, write_record, save_sync, save_entries, save_from_persisted, save_truncation, save,
}
use mini_lsm.Storage.Recovery.{stored, FitsRaft, length-stored, on_disk, Covers}
use mini_lsm.Storage.Durable.{save-IsSaved}

-- What `ReplicatedDB::Open` does with the records of the file: they are replayed and recovered, and a
-- new node is restored from them.
unfoldable pub restart : Config → List (List ℕ) → Raft
restart config records =
    let r = replay_file records fresh in restore r.hs.term r.hs.vote r.entries (init config)

stored-Indexed : (log : List LogEntry) → IsLog log → Indexed 1 (drop 1 log)
stored-Indexed [] h = absurd h
stored-Indexed (x ∷ xs) h = h.1.1

persisted_of-Indexed :
    (n : ℕ) (es : List LogEntry)
    → Indexed (suc n) es
    → 0 < length es
    → persisted_of es ≡ n + length es
unfolding persisted_of
persisted_of-Indexed n [] ix h = absurd (omega arith)
persisted_of-Indexed n (e ∷ []) ix h = omega (arith, ix.0)
persisted_of-Indexed n (e ∷ f ∷ es) ix h =
    omega (arith, persisted_of-Indexed (suc n) (f ∷ es) ix.1 (omega arith))

-- On consecutive entries from index 1 the last index is their number.
persisted_of-length : (es : List LogEntry) → Indexed 1 es → persisted_of es ≡ length es
unfolding persisted_of
persisted_of-length [] ix = refl
persisted_of-length (e ∷ es) ix = persisted_of-Indexed 0 (e ∷ es) ix (omega arith) ∙ omega arith

module _ {W : Type 0} {IsSound : W → Type 0} (L : RecordLog W IsSound) where
  -- After a save that returns success the file is sound and what is on disk agrees with the node again,
  -- and a store that is opened again on the file counts the same persisted index, if before it the file
  -- was sound (as of Wal.Implements: whole records to its end, with no torn one, and the writer behind
  -- them), what was on disk agreed with the node up to the stable index, and the log was in shape with
  -- numbers that fit their fields.
  pub save-Covers :
      (store : RaftStorage W) (raft : Raft)
      → FitsRaft raft
      → IsSound store.writer
      → Covers L store raft
      → is_ok (save L store raft).0 ≡ true
      → IsSound (save L store raft).1.writer
        × Covers L (save L store raft).1 (save L store raft).2
        × (persisted_of (on_disk L (save L store raft).1).entries
            ≡ (save L store raft).1.persisted_index)
  save-Covers store raft fits sound c h =
      let s = save-IsSaved L store raft fits sound c h in
      let es : (on_disk L (save L store raft).1).entries ≡ stored raft =
        ap (λ (x : Recovered). x.entries) s.disk in
      let n = length-stored raft fits.shape in
      (
        s.sound,
        record {
          behind = rw (s.core, s.persisted) (omega arith);
          within = rw s.core (omega arith);
          count = rw (es, s.persisted) n;
          indexed = rw es (stored-Indexed raft.log fits.shape);
          same = rw (es, s.core) refl;
          clean = λ e. ap (λ (x : Recovered). x.hs) s.disk ∙ rw s.core refl;
        },
        rw (es, s.persisted)
            (persisted_of-length (stored raft) (stored-Indexed raft.log fits.shape) ∙ n),
      )

  -- A node that crashes after a save that returned success restarts with its term, its vote and its
  -- log, as a follower that has nothing to save, if before it the file was sound (as of Wal.Implements:
  -- whole records to its end, with no torn one, and the writer behind them), what was on disk agreed with
  -- the node up to the stable index, and the log began with the sentinel and was in shape with numbers
  -- that fit their fields.
  pub save-restart :
      (store : RaftStorage W) (raft : Raft)
      → FitsRaft raft
      → IsSound store.writer
      → Covers L store raft
      → raft.log ≡ sentinel ∷ stored raft
      → is_ok (save L store raft).0 ≡ true
      → restart raft.config (L.records (save L store raft).1.writer) ≡ record (init raft.config) {
        current_term = raft.current_term;
        voted_for = raft.voted_for;
        log = raft.log;
        stable_index = last_index raft.log;
      }
  unfolding restart restore init
  save-restart store raft fits sound c front h =
      let s = save-IsSaved L store raft fits sound c h in
      ap (λ (x : Recovered). restore x.hs.term x.hs.vote x.entries (init raft.config)) s.disk
      ∙ ap
          (λ (l : List LogEntry). record (init raft.config) {
            current_term = raft.current_term;
            voted_for = raft.voted_for;
            log = l;
            stable_index = last_index l;
          })
          (sym front)

  all_ok_record :
      (bytes : List ℕ) (store : RaftStorage W) (raft : Raft)
      (next : RaftStorage W → Raft → Status × RaftStorage W × Raft)
      → ((b : List ℕ) (w : W) → is_ok (L.add_record b w).0 ≡ true)
      → ((s : RaftStorage W) (r : Raft) → is_ok (next s r).0 ≡ true)
      → is_ok (write_record L bytes store raft next).0 ≡ true
  unfolding write_record
  all_ok_record bytes store raft next add rest = rw (add bytes store.writer) (rest _ raft)

  save_entries_ok :
      (fuel i : ℕ) (store : RaftStorage W) (raft : Raft)
      → ((b : List ℕ) (w : W) → is_ok (L.add_record b w).0 ≡ true)
      → ((w : W) → is_ok (L.sync w).0 ≡ true)
      → is_ok (save_entries L fuel i store raft).0 ≡ true
  unfolding save_entries save_sync
  save_entries_ok zero i store raft add sync = rw (sync store.writer) refl
  save_entries_ok (suc fuel) i store raft add sync =
      elim (Bool-cases (leb i (last_index raft.log))) [
        | inl more ↦ rw more (
            all_ok_record (entry_record (entry_at raft.log i)) store raft _ add
              (λ s r. save_entries_ok fuel (add64 i 1) s r add sync))
        | inr done ↦ rw done (rw (sync store.writer) refl)
      ]

  save_truncation_ok :
      (store : RaftStorage W) (raft : Raft)
      → ((b : List ℕ) (w : W) → is_ok (L.add_record b w).0 ≡ true)
      → ((w : W) → is_ok (L.sync w).0 ≡ true)
      → is_ok (save_truncation L store raft).0 ≡ true
  unfolding save_truncation save_from_persisted
  save_truncation_ok store raft add sync =
      let rest = λ (s : RaftStorage W) (r : Raft).
        save_entries_ok (length r.log) (add64 s.persisted_index 1) s r add sync in
      elim (Bool-cases (ltb raft.stable_index store.persisted_index)) [
        | inl longer ↦ rw longer (
            all_ok_record (truncate_record (add64 raft.stable_index 1)) store raft _ add
              (λ s r. rest (record s { persisted_index = r.stable_index }) r))
        | inr equal ↦ rw equal (rest store raft)
      ]

  -- A save succeeds if every record it adds and its sync do.
  pub save_succeeds :
      (store : RaftStorage W) (raft : Raft)
      → ((b : List ℕ) (w : W) → is_ok (L.add_record b w).0 ≡ true)
      → ((w : W) → is_ok (L.sync w).0 ≡ true)
      → is_ok (save L store raft).0 ≡ true
  unfolding save
  save_succeeds store raft add sync = elim (Bool-cases raft.hard_state_dirty) [
    | inl dirty ↦ simp dirty (
        all_ok_record (hard_record raft.current_term raft.voted_for) store raft
          (λ s r. save_truncation L s (record r { hard_state_dirty = false })) add
          (λ s r. save_truncation_ok s (record r { hard_state_dirty = false }) add sync))
    | inr clean ↦ simp clean (save_truncation_ok store raft add sync)
  ]
