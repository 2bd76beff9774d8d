-- ===== src/Storage/Durable.antt =====
-- `Save` of src/raft/storage.cc is durable: what a restart recovers after it.
use mini_lsm.Prelude.{
  ℕ, zero, suc, ◌+◌, ◌≤◌, ◌<◌, ◌≡◌, refl, sym, ap, ap₂, ◌∙◌, subst, inl, inr, Bool, true, false,
  Bool-cases, List, [], ◌∷◌, ◌++◌, arith, leb, ltb, if◌then◌else◌, length, take, take-length, add64,
}
use mini_lsm.Wal.{RecordLog}
use mini_lsm.Status.{Status, is_ok}
use mini_lsm.Raft.Messages.{LogEntry}
use mini_lsm.Raft.State.{Raft, last_index, entry_at}
use mini_lsm.Raft.HardState.{HardState, hard}
use mini_lsm.Raft.Log.{take_snoc, suc-last_index}
use mini_lsm.Storage.Codec.{hard_record, truncate_record, entry_record}
use mini_lsm.Storage.Replay.{
  Recovered, fresh, replay_file, replay_record, pop_from, replay_file-append,
  replay_record-hard_record, replay_record-truncate_record, replay_record-entry_record,
  pop_from-take,
}
use mini_lsm.Storage.Save.{
  RaftStorage, write_record, save_sync, save_entries, save_from_persisted, save_truncation, save,
}
use mini_lsm.Storage.Recovery.{
  stored, FitsRaft, All-get_or, entry_at-suc, length-stored, on_disk, IsSaved, Covers,
  write_record_ok, save_sync-IsSaved,
}

module _ {W : Type 0} {IsSound : W → Type 0} (L : RecordLog W IsSound) where
  -- A record that was added is replayed last.
  on_disk_added :
      (b : List ℕ) (store : RaftStorage W) (n : ℕ)
      → L.records (L.add_record b store.writer).1 ≡ L.records store.writer ++ b ∷ []
      → on_disk L (record { writer = (L.add_record b store.writer).1; persisted_index = n })
        ≡ replay_record b (on_disk L store)
  on_disk_added b store n h =
      ap (λ rs. replay_file rs fresh) h ∙ replay_file-append (L.records store.writer) b fresh

  -- Outcomes that are equal have saved alike.
  IsSaved-path :
      (target : Raft) (o o' : Status × RaftStorage W × Raft)
      → o ≡ o'
      → (is_ok o'.0 ≡ true → IsSaved L target o')
      → is_ok o.0 ≡ true
      → IsSaved L target o
  IsSaved-path target o o' path saved h =
      subst (IsSaved L target) (sym path)
        (saved (sym (ap (λ (x : Status × RaftStorage W × Raft). is_ok x.0) path) ∙ h))

  -- A save that goes on after a record has saved everything if the rest of it has.
  IsSaved-write_record :
      (target : Raft) (bytes : List ℕ) (store : RaftStorage W) (raft : Raft)
      (next : RaftStorage W → Raft → Status × RaftStorage W × Raft)
      → (let store' = record store { writer = (L.add_record bytes store.writer).1 } in
          IsSound store'.writer
          → on_disk L store' ≡ replay_record bytes (on_disk L store)
          → is_ok (next store' raft).0 ≡ true
          → IsSaved L target (next store' raft))
      → IsSound store.writer
      → is_ok (write_record L bytes store raft next).0 ≡ true
      → IsSaved L target (write_record L bytes store raft next)
  IsSaved-write_record target bytes store raft next rest sound h =
      let out = write_record_ok L bytes store raft next sound h in
      IsSaved-path target _ _ out.2
        (rest out.1 (on_disk_added bytes store store.persisted_index out.0)) h

  entry_replayed :
      (j : ℕ) (raft : Raft)
      → FitsRaft raft
      → j < last_index raft.log
      → replay_record
          (entry_record (entry_at raft.log (suc j)))
          (record { hs = hard raft; entries = take j (stored raft) })
        ≡ record { hs = hard raft; entries = take (suc j) (stored raft) }
  entry_replayed j raft fits lt =
      let inside : j < length (stored raft) = omega (arith, length-stored raft fits.shape) in
      rw
        (
          entry_at-suc j raft.log,
          replay_record-entry_record (entry_at (stored raft) j)
              (record { hs = hard raft; entries = take j (stored raft) })
              (All-get_or j (stored raft) inside fits.each),
          take_snoc j (stored raft) inside,
        )
        refl

  save_entries-end :
      (j : ℕ) (store : RaftStorage W) (raft : Raft)
      → FitsRaft raft
      → raft.hard_state_dirty ≡ false
      → last_index raft.log ≤ j
      → IsSound store.writer
      → on_disk L store ≡ record { hs = hard raft; entries = take j (stored raft) }
      → is_ok (save_sync L store raft).0 ≡ true
      → IsSaved L raft (save_sync L store raft)
  save_entries-end j store raft fits clean le sound disk h =
      let all : take j (stored raft) ≡ stored raft =
        take-length j (stored raft) (omega (arith, length-stored raft fits.shape)) in
      save_sync-IsSaved L store raft clean sound
        (disk ∙ ap (λ es. record { hs = hard raft; entries = es }) all) h

  save_entries-IsSaved :
      (fuel j : ℕ) (store : RaftStorage W) (raft : Raft)
      → FitsRaft raft
      → raft.hard_state_dirty ≡ false
      → last_index raft.log ≤ j + fuel
      → IsSound store.writer
      → on_disk L store ≡ record { hs = hard raft; entries = take j (stored raft) }
      → is_ok (save_entries L fuel (suc j) store raft).0 ≡ true
      → IsSaved L raft (save_entries L fuel (suc j) store raft)
  unfolding save_entries
  save_entries-IsSaved zero j store raft fits clean enough sound disk h =
      save_entries-end j store raft fits clean (omega arith) sound disk h
  save_entries-IsSaved (suc fuel) j store raft fits clean enough sound disk h =
      elim (Bool-cases (leb (suc j) (last_index raft.log))) [
        | inr done ↦
            rw done
              (save_entries-end j store raft fits clean (ground arith) sound disk (rw done at h))
        | inl more ↦
            let bytes = entry_record (entry_at raft.log (suc j)) in
            let lt : j < last_index raft.log = ground arith in
            let step_up : add64 (suc j) 1 ≡ suc (suc j) =
              omega (arith, suc-last_index raft.log fits.shape, fits.size) in
            let path : save_entries L (suc fuel) (suc j) store raft
                ≡ write_record L bytes store raft (save_entries L fuel (suc (suc j))) =
              rw (more, step_up) refl in
            IsSaved-path raft _ _ path
              (IsSaved-write_record raft bytes store raft (save_entries L fuel (suc (suc j)))
                (λ sound' now.
                  save_entries-IsSaved fuel (suc j) _ raft fits clean (omega arith) sound'
                    (now ∙ ap (replay_record bytes) disk ∙ entry_replayed j raft fits lt))
                sound)
              h
      ]

  save_from_persisted-IsSaved :
      (store : RaftStorage W) (raft : Raft)
      → FitsRaft raft
      → raft.hard_state_dirty ≡ false
      → store.persisted_index ≤ last_index raft.log
      → IsSound store.writer
      → on_disk L store
        ≡ record { hs = hard raft; entries = take store.persisted_index (stored raft) }
      → is_ok (save_from_persisted L store raft).0 ≡ true
      → IsSaved L raft (save_from_persisted L store raft)
  unfolding save_from_persisted
  save_from_persisted-IsSaved store raft fits clean le sound disk h =
      let n = store.persisted_index in
      let first : add64 n 1 ≡ suc n =
        omega (arith, suc-last_index raft.log fits.shape, fits.size) in
      rw first (
        save_entries-IsSaved (length raft.log) n store raft fits clean
          (omega (arith, suc-last_index raft.log fits.shape)) sound disk (rw first at h))

  truncation_replayed :
      (store : RaftStorage W) (raft : Raft)
      → FitsRaft raft
      → Covers L store raft
      → (on_disk L store).hs ≡ hard raft
      → replay_record (truncate_record (add64 raft.stable_index 1)) (on_disk L store)
        ≡ record { hs = hard raft; entries = take raft.stable_index (stored raft) }
  truncation_replayed store raft fits c hs =
      let n = raft.stable_index in
      let first : add64 n 1 ≡ suc n =
        omega (arith, suc-last_index raft.log fits.shape, fits.size, c.within) in
      let from_one : suc n ≡ 1 + n = omega arith in
      let popped : pop_from (suc n) (on_disk L store).entries ≡ take n (on_disk L store).entries =
        ap (λ m. pop_from m (on_disk L store).entries) from_one
        ∙ pop_from-take n 1 (on_disk L store).entries c.indexed in
      rw
        (
          first,
          replay_record-truncate_record (suc n) (on_disk L store)
              (omega (arith, suc-last_index raft.log fits.shape, fits.size, c.within)),
          hs,
          popped,
          c.same,
        )
        refl

  settled :
      (store : RaftStorage W) (raft : Raft)
      → Covers L store raft
      → (on_disk L store).hs ≡ hard raft
      → store.persisted_index ≡ raft.stable_index
      → on_disk L store
        ≡ record { hs = hard raft; entries = take store.persisted_index (stored raft) }
  settled store raft c hs e =
      let whole : (on_disk L store).entries ≡ take store.persisted_index (stored raft) =
        sym (take-length raft.stable_index (on_disk L store).entries (omega (arith, c.count, e)))
        ∙ c.same
        ∙ ap (λ n. take n (stored raft)) (sym e) in
      ap₂ (λ (a : HardState) (b : List LogEntry). record { hs = a; entries = b }) hs whole

  save_truncation-IsSaved :
      (store : RaftStorage W) (raft : Raft)
      → FitsRaft raft
      → raft.hard_state_dirty ≡ false
      → IsSound store.writer
      → Covers L store raft
      → (on_disk L store).hs ≡ hard raft
      → is_ok (save_truncation L store raft).0 ≡ true
      → IsSaved L raft (save_truncation L store raft)
  unfolding save_truncation
  save_truncation-IsSaved store raft fits clean sound c hs h =
      elim (Bool-cases (ltb raft.stable_index store.persisted_index)) [
        | inl longer ↦ rw longer (
            IsSaved-write_record raft (truncate_record (add64 raft.stable_index 1)) store raft
              (λ store' raft'.
                save_from_persisted L (record store' { persisted_index = raft'.stable_index })
                  raft')
              (λ sound' now fine.
                save_from_persisted-IsSaved _ raft fits clean c.within sound'
                  (now ∙ truncation_replayed store raft fits c hs) fine)
              sound (rw longer at h))
        | inr equal ↦
            let e : store.persisted_index ≡ raft.stable_index = ground (arith, c.behind) in
            rw equal (
              save_from_persisted-IsSaved store raft fits clean (omega (arith, c.within, e)) sound
                (settled store raft c hs e) (rw equal at h))
      ]

  -- A store whose disk has a new hard state and the same entries.
  Covers-hard :
      (store store' : RaftStorage W) (raft : Raft)
      → store'.persisted_index ≡ store.persisted_index
      → on_disk L store' ≡ record { hs = hard raft; entries = (on_disk L store).entries }
      → Covers L store raft
      → Covers L store' (record raft { hard_state_dirty = false })
  Covers-hard store store' raft p disk c =
      let es = ap (λ (x : Recovered). x.entries) disk in
      record {
        behind = rw p c.behind;
        within = c.within;
        count = rw (es, p) c.count;
        indexed = rw es c.indexed;
        same = rw es c.same;
        clean = λ e. ap (λ (x : Recovered). x.hs) disk;
      }

  -- A save that returns success has put the node's term, vote and every entry of its log where a
  -- restart reads them, has moved both watermarks to the end of the log, and has changed nothing else
  -- of the node, if before it the file was sound (as of Wal.Implements: whole records to its end, with no
  -- torn one, and the writer behind them), what was on disk agreed with the node up to the stable index,
  -- and the log was in shape with numbers that fit their fields.
  pub save-IsSaved :
      (store : RaftStorage W) (raft : Raft)
      → FitsRaft raft
      → IsSound store.writer
      → Covers L store raft
      → is_ok (save L store raft).0 ≡ true
      → IsSaved L raft (save L store raft)
  unfolding save
  save-IsSaved store raft fits sound c h = elim (Bool-cases raft.hard_state_dirty) [
    | inl dirty ↦
        let bytes = hard_record raft.current_term raft.voted_for in
        let cleaned : Raft = record raft { hard_state_dirty = false } in
        let fits' : FitsRaft cleaned = record {
          shape = fits.shape;
          term = fits.term;
          vote = fits.vote;
          size = fits.size;
          each = fits.each;
        } in
        let next : RaftStorage W → Raft → Status × RaftStorage W × Raft =
          λ store' raft'. save_truncation L store' (record raft' { hard_state_dirty = false }) in
        let path : save L store raft ≡ write_record L bytes store raft next =
          ap
            (λ (b : Bool).
              if b then write_record L bytes store raft next else save_truncation L store raft)
            dirty in
        let saved =
          IsSaved-write_record cleaned bytes store raft next
            (λ sound' now.
              let disk =
                now ∙ replay_record-hard_record _ _ (on_disk L store) fits.term fits.vote in
              save_truncation-IsSaved _ cleaned fits' refl sound'
                (Covers-hard store _ raft refl disk c) (ap (λ (x : Recovered). x.hs) disk))
            sound in
        let out = IsSaved-path cleaned _ _ path saved h in
        record { sound = out.sound; disk = out.disk; persisted = out.persisted; core = out.core }
    | inr clean ↦
        let path : save L store raft ≡ save_truncation L store raft =
          ap
            (λ (b : Bool).
              if b
              then write_record L (hard_record raft.current_term raft.voted_for) store raft
                  (λ store' raft'.
                    save_truncation L store' (record raft' { hard_state_dirty = false }))
              else save_truncation L store raft)
            clean in
        IsSaved-path raft _ _ path
          (save_truncation-IsSaved store raft fits clean sound c (c.clean clean)) h
  ]
