-- ===== src/Wal/Implements.antt =====
-- The writer and the reader of the log meet what the clients of Wal.antt rely on.
use mini_lsm.Prelude.{
  ℕ, suc, ◌≡◌, refl, sym, ap, ◌∙◌, true, Option, none, some, List, [], ◌∷◌, ◌++◌, take, drop,
  length,
}
use mini_lsm.Status.{Status, success, is_ok}
use mini_lsm.Wal.{RecordLog}
use mini_lsm.Wal.File.{WritableFile, SequentialFile, IsReliable}
use mini_lsm.Wal.Writer.{Writer, add_record}
use mini_lsm.Wal.Reader.{Reader, read_records, open_reader}
use mini_lsm.Wal.Log.{HoldsLog, ReturnsLog, add_record-ReturnsLog, read_records-log_bytes}

-- The value of a call that returns.
abbrev returned : {F : Type 0} → Writer F → Option (Status × Writer F) → Status × Writer F
returned w none = (success, w)
returned w (some out) = out

abbrev seen : {R : Type 0} → Option (List (List ℕ) × Reader R) → List (List ℕ)
seen none = []
seen (some (records, r)) = records

-- What a loop over `ReadRecord` sees of a file that was opened.
unfoldable pub records_seen : {R : Type 0} → SequentialFile R → R → List (List ℕ)
records_seen in_ f = seen (read_records in_ (suc (length (in_.left f))) (open_reader f none))

-- A file as the bytes that it holds from the place of the reader on.
abbrev pub held_bytes : SequentialFile (List ℕ)
held_bytes = record {
  read = λ n f. (success, take n f, drop n f);
  left = λ f. f;
  taken = λ n f h. (refl, refl);
}

module _ {F : Type 0} (out : WritableFile F) where
  -- The file holds whole records to its end, and the writer stands behind them.
  abbrev pub IsSoundLog : Writer F → Type 0
  IsSoundLog w = (bs : List (List ℕ)) × HoldsLog out bs w

  -- `AddRecord` as the clients see it.
  unfoldable pub log_add : List ℕ → Writer F → Status × Writer F
  log_add b w = returned w (add_record out b w)

  unfoldable pub log_sync : Writer F → Status × Writer F
  log_sync w = let (s, f) = out.sync w.dest in (s, record w { dest = f })

  -- What a loop over `ReadRecord` sees of the bytes that the file holds.
  unfoldable pub log_records : Writer F → List (List ℕ)
  log_records w = records_seen held_bytes (out.contents w.dest)

  -- Any file that shows what the writer's file holds reads so, if no read fails.
  records_seen-HoldsLog :
      {R : Type 0} (in_ : SequentialFile R) (f : R) (bs : List (List ℕ)) (w : Writer F)
      → IsReliable in_
      → in_.left f ≡ out.contents w.dest
      → HoldsLog out bs w
      → records_seen in_ f ≡ bs
  unfolding records_seen
  records_seen-HoldsLog in_ f bs w reliable same h =
      ap seen (read_records-log_bytes in_ bs f none reliable (same ∙ h.bytes)).result

  pub log_records-HoldsLog :
      (bs : List (List ℕ)) (w : Writer F) → HoldsLog out bs w → log_records w ≡ bs
  unfolding log_records
  log_records-HoldsLog bs w h =
      records_seen-HoldsLog held_bytes (out.contents w.dest) bs w (λ n r. refl) refl h

  returned-HoldsLog :
      (bs : List (List ℕ)) (w : Writer F) (o : Option (Status × Writer F))
      → ReturnsLog out bs o
      → is_ok (returned w o).0 ≡ true
      → HoldsLog out bs (returned w o).1
  returned-HoldsLog bs w none r h = absurd r
  returned-HoldsLog bs w (some (s, w')) r h = r h

  -- A record that `AddRecord` added with success is the last one that a loop over `ReadRecord` sees in a
  -- file that is opened afterwards and shows what was written, and before it are the records that the file
  -- held, if no read fails, the file held whole records to its end and the writer stood behind them; it is
  -- so again.
  pub log_added :
      {R : Type 0} (in_ : SequentialFile R) (f : R) (b : List ℕ) (w : Writer F)
      → IsReliable in_
      → IsSoundLog w
      → is_ok (log_add b w).0 ≡ true
      → in_.left f ≡ out.contents (log_add b w).1.dest
      → (records_seen in_ f ≡ log_records w ++ b ∷ []) × IsSoundLog (log_add b w).1
  unfolding log_add
  log_added in_ f b w reliable (bs, holds) h same =
      let now = returned-HoldsLog (bs ++ b ∷ []) w _ (add_record-ReturnsLog out bs b w holds) h in
      (
        records_seen-HoldsLog in_ f (bs ++ b ∷ []) (log_add b w).1 reliable same now
            ∙ ap (λ rs. rs ++ b ∷ []) (sym (log_records-HoldsLog bs w holds)),
        (bs ++ b ∷ [], now),
      )

  pub log_records-log_add :
      (b : List ℕ) (w : Writer F)
      → IsSoundLog w
      → is_ok (log_add b w).0 ≡ true
      → (log_records (log_add b w).1 ≡ log_records w ++ b ∷ []) × IsSoundLog (log_add b w).1
  unfolding log_records
  log_records-log_add b w sound h =
      log_added held_bytes (out.contents (log_add b w).1.dest) b w (λ n r. refl) sound h refl

  synced-HoldsLog :
      (bs : List (List ℕ)) (w : Writer F) → HoldsLog out bs w → HoldsLog out bs (log_sync w).1
  unfolding log_sync
  synced-HoldsLog bs w h =
      let same = out.synced w.dest in
      record {
        bytes = same ∙ h.bytes;
        aligned = (h.aligned.0, rw same h.aligned.1);
        place = h.place;
      }

  pub log_synced :
      (w : Writer F)
      → IsSoundLog w
      → (log_records (log_sync w).1 ≡ log_records w) × IsSoundLog (log_sync w).1
  log_synced w (bs, holds) =
      let now = synced-HoldsLog bs w holds in
      (
        log_records-HoldsLog bs (log_sync w).1 now ∙ sym (log_records-HoldsLog bs w holds),
        (bs, now),
      )

  -- The log that the store and the Raft storage take.
  abbrev pub wal : RecordLog (Writer F) IsSoundLog
  wal = record {
    add_record = log_add;
    sync = log_sync;
    records = log_records;
    added = log_records-log_add;
    synced = log_synced;
  }
