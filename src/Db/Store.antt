-- ===== src/Db/Store.antt =====
-- `Put`, `Delete`, `Get` and `Write` of src/db.cc over the write-ahead log.
use mini_lsm.Prelude.{
  ℕ, ◌≡◌, ◌≢◌, refl, sym, ap, ◌∙◌, inl, inr, true, false, Bool-cases, Option, none, some, List, [],
  ◌∷◌, ◌++◌, arith, if◌then◌else◌,
}
use mini_lsm.Status.{Status, success, is_ok, not_found}
use mini_lsm.Wal.{RecordLog}
use mini_lsm.Db.Record.{ValueType, type_put, type_delete, encode_record}
use mini_lsm.Db.Table.{
  Table, empty, apply, replay, Operation, put, delete, log_record, perform, Fits,
  decode_record-log_record, same_bytes, same_bytes-eq, same_bytes_self, replay-append,
}

-- `table_`, and the log writer with its file.
pub record Db (W : Type 0) : Type 0 where
  pub table : Table
  pub writer : W

unfoldable pub found : List ℕ → Option (List ℕ) → Status × Option (List ℕ)
found key none = (record { code = not_found; message = key }, none)
found key (some value) = (success, some value)

-- `Get`: the value stands for what is assigned through the pointer.
unfoldable pub get : {W : Type 0} → List ℕ → Db W → Status × Option (List ℕ)
get key db = found key (db.table key)

module _ {W : Type 0} {IsSound : W → Type 0} (L : RecordLog W IsSound) where
  -- The log first, then the table.
  unfoldable pub write : ValueType → List ℕ → List ℕ → Db W → Status × Db W
  write type key value db =
      let (s, w) = L.add_record (encode_record type key value) db.writer in
      if is_ok s
      then (let (t, w') = L.sync w in
          if is_ok t
          then (success, record { table = apply type key value db.table; writer = w' })
          else (t, record db { writer = w' }))
      else (s, record db { writer = w })

  -- `Put` and `Delete`.
  unfoldable pub run : Operation → Db W → Status × Db W
  run (put key value) db = write type_put key value db
  run (delete key) db = write type_delete key [] db

  -- A store that is opened on the file of a log: `ReplayWal` into an empty table.
  unfoldable pub reopen : W → Db W
  reopen w = record { table = replay (L.records w) empty; writer = w }

  -- What is visible is what a restart would read.
  abbrev pub IsDurable : Db W → Type 0
  IsDurable db = db.table ≡ replay (L.records db.writer) empty

  -- What a write that returns success has done.
  record Writes (table : Table) (bytes : List ℕ) (a b : Db W) : Type 0 where
    shown : b.table ≡ table
    logged : L.records b.writer ≡ L.records a.writer ++ bytes ∷ []
    sound : IsSound b.writer

  write-Writes :
      (type : ValueType) (key value : List ℕ) (db : Db W)
      → IsSound db.writer
      → is_ok (write type key value db).0 ≡ true
      → Writes
          (apply type key value db.table)
          (encode_record type key value)
          db
          (write type key value db).1
  unfolding write
  write-Writes type key value db sound h =
      let bytes = encode_record type key value in
      let w = (L.add_record bytes db.writer).1 in
      elim (Bool-cases (is_ok (L.add_record bytes db.writer).0)) [
        | inl fine ↦ elim (Bool-cases (is_ok (L.sync w).0)) [
          | inl kept ↦
              let a = L.added bytes db.writer sound fine in
              let s = L.synced w a.1 in
              rw (fine, kept) (record { shown = refl; logged = s.0 ∙ a.0; sound = s.1 })
          | inr lost ↦ absurd (ground (arith, fine, lost, h))
        ]
        | inr bad ↦ absurd (ground (arith, bad, h))
      ]

  run-Writes :
      (o : Operation) (db : Db W)
      → IsSound db.writer
      → is_ok (run o db).0 ≡ true
      → Writes (perform o db.table) (log_record o) db (run o db).1
  unfolding run perform log_record
  run-Writes (put key value) db sound h = write-Writes type_put key value db sound h
  run-Writes (delete key) db sound h = write-Writes type_delete key [] db sound h

  -- A put or delete that returns success keeps the store durable: what is visible after it is what a
  -- restart would read, and the log is sound, if both was so before (sound as of Wal.Implements: whole
  -- records to its end, with no torn one, and the writer behind them) and the lengths of key and value fit
  -- 32 bits.
  pub run-IsDurable :
      (o : Operation) (db : Db W)
      → Fits o
      → IsSound db.writer
      → IsDurable db
      → is_ok (run o db).0 ≡ true
      → IsSound (run o db).1.writer × IsDurable (run o db).1
  run-IsDurable o db fits sound durable h =
      let e = run-Writes o db sound h in
      (
        e.sound,
        e.shown
            ∙ ap (perform o) durable
            ∙ sym (decode_record-log_record o (replay (L.records db.writer) empty) fits)
            ∙ sym (replay-append (L.records db.writer) (log_record o) empty)
            ∙ ap (λ rs. replay rs empty) (sym e.logged),
      )

  -- A write that fails shows nothing to readers.
  pub run_failed :
      (o : Operation) (db : Db W)
      → is_ok (run o db).0 ≡ false
      → (key : List ℕ) → get key (run o db).1 ≡ get key db
  unfolding run write get found
  run_failed (put k value) db h key = ground (arith, h)
  run_failed (delete k) db h key = ground (arith, h)

  -- After a put that returns success a read of its key finds the value, also in a store that is
  -- opened again on the file, and reads of other keys are as before, if the log was sound (as of
  -- Wal.Implements: whole records to its end, with no torn one, and the writer behind them), the table was
  -- what a restart would read, and the lengths of key and value fit 32 bits.
  pub get-put :
      (key value : List ℕ) (db : Db W)
      → Fits (put key value)
      → IsSound db.writer
      → IsDurable db
      → is_ok (run (put key value) db).0 ≡ true
      → (get key (run (put key value) db).1 ≡ (success, some value))
        × (get key (reopen (run (put key value) db).1.writer) ≡ (success, some value))
        × ((other : List ℕ) → key ≢ other → get other (run (put key value) db).1 ≡ get other db)
  unfolding reopen get found perform apply
  get-put key value db fits sound durable h =
      let e = (run-Writes (put key value) db sound h).shown in
      let durable' = (run-IsDurable (put key value) db fits sound durable h).1 in
      let here : (run (put key value) db).1.table key ≡ some value =
        ap (λ (t : Table). t key) e ∙ rw (same_bytes_self key) refl in
      (
        ap (found key) here,
        ap (found key) (ap (λ (t : Table). t key) (sym durable') ∙ here),
        λ other ne. elim (Bool-cases (same_bytes key other)) [
          | inl same ↦ absurd (ne (same_bytes-eq key other same))
          | inr differs ↦ ap (found other) (ap (λ (t : Table). t other) e ∙ rw differs refl)
        ],
      )

  -- After a delete that returns success its key is not found, also in a store that is opened again on
  -- the file, and reads of other keys are as before, if the log was sound (as of Wal.Implements: whole
  -- records to its end, with no torn one, and the writer behind them), the table was what a restart would
  -- read, and the length of the key fits 32 bits.
  pub get-delete :
      (key : List ℕ) (db : Db W)
      → Fits (delete key)
      → IsSound db.writer
      → IsDurable db
      → is_ok (run (delete key) db).0 ≡ true
      → (get key (run (delete key) db).1 ≡ (record { code = not_found; message = key }, none))
        × (get key (reopen (run (delete key) db).1.writer)
            ≡ (record { code = not_found; message = key }, none))
        × ((other : List ℕ) → key ≢ other → get other (run (delete key) db).1 ≡ get other db)
  unfolding reopen get found perform apply
  get-delete key db fits sound durable h =
      let e = (run-Writes (delete key) db sound h).shown in
      let durable' = (run-IsDurable (delete key) db fits sound durable h).1 in
      let here : (run (delete key) db).1.table key ≡ none =
        ap (λ (t : Table). t key) e ∙ rw (same_bytes_self key) refl in
      (
        ap (found key) here,
        ap (found key) (ap (λ (t : Table). t key) (sym durable') ∙ here),
        λ other ne. elim (Bool-cases (same_bytes key other)) [
          | inl same ↦ absurd (ne (same_bytes-eq key other same))
          | inr differs ↦ ap (found other) (ap (λ (t : Table). t other) e ∙ rw differs refl)
        ],
      )
