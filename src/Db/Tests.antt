-- ===== src/Db/Tests.antt =====
-- The records of a few writes, and the table that they build.
use mini_lsm.Prelude.{
  ◌≡◌, refl, sym, ap, none, some, ℕ, true, false, ◌≢◌, List, [], ◌∷◌, ◌++◌, arith, if◌then◌else◌,
  ◌==◌,
}
use mini_lsm.Status.{success, is_ok, io_error, not_found}
use mini_lsm.Wal.{RecordLog}
use mini_lsm.Wal.Writer.{
  Writer, add_record, add_fragments, fresh_block, emit_fragment, emit_physical_record, emit_bytes,
  header, type_crc, record_type, resume,
}
use mini_lsm.Wal.Log.{resume-HoldsLog_nil}
use mini_lsm.Wal.Implements.{IsSoundLog, wal, log_add, log_sync, log_records-HoldsLog}
use mini_lsm.Wal.Tests.{memory}
use mini_lsm.Db.Store.{
  Db, get, run, write, reopen, IsDurable, run-IsDurable, run_failed, get-put, get-delete,
}
use mini_lsm.Db.Record.{
  encode_record, decode_record, put_field, type_put, decode_record-encode_record,
}
use mini_lsm.Db.Table.{
  Operation, put, delete, empty, log_records, replay, perform_all, last_written, or_else,
  replay-log_records, replay-last_written,
}
use mini_lsm.Coding.{encode_fixed32}

-- Key 1 gets the value 10 and loses it, and key 2 gets the value 20.
abbrev three_writes : List Operation
three_writes = put (1 ∷ []) (10 ∷ []) ∷ delete (1 ∷ []) ∷ put (2 ∷ []) (20 ∷ []) ∷ []

put_bytes :
    encode_record type_put (1 ∷ []) (10 ∷ []) ≡ 1 ∷ 1 ∷ 0 ∷ 0 ∷ 0 ∷ 1 ∷ 1 ∷ 0 ∷ 0 ∷ 0 ∷ 10 ∷ []
unfolding encode_record put_field encode_fixed32
put_bytes = refl

decode_record-encode_record_example :
    decode_record (encode_record type_put (1 ∷ []) (10 ∷ []) ++ [])
    ≡ some (record {
      type = type_put;
      key = 1 ∷ [];
      value = if type_put == type_put then 10 ∷ [] else [];
    })
decode_record-encode_record_example =
    decode_record-encode_record type_put (1 ∷ []) (10 ∷ []) [] (omega arith) (omega arith)

replay-log_records_example :
    replay (log_records three_writes) empty ≡ perform_all three_writes empty
replay-log_records_example = replay-log_records three_writes empty (omega arith)

replay-last_written_example :
    replay (log_records three_writes) empty (2 ∷ [])
    ≡ or_else (last_written (2 ∷ []) three_writes) none
replay-last_written_example = replay-last_written three_writes (2 ∷ []) (omega arith)

-- A log that takes every record.
abbrev large_log : RecordLog (List (List ℕ)) (λ w. Unit)
large_log = record {
  add_record = λ b w. (success, w ++ b ∷ []);
  sync = λ w. (success, w);
  records = λ w. w;
  added = λ b w sound h. (refl, tt);
  synced = λ w sound. (refl, tt);
}

-- A log without room.
abbrev full_log : RecordLog (List (List ℕ)) (λ w. Unit)
full_log = record {
  add_record = λ b w. (record { code = io_error; message = [] }, w);
  sync = λ w. (success, w);
  records = λ w. w;
  added = λ b w sound h. absurd (cc);
  synced = λ w sound. (refl, tt);
}

abbrev new_db : Db (List (List ℕ))
new_db = record { table = empty; writer = [] }

new_db-IsDurable : IsDurable large_log new_db
unfolding replay
new_db-IsDurable = refl

put_ok : is_ok (run large_log (put (1 ∷ []) (10 ∷ [])) new_db).0 ≡ true
unfolding run write
put_ok = refl

delete_ok : is_ok (run large_log (delete (1 ∷ [])) new_db).0 ≡ true
unfolding run write
delete_ok = refl

put_fails : is_ok (run full_log (put (1 ∷ []) (10 ∷ [])) new_db).0 ≡ false
unfolding run write
put_fails = refl

run-IsDurable_example :
    Unit {0} × IsDurable large_log (run large_log (put (1 ∷ []) (10 ∷ [])) new_db).1
run-IsDurable_example =
    run-IsDurable large_log (put (1 ∷ []) (10 ∷ [])) new_db (omega arith) tt new_db-IsDurable put_ok

run_failed_example :
    get (1 ∷ []) (run full_log (put (1 ∷ []) (10 ∷ [])) new_db).1 ≡ get (1 ∷ []) new_db
run_failed_example = run_failed full_log (put (1 ∷ []) (10 ∷ [])) new_db put_fails (1 ∷ [])

-- A new store on the log of Wal.Implements, in a file in memory.
abbrev real_log : RecordLog (Writer (List ℕ)) (IsSoundLog memory)
real_log = wal memory

abbrev real_db : Db (Writer (List ℕ))
real_db = record { table = empty; writer = resume [] 0 }

real_db_sound : IsSoundLog memory (resume [] 0)
real_db_sound = ([], resume-HoldsLog_nil memory [] refl)

real_db-IsDurable : IsDurable real_log real_db
unfolding replay
real_db-IsDurable = sym (
    ap (λ rs. replay rs empty)
      (log_records-HoldsLog memory [] (resume [] 0) (resume-HoldsLog_nil memory [] refl)))

real_put_ok : is_ok (run real_log (put (1 ∷ []) (10 ∷ [])) real_db).0 ≡ true
unfolding run write log_add log_sync add_record add_fragments fresh_block emit_fragment
    emit_physical_record emit_bytes resume header type_crc record_type encode_record put_field
    encode_fixed32
real_put_ok = refl

abbrev put_db : Db (Writer (List ℕ))
put_db = (run real_log (put (1 ∷ []) (10 ∷ [])) real_db).1

get-put_example :
    (get (1 ∷ []) put_db ≡ (success, some (10 ∷ [])))
    × (get (1 ∷ []) (reopen real_log put_db.writer) ≡ (success, some (10 ∷ [])))
    × ((other : List ℕ) → 1 ∷ [] ≢ other → get other put_db ≡ get other real_db)
get-put_example =
    get-put real_log (1 ∷ []) (10 ∷ []) real_db (omega arith) real_db_sound real_db-IsDurable
      real_put_ok

abbrev delete_db : Db (List (List ℕ))
delete_db = (run large_log (delete (1 ∷ [])) new_db).1

get-delete_example :
    (get (1 ∷ []) delete_db ≡ (record { code = not_found; message = 1 ∷ [] }, none))
    × (get (1 ∷ []) (reopen large_log delete_db.writer)
        ≡ (record { code = not_found; message = 1 ∷ [] }, none))
    × ((other : List ℕ) → 1 ∷ [] ≢ other → get other delete_db ≡ get other new_db)
get-delete_example =
    get-delete large_log (1 ∷ []) new_db (omega arith) tt new_db-IsDurable delete_ok
