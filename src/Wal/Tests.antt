-- ===== src/Wal/Tests.antt =====
-- The writer of src/wal_writer.cc and the reader of src/wal_reader.cc on a file in memory.
use mini_lsm.Prelude.{
  Option, ℕ, suc, ◌≡◌, ◌<◌, refl, some, none, true, List, [], ◌∷◌, ◌++◌, arith, take, drop, length,
}
use mini_lsm.Status.{Status, success, is_ok}
use mini_lsm.Coding.{encode_fixed32, decode_fixed32}
use mini_lsm.Crc32c.{value, extend, fold_bytes, fold_byte, table, mask, unmask}
use mini_lsm.Wal.File.{WritableFile, SequentialFile}
use mini_lsm.Wal.Writer.{
  Writer, add_record, add_fragments, fresh_block, emit_fragment, emit_physical_record, emit_bytes,
  header, type_crc, record_type, resume,
}
use mini_lsm.Wal.Reader.{
  read_record, read_fragments, read_physical_record, read_physical, parse_physical, assemble,
  payload_length, report_drop, open_reader, read_records,
}
use mini_lsm.Wal.Frame.{frame, record_frame}
use mini_lsm.Wal.Records.{frames, ReadsAll}
use mini_lsm.Wal.Log.{
  ReturnsLog, log_bytes, log_offset, resume-HoldsLog_nil, add_record-ReturnsLog,
  read_records-log_bytes, read_records_torn,
}
use mini_lsm.Wal.Total.{EndsWith, read_records_total}
use mini_lsm.Wal.Implements.{IsSoundLog, log_add, log_records, records_seen, log_added}
use mini_lsm.Wal.Physical.{physical}

abbrev pub memory : WritableFile (List ℕ)
memory = record {
  append = λ bytes f. (success, f ++ bytes);
  flush = λ f. (success, f);
  sync = λ f. (success, f);
  contents = λ f. f;
  appended = λ bytes f h. refl;
  flushed = λ f. refl;
  synced = λ f. refl;
}

abbrev new_writer : Writer (List ℕ)
new_writer = record { dest = []; block_offset = 0 }

-- A short record is one physical record: the checksum, the length 2, the type and the payload.
short_record :
    add_record memory (104 ∷ 105 ∷ []) new_writer
    ≡ some (
      success,
      record {
        dest = encode_fixed32 (mask (value (1 ∷ 104 ∷ 105 ∷ []))) ++ 2 ∷ 0 ∷ 1 ∷ 104 ∷ 105 ∷ [];
        block_offset = 9;
      },
    )
unfolding add_record add_fragments fresh_block emit_fragment emit_physical_record emit_bytes header
    type_crc record_type encode_fixed32 mask value extend fold_bytes fold_byte table
short_record = refl

-- What is left of a file in memory.
abbrev pub memory_reader : SequentialFile (List ℕ)
memory_reader = record {
  read = λ n f. (success, take n f, drop n f);
  left = λ f. f;
  taken = λ n f h. (refl, refl);
}

abbrev greeting : List ℕ
greeting = 104 ∷ 105 ∷ []

add_record-ReturnsLog_example :
    ReturnsLog memory (greeting ∷ []) (add_record memory greeting (resume [] 0))
add_record-ReturnsLog_example =
    add_record-ReturnsLog memory [] greeting (resume [] 0) (resume-HoldsLog_nil memory [] refl)

read_records-log_bytes_example :
    ReadsAll memory_reader (greeting ∷ []) (open_reader (log_bytes (greeting ∷ [])) (some [])) (
      read_records memory_reader
        (suc (length (log_bytes (greeting ∷ []))))
        (open_reader (log_bytes (greeting ∷ [])) (some [])))
read_records-log_bytes_example =
    read_records-log_bytes memory_reader (greeting ∷ []) (log_bytes (greeting ∷ [])) (some [])
      (λ n r. refl) refl

-- Three bytes of a second record were written when the program ended.
abbrev torn : List ℕ
torn = log_bytes (greeting ∷ []) ++ take 3 (record_frame greeting (log_offset (greeting ∷ []))).0

three_of_nine : 3 < length (record_frame greeting (log_offset (greeting ∷ []))).0
unfolding frames record_frame frame physical header encode_fixed32
three_of_nine = omega arith

read_records_torn_example :
    ReadsAll memory_reader
      (greeting ∷ [])
      (open_reader torn (some []))
      (read_records memory_reader (suc (length torn)) (open_reader torn (some [])))
read_records_torn_example =
    read_records_torn memory_reader (greeting ∷ []) greeting 3 torn (some []) (λ n r. refl)
      three_of_nine refl

added_fine : is_ok (log_add memory greeting (resume [] 0)).0 ≡ true
unfolding log_add add_record add_fragments fresh_block emit_fragment emit_physical_record emit_bytes
    resume header type_crc record_type
added_fine = refl

log_added_example :
    (records_seen memory_reader (log_add memory greeting (resume [] 0)).1.dest
      ≡ log_records memory (resume [] 0) ++ greeting ∷ [])
    × IsSoundLog memory (log_add memory greeting (resume [] 0)).1
log_added_example =
    log_added memory memory_reader (log_add memory greeting (resume [] 0)).1.dest greeting
      (resume [] 0) (λ n r. refl) ([], resume-HoldsLog_nil memory [] refl) added_fine refl

-- Nine bytes that no writer wrote.
read_records_total_example :
    EndsWith memory_reader
      (read_records memory_reader 10 (open_reader (1 ∷ 2 ∷ 3 ∷ 4 ∷ 5 ∷ 6 ∷ 7 ∷ 8 ∷ 9 ∷ []) none))
unfolding open_reader
read_records_total_example =
    read_records_total memory_reader 10 (open_reader (1 ∷ 2 ∷ 3 ∷ 4 ∷ 5 ∷ 6 ∷ 7 ∷ 8 ∷ 9 ∷ []) none)
      (omega arith)

-- A record that was added with success behind a torn one is not read back: the reader takes the header
-- of the torn record, and drops the rest of the block.
abbrev bytes_of : Option (Status × Writer (List ℕ)) → List ℕ
bytes_of none = []
bytes_of (some (s, w)) = w.dest

abbrev read_back : List ℕ → Option (List (List ℕ))
read_back bytes = elim (read_records memory_reader (suc (length bytes)) (open_reader bytes none)) [
  | none ↦ none
  | some (records, r) ↦ some records
]

lost_behind_torn :
    read_back (bytes_of (add_record memory (1 ∷ 2 ∷ 3 ∷ []) (resume torn (length torn))))
    ≡ some (greeting ∷ [])
unfolding resume add_record add_fragments fresh_block emit_fragment emit_physical_record emit_bytes
    header type_crc record_type encode_fixed32 mask unmask value extend fold_bytes fold_byte table
    open_reader read_records read_record read_fragments read_physical_record read_physical
    parse_physical assemble payload_length decode_fixed32 report_drop frames record_frame frame
    physical
lost_behind_torn = refl
