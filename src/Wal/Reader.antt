-- ===== src/Wal/Reader.antt =====
-- src/wal_reader.cc: physical records are taken from blocks, checked, and joined to records.
use Prim.Native.Nat.{bit_or}
use mini_lsm.Prelude.{
  ℕ, zero, suc, ◌+◌, ◌*◌, ◌^◌, Bool, true, false, not, ◌&&◌, Option, none, some, List, [], ◌∷◌,
  ◌++◌, ltb, ◌==◌, if◌then◌else◌, length, take, drop,
}
use mini_lsm.Coding.{byte_at, decode_fixed32}
use mini_lsm.Crc32c.{value, unmask}
use mini_lsm.Status.{Status, is_ok, corrupted}
use mini_lsm.Wal.File.{SequentialFile}
use mini_lsm.Wal.Writer.{
  block_size, header_size, RecordType, full_type, first_type, middle_type, last_type,
}

abbrev pub zero_type : RecordType
zero_type = 0

-- The two results that are no type of a record.
abbrev pub eof_type : RecordType
eof_type = 5

abbrev pub bad_record : RecordType
bad_record = 6

-- The calls of `Corruption` so far, the last one last.
abbrev pub Reports : Type 0
Reports = List (ℕ × Status)

-- `reporter` is `none` for a null pointer, and `buffer` holds the bytes that the slice shows.
pub record Reader (R : Type 0) : Type 0 where
  pub file : R
  pub reporter : Option Reports
  pub eof : Bool
  pub buffer : List ℕ

-- The constructor.
unfoldable pub open_reader : {R : Type 0} → R → Option Reports → Reader R
open_reader file reporter = record { file = file; reporter = reporter; eof = false; buffer = [] }

abbrev pub report : ℕ → Status → Option Reports → Option Reports
report bytes reason none = none
report bytes reason (some reports) = some (reports ++ (bytes, reason) ∷ [])

unfoldable pub report_drop : {R : Type 0} → ℕ → Status → Reader R → Reader R
report_drop bytes reason r = record r { reporter = report bytes reason r.reporter }

-- The field of the header for the length of the payload.
unfoldable pub payload_length : List ℕ → ℕ
payload_length header = bit_or (byte_at header 4) (byte_at header 5 * 2 ^ 8)

-- What `ReadPhysicalRecord` does where the buffer holds a header.
unfoldable pub parse_physical : {R : Type 0} → Reader R → RecordType × List ℕ × Reader R
parse_physical r =
    let header = r.buffer in
    let masked_crc = decode_fixed32 header in
    let size = payload_length header in
    let type = byte_at header 6 in
    let dropped = record r { buffer = [] } in
    if ltb (length header) (header_size + size)
    then if not r.eof
      then (bad_record, [], report_drop (length header) (corrupted "bad record length") dropped)
      else (eof_type, [], dropped)
    else if type == zero_type && size == 0
    then (bad_record, [], record r { buffer = drop header_size header })
    else if not (value (take (1 + size) (drop 6 header)) == unmask masked_crc)
    then (bad_record, [], report_drop (length header) (corrupted "checksum mismatch") dropped)
    else (
      type,
      take size (drop header_size header),
      record r { buffer = drop (header_size + size) header },
    )

module _ {R : Type 0} (file : SequentialFile R) where
  -- The loop of `ReadPhysicalRecord`; `none` where the fuel does not suffice.
  unfoldable pub read_physical : ℕ → Reader R → Option (RecordType × List ℕ × Reader R)
  read_physical zero r = none
  read_physical (suc fuel) r =
      if ltb (length r.buffer) header_size
      then if r.eof
        then some (eof_type, [], record r { buffer = [] })
        else (let (s, bytes, f) = file.read block_size r.file in
            let again = read_physical fuel (record r {
              file = f;
              buffer = bytes;
              eof = if ltb (length bytes) block_size then true else r.eof;
            }) in
            if is_ok s
            then again
            else some (
              eof_type,
              [],
              report_drop block_size s (record r { file = f; buffer = []; eof = true }),
            ))
      else some (parse_physical r)

  -- A first round fills the buffer, and the second returns.
  unfoldable pub read_physical_record : Reader R → Option (RecordType × List ℕ × Reader R)
  read_physical_record r = read_physical 2 r

-- What a round of the loop of `ReadRecord` leads to: a return with a record or without one, or the
-- next round with its variables.
pub data Round (R : Type 0) : Type 0 where
  returns : Option (List ℕ) → Reader R → Round R
  continues : Bool → List ℕ → Reader R → Round R

-- The body of the `switch` of `ReadRecord`.
unfoldable pub assemble : {R : Type 0} → Bool → List ℕ → RecordType → List ℕ → Reader R → Round R
assemble in_fragmented scratch type fragment r =
    let complain = λ (text : Status). report_drop (length scratch) text r in
    if type == full_type
    then returns (some fragment)
        (if in_fragmented then complain (corrupted "partial record without end(1)") else r)
    else if type == first_type
    then continues true fragment
        (if in_fragmented then complain (corrupted "partial record without end(2)") else r)
    else if type == middle_type
    then if not in_fragmented
      then continues false scratch
          (report_drop (length fragment) (corrupted "missing start of fragmented record(1)") r)
      else continues true (scratch ++ fragment) r
    else if type == last_type
    then if not in_fragmented
      then continues false scratch
          (report_drop (length fragment) (corrupted "missing start of fragmented record(2)") r)
      else returns (some (scratch ++ fragment)) r
    else if type == eof_type
    then returns none r
    else if type == bad_record
    then if in_fragmented
      then continues false [] (complain (corrupted "error in middle of record"))
      else continues false scratch r
    else continues false [] (
        report_drop (length fragment + (if in_fragmented then length scratch else 0))
          (corrupted "unknown record type") r)

module _ {R : Type 0} (file : SequentialFile R) where
  -- The loop of `ReadRecord`; `none` where the fuel does not suffice.
  unfoldable pub read_fragments : ℕ → Bool → List ℕ → Reader R → Option (Option (List ℕ) × Reader R)
  read_fragments zero in_fragmented scratch r = none
  read_fragments (suc fuel) in_fragmented scratch r = elim (read_physical_record file r) [
    | none ↦ none
    | some (type, fragment, r') ↦ elim (assemble in_fragmented scratch type fragment r') [
      | returns result r'' ↦ some (result, r'')
      | continues in_fragmented' scratch' r'' ↦ read_fragments fuel in_fragmented' scratch' r''
    ]
  ]

  unfoldable pub read_record : ℕ → Reader R → Option (Option (List ℕ) × Reader R)
  read_record fuel r = read_fragments fuel false [] r

  -- The records that a loop `while (reader.ReadRecord(&record, &scratch))` sees, in turn.
  unfoldable pub read_records : ℕ → Reader R → Option (List (List ℕ) × Reader R)
  read_records zero r = none
  read_records (suc fuel) r = elim (read_record (suc fuel) r) [
    | none ↦ none
    | some (none, r') ↦ some ([], r')
    | some (some bytes, r') ↦ elim (read_records fuel r') [
      | none ↦ none
      | some (records, r'') ↦ some (bytes ∷ records, r'')
    ]
  ]
