-- ===== src/Wal/Writer.antt =====
-- src/wal_writer.cc: records in fragments that do not cross the blocks of the file.
use Prim.Native.Nat.{bit_and}
use mini_lsm.Prelude.{
  ℕ, zero, suc, ◌+◌, ◌-◌, ◌/◌, ◌%◌, ◌^◌, Bool, true, false, ◌&&◌, Option, none, some, List, [], ◌∷◌,
  ◌++◌, ltb, ◌==◌, if◌then◌else◌, length, take, drop,
}
use mini_lsm.Coding.{encode_fixed32}
use mini_lsm.Crc32c.{value, extend, mask}
use mini_lsm.Wal.File.{WritableFile}
use mini_lsm.Status.{Status, success, is_ok}

abbrev pub block_size : ℕ
block_size = 32768

abbrev pub header_size : ℕ
header_size = 7

-- The numbers behind the enumeration.
abbrev pub RecordType : Type 0
RecordType = ℕ

abbrev pub full_type : RecordType
full_type = 1

abbrev pub first_type : RecordType
first_type = 2

abbrev pub middle_type : RecordType
middle_type = 3

abbrev pub last_type : RecordType
last_type = 4

pub record Writer (F : Type 0) : Type 0 where
  pub dest : F
  pub block_offset : ℕ

abbrev pub zero_pad : List ℕ
zero_pad = 0 ∷ 0 ∷ 0 ∷ 0 ∷ 0 ∷ 0 ∷ 0 ∷ []

-- The constructor for a file that holds `dest_length` bytes.
unfoldable pub resume : {F : Type 0} → F → ℕ → Writer F
resume dest dest_length = record { dest = dest; block_offset = dest_length % block_size }

-- `type_crc_[type]`.
unfoldable pub type_crc : RecordType → ℕ
type_crc type = value (type ∷ [])

unfoldable pub header : RecordType → List ℕ → List ℕ
header type payload =
    encode_fixed32 (mask (extend (type_crc type) payload))
    ++ bit_and (length payload) 0xff ∷ bit_and (length payload / 2 ^ 8) 0xff ∷ type ∷ []

unfoldable pub record_type : Bool → Bool → RecordType
record_type true true = full_type
record_type true false = first_type
record_type false true = last_type
record_type false false = middle_type

module _ {F : Type 0} (file : WritableFile F) where
  unfoldable pub emit_bytes : RecordType → List ℕ → F → Status × F
  emit_bytes type payload f =
      let (s, f1) = file.append (header type payload) f in
      if is_ok s
      then (let (t, f2) = file.append payload f1 in if is_ok t then file.flush f2 else (t, f2))
      else (s, f1)

  unfoldable pub emit_physical_record : RecordType → List ℕ → Writer F → Status × Writer F
  emit_physical_record type payload w =
      let (s, f) = emit_bytes type payload w.dest in
      (s, record { dest = f; block_offset = w.block_offset + header_size + length payload })

  -- The step to a fresh block where the rest of this one has no room for a header.
  unfoldable pub fresh_block : Writer F → Status × Writer F
  fresh_block w =
      let leftover = block_size - w.block_offset in
      if ltb leftover header_size
      then if ltb 0 leftover
        then (let (s, f) = file.append (take leftover zero_pad) w.dest in
            if is_ok s
            then (success, record { dest = f; block_offset = 0 })
            else (s, record w { dest = f }))
        else (success, record w { block_offset = 0 })
      else (success, w)

  -- One fragment of what is left of the record, and what is left behind it.
  unfoldable pub emit_fragment : Bool → List ℕ → Writer F → Status × Writer F × List ℕ
  emit_fragment begin left w =
      let avail = block_size - w.block_offset - header_size in
      let fragment_length = if ltb (length left) avail then length left else avail in
      let end = length left == fragment_length in
      let (s, w') = emit_physical_record (record_type begin end) (take fragment_length left) w in
      (s, w', drop fragment_length left)

  -- The loop of `AddRecord`; `none` where the fuel does not suffice.
  unfoldable pub add_fragments : ℕ → Bool → List ℕ → Writer F → Option (Status × Writer F)
  add_fragments zero begin left w = none
  add_fragments (suc fuel) begin left w =
      let (s, w1) = fresh_block w in
      if is_ok s
      then (let (t, w2, rest) = emit_fragment begin left w1 in
          let again = add_fragments fuel false rest w2 in
          if is_ok t && ltb 0 (length rest) then again else some (t, w2))
      else some (s, w1)

  unfoldable pub add_record : List ℕ → Writer F → Option (Status × Writer F)
  add_record bytes w = add_fragments (length bytes + 2) true bytes w
