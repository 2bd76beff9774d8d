-- ===== src/Replicated/Command.antt =====
-- `EncodeCommand` and `DecodeCommand` of src/raft/replicated_db.cc, which are to agree byte for byte with
-- those of src/db.cc.
use mini_lsm.Prelude.{
  ℕ, ◌+◌, ◌%◌, ◌≡◌, refl, true, false, Bool-cases, inl, inr, Option, none, some, List, [], ◌∷◌,
  ◌++◌, append_assoc, append-nil, arith, ltb, ◌==◌, if◌then◌else◌, length, take, drop, u32,
}
use mini_lsm.Coding.{byte_at, encode_fixed32, decode_fixed32}
use mini_lsm.Db.Record.{Decoded, encode_record, decode_record, put_field, take_field, decode_value}

-- The `uint8_t` behind the enumeration.
abbrev pub CommandType : Type 0
CommandType = ℕ

abbrev pub command_delete : CommandType
command_delete = 0

abbrev pub command_put : CommandType
command_put = 1

unfoldable pub encode_command : CommandType → List ℕ → List ℕ → List ℕ
encode_command type key value =
    let out = ((type ∷ []) ++ encode_fixed32 (length key % u32)) ++ key in
    if type == command_put then (out ++ encode_fixed32 (length value % u32)) ++ value else out

pub record Command : Type 0 where
  pub type : CommandType
  pub key : List ℕ
  pub value : List ℕ

-- The part for the value; `left` is what `p` points at.
unfoldable pub decode_command_value : CommandType → List ℕ → List ℕ → Option Command
decode_command_value type key left =
    if type == command_put
    then if ltb (length left) 4
      then none
      else (let size = decode_fixed32 left in
          let rest = drop 4 left in
          if ltb (length rest) size
          then none
          else some (record { type = type; key = key; value = take size rest }))
    else some (record { type = type; key = key; value = [] })

unfoldable pub decode_command : List ℕ → Option Command
decode_command bytes =
    if ltb (length bytes) (1 + 4)
    then none
    else let type = byte_at bytes 0 in
      let left = drop 1 bytes in
      let size = decode_fixed32 left in
      let rest = drop 4 left in
      if ltb (length rest) size
      then none
      else decode_command_value type (take size rest) (drop size rest)

abbrev pub command_of : Option Decoded → Option Command
command_of none = none
command_of (some d) = some (record { type = d.type; key = d.key; value = d.value })

encode_command-eq :
    (type : CommandType) (key value : List ℕ)
    → encode_command type key value ≡ encode_record type key value
unfolding encode_command encode_record put_field
encode_command-eq type key value = elim (Bool-cases (type == command_put)) [
  | inl put ↦ simp (put, append_assoc)
  | inr other ↦ simp (other, append-nil)
]

decode_command_value-eq :
    (type : CommandType) (key left : List ℕ)
    → decode_command_value type key left ≡ command_of (decode_value type key left)
unfolding decode_command_value decode_value take_field
decode_command_value-eq type key left = ground arith

-- The key of a record, and what is read behind it.
take_field_short : (bytes : List ℕ) → ltb (length bytes) 4 ≡ true → take_field bytes ≡ none
unfolding take_field
take_field_short bytes h = simp h

take_field_cut :
    (bytes : List ℕ)
    → ltb (length bytes) 4 ≡ false
    → ltb (length (drop 4 bytes)) (decode_fixed32 bytes) ≡ true
    → take_field bytes ≡ none
unfolding take_field
take_field_cut bytes h c = simp (h, c)

take_field_whole :
    (bytes : List ℕ)
    → ltb (length bytes) 4 ≡ false
    → ltb (length (drop 4 bytes)) (decode_fixed32 bytes) ≡ false
    → take_field bytes
      ≡ some
          (take (decode_fixed32 bytes) (drop 4 bytes), drop (decode_fixed32 bytes) (drop 4 bytes))
unfolding take_field
take_field_whole bytes h c = simp (h, c)

decode_command-eq : (bytes : List ℕ) → decode_command bytes ≡ command_of (decode_record bytes)
unfolding decode_command decode_record decode_fixed32
decode_command-eq [] = refl
decode_command-eq (type ∷ bytes) = elim (Bool-cases (ltb (length bytes) 4)) [
  | inl short ↦
      let all : ltb (length (type ∷ bytes)) (1 + 4) ≡ true = ground arith in
      rw (take_field_short bytes short, decode_record) (rw all refl)
  | inr long ↦
      let all : ltb (length (type ∷ bytes)) (1 + 4) ≡ false = ground arith in
      let rest = drop 4 bytes in
      elim (Bool-cases (ltb (length rest) (decode_fixed32 bytes))) [
        | inl cut ↦ rw (take_field_cut bytes long cut, decode_record) (rw (all, cut) refl)
        | inr whole ↦
            rw (take_field_whole bytes long whole, decode_record)
              (rw (all, whole)
                (decode_command_value-eq type (take (decode_fixed32 bytes) rest)
                  (drop (decode_fixed32 bytes) rest)))
      ]
]

-- The encoder and the decoder of commands agree with those of the records of src/db.cc, on all
-- arguments: what one writes the other reads, and malformed bytes are refused by both.
pub command-record :
    ((type : CommandType) (key value : List ℕ)
      → encode_command type key value ≡ encode_record type key value)
    × ((bytes : List ℕ) → decode_command bytes ≡ command_of (decode_record bytes))
command-record = (encode_command-eq, decode_command-eq)
