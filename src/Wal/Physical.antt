-- ===== src/Wal/Physical.antt =====
-- A physical record of src/wal_writer.cc, and what `ReadPhysicalRecord` of src/wal_reader.cc makes of
-- a buffer that starts with one.
use mini_lsm.Prelude.{
  ℕ, zero, suc, ◌+◌, ◌/◌, ◌%◌, ◌^◌, ◌≤◌, ◌<◌, ◌≡◌, ◌≢◌, beq_of_ne, drop-append_ge, refl, sym, ap,
  ◌∙◌, false, List, [], ◌∷◌, ◌++◌, append_assoc, append-nil, get_or-take, arith, ltb, ◌==◌,
  beq_self, length, length-append, take, drop, u32, take-append_length, drop-append_length,
}
use mini_lsm.Prelude.Bits.{bit_or-add, bit_and-byte}
use mini_lsm.Coding.{
  byte_at, encode_fixed32, decode_fixed32, decode_fixed32-encode_fixed32, encode_fixed32_shape,
}
use mini_lsm.Crc32c.{value, extend, mask, extend-append, extend-lt, unmask-mask}
use mini_lsm.Wal.Writer.{header_size, RecordType, type_crc, header}
use mini_lsm.Wal.Aligned.{length-header}
use mini_lsm.Wal.Reader.{Reader, zero_type, payload_length, parse_physical}

unfoldable pub physical : RecordType → List ℕ → List ℕ
physical type payload = header type payload ++ payload

-- The checksum that the writer computes is that of the type and the payload.
crc_joined :
    (type : RecordType) (payload : List ℕ) → extend (type_crc type) payload ≡ value (type ∷ payload)
unfolding type_crc value
crc_joined type payload = sym (extend-append 0 (type ∷ []) payload)

value-lt : (bytes : List ℕ) → value bytes < u32
unfolding value
value-lt bytes = extend-lt 0 bytes (omega arith)

-- The bytes of the header behind the checksum.
abbrev tail_bytes : RecordType → ℕ → List ℕ
tail_bytes type n = n % 256 ∷ n / 2 ^ 8 % 256 ∷ type ∷ []

physical_bytes :
    (type : RecordType) (payload rest : List ℕ)
    → physical type payload ++ rest
      ≡ encode_fixed32 (mask (value (type ∷ payload)))
        ++ (tail_bytes type (length payload) ++ (payload ++ rest))
unfolding physical header
physical_bytes type payload rest = simp (crc_joined, bit_and-byte, append_assoc)

byte_at-append :
    (xs ys : List ℕ) (i j : ℕ) → j ≡ length xs + i → byte_at (xs ++ ys) j ≡ byte_at ys i
byte_at-append [] ys i j e = ap (byte_at ys) (e ∙ omega arith)
byte_at-append (x ∷ xs) ys i zero e = absurd (omega arith)
byte_at-append (x ∷ xs) ys i (suc j) e = byte_at-append xs ys i j (omega arith)

-- What the parser reads of the front of a buffer.
record Shows (type : RecordType) (payload rest buffer : List ℕ) : Type 0 where
  crc : decode_fixed32 buffer ≡ mask (value (type ∷ payload))
  size : payload_length buffer ≡ length payload
  kind : byte_at buffer 6 ≡ type
  whole : length buffer ≡ header_size + length payload + length rest
  checked : drop 6 buffer ≡ (type ∷ payload) ++ rest
  body : drop header_size buffer ≡ payload ++ rest
  behind : drop (header_size + length payload) buffer ≡ rest

physical-Shows :
    (type : RecordType) (payload rest : List ℕ)
    → length payload < 2 ^ 16
    → Shows type payload rest (physical type payload ++ rest)
unfolding payload_length
physical-Shows type payload rest fits =
    let n = length payload in
    let crc = mask (value (type ∷ payload)) in
    let front = encode_fixed32 crc in
    let four = (encode_fixed32_shape crc).0 in
    let behind = tail_bytes type n ++ (payload ++ rest) in
    rw (physical_bytes type payload rest) (record {
      crc =
          decode_fixed32-encode_fixed32 crc behind
            (unmask-mask (value (type ∷ payload)) (value-lt (type ∷ payload))).0;
      size =
          rw
            (
              byte_at-append front behind 0 4 (omega (arith, four)),
              byte_at-append front behind 1 5 (omega (arith, four)),
            )
            (bit_or-add 8 (n % 256) (n / 2 ^ 8 % 256) (omega arith) ∙ omega arith);
      kind = byte_at-append front behind 2 6 (omega (arith, four));
      whole = omega (arith, four, length-append front behind, length-append payload rest);
      checked = drop-append_ge front behind 6 2 (omega (arith, four));
      body = drop-append_ge front behind header_size 3 (omega (arith, four));
      behind =
          drop-append_ge front behind (header_size + n) (suc (suc (suc n))) (omega (arith, four))
          ∙ drop-append_length payload rest n refl;
    })

parse_shown :
    {R : Type 0} (type : RecordType) (payload rest : List ℕ) (r : Reader R)
    → type ≢ zero_type
    → Shows type payload rest r.buffer
    → parse_physical r ≡ (type, payload, record r { buffer = rest })
unfolding parse_physical
parse_shown type payload rest r ne s =
    let n = length payload in
    let fits : ltb (length r.buffer) (header_size + n) ≡ false = ground (arith, s.whole) in
    let real : (type == zero_type) ≡ false = beq_of_ne type zero_type ne in
    let front : take (1 + n) (drop 6 r.buffer) ≡ type ∷ payload =
      ap (take (1 + n)) s.checked
      ∙ take-append_length (type ∷ payload) rest (1 + n) (omega arith) in
    let body : take n (drop header_size r.buffer) ≡ payload =
      ap (take n) s.body ∙ take-append_length payload rest n refl in
    let good = (unmask-mask (value (type ∷ payload)) (value-lt (type ∷ payload))).1 in
    simp (s.size, s.kind, fits, real, front, s.crc, good, beq_self, body, s.behind)

-- A buffer that starts with a physical record is parsed to its type and payload, and keeps the rest.
pub parse_physical-physical :
    {R : Type 0} (type : RecordType) (payload rest : List ℕ) (r : Reader R)
    → type ≢ zero_type
    → length payload < 2 ^ 16
    → r.buffer ≡ physical type payload ++ rest
    → parse_physical r ≡ (type, payload, record r { buffer = rest })
parse_physical-physical type payload rest r ne fits e =
    parse_shown type payload rest r ne (rw e (physical-Shows type payload rest fits))

pub length-physical :
    (type : RecordType) (payload : List ℕ)
    → length (physical type payload) ≡ header_size + length payload
unfolding physical
length-physical type payload =
    omega (arith, length-append (header type payload) payload, length-header type payload)

-- The front of a physical record, its header included, has the length of the whole payload.
pub payload_length-take :
    (type : RecordType) (payload : List ℕ) (j : ℕ)
    → length payload < 2 ^ 16
    → header_size ≤ j
    → payload_length (take j (physical type payload)) ≡ length payload
unfolding payload_length
payload_length-take type payload j fits le =
    let whole = rw (append-nil (physical type payload)) at (physical-Shows type payload [] fits) in
    rw
      (
        get_or-take j (physical type payload) 4 0 (omega arith),
        get_or-take j (physical type payload) 5 0 (omega arith),
      )
      (unfold payload_length in whole.size)
