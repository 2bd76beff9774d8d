-- ===== src/Wal/Aligned.antt =====
-- The writer of src/wal_writer.cc returns, and its offset is where the file ends in its block.
use mini_lsm.Prelude.{
  ℕ, zero, suc, ◌+◌, ◌-◌, ◌%◌, ◌≤◌, ◌<◌, ◌≡◌, ap, ◌∙◌, ◌⊎◌, inl, inr, Bool, true, false, Option,
  none, some, List, Bool-cases, arith, ltb, ◌==◌, if◌then◌else◌, length, length-append, take,
  length-take, length-drop,
}
use mini_lsm.Coding.{encode_fixed32, encode_fixed32_shape}
use mini_lsm.Crc32c.{extend, mask}
use mini_lsm.Status.{Status, success, is_ok}
use mini_lsm.Wal.File.{WritableFile}
use mini_lsm.Wal.Writer.{
  block_size, header_size, RecordType, Writer, zero_pad, type_crc, header, record_type, emit_bytes,
  emit_physical_record, fresh_block, emit_fragment, add_fragments, add_record,
}

pub length-header :
    (type : RecordType) (payload : List ℕ) → length (header type payload) ≡ header_size
unfolding header
length-header type payload =
    let crc = mask (extend (type_crc type) payload) in
    length-append (encode_fixed32 crc) _ ∙ omega (arith, (encode_fixed32_shape crc).0)

module _ {F : Type 0} (file : WritableFile F) where
  -- The offset is where the file ends in its block.
  abbrev pub IsAligned : Writer F → Type 0
  IsAligned w =
      (w.block_offset ≤ block_size)
      × (length (file.contents w.dest) % block_size ≡ w.block_offset % block_size)

  -- A fresh block leaves room for a header.
  fresh_block-IsAligned :
      (w : Writer F)
      → IsAligned w
      → is_ok (fresh_block file w).0 ≡ true
      → IsAligned (fresh_block file w).1
        × ((fresh_block file w).1.block_offset + header_size ≤ block_size)
  unfolding fresh_block
  fresh_block-IsAligned w a h =
      let pad = take (block_size - w.block_offset) zero_pad in
      elim (Bool-cases (ltb (block_size - w.block_offset) header_size)) [
        | inr room ↦ rw room (a, ground arith)
        | inl few ↦ rw few (elim (Bool-cases (ltb 0 (block_size - w.block_offset))) [
          | inr none_left ↦ rw none_left ((omega arith, ground (arith, a.0, a.1)), omega arith)
          | inl some_left ↦ rw some_left (elim (Bool-cases (is_ok (file.append pad w.dest).0)) [
            | inl fine ↦ rw fine (
              (
                omega arith,
                ground (
                  arith,
                  a.0,
                  a.1,
                  ap length (file.appended pad w.dest fine),
                  length-append (file.contents w.dest) pad,
                  length-take (block_size - w.block_offset) zero_pad,
                ),
              ),
              omega arith,
            )
            | inr bad ↦ absurd (ground (arith, few, some_left, bad, h))
          ])
        ])
      ]

  emit_bytes-length :
      (type : RecordType) (payload : List ℕ) (f : F)
      → is_ok (emit_bytes file type payload f).0 ≡ true
      → length (file.contents (emit_bytes file type payload f).1)
        ≡ length (file.contents f) + header_size + length payload
  unfolding emit_bytes
  emit_bytes-length type payload f h =
      let head = header type payload in
      let f1 = (file.append head f).1 in
      elim (Bool-cases (is_ok (file.append head f).0)) [
        | inr bad ↦ absurd (ground (arith, bad, h))
        | inl fine ↦ elim (Bool-cases (is_ok (file.append payload f1).0)) [
          | inr lost ↦ absurd (ground (arith, fine, lost, h))
          | inl kept ↦
              rw (fine, kept)
                (ap length (file.flushed (file.append payload f1).1)
                  ∙ ap length (file.appended payload f1 kept)
                  ∙ length-append (file.contents f1) payload
                  ∙ omega (
                    arith,
                    ap length (file.appended head f fine),
                    length-append (file.contents f) head,
                    length-header type payload,
                  ))
        ]
      ]

  emit_fragment-IsAligned :
      (begin : Bool) (left : List ℕ) (w : Writer F)
      → IsAligned w
      → w.block_offset + header_size ≤ block_size
      → is_ok (emit_fragment file begin left w).0 ≡ true
      → IsAligned (emit_fragment file begin left w).1
  unfolding emit_fragment emit_physical_record
  emit_fragment-IsAligned begin left w a room h =
      let avail = block_size - w.block_offset - header_size in
      let n = if ltb (length left) avail then length left else avail in
      let size : length (take n left) ≤ avail = ground (arith, length-take n left) in
      let bytes = emit_bytes-length (record_type begin (length left == n)) (take n left) w.dest h in
      (omega arith, omega (arith, bytes, a.1))

  fresh_block-full :
      (w : Writer F)
      → w.block_offset ≡ block_size
      → ((fresh_block file w).0 ≡ success) × ((fresh_block file w).1.block_offset ≡ 0)
  unfolding fresh_block
  fresh_block-full w e = ground (arith, e)

  -- Where something is left behind a fragment, the block is full, and a fragment in a fresh block
  -- takes something.
  emit_fragment-rest :
      (begin : Bool) (left : List ℕ) (w : Writer F)
      → w.block_offset + header_size ≤ block_size
      → 0 < length (emit_fragment file begin left w).2
      → ((emit_fragment file begin left w).1.block_offset ≡ block_size)
        × (length (emit_fragment file begin left w).2 ≤ length left)
        × (w.block_offset ≡ 0 → length (emit_fragment file begin left w).2 < length left)
  unfolding emit_fragment emit_physical_record
  emit_fragment-rest begin left w room h =
      let avail = block_size - w.block_offset - header_size in
      let n = if ltb (length left) avail then length left else avail in
      let rest = length-drop n left in
      let all : n ≡ avail = ground (arith, rest, h) in
      (
        omega (arith, all, rest, h, length-take n left),
        omega (arith, rest),
        λ e. omega (arith, all, rest, e, h),
      )

  -- Fuel for the fragments that are left; in a full block each of them takes something.
  abbrev Enough : ℕ → List ℕ → Writer F → Type 0
  Enough fuel left w =
      (length left + 1 < fuel) ⊎ ((length left < fuel) × (w.block_offset ≡ block_size))

  -- The call returns, and where it returns success the offset is where the file ends in its block.
  abbrev pub ReturnsAligned : Option (Status × Writer F) → Type 0
  ReturnsAligned none = ⊥
  ReturnsAligned (some (s, out)) = is_ok s ≡ true → IsAligned out

  add_fragments-ReturnsAligned :
      (fuel : ℕ) (begin : Bool) (left : List ℕ) (w : Writer F)
      → IsAligned w
      → Enough fuel left w
      → ReturnsAligned (add_fragments file fuel begin left w)
  unfolding add_fragments
  add_fragments-ReturnsAligned zero begin left w a (inl h) = absurd (omega arith)
  add_fragments-ReturnsAligned zero begin left w a (inr h) = absurd (omega (arith, h.0))
  add_fragments-ReturnsAligned (suc fuel) begin left w a enough =
      let w1 = (fresh_block file w).1 in
      let out = emit_fragment file begin left w1 in
      elim (Bool-cases (is_ok (fresh_block file w).0)) [
        | inr bad ↦ rw bad (λ h. absurd (cc))
        | inl fine ↦
            let fresh = fresh_block-IsAligned w a fine in
            rw fine (elim (Bool-cases (is_ok out.0)) [
              | inr lost ↦ rw lost (λ h. absurd (cc))
              | inl kept ↦ rw kept (elim (Bool-cases (ltb 0 (length out.2))) [
                | inr done ↦
                    rw done (λ h. emit_fragment-IsAligned begin left w1 fresh.0 fresh.1 kept)
                | inl more ↦
                    let rest = emit_fragment-rest begin left w1 fresh.1 (ground arith) in
                    let less : length out.2 < fuel = elim enough [
                      | inl h ↦ omega (arith, h, rest.1)
                      | inr h ↦ omega (arith, h.0, rest.2 (fresh_block-full w h.1).1)
                    ] in
                    rw more (
                      add_fragments-ReturnsAligned fuel false out.2 out.1
                        (emit_fragment-IsAligned begin left w1 fresh.0 fresh.1 kept)
                        (inr (less, rest.0)))
              ])
            ])
      ]

  -- `AddRecord` returns for every record, and where it returns success the writer's offset is where
  -- the file ends in its block, if it was so before.
  pub add_record-ReturnsAligned :
      (bytes : List ℕ) (w : Writer F) → IsAligned w → ReturnsAligned (add_record file bytes w)
  unfolding add_record
  add_record-ReturnsAligned bytes w a =
      add_fragments-ReturnsAligned (length bytes + 2) true bytes w a (inl (omega arith))
