-- ===== src/Wal/Frame.antt =====
-- The format of include/mlsm/wal_writer.h: the bytes of a record from an offset of a block on, and
-- that `AddRecord` of src/wal_writer.cc appends just these.
use mini_lsm.Prelude.{
  ℕ, zero, suc, ◌+◌, ◌-◌, ◌≤◌, ◌<◌, ◌≡◌, refl, sym, ap, ap₂, ◌∙◌, subst, ◌⊎◌, inl, inr, Bool, true,
  false, Bool-cases, Option, none, some, List, [], ◌++◌, append_assoc, append-nil, arith, ltb, ◌==◌,
  if◌then◌else◌, length, length-take, length-drop, take, drop, take-length, beq_of_eq, beq_of_ne,
}
use mini_lsm.Status.{Status, is_ok}
use mini_lsm.Wal.File.{WritableFile}
use mini_lsm.Wal.Writer.{
  block_size, header_size, RecordType, Writer, zero_pad, header, record_type, emit_bytes,
  emit_physical_record, fresh_block, emit_fragment, add_fragments, add_record,
}
use mini_lsm.Wal.Aligned.{IsAligned, ReturnsAligned, add_record-ReturnsAligned}
use mini_lsm.Wal.Physical.{physical}
use mini_lsm.Wal.View.{start_of, pad_of}

-- How much of a record goes into the fragment at an offset with room for a header.
abbrev pub piece_length : ℕ → List ℕ → ℕ
piece_length off left =
    let avail = block_size - off - header_size in
    if ltb (length left) avail then length left else avail

abbrev pub piece : Bool → ℕ → List ℕ → List ℕ
piece begin off left =
    let n = piece_length off left in physical (record_type begin (length left == n)) (take n left)

-- The bytes of a record, or of what is left of it, and the offset behind them.
unfoldable pub frame : ℕ → Bool → List ℕ → ℕ → List ℕ × ℕ
frame zero begin left off = ([], off)
frame (suc fuel) begin left off =
    let o = start_of off in
    let n = piece_length o left in
    let front = pad_of off ++ piece begin o left in
    let behind = frame fuel false (drop n left) (o + header_size + n) in
    if ltb 0 (length (drop n left))
    then (front ++ behind.0, behind.1)
    else (front, o + header_size + n)

pub piece_length-le : (off : ℕ) (left : List ℕ) → piece_length off left ≤ length left
piece_length-le off left = ground arith

-- The last fragment, and one that fills its block.
pub frame-last :
    (fuel : ℕ) (begin : Bool) (left : List ℕ) (off : ℕ)
    → ltb 0 (length (drop (piece_length (start_of off) left) left)) ≡ false
    → frame (suc fuel) begin left off ≡ (
      pad_of off ++ physical (record_type begin true) left,
      start_of off + header_size + length left,
    )
unfolding frame
frame-last fuel begin left off done =
    let n = piece_length (start_of off) left in
    let le = piece_length-le (start_of off) left in
    let whole : length left ≡ n = ground (arith, length-drop n left, le) in
    let end : (length left == n) ≡ true = beq_of_eq (length left) n whole in
    let all : take n left ≡ left = take-length n left (omega (arith, whole)) in
    rw done (
      ap₂ (λ (bytes : List ℕ) m. (pad_of off ++ bytes, start_of off + header_size + m))
        (ap₂ (λ (e : Bool) (l : List ℕ). physical (record_type begin e) l) end all) (sym whole))

pub frame-more :
    (fuel : ℕ) (begin : Bool) (left : List ℕ) (off : ℕ)
    → off ≤ block_size
    → (let n = block_size - start_of off - header_size in
        let behind = frame fuel false (drop n left) block_size in
        ltb 0 (length (drop (piece_length (start_of off) left) left)) ≡ true
        → (n < length left)
          × (frame (suc fuel) begin left off ≡ (
            (pad_of off ++ physical (record_type begin false) (take n left)) ++ behind.0,
            behind.1,
          )))
unfolding frame
frame-more fuel begin left off bound more =
    let avail = block_size - start_of off - header_size in
    let n = piece_length (start_of off) left in
    let size = length-drop n left in
    let full : n ≡ avail = ground (arith, size) in
    let less : avail < length left = ground (arith, size) in
    let end : (length left == n) ≡ false =
      beq_of_ne (length left) n (λ e. omega (arith, e, full, less)) in
    let edge : start_of off + header_size + n ≡ block_size = ground arith in
    let built : Bool → ℕ → ℕ → List ℕ × ℕ = λ e k m.
      let behind = frame fuel false (drop k left) m in
      ((pad_of off ++ physical (record_type begin e) (take k left)) ++ behind.0, behind.1) in
    (
      less,
      rw more (
          ap (λ e. built e n (start_of off + header_size + n)) end
          ∙ ap (λ m. built false n m) edge
          ∙ ap (λ k. built false k block_size) full),
    )

-- Fuel for the fragments that are left; in a full block each of them takes something.
abbrev pub Enough : ℕ → List ℕ → ℕ → Type 0
Enough fuel left off = (length left + 1 < fuel) ⊎ ((length left < fuel) × (off ≡ block_size))

unfoldable pub record_frame : List ℕ → ℕ → List ℕ × ℕ
record_frame bytes off = frame (length bytes + 2) true bytes off

module _ {F : Type 0} (file : WritableFile F) where
  -- From `w` to `out` the bytes are appended, and the offset is set.
  pub record Appends (w : Writer F) (bytes : List ℕ) (off : ℕ) (out : Writer F) : Type 0 where
    pub wrote : file.contents out.dest ≡ file.contents w.dest ++ bytes
    pub offset : out.block_offset ≡ off

  Appends-trans :
      (w w1 w2 : Writer F) (xs ys : List ℕ) (m n : ℕ)
      → Appends w xs m w1
      → Appends w1 ys n w2
      → Appends w (xs ++ ys) n w2
  Appends-trans w w1 w2 xs ys m n a b = record {
    wrote = b.wrote ∙ ap (λ zs. zs ++ ys) a.wrote ∙ append_assoc (file.contents w.dest) xs ys;
    offset = b.offset;
  }

  fresh_block-Appends :
      (w : Writer F)
      → is_ok (fresh_block file w).0 ≡ true
      → Appends w (pad_of w.block_offset) (start_of w.block_offset) (fresh_block file w).1
  unfolding fresh_block
  fresh_block-Appends w h =
      let pad = take (block_size - w.block_offset) zero_pad in
      elim (Bool-cases (ltb (block_size - w.block_offset) header_size)) [
        | inr room ↦
            rw room (record { wrote = sym (append-nil (file.contents w.dest)); offset = refl })
        | inl few ↦ rw few (elim (Bool-cases (ltb 0 (block_size - w.block_offset))) [
          | inr none_left ↦
              let nothing : block_size - w.block_offset ≡ 0 = ground arith in
              rw none_left (record {
                wrote =
                    sym (append-nil (file.contents w.dest))
                    ∙ ap (λ n. file.contents w.dest ++ take n zero_pad) (sym nothing);
                offset = refl;
              })
          | inl some_left ↦ rw some_left (elim (Bool-cases (is_ok (file.append pad w.dest).0)) [
            | inl fine ↦ rw fine (record { wrote = file.appended pad w.dest fine; offset = refl })
            | inr bad ↦ absurd (ground (arith, few, some_left, bad, h))
          ])
        ])
      ]

  emit_bytes-contents :
      (type : RecordType) (payload : List ℕ) (f : F)
      → is_ok (emit_bytes file type payload f).0 ≡ true
      → file.contents (emit_bytes file type payload f).1 ≡ file.contents f ++ physical type payload
  unfolding emit_bytes physical
  emit_bytes-contents type payload f h =
      let head = header type payload in
      let f1 = (file.append head f).1 in
      elim (Bool-cases (is_ok (file.append head f).0)) [
        | inr bad ↦ absurd (ground (arith, bad, h))
        | inl fine ↦ elim (Bool-cases (is_ok (file.append payload f1).0)) [
          | inr lost ↦ absurd (ground (arith, fine, lost, h))
          | inl kept ↦
              rw (fine, kept)
                (file.flushed (file.append payload f1).1
                  ∙ file.appended payload f1 kept
                  ∙ ap (λ zs. zs ++ payload) (file.appended head f fine)
                  ∙ append_assoc (file.contents f) head payload)
        ]
      ]

  emit_fragment-Appends :
      (begin : Bool) (left : List ℕ) (w : Writer F)
      → is_ok (emit_fragment file begin left w).0 ≡ true
      → Appends w
          (piece begin w.block_offset left)
          (w.block_offset + header_size + piece_length w.block_offset left)
          (emit_fragment file begin left w).1
  unfolding emit_fragment emit_physical_record
  emit_fragment-Appends begin left w h =
      let n = piece_length w.block_offset left in
      record {
        wrote = emit_bytes-contents (record_type begin (length left == n)) (take n left) w.dest h;
        offset = omega (arith, length-take n left, piece_length-le w.block_offset left);
      }

  -- The call returned, and where it returned success the bytes were appended.
  abbrev pub Wrote : Writer F → List ℕ × ℕ → Option (Status × Writer F) → Type 0
  Wrote w f none = Unit
  Wrote w f (some (s, out)) = is_ok s ≡ true → Appends w f.0 f.1 out

  Wrote-after :
      (w w1 : Writer F) (xs : List ℕ) (m : ℕ) (f : List ℕ × ℕ) (o : Option (Status × Writer F))
      → Appends w xs m w1
      → Wrote w1 f o
      → Wrote w (xs ++ f.0, f.1) o
  Wrote-after w w1 xs m f none a h = tt
  Wrote-after w w1 xs m f (some (s, out)) a h =
      λ fine. Appends-trans w w1 out xs f.0 m f.1 a (h fine)

  step-Appends :
      (begin : Bool) (left : List ℕ) (w : Writer F)
      → is_ok (fresh_block file w).0 ≡ true
      → (let w1 = (fresh_block file w).1 in
          let o = start_of w.block_offset in
          is_ok (emit_fragment file begin left w1).0 ≡ true
          → Appends w
              (pad_of w.block_offset ++ piece begin o left)
              (o + header_size + piece_length o left)
              (emit_fragment file begin left w1).1)
  step-Appends begin left w fine kept =
      let w1 = (fresh_block file w).1 in
      let a = fresh_block-Appends w fine in
      let b =
        subst
          (λ m.
            Appends w1 (piece begin m left) (m + header_size + piece_length m left)
              (emit_fragment file begin left w1).1)
          a.offset (emit_fragment-Appends begin left w1 kept) in
      Appends-trans w w1 (emit_fragment file begin left w1).1 _ _ _ _ a b

  step-rest :
      (begin : Bool) (left : List ℕ) (w : Writer F)
      → is_ok (fresh_block file w).0 ≡ true
      → (emit_fragment file begin left (fresh_block file w).1).2
        ≡ drop (piece_length (start_of w.block_offset) left) left
  unfolding emit_fragment emit_physical_record
  step-rest begin left w fine =
      ap (λ m. drop (piece_length m left) left) (fresh_block-Appends w fine).offset

  add_fragments-Wrote :
      (fuel : ℕ) (begin : Bool) (left : List ℕ) (w : Writer F)
      → Wrote w (frame fuel begin left w.block_offset) (add_fragments file fuel begin left w)
  unfolding add_fragments frame
  add_fragments-Wrote zero begin left w = tt
  add_fragments-Wrote (suc fuel) begin left w =
      let w1 = (fresh_block file w).1 in
      let out = emit_fragment file begin left w1 in
      let o = start_of w.block_offset in
      let n = piece_length o left in
      elim (Bool-cases (is_ok (fresh_block file w).0)) [
        | inr bad ↦ rw bad (λ h. absurd (cc))
        | inl fine ↦ rw fine (elim (Bool-cases (is_ok out.0)) [
          | inr lost ↦ rw lost (λ h. absurd (cc))
          | inl kept ↦
              let ab = step-Appends begin left w fine kept in
              let rest = step-rest begin left w fine in
              rw kept (elim (Bool-cases (ltb 0 (length (drop n left)))) [
                | inr done ↦ rw (rest, done) (λ h. ab)
                | inl more ↦
                    let ih = add_fragments-Wrote fuel false out.2 out.1 in
                    let ih' =
                      subst
                        (λ (l : List ℕ).
                          Wrote out.1 (frame fuel false l out.1.block_offset)
                            (add_fragments file fuel false l out.1))
                        rest ih in
                    let ih'' =
                      subst
                        (λ m.
                          Wrote out.1 (frame fuel false (drop n left) m)
                            (add_fragments file fuel false (drop n left) out.1))
                        ab.offset ih' in
                    rw (rest, more) (Wrote-after w out.1 _ _ _ _ ab ih'')
              ])
        ])
      ]

  -- `AddRecord` returned, and where it returned success the bytes of the record in the format are
  -- behind those of the file.
  abbrev pub ReturnsFrame : Writer F → List ℕ × ℕ → Option (Status × Writer F) → Type 0
  ReturnsFrame w f none = ⊥
  ReturnsFrame w f (some (s, out)) = is_ok s ≡ true → Appends w f.0 f.1 out × IsAligned file out

  ReturnsFrame-join :
      (w : Writer F) (f : List ℕ × ℕ) (o : Option (Status × Writer F))
      → ReturnsAligned file o
      → Wrote w f o
      → ReturnsFrame w f o
  ReturnsFrame-join w f none a h = absurd a
  ReturnsFrame-join w f (some (s, out)) a h = λ fine. (h fine, a fine)

  -- `AddRecord` returns for every record, and where it returns success it has appended the record in
  -- the format, from the writer's offset on, and the offset is again where the file ends in its
  -- block, if it was so before.
  pub add_record-ReturnsFrame :
      (bytes : List ℕ) (w : Writer F)
      → IsAligned file w
      → ReturnsFrame w (record_frame bytes w.block_offset) (add_record file bytes w)
  unfolding add_record record_frame
  add_record-ReturnsFrame bytes w a =
      ReturnsFrame-join w _ _ (unfold add_record in add_record-ReturnsAligned file bytes w a)
        (add_fragments-Wrote (length bytes + 2) true bytes w)
