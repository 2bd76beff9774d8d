-- ===== src/Wal/Records.antt =====
-- A whole log: the bytes of its records in turn, and the loop of a client of src/wal_reader.cc that
-- reads them back.
use mini_lsm.Prelude.{
  ℕ, zero, suc, ◌+◌, ◌-◌, ◌≤◌, ◌<◌, ◌≡◌, refl, ap, ◌∙◌, inl, inr, Bool, true, false, Bool-cases,
  Option, none, some, List, [], ◌∷◌, ◌++◌, append_assoc, arith, ltb, length, length-append,
  length-take, length-drop, take, drop,
}
use mini_lsm.Wal.File.{SequentialFile, IsReliable}
use mini_lsm.Wal.Writer.{block_size, header_size, record_type}
use mini_lsm.Wal.Reader.{Reader, read_fragments, read_record, read_records}
use mini_lsm.Wal.Physical.{physical, length-physical}
use mini_lsm.Wal.View.{start_of, pad_of, View}
use mini_lsm.Wal.Frame.{frame, record_frame, Enough, frame-last, frame-more, piece_length}
use mini_lsm.Wal.RoundTrip.{Reads, read_fragments-frame}

-- The bytes of records from an offset on, and the offset behind them.
unfoldable pub frames : List (List ℕ) → ℕ → List ℕ × ℕ
frames [] off = ([], off)
frames (b ∷ bs) off =
    let first = record_frame b off in
    let others = frames bs first.1 in (first.0 ++ others.0, others.1)

-- A full block and a fresh one are written alike.
frame-full : (k : ℕ) (b : List ℕ) → frame (suc k) true b block_size ≡ frame (suc k) true b 0
unfolding frame
frame-full k b = refl

pub record_frame-full : (b : List ℕ) → record_frame b block_size ≡ record_frame b 0
unfolding record_frame
record_frame-full b =
    let e : length b + 2 ≡ suc (length b + 1) = omega arith in rw e (frame-full (length b + 1) b)

-- The offset behind a record is within its block, and its bytes are more than the record.
frame_bounds :
    (fuel : ℕ) (begin : Bool) (left : List ℕ) (off : ℕ)
    → Enough fuel left off
    → off ≤ block_size
    → ((frame fuel begin left off).1 ≤ block_size)
      × (length left + header_size ≤ length (frame fuel begin left off).0)
frame_bounds zero begin left off (inl h) bound = absurd (omega arith)
frame_bounds zero begin left off (inr h) bound = absurd (omega (arith, h.0))
frame_bounds (suc fuel) begin left off enough bound =
    let o = start_of off in
    let n = block_size - o - header_size in
    let size = length-drop (piece_length o left) left in
    elim (Bool-cases (ltb 0 (length (drop (piece_length o left) left)))) [
      | inr done ↦
          let front = physical (record_type begin true) left in
          rw (frame-last fuel begin left off done) (
            ground (arith, size),
            omega (
              arith,
              length-append (pad_of off) front,
              length-physical (record_type begin true) left,
            ),
          )
      | inl more ↦
          let e = frame-more fuel begin left off bound more in
          let behind = frame fuel false (drop n left) block_size in
          let front = physical (record_type begin false) (take n left) in
          let rest_size = length-drop n left in
          let less : length (drop n left) < fuel = elim enough [
            | inl h ↦ omega (arith, h, rest_size)
            | inr h ↦ ground (arith, h.0, h.1, rest_size, e.0)
          ] in
          let ih =
            frame_bounds fuel false (drop n left) block_size (inr (less, refl)) (omega arith) in
          rw e.1 (
            ih.0,
            omega (
              arith,
              ih.1,
              e.0,
              rest_size,
              length-append (pad_of off ++ front) behind.0,
              length-append (pad_of off) front,
              length-physical (record_type begin false) (take n left),
              length-take n left,
            ),
          )
    ]

pub record_frame_bounds :
    (b : List ℕ) (off : ℕ)
    → off ≤ block_size
    → ((record_frame b off).1 ≤ block_size)
      × (length b + header_size ≤ length (record_frame b off).0)
unfolding record_frame
record_frame_bounds b off bound = frame_bounds (length b + 2) true b off (inl (omega arith)) bound

module _ {R : Type 0} (file : SequentialFile R) where
  -- Where `tail` comes next, `ReadRecord` finds the end of the log, with no report.
  pub record EndsAt (k : ℕ) (in_fragmented : Bool) (scratch : List ℕ) (r : Reader R) : Type 0 where
    pub after : Reader R
    pub result : read_fragments file k in_fragmented scratch r ≡ some (none, after)
    pub silent : after.reporter ≡ r.reporter

  abbrev pub Ends : ℕ → List ℕ → Type 0
  Ends off tail =
      (k : ℕ) (r : Reader R) → View file off tail r → length tail < k → EndsAt k false [] r

  -- The reader returns `records` and then ends, with no report.
  pub record ReadsAll (records : List (List ℕ)) (r : Reader R)
      (o : Option (List (List ℕ) × Reader R)) : Type 0 where
    pub after : Reader R
    pub result : o ≡ some (records, after)
    pub silent : after.reporter ≡ r.reporter

  read_record-frame :
      (b rest : List ℕ) (off k : ℕ) (r : Reader R)
      → IsReliable file
      → length b + 2 ≤ k
      → View file off ((record_frame b off).0 ++ rest) r
      → Reads file b (record_frame b off).1 rest r (read_record file k r)
  unfolding read_record record_frame
  read_record-frame b rest off k r rel le v =
      read_fragments-frame file (length b + 2) k true b rest [] off r rel (inl (omega arith)) le
        v.bound (λ h. refl) v

  pub read_records-frames :
      (bs : List (List ℕ)) (tail : List ℕ) (off k : ℕ) (r : Reader R)
      → IsReliable file
      → Ends (frames bs off).1 tail
      → length ((frames bs off).0 ++ tail) < k
      → View file off ((frames bs off).0 ++ tail) r
      → ReadsAll bs r (read_records file k r)
  unfolding read_records frames
  read_records-frames bs tail off zero r rel ends lt v = absurd (omega arith)
  read_records-frames [] tail off (suc k) r rel ends lt v =
      let e = ends (suc k) r v lt in
      record {
        after = e.after;
        result = unfold read_record in (rw (e.result, read_records) refl);
        silent = e.silent;
      }
  read_records-frames (b ∷ bs) tail off (suc k) r rel ends lt v =
      let first = record_frame b off in
      let others = frames bs first.1 in
      let bounds = record_frame_bounds b off v.bound in
      let size = length-append first.0 (others.0 ++ tail) in
      let assoc : (first.0 ++ others.0) ++ tail ≡ first.0 ++ (others.0 ++ tail) =
        append_assoc first.0 others.0 tail in
      let one =
        read_record-frame b (others.0 ++ tail) off (suc k) r rel
          (omega (arith, ap length assoc, size, bounds.1)) (rw assoc at v) in
      let more =
        read_records-frames bs tail first.1 k one.after rel ends
          (omega (arith, ap length assoc, size, bounds.1)) one.view in
      record {
        after = more.after;
        result = rw (one.result, more.result, read_records) refl;
        silent = more.silent ∙ one.silent;
      }
