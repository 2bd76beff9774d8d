-- ===== src/Wal/Log.antt =====
-- The writer of src/wal_writer.cc and the reader of src/wal_reader.cc together: what was added is what
-- a client reads back, also after a crash in the middle of an `AddRecord`.
use mini_lsm.Prelude.{
  ℕ, suc, ◌%◌, ◌≤◌, ◌<◌, ◌≡◌, refl, sym, ap, ap₂, ◌∙◌, subst, ◌⊎◌, inl, inr, true, Option, none,
  some, List, [], ◌∷◌, ◌++◌, append_assoc, append-nil, arith, length, length-append, take,
}
use mini_lsm.Status.{Status, is_ok}
use mini_lsm.Wal.File.{WritableFile, SequentialFile, IsReliable}
use mini_lsm.Wal.Writer.{Writer, block_size, add_record, resume}
use mini_lsm.Wal.Reader.{Reports, read_records, open_reader}
use mini_lsm.Wal.Aligned.{IsAligned}
use mini_lsm.Wal.View.{View}
use mini_lsm.Wal.Frame.{record_frame, Appends, ReturnsFrame, add_record-ReturnsFrame}
use mini_lsm.Wal.Records.{
  frames, record_frame-full, record_frame_bounds, Ends, ReadsAll, read_records-frames,
}
use mini_lsm.Wal.Torn.{Ends-nil, Ends-torn}

-- Offsets that name the same place of a block.
SameOffset : ℕ → ℕ → Type 0
SameOffset m n = (m ≤ block_size) × (n ≤ block_size) × (m % block_size ≡ n % block_size)

record_frame-SameOffset :
    (b : List ℕ) (m n : ℕ) → SameOffset m n → record_frame b m ≡ record_frame b n
unfolding SameOffset
record_frame-SameOffset b m n h = elim (same_cases m n h) [
  | inl e ↦ ap (record_frame b) e
  | inr (inl (em, en)) ↦ rw (em, en) (record_frame-full b)
  | inr (inr (em, en)) ↦ rw (em, en) (sym (record_frame-full b))
]
  where
    same_cases :
        (i j : ℕ)
        → SameOffset i j
        → (i ≡ j) ⊎ (((i ≡ block_size) × (j ≡ 0)) ⊎ ((i ≡ 0) × (j ≡ block_size)))
    same_cases i j s = ground arith

frames-append :
    (bs : List (List ℕ)) (b : List ℕ) (off : ℕ)
    → frames (bs ++ b ∷ []) off ≡ (
      (frames bs off).0 ++ (record_frame b (frames bs off).1).0,
      (record_frame b (frames bs off).1).1,
    )
unfolding frames
frames-append [] b off =
    ap (λ (bytes : List ℕ). (bytes, (record_frame b off).1)) (append-nil (record_frame b off).0)
frames-append (x ∷ bs) b off =
    let first = record_frame x off in
    let e = frames-append bs b first.1 in
    rw e (
      ap (λ (bytes : List ℕ). (bytes, (record_frame b (frames bs first.1).1).1))
        (sym (append_assoc first.0 (frames bs first.1).0 (record_frame b (frames bs first.1).1).0)))

frames_bound : (bs : List (List ℕ)) (off : ℕ) → off ≤ block_size → (frames bs off).1 ≤ block_size
unfolding frames
frames_bound [] off h = h
frames_bound (b ∷ bs) off h = frames_bound bs (record_frame b off).1 (record_frame_bounds b off h).0

-- The bytes of a log of records, from the start of a file on.
abbrev pub log_bytes : List (List ℕ) → List ℕ
log_bytes bs = (frames bs block_size).0

abbrev pub log_offset : List (List ℕ) → ℕ
log_offset bs = (frames bs block_size).1

-- A log without bytes has no record.
pub log_bytes-nil : (bs : List (List ℕ)) → log_bytes bs ≡ [] → bs ≡ []
unfolding frames
log_bytes-nil [] e = refl
log_bytes-nil (b ∷ bs) e =
    let first = record_frame b block_size in
    absurd (
      omega (
        arith,
        ap length e,
        length-append first.0 (frames bs first.1).0,
        (record_frame_bounds b block_size (omega arith)).1,
      ))

module _ {F : Type 0} (file : WritableFile F) where
  -- The file holds the records, and the writer stands behind them.
  pub record HoldsLog (bs : List (List ℕ)) (w : Writer F) : Type 0 where
    pub bytes : file.contents w.dest ≡ log_bytes bs
    pub aligned : IsAligned file w
    pub place : w.block_offset % block_size ≡ log_offset bs % block_size

  -- A file that is opened again is held as before.
  pub resume-HoldsLog :
      (bs : List (List ℕ)) (w : Writer F) (f : F)
      → HoldsLog bs w
      → file.contents f ≡ file.contents w.dest
      → HoldsLog bs (resume f (length (file.contents f)))
  unfolding resume
  resume-HoldsLog bs w f h same = record {
    bytes = same ∙ h.bytes;
    aligned = (omega arith, omega arith);
    place = omega (arith, ap length same, h.aligned.1, h.place);
  }

  -- An empty file holds no record.
  pub resume-HoldsLog_nil : (f : F) → file.contents f ≡ [] → HoldsLog [] (resume f 0)
  unfolding resume frames
  resume-HoldsLog_nil f empty = record {
    bytes = empty;
    aligned = (omega arith, omega (arith, ap length empty));
    place = omega arith;
  }

  -- The call returned, and where it returned success the file holds the records.
  abbrev pub ReturnsLog : List (List ℕ) → Option (Status × Writer F) → Type 0
  ReturnsLog bs none = ⊥
  ReturnsLog bs (some (s, out)) = is_ok s ≡ true → HoldsLog bs out

  appended-HoldsLog :
      (bs : List (List ℕ)) (b : List ℕ) (w out : Writer F)
      → HoldsLog bs w
      → Appends file w (record_frame b w.block_offset).0 (record_frame b w.block_offset).1 out
      → IsAligned file out
      → HoldsLog (bs ++ b ∷ []) out
  unfolding SameOffset
  appended-HoldsLog bs b w out h a aligned =
      let same =
        record_frame-SameOffset b w.block_offset (log_offset bs)
          (h.aligned.0, frames_bound bs block_size (omega arith), h.place) in
      let e = frames-append bs b block_size in
      record {
        bytes =
            a.wrote
            ∙ ap₂ ◌++◌ h.bytes (ap (λ (x : List ℕ × ℕ). x.0) same)
            ∙ sym (ap (λ (x : List ℕ × ℕ). x.0) e);
        aligned = aligned;
        place =
            ap (λ n. n % block_size)
              (a.offset ∙ ap (λ (x : List ℕ × ℕ). x.1) same ∙ sym (ap (λ (x : List ℕ × ℕ). x.1) e));
      }

  ReturnsLog-frame :
      (bs : List (List ℕ)) (b : List ℕ) (w : Writer F) (o : Option (Status × Writer F))
      → HoldsLog bs w
      → ReturnsFrame file w (record_frame b w.block_offset) o
      → ReturnsLog (bs ++ b ∷ []) o
  ReturnsLog-frame bs b w none h r = r
  ReturnsLog-frame bs b w (some (s, out)) h r =
      λ fine. let x = r fine in appended-HoldsLog bs b w out h x.0 x.1

  -- `AddRecord` returns, and where it returns success the file holds one record more and the writer
  -- stands behind it, if the file held the records before and the writer stood behind them.
  pub add_record-ReturnsLog :
      (bs : List (List ℕ)) (b : List ℕ) (w : Writer F)
      → HoldsLog bs w
      → ReturnsLog (bs ++ b ∷ []) (add_record file b w)
  add_record-ReturnsLog bs b w h =
      ReturnsLog-frame bs b w _ h (add_record-ReturnsFrame file b w h.aligned)

module _ {R : Type 0} (file : SequentialFile R) where
  -- A reader that was opened on a file with such bytes.
  opened-View :
      (f : R) (reporter : Option Reports)
      → View file block_size (file.left f) (open_reader f reporter)
  unfolding open_reader
  opened-View f reporter = record {
    bound = omega arith;
    buffered = refl;
    behind = refl;
    more = λ e. refl;
    done = λ e. absurd (cc);
  }

  read_log :
      (bs : List (List ℕ)) (tail : List ℕ) (f : R) (reporter : Option Reports)
      → IsReliable file
      → Ends file (log_offset bs) tail
      → file.left f ≡ log_bytes bs ++ tail
      → ReadsAll file bs
          (open_reader f reporter)
          (read_records file (suc (length (file.left f))) (open_reader f reporter))
  read_log bs tail f reporter rel ends e =
      read_records-frames file bs tail block_size (suc (length (file.left f)))
        (open_reader f reporter) rel ends (omega (arith, ap length e))
        (subst (λ l. View file block_size l (open_reader f reporter)) e (opened-View f reporter))

  -- The records of a log are read back, all of them and in order, and nothing is reported, if no read
  -- fails; the fuel is one more than the bytes of the file.
  pub read_records-log_bytes :
      (bs : List (List ℕ)) (f : R) (reporter : Option Reports)
      → IsReliable file
      → file.left f ≡ log_bytes bs
      → ReadsAll file bs
          (open_reader f reporter)
          (read_records file (suc (length (file.left f))) (open_reader f reporter))
  read_records-log_bytes bs f reporter rel e =
      read_log bs [] f reporter rel (Ends-nil file (log_offset bs) rel)
        (e ∙ sym (append-nil (log_bytes bs)))

  -- A log whose last record was cut off by a crash is read back without that record, and nothing is
  -- reported, if no read fails: the bytes behind the others are the first `m` of it, and not all.
  pub read_records_torn :
      (bs : List (List ℕ)) (b : List ℕ) (m : ℕ) (f : R) (reporter : Option Reports)
      → IsReliable file
      → m < length (record_frame b (log_offset bs)).0
      → file.left f ≡ log_bytes bs ++ take m (record_frame b (log_offset bs)).0
      → ReadsAll file bs
          (open_reader f reporter)
          (read_records file (suc (length (file.left f))) (open_reader f reporter))
  read_records_torn bs b m f reporter rel lt e =
      read_log bs _ f reporter rel
        (Ends-torn file b (log_offset bs) m rel (frames_bound bs block_size (omega arith)) lt) e
