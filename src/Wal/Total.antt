-- ===== src/Wal/Total.antt =====
-- The loops of src/wal_reader.cc end on any bytes: a physical record that is taken shortens what is
-- left, and where nothing is taken the input is at its end.
use mini_lsm.Prelude.{
  ℕ, zero, suc, ◌+◌, ◌≤◌, ◌<◌, ◌≡◌, ◌≢◌, refl, ap, ◌⊎◌, inl, inr, Bool, true, false, not,
  Bool-cases, Option, none, some, List, [], ◌∷◌, arith, ltb, ◌==◌, ◌&&◌, if◌then◌else◌, length,
  length-drop, length-take, take, drop,
}
use mini_lsm.Status.{is_ok}
use mini_lsm.Coding.{decode_fixed32, byte_at}
use mini_lsm.Crc32c.{value, unmask}
use mini_lsm.Wal.File.{SequentialFile}
use mini_lsm.Wal.Writer.{
  block_size, header_size, RecordType, full_type, first_type, middle_type, last_type,
}
use mini_lsm.Wal.Reader.{
  Reader, eof_type, bad_record, zero_type, report_drop, payload_length, parse_physical,
  read_physical, read_physical_record, Round, returns, continues, assemble, read_fragments,
  read_record, read_records,
}
use mini_lsm.Wal.View.{filled, read_physical-ready}

if-case :
    {A : Type 0} (P : A → Type 0) (b : Bool) (x y : A)
    → (b ≡ true → P x)
    → (b ≡ false → P y)
    → P (if b then x else y)
if-case P true x y px py = px refl
if-case P false x y px py = py refl

if-holds : {A : Type 0} (P : A → Type 0) (b : Bool) (x y : A) → P x → P y → P (if b then x else y)
if-holds P true x y px py = px
if-holds P false x y px py = py

module _ {R : Type 0} (file : SequentialFile R) where
  -- The bytes that have not been consumed.
  abbrev pub ahead : Reader R → ℕ
  ahead r = length r.buffer + length (file.left r.file)

  -- A physical record takes at least a header.
  parse_physical-ahead :
      (r : Reader R) → header_size ≤ length r.buffer → ahead (parse_physical r).2 < ahead r
  unfolding parse_physical report_drop
  parse_physical-ahead r h =
      let P = λ (x : RecordType × List ℕ × Reader R). ahead x.2 < ahead r in
      if-holds P (ltb (length r.buffer) (header_size + payload_length r.buffer)) _ _
        (if-holds P (not r.eof) _ _ (omega arith) (omega arith))
        (if-holds P (byte_at r.buffer 6 == zero_type && payload_length r.buffer == 0) _ _
          (omega (arith, length-drop header_size r.buffer))
          (if-holds P
            (not (
              value (take (1 + payload_length r.buffer) (drop 6 r.buffer))
              == unmask (decode_fixed32 r.buffer)))
            _ _ (omega arith)
            (omega (arith, length-drop (header_size + payload_length r.buffer) r.buffer))))

  -- `ReadPhysicalRecord` returned, at the end of the input or with less to come.
  Progress : Reader R → Option (RecordType × List ℕ × Reader R) → Type 0
  Progress r none = ⊥
  Progress r (some (type, payload, r')) = (type ≡ eof_type) ⊎ (ahead r' < ahead r)

  Progress-ready :
      (fuel : ℕ) (r : Reader R)
      → header_size ≤ length r.buffer
      → Progress r (read_physical file (suc fuel) r)
  unfolding Progress
  Progress-ready fuel r h = rw (read_physical-ready file fuel r h) (inr (parse_physical-ahead r h))

  Progress-end :
      (fuel : ℕ) (r : Reader R)
      → length r.buffer < header_size
      → r.eof ≡ true
      → (q : Reader R) → Progress q (read_physical file (suc fuel) r)
  unfolding Progress read_physical
  Progress-end fuel r h e q =
      let short : ltb (length r.buffer) header_size ≡ true = ground arith in
      rw (short, e) (inl refl)

  Progress-mono :
      (r q : Reader R) (o : Option (RecordType × List ℕ × Reader R))
      → ahead r ≤ ahead q
      → Progress r o
      → Progress q o
  unfolding Progress
  Progress-mono r q none h p = p
  Progress-mono r q (some (type, payload, r')) h (inl e) = inl e
  Progress-mono r q (some (type, payload, r')) h (inr l) = inr (omega arith)

  filled-ahead :
      (r : Reader R)
      → is_ok (file.read block_size r.file).0 ≡ true
      → ahead (filled file r) ≤ ahead r
  filled-ahead r ok =
      let t = file.taken block_size r.file ok in
      omega (
        arith,
        ap length t.0,
        ap length t.1,
        length-take block_size (file.left r.file),
        length-drop block_size (file.left r.file),
      )

  -- A block that was read is parsed, or is too short for a header and the last one.
  Progress-filled :
      (r : Reader R)
      → is_ok (file.read block_size r.file).0 ≡ true
      → Progress r (read_physical file 1 (filled file r))
  Progress-filled r ok = elim (Bool-cases (ltb (length (filled file r).buffer) header_size)) [
    | inr long ↦
        Progress-mono (filled file r) r _ (filled-ahead r ok)
          (Progress-ready 0 (filled file r) (ground arith))
    | inl short ↦
        let less : length (filled file r).buffer < header_size = ground arith in
        let last : ltb (length (filled file r).buffer) block_size ≡ true = ground arith in
        Progress-end 0 (filled file r) less (rw last refl) r
  ]

  read_physical-fill_ok :
      (r : Reader R)
      → ltb (length r.buffer) header_size ≡ true
      → r.eof ≡ false
      → is_ok (file.read block_size r.file).0 ≡ true
      → read_physical file 2 r ≡ read_physical file 1 (filled file r)
  unfolding read_physical
  read_physical-fill_ok r short e ok = simp (short, e, ok)

  read_physical-failed :
      (r : Reader R)
      → ltb (length r.buffer) header_size ≡ true
      → r.eof ≡ false
      → is_ok (file.read block_size r.file).0 ≡ false
      → read_physical file 2 r
        ≡ some (
          eof_type,
          [],
          report_drop block_size
              (file.read block_size r.file).0
              (record r { file = (file.read block_size r.file).2; buffer = []; eof = true }),
        )
  unfolding read_physical
  read_physical-failed r short e failed = simp (short, e, failed)

  Progress-empty :
      (r : Reader R)
      → ltb (length r.buffer) header_size ≡ true
      → r.eof ≡ false
      → Progress r (read_physical file 2 r)
  unfolding Progress
  Progress-empty r short e = elim (Bool-cases (is_ok (file.read block_size r.file).0)) [
    | inl ok ↦ rw (read_physical-fill_ok r short e ok) (Progress-filled r ok)
    | inr failed ↦ rw (read_physical-failed r short e failed) (inl refl)
  ]

  -- Two rounds of the loop are enough, and a call that does not end the input shortens what is left.
  read_physical_record-Progress : (r : Reader R) → Progress r (read_physical_record file r)
  unfolding read_physical_record
  read_physical_record-Progress r = elim (Bool-cases (ltb (length r.buffer) header_size)) [
    | inr long ↦ Progress-ready 1 r (ground arith)
    | inl short ↦ elim (Bool-cases r.eof) [
      | inl e ↦ Progress-end 1 r (ground arith) e r
      | inr e ↦ Progress-empty r short e
    ]
  ]

  -- A round leaves the buffer and the file alone, and the end of the input returns.
  Rounds : ℕ → RecordType → Round R → Type 0
  Rounds n type (returns none r) = ahead r ≡ n
  Rounds n type (returns (some bytes) r) = (ahead r ≡ n) × (type ≢ eof_type)
  Rounds n type (continues in_fragmented scratch r) = (ahead r ≡ n) × (type ≢ eof_type)

  assemble-Rounds :
      (in_fragmented : Bool) (scratch : List ℕ) (type : RecordType) (fragment : List ℕ)
      (r : Reader R)
      → Rounds (ahead r) type (assemble in_fragmented scratch type fragment r)
  unfolding assemble Rounds report_drop
  assemble-Rounds true scratch type fragment r =
      let P = Rounds (ahead r) type in
      if-case P (type == full_type) _ _ (λ e. (refl, ground arith))
        (λ e1.
          if-case P (type == first_type) _ _ (λ e. (refl, ground arith))
            (λ e2.
              if-case P (type == middle_type) _ _ (λ e. (refl, ground arith))
                (λ e3.
                  if-case P (type == last_type) _ _ (λ e. (refl, ground arith))
                    (λ e4.
                      if-case P (type == eof_type) _ _ (λ e. refl)
                        (λ e5.
                          if-case P (type == bad_record) _ _ (λ e. (refl, ground arith))
                            (λ e6. (refl, ground arith)))))))
  assemble-Rounds false scratch type fragment r =
      let P = Rounds (ahead r) type in
      if-case P (type == full_type) _ _ (λ e. (refl, ground arith))
        (λ e1.
          if-case P (type == first_type) _ _ (λ e. (refl, ground arith))
            (λ e2.
              if-case P (type == middle_type) _ _ (λ e. (refl, ground arith))
                (λ e3.
                  if-case P (type == last_type) _ _ (λ e. (refl, ground arith))
                    (λ e4.
                      if-case P (type == eof_type) _ _ (λ e. refl)
                        (λ e5.
                          if-case P (type == bad_record) _ _ (λ e. (refl, ground arith))
                            (λ e6. (refl, ground arith)))))))

  -- What `ReadRecord` returned: a record and less to come, or the end of the input.
  Shrinks : ℕ → Option (Option (List ℕ) × Reader R) → Type 0
  Shrinks n none = ⊥
  Shrinks n (some (none, r)) = 0 ≤ n
  Shrinks n (some (some bytes, r)) = ahead r < n

  Shrinks-mono :
      (m n : ℕ) (o : Option (Option (List ℕ) × Reader R)) → m ≤ n → Shrinks m o → Shrinks n o
  unfolding Shrinks
  Shrinks-mono m n none h s = s
  Shrinks-mono m n (some (none, r)) h s = omega arith
  Shrinks-mono m n (some (some bytes, r)) h s = omega arith

  -- The rest of a round of `ReadRecord`, where its further rounds end.
  Shrinks-round :
      (fuel n m : ℕ) (type : RecordType) (round : Round R)
      → ((b : Bool) (scratch : List ℕ) (q : Reader R)
          → ahead q < fuel
          → Shrinks (ahead q) (read_fragments file fuel b scratch q))
      → n < suc fuel
      → (type ≡ eof_type) ⊎ (m < n)
      → Rounds m type round
      → Shrinks n (elim round [
        | returns result r ↦ some (result, r)
        | continues in_fragmented scratch r ↦ read_fragments file fuel in_fragmented scratch r
      ])
  unfolding Shrinks Rounds
  Shrinks-round fuel n m type (returns none r) ih lt p rounds = omega arith
  Shrinks-round fuel n m type (returns (some bytes) r) ih lt (inl e) rounds = absurd (rounds.1 e)
  Shrinks-round fuel n m type (returns (some bytes) r) ih lt (inr l) rounds =
      omega (arith, rounds.0)
  Shrinks-round fuel n m type (continues b scratch r) ih lt (inl e) rounds = absurd (rounds.1 e)
  Shrinks-round fuel n m type (continues b scratch r) ih lt (inr l) rounds =
      Shrinks-mono (ahead r) n _ (omega (arith, rounds.0))
        (ih b scratch r (omega (arith, rounds.0)))

  -- What is known of the rounds that fuel `fuel` is for.
  AllShrink : ℕ → Type 0
  AllShrink fuel =
      (b : Bool) (scratch : List ℕ) (q : Reader R)
      → ahead q < fuel
      → Shrinks (ahead q) (read_fragments file fuel b scratch q)

  AllShrink-suc : (fuel : ℕ) → AllShrink fuel → AllShrink (suc fuel)
  unfolding AllShrink Progress read_fragments
  AllShrink-suc fuel ih b scratch r lt =
      go (read_physical_record file r) refl (read_physical_record-Progress r)
    where
      go :
          (o : Option (RecordType × List ℕ × Reader R))
          → read_physical_record file r ≡ o
          → Progress r o
          → Shrinks (ahead r) (read_fragments file (suc fuel) b scratch r)
      go none e p = absurd p
      go (some (type, payload, r')) e p =
          rw (e, read_fragments)
            (Shrinks-round fuel (ahead r) (ahead r') type (assemble b scratch type payload r') ih lt
              p (assemble-Rounds b scratch type payload r'))

  -- `ReadRecord` ends, within as many rounds as bytes are left and one more.
  read_fragments-AllShrink : (fuel : ℕ) → AllShrink fuel
  unfolding AllShrink
  read_fragments-AllShrink zero b scratch r lt = absurd (omega arith)
  read_fragments-AllShrink (suc fuel) b scratch r lt =
      AllShrink-suc fuel (read_fragments-AllShrink fuel) b scratch r lt

  read_record-Shrinks :
      (fuel : ℕ) (r : Reader R) → ahead r < fuel → Shrinks (ahead r) (read_record file fuel r)
  unfolding read_record AllShrink
  read_record-Shrinks fuel r lt = read_fragments-AllShrink fuel false [] r lt

  -- The call returned.
  abbrev pub EndsWith : Option (List (List ℕ) × Reader R) → Type 0
  EndsWith o = (records : List (List ℕ)) × (r : Reader R) × (o ≡ some (records, r))

  read_records-next :
      (fuel : ℕ) (r : Reader R)
      → ahead r < suc fuel
      → ((q : Reader R) → ahead q < fuel → EndsWith (read_records file fuel q))
      → EndsWith (read_records file (suc fuel) r)
  unfolding Shrinks read_records
  read_records-next fuel r lt ih =
      go (read_record file (suc fuel) r) refl (read_record-Shrinks (suc fuel) r lt)
    where
      go :
          (o : Option (Option (List ℕ) × Reader R))
          → read_record file (suc fuel) r ≡ o
          → Shrinks (ahead r) o
          → EndsWith (read_records file (suc fuel) r)
      go none e s = absurd s
      go (some (none, r1)) e s = ([], r1, rw (e, read_records) refl)
      go (some (some bytes, r1)) e s =
          let later = ih r1 (omega arith) in
          (bytes ∷ later.0, later.1, rw (e, later.2, read_records) refl)

  -- The loop over `ReadRecord` ends on any bytes, whatever the reads of the file return, within as many
  -- rounds as bytes are left and one more.
  pub read_records_total :
      (fuel : ℕ) (r : Reader R) → ahead r < fuel → EndsWith (read_records file fuel r)
  read_records_total zero r lt = absurd (omega arith)
  read_records_total (suc fuel) r lt =
      read_records-next fuel r lt (λ q l. read_records_total fuel q l)
