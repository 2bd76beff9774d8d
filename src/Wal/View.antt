-- ===== src/Wal/View.antt =====
-- What the reader of src/wal_reader.cc has before it, block by block, and the step over a physical
-- record.
use mini_lsm.Prelude.{
  ℕ, suc, ◌+◌, ◌-◌, ◌≤◌, ◌<◌, ◌≡◌, ◌≢◌, refl, sym, ap, ◌∙◌, inl, inr, Bool, true, false, Bool-cases,
  some, List, [], ◌++◌, arith, ltb, if◌then◌else◌, length, length-append, length-take, take, drop,
  take-append_ge, drop-append_ge, drop-append_length,
}
use mini_lsm.Wal.File.{SequentialFile, IsReliable}
use mini_lsm.Wal.Writer.{block_size, header_size, RecordType, zero_pad}
use mini_lsm.Wal.Reader.{Reader, zero_type, parse_physical, read_physical, read_physical_record}
use mini_lsm.Wal.Physical.{physical, parse_physical-physical, length-physical}

-- Where a physical record goes that comes at offset `off` of a block, and the zeros before it.
abbrev pub start_of : ℕ → ℕ
start_of off = if ltb (block_size - off) header_size then 0 else off

abbrev pub pad_of : ℕ → List ℕ
pad_of off = if ltb (block_size - off) header_size then take (block_size - off) zero_pad else []

-- What the flag says after a block was asked for.
at_end-full : (n k : ℕ) (e : Bool) → (if ltb n k then true else e) ≡ false → k ≤ n
at_end-full n k e h = ground arith

at_end-short : (n k : ℕ) (e : Bool) → e ≡ false → (if ltb n k then true else e) ≡ true → n < k
at_end-short n k e h t = ground arith

module _ {R : Type 0} (file : SequentialFile R) where
  -- The reader stands at offset `off` of a block, and the bytes `ahead` are to come: those of this
  -- block in the buffer and the others in the file.
  pub record View (off : ℕ) (ahead : List ℕ) (r : Reader R) : Type 0 where
    pub bound : off ≤ block_size
    pub buffered : r.buffer ≡ take (block_size - off) ahead
    pub behind : file.left r.file ≡ drop (block_size - off) ahead
    pub more : r.eof ≡ false → length r.buffer ≡ block_size - off
    pub done : r.eof ≡ true → length ahead ≤ block_size - off

  pub read_physical-ready :
      (fuel : ℕ) (r : Reader R)
      → header_size ≤ length r.buffer
      → read_physical file (suc fuel) r ≡ some (parse_physical r)
  unfolding read_physical
  read_physical-ready fuel r h =
      let e : ltb (length r.buffer) header_size ≡ false = ground arith in rw e refl

  -- The reader after a round that fills its buffer.
  abbrev pub filled : Reader R → Reader R
  filled r = record r {
    file = (file.read block_size r.file).2;
    buffer = (file.read block_size r.file).1;
    eof = if ltb (length (file.read block_size r.file).1) block_size then true else r.eof;
  }

  pub read_physical-fill :
      (fuel : ℕ) (r : Reader R)
      → IsReliable file
      → length r.buffer < header_size
      → r.eof ≡ false
      → read_physical file (suc fuel) r ≡ read_physical file fuel (filled r)
  unfolding read_physical
  read_physical-fill fuel r reliable h e =
      let short : ltb (length r.buffer) header_size ≡ true = ground arith in
      simp (short, e, reliable block_size r.file)

  -- A filled buffer is the next block.
  pub filled-View :
      (off : ℕ) (ahead : List ℕ) (r : Reader R)
      → IsReliable file
      → View off ahead r
      → r.eof ≡ false
      → View 0 (drop (block_size - off) ahead) (filled r)
  filled-View off ahead r reliable v e =
      let next = drop (block_size - off) ahead in
      let t = file.taken block_size r.file (reliable block_size r.file) in
      let bytes : (file.read block_size r.file).1 ≡ take block_size next =
        t.0 ∙ ap (take block_size) v.behind in
      let size = length-take block_size next in
      record {
        bound = omega arith;
        buffered = bytes;
        behind = t.1 ∙ ap (drop block_size) v.behind;
        more = λ open_.
            let full =
              at_end-full (length (file.read block_size r.file).1) block_size r.eof open_ in
            omega (arith, full, ap length bytes, size);
        done = λ over.
            let short =
              at_end-short (length (file.read block_size r.file).1) block_size r.eof e over in
            omega (arith, short, ap length bytes, size);
      }

  -- The reader after a physical record at its offset.
  parsed-View :
      (off : ℕ) (type : RecordType) (payload rest : List ℕ) (r : Reader R)
      → type ≢ zero_type
      → View off (physical type payload ++ rest) r
      → off + header_size + length payload ≤ block_size
      → (r' : Reader R) × (parse_physical r ≡ (type, payload, r'))
        × View (off + header_size + length payload) rest r'
        × (r'.reporter ≡ r.reporter)
  parsed-View off type payload rest r ne v fits =
      let n = length payload in
      let k = block_size - (off + header_size + n) in
      let size = length-physical type payload in
      let room : block_size - off ≡ length (physical type payload) + k = omega (arith, size) in
      let front : r.buffer ≡ physical type payload ++ take k rest =
        v.buffered ∙ take-append_ge (physical type payload) rest (block_size - off) k room in
      let whole = length-append (physical type payload) rest in
      let part = length-append (physical type payload) (take k rest) in
      (
        record r { buffer = take k rest },
        parse_physical-physical type payload (take k rest) r ne (omega arith) front,
        record {
          bound = fits;
          buffered = refl;
          behind = v.behind ∙ drop-append_ge (physical type payload) rest (block_size - off) k room;
          more = λ e. omega (arith, v.more e, ap length front, part, size);
          done = λ e. omega (arith, v.done e, whole, size);
        },
        refl,
      )

  -- Where at least a header comes next, behind the zeros that fill a block, `ReadPhysicalRecord`
  -- parses a buffer that starts there.
  pub read_physical_record-parses :
      (off : ℕ) (ahead : List ℕ) (r : Reader R)
      → IsReliable file
      → View off (pad_of off ++ ahead) r
      → header_size ≤ length ahead
      → (r' : Reader R) × (read_physical_record file r ≡ some (parse_physical r'))
        × View (start_of off) ahead r'
        × (r'.reporter ≡ r.reporter)
  unfolding read_physical_record
  read_physical_record-parses off ahead r reliable v long =
      elim (Bool-cases (ltb (block_size - off) header_size)) [
        | inr room ↦
            let v' : View off ahead r = rw room at v in
            let ready : header_size ≤ length r.buffer =
              ground (arith, ap length v'.buffered, length-take (block_size - off) ahead) in
            rw room (r, read_physical-ready 1 r ready, v', refl)
        | inl few ↦
            let pad = take (block_size - off) zero_pad in
            let v' : View off (pad ++ ahead) r = rw few at v in
            let width : length pad ≡ block_size - off =
              ground (arith, length-take (block_size - off) zero_pad) in
            let next : drop (block_size - off) (pad ++ ahead) ≡ ahead =
              drop-append_length pad ahead (block_size - off) (sym width) in
            let open_ : r.eof ≡ false = elim (Bool-cases r.eof) [
              | inr e ↦ e
              | inl e ↦ absurd (omega (arith, v'.done e, length-append pad ahead, width))
            ] in
            let short : length r.buffer < header_size =
              ground
                (arith, ap length v'.buffered, length-take (block_size - off) (pad ++ ahead)) in
            let f = rw next at (filled-View off (pad ++ ahead) r reliable v' open_) in
            let ready : header_size ≤ length (filled r).buffer =
              omega (arith, ap length f.buffered, length-take (block_size - 0) ahead) in
            rw few (
              filled r,
              read_physical-fill 1 r reliable short open_ ∙ read_physical-ready 0 (filled r) ready,
              f,
              refl,
            )
      ]

  -- `ReadPhysicalRecord` returns a physical record that comes next, behind the zeros that fill a
  -- block, and reports nothing.
  pub read_physical_record-View :
      (off : ℕ) (type : RecordType) (payload rest : List ℕ) (r : Reader R)
      → IsReliable file
      → type ≢ zero_type
      → View off (pad_of off ++ (physical type payload ++ rest)) r
      → start_of off + header_size + length payload ≤ block_size
      → (r' : Reader R) × (read_physical_record file r ≡ some (type, payload, r'))
        × View (start_of off + header_size + length payload) rest r'
        × (r'.reporter ≡ r.reporter)
  read_physical_record-View off type payload rest r reliable ne v fits =
      let long : header_size ≤ length (physical type payload ++ rest) =
        omega (arith, length-append (physical type payload) rest, length-physical type payload) in
      let p = read_physical_record-parses off (physical type payload ++ rest) r reliable v long in
      let out = parsed-View (start_of off) type payload rest p.0 ne p.2 fits in
      (out.0, p.1 ∙ ap some out.1, out.2, out.3 ∙ p.3)
