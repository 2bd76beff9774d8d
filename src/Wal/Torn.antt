-- ===== src/Wal/Torn.antt =====
-- A log that ends in the middle of a record, as a crash in `AddRecord` leaves it: the reader of
-- src/wal_reader.cc ends before that record.
use mini_lsm.Prelude.{
  ℕ, zero, suc, ◌+◌, ◌-◌, ◌≤◌, ◌<◌, ◌≡◌, refl, ap, ◌∙◌, subst, inl, inr, Bool, true, false, not,
  Bool-cases, some, List, [], ◌++◌, append_assoc, arith, ltb, if◌then◌else◌, length, length-append,
  length-take, length-drop, take, drop, take-length, take-append_ge, take-append_le, dec_le,
}
use mini_lsm.Wal.File.{SequentialFile, IsReliable}
use mini_lsm.Wal.Writer.{block_size, header_size, RecordType, record_type, zero_pad}
use mini_lsm.Wal.Reader.{
  Reader, eof_type, read_physical, read_physical_record, read_fragments, assemble, parse_physical,
  payload_length,
}
use mini_lsm.Wal.Physical.{physical, length-physical, payload_length-take}
use mini_lsm.Wal.View.{
  start_of, pad_of, View, filled, filled-View, read_physical-fill, read_physical_record-parses,
  read_physical_record-View,
}
use mini_lsm.Wal.Frame.{frame, record_frame, Enough, frame-last, frame-more, piece_length}
use mini_lsm.Wal.RoundTrip.{record_type-real, read_fragments-more}
use mini_lsm.Wal.Records.{EndsAt, Ends}

length-pad_of :
    (off : ℕ)
    → length (pad_of off) ≡ (if ltb (block_size - off) header_size then block_size - off else 0)
length-pad_of off = elim (Bool-cases (ltb (block_size - off) header_size)) [
  | inr room ↦ rw room refl
  | inl few ↦ rw few (ground (arith, length-take (block_size - off) zero_pad))
]

-- A buffer of the end of the file that is shorter than its header says.
parse_physical-claims :
    {R : Type 0} (r : Reader R)
    → r.eof ≡ true
    → length r.buffer < header_size + payload_length r.buffer
    → parse_physical r ≡ (eof_type, [], record r { buffer = [] })
unfolding parse_physical
parse_physical-claims r e h =
    let short : ltb (length r.buffer) (header_size + payload_length r.buffer) ≡ true =
      ground arith in
    simp (short, e)

module _ {R : Type 0} (file : SequentialFile R) where
  read_physical-eof :
      (k : ℕ) (r : Reader R)
      → length r.buffer < header_size
      → r.eof ≡ true
      → read_physical file (suc k) r ≡ some (eof_type, [], record r { buffer = [] })
  unfolding read_physical
  read_physical-eof k r h e =
      let short : ltb (length r.buffer) header_size ≡ true = ground arith in simp (short, e)

  EndsAt-eof :
      (k : ℕ) (in_fragmented : Bool) (scratch : List ℕ) (r r' : Reader R)
      → read_physical_record file r ≡ some (eof_type, [], r')
      → r'.reporter ≡ r.reporter
      → EndsAt file (suc k) in_fragmented scratch r
  unfolding read_fragments assemble
  EndsAt-eof k in_fragmented scratch r r' e same = record {
    after = r';
    result = rw (e, read_fragments) refl;
    silent = same;
  }

  -- Neither this block nor the next one has a whole header.
  short-EndsAt :
      (off k : ℕ) (in_fragmented : Bool) (scratch ahead : List ℕ) (r : Reader R)
      → IsReliable file
      → View file off ahead r
      → length (take (block_size - off) ahead) < header_size
      → length (drop (block_size - off) ahead) < header_size
      → EndsAt file (suc k) in_fragmented scratch r
  unfolding read_physical_record
  short-EndsAt off k in_fragmented scratch ahead r rel v here there =
      let short : length r.buffer < header_size = omega (arith, here, ap length v.buffered) in
      elim (Bool-cases r.eof) [
        | inl e ↦
            EndsAt-eof k in_fragmented scratch r (record r { buffer = [] })
              (unfold read_physical_record in read_physical-eof 1 r short e) refl
        | inr e ↦
            let f = filled-View file off ahead r rel v e in
            let next = drop (block_size - off) ahead in
            let small : length (filled file r).buffer < header_size =
              omega (arith, ap length f.buffered, length-take (block_size - 0) next, there) in
            let over : (filled file r).eof ≡ true = elim (Bool-cases (filled file r).eof) [
              | inl h ↦ h
              | inr h ↦ absurd (omega (arith, f.more h, small))
            ] in
            EndsAt-eof k in_fragmented scratch r (record (filled file r) { buffer = [] })
              (unfold read_physical_record in
                (read_physical-fill file 1 r rel short e
                  ∙ read_physical-eof 0 (filled file r) small over))
              refl
      ]

  -- At the end of the file.
  pub Ends-nil : (off : ℕ) → IsReliable file → Ends file off []
  Ends-nil off rel zero r v lt = absurd (omega arith)
  Ends-nil off rel (suc k) r v lt =
      short-EndsAt off k false [] [] r rel v
        (omega (arith, length-take {0} {A = ℕ} (block_size - off) []))
        (omega (arith, length-drop {0} {A = ℕ} (block_size - off) []))

  -- A physical record that is cut off.
  torn-EndsAt :
      (off m k : ℕ) (in_fragmented : Bool) (scratch payload : List ℕ) (type : RecordType)
      (r : Reader R)
      → IsReliable file
      → start_of off + header_size + length payload ≤ block_size
      → m < length (pad_of off ++ physical type payload)
      → View file off (take m (pad_of off ++ physical type payload)) r
      → EndsAt file (suc k) in_fragmented scratch r
  torn-EndsAt off m k in_fragmented scratch payload type r rel fits lt v =
      let n = length payload in
      let pad = pad_of off in
      let whole = physical type payload in
      let cut = take m (pad ++ whole) in
      let width = length-pad_of off in
      let size = length-physical type payload in
      let all = length-append pad whole in
      elim (dec_le (length pad + header_size) m) [
        | no low ↦
            let l = length-take m (pad ++ whole) in
            short-EndsAt off k in_fragmented scratch cut r rel v
              (ground (arith, length-take (block_size - off) cut, l, all, width))
              (ground (arith, length-drop (block_size - off) cut, l, all, width))
        | yes high ↦
            let j = m - length pad in
            let split : cut ≡ pad ++ take j whole = take-append_ge pad whole m j (omega arith) in
            let part : length (take j whole) ≡ j = omega (arith, length-take j whole, all, lt) in
            let p =
              read_physical_record-parses file off (take j whole) r rel (rw split at v)
                (omega (arith, part)) in
            let front : p.0.buffer ≡ take j whole =
              p.2.buffered
              ∙ take-length (block_size - start_of off) (take j whole)
                  (omega (arith, part, fits, all, lt, size)) in
            let over : p.0.eof ≡ true = elim (Bool-cases p.0.eof) [
              | inl h ↦ h
              | inr h ↦
                  absurd (omega (arith, p.2.more h, ap length front, part, fits, all, lt, size))
            ] in
            let claimed : payload_length p.0.buffer ≡ n =
              ap payload_length front
              ∙ payload_length-take type payload j (omega arith) (omega arith) in
            let less : length p.0.buffer < header_size + payload_length p.0.buffer =
              omega (arith, ap length front, part, claimed, all, lt, size) in
            EndsAt-eof k in_fragmented scratch r (record p.0 { buffer = [] })
              (p.1 ∙ ap some (parse_physical-claims p.0 over less)) p.3
      ]

  -- A cut behind a fragment that is whole.
  torn_later-EndsAt :
      (off m k : ℕ) (begin : Bool) (scratch payload bytes : List ℕ) (r : Reader R)
      → (let front = pad_of off ++ physical (record_type begin false) payload in
          IsReliable file
          → start_of off + header_size + length payload ≡ block_size
          → (begin ≡ true → scratch ≡ [])
          → View file off (front ++ take m bytes) r
          → ((scratch' : List ℕ) (r' : Reader R)
              → View file block_size (take m bytes) r'
              → EndsAt file k true scratch' r')
          → EndsAt file (suc k) (not begin) scratch r)
  torn_later-EndsAt off m k begin scratch payload bytes r rel edge fresh v next =
      let whole = physical (record_type begin false) payload in
      let p =
        read_physical_record-View file off (record_type begin false) payload (take m bytes) r rel
          (record_type-real begin false) (rw (append_assoc (pad_of off) whole (take m bytes)) at v)
          (omega (arith, edge)) in
      let q =
        next (scratch ++ payload) p.0 (subst (λ n. View file n (take m bytes) p.0) edge p.2) in
      record {
        after = q.after;
        result = read_fragments-more file k begin scratch payload r p.0 p.1 fresh ∙ q.result;
        silent = q.silent ∙ p.3;
      }

  -- The front of the bytes of a record, without the last of them.
  frame-EndsAt :
      (fuel k m : ℕ) (begin : Bool) (left scratch : List ℕ) (off : ℕ) (r : Reader R)
      → (let cut = take m (frame fuel begin left off).0 in
          IsReliable file
          → Enough fuel left off
          → off ≤ block_size
          → m < length (frame fuel begin left off).0
          → length cut < k
          → (begin ≡ true → scratch ≡ [])
          → View file off cut r
          → EndsAt file k (not begin) scratch r)
  frame-EndsAt zero k m begin left scratch off r rel (inl h) bound lt run fresh v =
      absurd (omega arith)
  frame-EndsAt zero k m begin left scratch off r rel (inr h) bound lt run fresh v =
      absurd (omega (arith, h.0))
  frame-EndsAt (suc fuel) zero m begin left scratch off r rel enough bound lt run fresh v =
      absurd (omega arith)
  frame-EndsAt (suc fuel) (suc k) m begin left scratch off r rel enough bound lt run fresh v =
      let o = start_of off in
      let n = block_size - o - header_size in
      let size = length-drop (piece_length o left) left in
      elim (Bool-cases (ltb 0 (length (drop (piece_length o left) left)))) [
        | inr done ↦
            let e = frame-last fuel begin left off done in
            let fits : o + header_size + length left ≤ block_size = ground (arith, size) in
            torn-EndsAt off m k (not begin) scratch left (record_type begin true) r rel fits
              (rw e at lt) (rw e at v)
        | inl more ↦
            let e = frame-more fuel begin left off bound more in
            let payload = take n left in
            let front = pad_of off ++ physical (record_type begin false) payload in
            let behind = (frame fuel false (drop n left) block_size).0 in
            let taken : length payload ≡ n = omega (arith, length-take n left, e.0) in
            let edge : o + header_size + length payload ≡ block_size = ground (arith, taken) in
            let lt' : m < length (front ++ behind) = rw e.1 at lt in
            let v' : View file off (take m (front ++ behind)) r = rw e.1 at v in
            let run' : length (take m (front ++ behind)) < suc k = rw e.1 at run in
            elim (dec_le (length front) m) [
              | no inside ↦
                  torn-EndsAt off m k (not begin) scratch payload (record_type begin false) r rel
                    (omega (arith, edge)) (omega arith)
                    (rw (take-append_le front behind m (omega arith)) at v')
              | yes past ↦
                  let j = m - length front in
                  let split : take m (front ++ behind) ≡ front ++ take j behind =
                    take-append_ge front behind m j (omega arith) in
                  let less : length (drop n left) < fuel = elim enough [
                    | inl h ↦ omega (arith, h, length-drop n left)
                    | inr h ↦ ground (arith, h.0, h.1, length-drop n left, e.0)
                  ] in
                  let room =
                    length-append (pad_of off) (physical (record_type begin false) payload) in
                  torn_later-EndsAt off j k begin scratch payload behind r rel edge fresh
                    (rw split at v')
                    (λ scratch' r' w.
                      frame-EndsAt fuel k j false (drop n left) scratch' block_size r' rel
                        (inr (less, refl)) (omega arith)
                        (omega (arith, length-append front behind, lt'))
                        (omega (
                          arith,
                          run',
                          ap length split,
                          length-append front (take j behind),
                          room,
                          length-physical (record_type begin false) payload,
                        ))
                        (λ h. absurd (cc)) w)
            ]
      ]

  -- The reader ends, without a report, before a record of which the last bytes are not there.
  pub Ends-torn :
      (b : List ℕ) (off m : ℕ)
      → IsReliable file
      → off ≤ block_size
      → m < length (record_frame b off).0
      → Ends file off (take m (record_frame b off).0)
  unfolding record_frame
  Ends-torn b off m rel bound lt k r v run =
      frame-EndsAt (length b + 2) k m true b [] off r rel (inl (omega arith)) bound lt run
        (λ h. refl) v
