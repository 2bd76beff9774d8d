-- ===== src/Wal/RoundTrip.antt =====
-- The reader of src/wal_reader.cc reads back what is in the format.
use mini_lsm.Prelude.{
  ℕ, zero, suc, ◌+◌, ◌-◌, ◌≤◌, ◌<◌, ◌≡◌, ◌≢◌, refl, ap, ◌∙◌, subst, inl, inr, Bool, true, false,
  not, Bool-cases, Option, some, List, [], ◌++◌, append_assoc, arith, ltb, length, length-take,
  length-drop, take, drop, take-append-drop,
}
use mini_lsm.Wal.File.{SequentialFile, IsReliable}
use mini_lsm.Wal.Writer.{block_size, header_size, record_type}
use mini_lsm.Wal.Reader.{
  Reader, zero_type, read_physical_record, read_fragments, assemble, returns, continues,
}
use mini_lsm.Wal.Physical.{physical}
use mini_lsm.Wal.View.{start_of, pad_of, View, read_physical_record-View}
use mini_lsm.Wal.Frame.{piece_length, frame, Enough, frame-last, frame-more}

pub record_type-real : (begin end : Bool) → record_type begin end ≢ zero_type
unfolding record_type
record_type-real true true = λ e. omega (arith, e)
record_type-real true false = λ e. omega (arith, e)
record_type-real false true = λ e. omega (arith, e)
record_type-real false false = λ e. omega (arith, e)

-- A fragment ends within its block.
piece-fits :
    (off : ℕ) (left : List ℕ)
    → off ≤ block_size
    → start_of off + header_size + length (take (piece_length (start_of off) left) left)
      ≤ block_size
piece-fits off left h = ground (arith, length-take (piece_length (start_of off) left) left)

assemble-last :
    {R : Type 0} (begin : Bool) (scratch fragment : List ℕ) (r : Reader R)
    → (begin ≡ true → scratch ≡ [])
    → assemble (not begin) scratch (record_type begin true) fragment r
      ≡ returns (some (scratch ++ fragment)) r
unfolding assemble record_type
assemble-last true scratch fragment r fresh = rw (fresh refl) refl
assemble-last false scratch fragment r fresh = refl

assemble-more :
    {R : Type 0} (begin : Bool) (scratch fragment : List ℕ) (r : Reader R)
    → (begin ≡ true → scratch ≡ [])
    → assemble (not begin) scratch (record_type begin false) fragment r
      ≡ continues true (scratch ++ fragment) r
unfolding assemble record_type
assemble-more true scratch fragment r fresh = rw (fresh refl) refl
assemble-more false scratch fragment r fresh = refl

module _ {R : Type 0} (file : SequentialFile R) where
  -- The loop of `ReadRecord` returns `bytes` and stands before `ahead`, with no new report.
  pub record Reads (bytes : List ℕ) (off : ℕ) (ahead : List ℕ) (r : Reader R)
      (o : Option (Option (List ℕ) × Reader R)) : Type 0 where
    pub after : Reader R
    pub result : o ≡ some (some bytes, after)
    pub view : View file off ahead after
    pub silent : after.reporter ≡ r.reporter

  read_fragments-last :
      (k : ℕ) (begin : Bool) (scratch fragment : List ℕ) (r r' : Reader R)
      → read_physical_record file r ≡ some (record_type begin true, fragment, r')
      → (begin ≡ true → scratch ≡ [])
      → read_fragments file (suc k) (not begin) scratch r ≡ some (some (scratch ++ fragment), r')
  unfolding read_fragments
  read_fragments-last k begin scratch fragment r r' e fresh =
      rw (e, assemble-last begin scratch fragment r' fresh, read_fragments) refl

  pub read_fragments-more :
      (k : ℕ) (begin : Bool) (scratch fragment : List ℕ) (r r' : Reader R)
      → read_physical_record file r ≡ some (record_type begin false, fragment, r')
      → (begin ≡ true → scratch ≡ [])
      → read_fragments file (suc k) (not begin) scratch r
        ≡ read_fragments file k true (scratch ++ fragment) r'
  unfolding read_fragments
  read_fragments-more k begin scratch fragment r r' e fresh =
      rw (e, assemble-more begin scratch fragment r' fresh, read_fragments) refl

  last-Reads :
      (k : ℕ) (begin : Bool) (left rest scratch : List ℕ) (off : ℕ) (r : Reader R)
      → IsReliable file
      → start_of off + header_size + length left ≤ block_size
      → (begin ≡ true → scratch ≡ [])
      → View file off ((pad_of off ++ physical (record_type begin true) left) ++ rest) r
      → Reads
          (scratch ++ left)
          (start_of off + header_size + length left)
          rest
          r
          (read_fragments file (suc k) (not begin) scratch r)
  last-Reads k begin left rest scratch off r rel fits fresh v =
      let front = physical (record_type begin true) left in
      let v' : View file off (pad_of off ++ (front ++ rest)) r =
        rw (append_assoc (pad_of off) front rest) at v in
      let p =
        read_physical_record-View file off (record_type begin true) left rest r rel
          (record_type-real begin true) v' fits in
      record {
        after = p.0;
        result = read_fragments-last k begin scratch left r p.0 p.1 fresh;
        view = p.2;
        silent = p.3;
      }

  more-Reads :
      (k : ℕ) (begin : Bool) (left bytes rest scratch : List ℕ) (off e : ℕ) (r : Reader R)
      → (let n = block_size - start_of off - header_size in
          IsReliable file
          → off ≤ block_size
          → n < length left
          → (begin ≡ true → scratch ≡ [])
          → View file off
              (((pad_of off ++ physical (record_type begin false) (take n left)) ++ bytes) ++ rest)
              r
          → ((r' : Reader R)
              → View file block_size (bytes ++ rest) r'
              → Reads
                  ((scratch ++ take n left) ++ drop n left)
                  e
                  rest
                  r'
                  (read_fragments file k true (scratch ++ take n left) r'))
          → Reads (scratch ++ left) e rest r (read_fragments file (suc k) (not begin) scratch r))
  more-Reads k begin left bytes rest scratch off e r rel bound lt fresh v next =
      let n = block_size - start_of off - header_size in
      let front = physical (record_type begin false) (take n left) in
      let taken : length (take n left) ≡ n = omega (arith, length-take n left) in
      let edge : start_of off + header_size + length (take n left) ≡ block_size =
        ground (arith, taken) in
      let v' : View file off (pad_of off ++ (front ++ (bytes ++ rest))) r =
        rw
          (
            append_assoc (pad_of off ++ front) bytes rest,
            append_assoc (pad_of off) front (bytes ++ rest),
          )
          at v in
      let p =
        read_physical_record-View file off (record_type begin false) (take n left) (bytes ++ rest) r
          rel (record_type-real begin false) v' (omega (arith, edge)) in
      let q = next p.0 (subst (λ m. View file m (bytes ++ rest) p.0) edge p.2) in
      let joined : (scratch ++ take n left) ++ drop n left ≡ scratch ++ left =
        append_assoc scratch (take n left) (drop n left)
        ∙ ap (λ l. scratch ++ l) (take-append-drop n left) in
      record {
        after = q.after;
        result =
            read_fragments-more k begin scratch (take n left) r p.0 p.1 fresh
            ∙ q.result
            ∙ ap (λ (b : List ℕ). some (some b, q.after)) joined;
        view = q.view;
        silent = q.silent ∙ p.3;
      }

  pub read_fragments-frame :
      (fuel k : ℕ) (begin : Bool) (left rest scratch : List ℕ) (off : ℕ) (r : Reader R)
      → IsReliable file
      → Enough fuel left off
      → fuel ≤ k
      → off ≤ block_size
      → (begin ≡ true → scratch ≡ [])
      → View file off ((frame fuel begin left off).0 ++ rest) r
      → Reads
          (scratch ++ left)
          (frame fuel begin left off).1
          rest
          r
          (read_fragments file k (not begin) scratch r)
  read_fragments-frame zero k begin left rest scratch off r rel (inl h) le bound fresh v =
      absurd (omega arith)
  read_fragments-frame zero k begin left rest scratch off r rel (inr h) le bound fresh v =
      absurd (omega (arith, h.0))
  read_fragments-frame (suc fuel) zero begin left rest scratch off r rel enough le bound fresh v =
      absurd (omega arith)
  read_fragments-frame (suc fuel) (suc k) begin left rest scratch off r rel enough le bound fresh
        v =
      let o = start_of off in
      let n = block_size - o - header_size in
      let size = length-drop (piece_length o left) left in
      elim (Bool-cases (ltb 0 (length (drop (piece_length o left) left)))) [
        | inr done ↦
            let e = frame-last fuel begin left off done in
            let fits : o + header_size + length left ≤ block_size = ground (arith, size) in
            rw e (last-Reads k begin left rest scratch off r rel fits fresh (rw e at v))
        | inl more ↦
            let e = frame-more fuel begin left off bound more in
            let less : length (drop n left) < fuel = elim enough [
              | inl h ↦ omega (arith, h, length-drop n left)
              | inr h ↦ ground (arith, h.0, h.1, length-drop n left, e.0)
            ] in
            rw e.1 (
              more-Reads k begin left (frame fuel false (drop n left) block_size).0 rest scratch off
                (frame fuel false (drop n left) block_size).1 r rel bound e.0 fresh (rw e.1 at v)
                (λ r' v'.
                  read_fragments-frame fuel k false (drop n left) rest (scratch ++ take n left)
                    block_size r' rel (inr (less, refl)) (omega arith) (omega arith)
                    (λ h. absurd (cc)) v'))
      ]
