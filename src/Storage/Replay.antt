-- ===== src/Storage/Replay.antt =====
-- `ReplayFile` of src/raft/storage.cc over the records that the reader returns, and `Recover`.
use mini_lsm.Prelude.{
  ℕ, zero, suc, ◌+◌, ◌%◌, ◌≤◌, ◌<◌, ◌≡◌, refl, sym, ap, ◌∙◌, true, List, [], ◌∷◌, ◌++◌,
  append_assoc, append-nil, arith, leb, ◌==◌, if◌then◌else◌, length, take, u32, u64,
}
use mini_lsm.Raft.Messages.{NodeId, Term, LogEntry}
use mini_lsm.Raft.HardState.{HardState}
use mini_lsm.Raft.Log.{Indexed}
use mini_lsm.Storage.Codec.{
  Decoder, get_u32, get_u64, get_bytes, put_u32, put_u64, tag_hard_state, tag_entry, tag_truncate,
  hard_record, truncate_record, entry_record, get_u32-put_u32, get_u64-put_u64, get_bytes-append,
}

-- `recovered_hs_` and `recovered_entries_`.
pub record Recovered : Type 0 where
  pub hs : HardState
  pub entries : List LogEntry

abbrev pub fresh : Recovered
fresh = record { hs = record { term = 0; vote = 0 }; entries = [] }

abbrev keep_front : ℕ → LogEntry → List LogEntry → List LogEntry
keep_front from e [] = if leb from e.index then [] else e ∷ []
keep_front from e (x ∷ xs) = e ∷ x ∷ xs

-- The loop that pops the last entry while its index is at least `from`.
unfoldable pub pop_from : ℕ → List LogEntry → List LogEntry
pop_from from [] = []
pop_from from (e ∷ es) = keep_front from e (pop_from from es)

unfoldable pub replay_hard_state : Decoder → Recovered → Recovered
replay_hard_state d r =
    let (term, d') = get_u64 d in
    let (vote, d'') = get_u64 d' in
    if d''.ok then record r { hs = record { term = term; vote = vote } } else r

unfoldable pub replay_entry : Decoder → Recovered → Recovered
replay_entry d r =
    let (term, d1) = get_u64 d in
    let (index, d2) = get_u64 d1 in
    let (len, d3) = get_u32 d2 in
    let (payload, d4) = get_bytes len d3 in
    if d4.ok
    then record r {
      entries = r.entries ++ record { term = term; index = index; payload = payload } ∷ [];
    }
    else r

unfoldable pub replay_truncate : Decoder → Recovered → Recovered
replay_truncate d r =
    let (from, d') = get_u64 d in
    if d'.ok then record r { entries = pop_from from r.entries } else r

-- One round of the loop: empty records and unknown tags are skipped.
unfoldable pub replay_record : List ℕ → Recovered → Recovered
replay_record [] r = r
replay_record (tag ∷ bytes) r =
    let d : Decoder = record { left = bytes; ok = true } in
    if tag == tag_hard_state
    then replay_hard_state d r
    else if tag == tag_entry
    then replay_entry d r
    else if tag == tag_truncate
    then replay_truncate d r
    else r

unfoldable pub replay_file : List (List ℕ) → Recovered → Recovered
replay_file [] r = r
replay_file (bytes ∷ records) r = replay_file records (replay_record bytes r)

-- The index of the last recovered entry, 0 where there is none.
unfoldable pub persisted_of : List LogEntry → ℕ
persisted_of [] = 0
persisted_of (e ∷ []) = e.index
persisted_of (e ∷ f ∷ es) = persisted_of (f ∷ es)

pub replay_file-append :
    (xs : List (List ℕ)) (b : List ℕ) (r : Recovered)
    → replay_file (xs ++ b ∷ []) r ≡ replay_record b (replay_file xs r)
unfolding replay_file
replay_file-append [] b r = refl
replay_file-append (x ∷ xs) b r = replay_file-append xs b (replay_record x r)

-- A number of a record that fits its field.
abbrev pub FitsEntry : LogEntry → Type 0
FitsEntry e = (e.term < u64) × (e.index < u64) × (length e.payload < u32)

pub replay_record-hard_record :
    (term : Term) (vote : NodeId) (r : Recovered)
    → term < u64
    → vote < u64
    → replay_record (hard_record term vote) r
      ≡ record r { hs = record { term = term; vote = vote } }
unfolding replay_record replay_hard_state hard_record
replay_record-hard_record term vote r ht hv =
    rw
      (
        get_u64-put_u64 term (put_u64 vote) true ht,
        sym (append-nil (put_u64 vote)),
        get_u64-put_u64 vote [] true hv,
      )
      refl

pub replay_record-truncate_record :
    (from : ℕ) (r : Recovered)
    → from < u64
    → replay_record (truncate_record from) r ≡ record r { entries = pop_from from r.entries }
unfolding replay_record replay_truncate truncate_record
replay_record-truncate_record from r h =
    rw (sym (append-nil (put_u64 from)), get_u64-put_u64 from [] true h) refl

get_bytes_all :
    (xs : List ℕ)
    → get_bytes (length xs) (record { left = xs; ok = true })
      ≡ (xs, record { left = []; ok = true })
get_bytes_all xs =
    ap (λ ys. get_bytes (length xs) (record { left = ys; ok = true })) (sym (append-nil xs))
    ∙ get_bytes-append xs [] true

pub replay_record-entry_record :
    (e : LogEntry) (r : Recovered)
    → FitsEntry e
    → replay_record (entry_record e) r ≡ record r { entries = r.entries ++ e ∷ [] }
unfolding replay_record replay_entry entry_record
replay_record-entry_record e r h =
    let size : length e.payload % u32 ≡ length e.payload = omega (arith, h.2) in
    let tail = put_u32 (length e.payload) ++ e.payload in
    rw
      (
        size,
        append_assoc (put_u64 e.term ++ put_u64 e.index) (put_u32 (length e.payload)) e.payload,
        append_assoc (put_u64 e.term) (put_u64 e.index) tail,
        get_u64-put_u64 e.term (put_u64 e.index ++ tail) true h.0,
        get_u64-put_u64 e.index tail true h.1,
        get_u32-put_u32 (length e.payload) e.payload true h.2,
        get_bytes_all e.payload,
      )
      refl

pop_from-nil : (from n : ℕ) (es : List LogEntry) → from ≤ n → Indexed n es → pop_from from es ≡ []
unfolding pop_from
pop_from-nil from n [] le ix = refl
pop_from-nil from n (e ∷ es) le ix =
    rw (pop_from-nil from (suc n) es (omega arith) ix.1) (ground (arith, ix.0))

keep_front-low :
    (from : ℕ) (e : LogEntry) (es : List LogEntry) → e.index < from → keep_front from e es ≡ e ∷ es
keep_front-low from e [] h = ground arith
keep_front-low from e (x ∷ xs) h = refl

-- On entries of consecutive indices the loop keeps those below the given one.
pub pop_from-take : (k n : ℕ) (es : List LogEntry) → Indexed n es → pop_from (n + k) es ≡ take k es
unfolding pop_from
pop_from-take zero n es ix = pop_from-nil (n + 0) n es (omega arith) ix
pop_from-take (suc k) n [] ix = refl
pop_from-take (suc k) n (e ∷ es) ix =
    let shift : n + suc k ≡ suc n + k = omega arith in
    ap (λ m. keep_front (n + suc k) e (pop_from m es)) shift
    ∙ ap (keep_front (n + suc k) e) (pop_from-take k (suc n) es ix.1)
    ∙ keep_front-low (n + suc k) e (take k es) (omega (arith, ix.0))
