-- ===== src/Raft/Log/Merge.antt =====
-- `HandleAppendEntries` of src/raft/raft.cc on a part of a leader's log: where the two logs have the same
-- entries wherever they have the same term, the follower keeps its log or takes the leader's.
use mini_lsm.Prelude.{
  add64, length-drop, false, u64, ◌≢◌, ◌-◌, ℕ, zero, suc, ◌+◌, ◌≤◌, ◌<◌, ◌≡◌, refl, sym, ◌∙◌, ap,
  ap₂, subst, ◌⊎◌, inl, inr, true, List, [], ◌∷◌, ◌++◌, arith, Bool-cases, length, take, drop,
  length-take, take-length, drop-length, drop-cons, dec_le,
}
use mini_lsm.Raft.Messages.{LogEntry, Message}
use mini_lsm.Raft.State.{Raft, entry_at, sentinel, term_at}
use mini_lsm.Raft.Follower.{append_entry, append_all, handle_append_entries, is_consistent}
use mini_lsm.Raft.Replication.{
  is_consistent_iff, heard, accepted_log, handle_append_entries_rejected,
}
use mini_lsm.Raft.Log.{
  take_snoc, Indexed-take, IsLog, append_entry-cases, entry_at-index, term_at-entry_at,
}

-- Where the logs have the same term they are the same up to there.
abbrev pub Matching : List LogEntry → List LogEntry → Type 0
Matching a b =
    (k : ℕ)
    → k < length a
    → k < length b
    → (entry_at a k).term ≡ (entry_at b k).term
    → take (suc k) a ≡ take (suc k) b

take-take : (n : ℕ) (xs : List LogEntry) → take n (take n xs) ≡ take n xs
take-take n xs = take-length n (take n xs) (omega (arith, length-take n xs))

IsLog-index :
    (log : List LogEntry) (n : ℕ) → IsLog log → n < length log → (entry_at log n).index ≡ n
IsLog-index [] n h lt = absurd h
IsLog-index (e ∷ es) n h lt = entry_at-index 0 n (e ∷ es) h.1 lt ∙ omega arith

pub IsLog-take : (n : ℕ) (log : List LogEntry) → 0 < n → IsLog log → IsLog (take n log)
IsLog-take zero log pos h = absurd (omega arith)
IsLog-take (suc n) [] pos h = absurd h
IsLog-take (suc n) (x ∷ xs) pos h = (h.0, Indexed-take 0 (suc n) (x ∷ xs) h.1)

-- The entries that follow a front of a log make it whole.
append_all-front :
    (fuel n : ℕ) (log : List LogEntry) (r : Raft)
    → length log ≤ n + fuel
    → IsLog log
    → 0 < n
    → n ≤ length log
    → r.log ≡ take n log
    → (append_all (drop n log) r).log ≡ log
unfolding append_all
append_all-front zero n log r up h pos le e =
    rw (drop-length n log (omega arith)) (e ∙ take-length n log (omega arith))
append_all-front (suc fuel) n log r up h pos le e = elim (dec_le (length log) n) [
  | yes done ↦ rw (drop-length n log done) (e ∙ take-length n log done)
  | no more ↦
      let next = entry_at log n in
      let size : length r.log ≡ n = omega (arith, ap length e, length-take n log) in
      let at = IsLog-index log n h (omega arith) in
      let grown : (append_entry next r).log ≡ take (suc n) log =
        elim (append_entry-cases next r (subst IsLog (sym e) (IsLog-take n log pos h))
          (omega arith)) [
            | inl kept ↦ absurd (omega (arith, kept.1))
            | inr (cut, parts) ↦
                cut
                ∙ ap (λ (l : List LogEntry). l ++ next ∷ []) (ap₂ take at e ∙ take-take n log)
                ∙ take_snoc n log (omega arith)
          ] in
      rw (drop-cons n log sentinel (omega arith)) (
        append_all-front fuel (suc n) log (append_entry next r) (omega arith) h (omega arith)
          (omega arith) grown)
]

-- The log `b` goes on where `a` ends, or has an entry of another term there.
pub record Supersedes (a b : List LogEntry) : Type 0 where
  pub at : ℕ
  pub same : take at a ≡ take at b
  pub past : at < length b
  pub parts : (at ≡ length a) ⊎ ((at < length a) × ((entry_at a at).term ≢ (entry_at b at).term))

-- What a follower with the log `a` makes of it when it takes `log`: it holds `log` then, and it kept its
-- own or has `log` alone, where that supersedes its own.
abbrev pub IsMerge : List LogEntry → List LogEntry → List LogEntry → Type 0
IsMerge a log result =
    (take (length log) result ≡ log) × ((result ≡ a) ⊎ ((result ≡ log) × Supersedes a log))

-- The loop over the entries of `log` from `n` on, at a log that is the same below `n`.
append_all-merges :
    (fuel n : ℕ) (log : List LogEntry) (r : Raft)
    → length log ≤ n + fuel
    → IsLog log
    → IsLog r.log
    → Matching r.log log
    → n ≤ length r.log
    → n ≤ length log
    → take n r.log ≡ take n log
    → IsMerge r.log log (append_all (drop n log) r).log
unfolding append_all
append_all-merges zero n log r up h hr match le fit e =
    let all : n ≡ length log = omega arith in
    rw (drop-length n log (omega arith))
      (ap (λ k. take k r.log) (sym all) ∙ e ∙ take-length n log (omega arith), inl refl)
append_all-merges (suc fuel) n log r up h hr match le fit e = elim (dec_le (length log) n) [
  | yes done ↦
      let all : n ≡ length log = omega arith in
      rw (drop-length n log done)
        (ap (λ k. take k r.log) (sym all) ∙ e ∙ take-length n log (omega arith), inl refl)
  | no more ↦
      let next = entry_at log n in
      let at = IsLog-index log n h (omega arith) in
      rw (drop-cons n log sentinel (omega arith))
        (elim (append_entry-cases next r hr (omega arith)) [
          | inl kept ↦
              let here : (entry_at r.log n).term ≡ next.term =
                ap (λ i. (entry_at r.log i).term) (sym at) ∙ kept.2 in
              subst (λ (x : Raft). IsMerge r.log log (append_all (drop (suc n) log) x).log)
                (sym kept.0)
                (append_all-merges fuel (suc n) log r (omega arith) h hr match
                  (omega (arith, kept.1)) (omega arith)
                  (match n (omega (arith, kept.1)) (omega arith) here))
          | inr (cut, parts) ↦
              let whole =
                append_all-front fuel (suc n) log (append_entry next r) (omega arith) h
                  (omega arith) (omega arith)
                  (cut
                    ∙ ap (λ (l : List LogEntry). l ++ next ∷ []) (ap (λ i. take i r.log) at ∙ e)
                    ∙ take_snoc n log (omega arith)) in
              (
                rw whole (take-length (length log) log (omega arith)),
                inr (
                  whole,
                  record {
                    at = n;
                    same = e;
                    past = omega arith;
                    parts = elim parts [
                      | inl last ↦ inl (omega arith)
                      | inr (within, differs) ↦
                          inr (omega arith, λ z. differs (ap (λ i. (entry_at r.log i).term) at ∙ z))
                    ];
                  },
                ),
              )
        ])
]

-- A message with the entries of a log from some index on, and the term of the entry before.
pub record Slice (log : List LogEntry) (m : Message) : Type 0 where
  pub start : ℕ
  pub within : start ≤ length log
  pub entries : m.entries ≡ drop start log
  pub before :
      ((start ≡ 0) × (m.prev_log_index ≡ u64 - 1))
      ⊎ ((suc m.prev_log_index ≡ start) × (m.prev_log_term ≡ term_at log m.prev_log_index))

-- The consistency check shows that the logs are the same below the entries.
Slice-below :
    (m : Message) (a log : List LogEntry) (s : Slice log m)
    → IsLog a
    → IsLog log
    → Matching a log
    → is_consistent m a ≡ true
    → (s.start ≤ length a) × (take s.start a ≡ take s.start log)
Slice-below m a log s ha h match ok = elim s.before [
  | inl (none_, wrapped) ↦
      (omega arith, ap (λ n. take n a) none_ ∙ ap (λ n. take n log) (sym none_))
  | inr (next, term) ↦
      let fits = (is_consistent_iff m a ha).0 ok in
      let le = s.within in
      (
        omega (arith, fits.0),
        ap (λ n. take n a) (sym next)
            ∙ match m.prev_log_index fits.0 (omega arith)
                (fits.1 ∙ term ∙ term_at-entry_at log m.prev_log_index h (omega arith))
            ∙ ap (λ n. take n log) next,
      )
]

-- A follower that gets a part of a log either rejects it and keeps its own log, or merges the two, if
-- where they have the same term they are the same up to there.
pub handle_append_entries-merges :
    (m : Message) (r : Raft) (log : List LogEntry)
    → Slice log m
    → IsLog r.log
    → IsLog log
    → Matching r.log log
    → ((is_consistent m r.log ≡ false) × ((handle_append_entries m r).log ≡ r.log))
      ⊎ ((is_consistent m r.log ≡ true) × IsMerge r.log log (handle_append_entries m r).log)
handle_append_entries-merges m r log s hr h match = elim (Bool-cases (is_consistent m r.log)) [
  | inr no_ ↦ inl (no_, (handle_append_entries_rejected m r no_).0)
  | inl ok ↦
      let below = Slice-below m r.log log s hr h match ok in
      let merged =
        append_all-merges (length log) s.start log (heard m r) (omega arith) h hr match below.0
          s.within below.1 in
      let now : (handle_append_entries m r).log ≡ (append_all (drop s.start log) (heard m r)).log =
        accepted_log m r ok ∙ ap (λ es. (append_all es (heard m r)).log) s.entries in
      inr (ok, subst (IsMerge r.log log) (sym now) merged)
]

abbrev pub match_of : Message → ℕ
match_of m = add64 m.prev_log_index (length m.entries)

-- The index that the follower acknowledges is at most the last one of the log, which it holds up to there.
pub match_of-lt :
    (m : Message) (log : List LogEntry) → Slice log m → IsLog log → match_of m < length log
match_of-lt m [] s h = absurd h
match_of-lt m (x ∷ xs) s h =
    let log = x ∷ xs in
    let size : length m.entries ≡ length log - s.start =
      ap length s.entries ∙ length-drop s.start log in
    let le = s.within in
    let some_ : 1 ≤ length log = omega arith in
    elim s.before [ inl (none_, wrapped) ↦ omega arith | inr (next, term) ↦ omega arith ]
