-- ===== src/Raft/Propose.antt =====
-- `Propose`, `TakeCommitted` and `SendAppendEntries` of src/raft/raft.cc: what they read of the
-- log and what they add to it.
use mini_lsm.Prelude.{
  ℕ, zero, suc, ◌+◌, ◌-◌, ◌≤◌, ◌<◌, ◌≡◌, ◌≢◌, refl, sym, ◌∙◌, ap, subst, true, false, List, [], ◌∷◌,
  ◌++◌, arith, length, length-append, drop, take, drop-cons, length-drop, u64, sub64, take-length,
  get_or-append_length, inl, inr,
}
use mini_lsm.Raft.Messages.{NodeId, LogEntry}
use mini_lsm.Raft.State.{Raft, Role, leader, follower, candidate, last_index, entry_at, sentinel}
use mini_lsm.Raft.Leader.{entries_from, append_message, maybe_commit, commit_from}
use mini_lsm.Raft.Core.{propose, propose_as, take_committed}
use mini_lsm.Raft.Log.{Indexed, IsLog, suc-last_index, term_at-entry_at, Indexed-append}
use mini_lsm.Raft.Replication.{IsBatch, Matches}
use mini_lsm.Raft.Commit.{Committable, maybe_commit-IsCommit}

-- The loop that copies entries, where it stays in the log.
pub entries_from-eq :
    (log : List LogEntry) (i n : ℕ)
    → i + n ≤ length log
    → entries_from log i n ≡ take n (drop i log)
unfolding entries_from
entries_from-eq log i zero h = refl
entries_from-eq log i (suc n) h =
    let rest = entries_from-eq log (i + 1) n (omega arith) in
    let e : i + 1 ≡ suc i = omega arith in
    rw (drop-cons i log sentinel (omega arith))
      (ap (λ es. entry_at log i ∷ es) (rest ∙ ap (λ k. take n (drop k log)) e))

Indexed-drop : (k n : ℕ) (xs : List LogEntry) → Indexed k xs → Indexed (k + n) (drop n xs)
Indexed-drop k zero xs h = let e : k ≡ k + 0 = omega arith in subst (λ j. Indexed j xs) e h
Indexed-drop k (suc n) [] h = tt
Indexed-drop k (suc n) (x ∷ xs) h =
    let e : suc k + n ≡ k + suc n = omega arith in
    subst (λ j. Indexed j (drop n xs)) e (Indexed-drop (suc k) n xs h.1)

IsLog-Indexed : (log : List LogEntry) → IsLog log → Indexed 0 log
IsLog-Indexed [] h = absurd h
IsLog-Indexed (x ∷ xs) h = h.1

-- To a peer whose next index is in the log or just past it, the leader sends the rest of its log,
-- as a batch that its own log matches, if the log is in shape and shorter than 2^64.
pub append_message_sends :
    (p : NodeId) (r : Raft)
    → IsLog r.log
    → 0 < r.next_index p
    → r.next_index p ≤ length r.log
    → length r.log < u64
    → ((append_message p r).entries ≡ drop (r.next_index p) r.log)
      × IsBatch (append_message p r)
      × Matches (append_message p r) r.log
unfolding append_message
append_message_sends p r h pos le fits =
    let next = r.next_index p in
    let size : suc (last_index r.log) - next ≡ length r.log - next =
      ap (λ n. n - next) (suc-last_index r.log h) in
    let rest : entries_from r.log next (suc (last_index r.log) - next) ≡ drop next r.log =
      ap (entries_from r.log next) size
      ∙ entries_from-eq r.log next (length r.log - next) (omega arith)
      ∙ take-length (length r.log - next) (drop next r.log)
          (omega (arith, length-drop next r.log)) in
    let before : suc (sub64 next 1) ≡ next = omega arith in
    let first : 0 + next ≡ suc (sub64 next 1) = omega arith in
    (
      rest,
      subst (λ es. Indexed (suc (sub64 next 1)) es) (sym rest)
          (subst (λ k. Indexed k (drop next r.log)) first
            (Indexed-drop 0 next r.log (IsLog-Indexed r.log h))),
      (omega arith, sym (term_at-entry_at r.log (sub64 next 1) h (omega arith))),
    )

propose_as_refused :
    (role : Role) (payload : List ℕ) (r : Raft)
    → role ≢ leader
    → propose_as role payload r ≡ (r, false)
unfolding propose_as
propose_as_refused follower payload r ne = refl
propose_as_refused candidate payload r ne = refl
propose_as_refused leader payload r ne = absurd (ne refl)

-- Nobody but a leader takes a proposal.
pub propose_refused :
    (payload : List ℕ) (r : Raft) → r.role ≢ leader → propose payload r ≡ (r, false)
unfolding propose
propose_refused payload r ne = propose_as_refused r.role payload r ne

commit_from-log : (n : ℕ) (r : Raft) → (commit_from n r).log ≡ r.log
unfolding commit_from
commit_from-log zero r = refl
commit_from-log (suc n) r = ground (arith, commit_from-log n r)

maybe_commit-log : (r : Raft) → (maybe_commit r).log ≡ r.log
unfolding maybe_commit
maybe_commit-log r = commit_from-log (last_index r.log) r

abbrev pub proposal : List ℕ → Raft → LogEntry
proposal payload r = record { term = r.current_term; index = length r.log; payload = payload }

abbrev pub extended : List ℕ → Raft → Raft
extended payload r = record r { log = r.log ++ proposal payload r ∷ [] }

pub IsLog-append :
    (log : List LogEntry) (e : LogEntry) → IsLog log → e.index ≡ length log → IsLog (log ++ e ∷ [])
IsLog-append [] e h same = absurd h
IsLog-append (x ∷ xs) e h same = (h.0, Indexed-append 0 (x ∷ xs) (e ∷ []) h.1 (omega arith, tt))

propose_as-eq :
    (payload : List ℕ) (r : Raft)
    → IsLog r.log
    → propose_as leader payload r ≡ (maybe_commit (extended payload r), true)
unfolding propose_as
propose_as-eq payload r h =
    let e : last_index r.log + 1 ≡ length r.log = omega (arith, suc-last_index r.log h) in
    ap
      (λ i. (
        maybe_commit (record r {
          log = r.log ++ record { term = r.current_term; index = i; payload = payload } ∷ [];
        }),
        true,
      ))
      e

-- A leader's proposal is its log extended, and then the search for a commit index.
pub propose-eq :
    (payload : List ℕ) (r : Raft)
    → r.role ≡ leader
    → IsLog r.log
    → propose payload r ≡ (maybe_commit (extended payload r), true)
unfolding propose
propose-eq payload r e h = ap (λ role. propose_as role payload r) e ∙ propose_as-eq payload r h

-- A leader whose log is in shape takes a proposal at the end of it, in its own term, and the log stays
-- in shape.
pub propose_taken :
    (payload : List ℕ) (r : Raft)
    → r.role ≡ leader
    → IsLog r.log
    → ((propose payload r).1 ≡ true)
      × ((propose payload r).0.log
          ≡ r.log ++ record { term = r.current_term; index = length r.log; payload = payload } ∷ [])
      × IsLog (propose payload r).0.log
propose_taken payload r e h = rw (propose-eq payload r e h) (
  refl,
  maybe_commit-log (extended payload r),
  rw (maybe_commit-log (extended payload r)) (IsLog-append r.log (proposal payload r) h refl),
)

extended-Committable :
    (payload : List ℕ) (r : Raft)
    → IsLog r.log
    → r.config.peers ≡ r.config.id ∷ []
    → Committable (extended payload r) (length r.log)
extended-Committable payload r h one =
    let entry = proposal payload r in
    let log = r.log ++ entry ∷ [] in
    (
      term_at-entry_at log (length r.log) (IsLog-append r.log entry h refl)
            (omega (arith, length-append r.log (entry ∷ [])))
          ∙ ap (λ (x : LogEntry). x.term)
              (get_or-append_length r.log (entry ∷ []) (length r.log) sentinel refl),
      omega (arith, ap length one),
    )

-- A leader that is the only peer, with a log in shape and the commit index within it, commits a
-- proposal at once.
pub propose_alone :
    (payload : List ℕ) (r : Raft)
    → r.role ≡ leader
    → IsLog r.log
    → r.config.peers ≡ r.config.id ∷ []
    → r.commit_index < length r.log
    → (propose payload r).0.commit_index ≡ length r.log
propose_alone payload r e h one held =
    let x = extended payload r in
    let shape = IsLog-append r.log (proposal payload r) h refl in
    let c = maybe_commit-IsCommit x in
    let last : last_index x.log ≡ length r.log =
      omega (arith, suc-last_index x.log shape, length-append r.log (proposal payload r ∷ [])) in
    let top : ¬ ((maybe_commit x).commit_index < length r.log) =
      λ lt. c.highest (length r.log) lt (omega arith) (extended-Committable payload r h one) in
    let within : (maybe_commit x).commit_index ≤ length r.log = elim c.held [
      | inl k ↦ omega arith
      | inr (le, fit) ↦ omega arith
    ] in
    rw (propose-eq payload r e h) (omega arith)

-- What is drained is the part of the log above the cursor and up to the commit index, and it is
-- drained once, if the cursor is not past the commit index, and that is within the log.
pub take_committed_drains :
    (r : Raft)
    → r.last_applied ≤ r.commit_index
    → r.commit_index < length r.log
    → ((take_committed r).1
        ≡ take (r.commit_index - r.last_applied) (drop (suc r.last_applied) r.log))
      × ((take_committed r).0 ≡ record r { last_applied = r.commit_index })
      × ((take_committed (take_committed r).0).1 ≡ [])
unfolding take_committed
take_committed_drains r le held =
    let first : r.last_applied + 1 ≡ suc r.last_applied = omega arith in
    let none_left : r.commit_index - r.commit_index ≡ 0 = omega arith in
    (
      entries_from-eq r.log (r.last_applied + 1) (r.commit_index - r.last_applied) (omega arith)
          ∙ ap (λ k. take (r.commit_index - r.last_applied) (drop k r.log)) first,
      refl,
      ap (entries_from r.log (r.commit_index + 1)) none_left ∙ unfold entries_from in refl,
    )
