-- ===== src/Raft/Replication.antt =====
-- `HandleAppendEntries` of src/raft/raft.cc as a whole: what a follower's log and commit index are
-- after a message, and what it answers.
use mini_lsm.Prelude.{
  suc, ◌≤◌, ◌<◌, ◌≡◌, refl, sym, ◌∙◌, ap, subst, ◌↔◌, ◌⊎◌, inl, inr, true, false, List, [], ◌∷◌,
  arith, Bool-cases, length, min, ltb, if◌then◌else◌,
}
use mini_lsm.Raft.Messages.{Message, LogEntry}
use mini_lsm.Raft.State.{Raft, last_index, entry_at, send}
use mini_lsm.Raft.Follower.{
  append_entry, append_all, advance_commit, is_consistent, handle_append_entries,
}
use mini_lsm.Raft.Ballot.{append_response}
use mini_lsm.Raft.Log.{Indexed, IsLog, Agree, suc-last_index, term_at-entry_at}
use mini_lsm.Raft.Log.Append.{HasMerged, append_all-HasMerged}
use mini_lsm.Raft.Log.Present.{
  append_all-Present, append_all_committed, NoConflict, HasMerged-Present,
}

-- The entries of a message follow its previous index.
abbrev pub IsBatch : Message → Type 0
IsBatch m = Indexed (suc m.prev_log_index) m.entries

-- The log reaches the previous index, and has the previous term there.
abbrev pub Matches : Message → List LogEntry → Type 0
Matches m log =
    (m.prev_log_index < length log) × ((entry_at log m.prev_log_index).term ≡ m.prev_log_term)

-- On a log in shape the test that the code makes is the consistency check of the Raft paper.
pub is_consistent_iff :
    (m : Message) (log : List LogEntry) → IsLog log → (is_consistent m log ≡ true) ↔ Matches m log
unfolding is_consistent
is_consistent_iff m log h = (
  λ c. ground (arith, suc-last_index log h, term_at-entry_at log m.prev_log_index h),
  λ c. ground (arith, suc-last_index log h, term_at-entry_at log m.prev_log_index h),
)

abbrev pub heard : Message → Raft → Raft
heard m r = record r { leader_id = m.from; election_elapsed = 0 }

pub accepted_log :
    (m : Message) (r : Raft)
    → is_consistent m r.log ≡ true
    → (handle_append_entries m r).log ≡ (append_all m.entries (heard m r)).log
unfolding handle_append_entries advance_commit send
accepted_log m r c = ground arith

-- A message of consecutive entries that passes the check leaves them in a log in shape, which stays in
-- shape and is unchanged up to the previous index: at the index of each of the entries the log then holds
-- it whole, unless it had an entry of the same term there already, which is kept.
pub handle_append_entries-HasMerged :
    (m : Message) (r : Raft)
    → IsLog r.log
    → IsBatch m
    → Matches m r.log
    → HasMerged (suc m.prev_log_index) m.entries r.log (handle_append_entries m r).log
handle_append_entries-HasMerged m r h ix fits =
    subst (λ l. HasMerged (suc m.prev_log_index) m.entries r.log l)
      (sym (accepted_log m r ((is_consistent_iff m r.log h).1 fits)))
      (append_all-HasMerged (suc m.prev_log_index) m.entries (heard m r) h (omega arith) fits.0 ix)

-- A message that fails the check changes neither the log nor the commit index.
pub handle_append_entries_rejected :
    (m : Message) (r : Raft)
    → is_consistent m r.log ≡ false
    → ((handle_append_entries m r).log ≡ r.log)
      × ((handle_append_entries m r).commit_index ≡ r.commit_index)
      × ((append_response m r).success ≡ false)
unfolding handle_append_entries append_response send
handle_append_entries_rejected m r c = (ground arith, ground arith, ground arith)

append_all-commit :
    (es : List LogEntry) (r : Raft) → (append_all es r).commit_index ≡ r.commit_index
unfolding append_all append_entry
append_all-commit [] r = refl
append_all-commit (e ∷ es) r = append_all-commit es (append_entry e r) ∙ ground arith

-- The commit index that the message asks for, but never past the log.
accepted_commit :
    (m : Message) (r : Raft)
    → is_consistent m r.log ≡ true
    → (handle_append_entries m r).commit_index ≡ (
        if ltb r.commit_index m.leader_commit
        then min m.leader_commit (last_index (append_all m.entries (heard m r)).log)
        else r.commit_index)
unfolding handle_append_entries advance_commit send
accepted_commit m r c = ground (arith, append_all-commit m.entries (heard m r))

-- The committed part of the log stays, the commit index does not fall and stays within the log, and
-- it goes no further than the leader's.
pub record KeepsCommitted (m : Message) (a b : Raft) : Type 0 where
  pub shape : IsLog b.log
  pub grows : a.commit_index ≤ b.commit_index
  pub held : b.commit_index < length b.log
  pub same : Agree (suc a.commit_index) a.log b.log
  pub bounded : (b.commit_index ≡ a.commit_index) ⊎ (b.commit_index ≤ m.leader_commit)

-- A message of consecutive entries that do not contradict the committed part of a log in shape, whether
-- it is accepted or not, leaves that part and the shape; the commit index does not fall, stays within
-- the log if it was, and goes no further than the leader's.
pub handle_append_entries-KeepsCommitted :
    (m : Message) (r : Raft)
    → IsLog r.log
    → IsBatch m
    → r.commit_index < length r.log
    → NoConflict r.commit_index r.log m.entries
    → KeepsCommitted m r (handle_append_entries m r)
handle_append_entries-KeepsCommitted m r h ix held fits =
    elim (Bool-cases (is_consistent m r.log)) [
      | inl c ↦
          let n = suc m.prev_log_index in
          let reach = ((is_consistent_iff m r.log h).0 c).0 in
          let l = (append_all m.entries (heard m r)).log in
          let merged = append_all-HasMerged n m.entries (heard m r) h (omega arith) reach ix in
          let kept =
            append_all_committed r.commit_index n m.entries (heard m r) h (omega arith) reach ix
              held fits in
          let now = accepted_commit m r c in
          record {
            shape = rw (accepted_log m r c) merged.shape;
            grows = ground (arith, now, suc-last_index l merged.shape, kept.0);
            held =
                rw (accepted_log m r c)
                  (ground (arith, now, suc-last_index l merged.shape, kept.0));
            same = rw (accepted_log m r c) kept.1;
            bounded = ground (arith, now);
          }
      | inr c ↦
          let same = handle_append_entries_rejected m r c in
          record {
            shape = rw same.0 h;
            grows = omega (arith, same.1);
            held = rw (same.0, same.1) held;
            same = rw same.0 (λ i lt. refl);
            bounded = inl same.1;
          }
    ]

-- A message that passed the check on a log in shape, with entries of consecutive indices, and arrives
-- again changes the log no more.
pub handle_append_entries_again :
    (m : Message) (r : Raft)
    → IsLog r.log
    → IsBatch m
    → Matches m r.log
    → (handle_append_entries m (handle_append_entries m r)).log ≡ (handle_append_entries m r).log
handle_append_entries_again m r h ix fits =
    let b = handle_append_entries m r in
    let merged = handle_append_entries-HasMerged m r h ix fits in
    let prev : entry_at b.log m.prev_log_index ≡ entry_at r.log m.prev_log_index =
      merged.below m.prev_log_index (omega arith) in
    let again : Matches m b.log =
      (omega (arith, merged.reach), ap (λ (x : LogEntry). x.term) prev ∙ fits.1) in
    accepted_log m b ((is_consistent_iff m b.log merged.shape).1 again)
    ∙ ap (λ (x : Raft). x.log)
        (append_all-Present m.entries (heard m b) merged.shape
          (HasMerged-Present (suc m.prev_log_index) m.entries r.log b.log ix merged))
