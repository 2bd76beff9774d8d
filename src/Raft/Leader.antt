-- ===== src/Raft/Leader.antt =====
-- src/raft/raft.cc, the leader's side: AppendEntries to the peers, their responses, and the
-- advance of the commit index.
use mini_lsm.Prelude.{
  ℕ, zero, suc, ◌+◌, ◌-◌, not, List, [], ◌∷◌, ltb, leb, ◌==◌, if◌then◌else◌, add64, sub64,
}
use mini_lsm.Raft.Messages.{NodeId, LogEntry, Message, message, append_entries}
use mini_lsm.Raft.State.{
  Raft, leader, clear, assign, last_index, entry_at, term_at, quorum_size, send,
}

-- `for (i = next; i <= LastIndex(); ++i) entries.push_back(log_[i])`, with `count` rounds left.
unfoldable pub entries_from : List LogEntry → ℕ → ℕ → List LogEntry
entries_from log i zero = []
entries_from log i (suc count) = entry_at log i ∷ entries_from log (i + 1) count

unfoldable pub append_message : NodeId → Raft → Message
append_message peer r =
    let next = r.next_index peer in
    let prev = sub64 next 1 in
    record (message append_entries r.config.id peer r.current_term) {
      prev_log_index = prev;
      prev_log_term = term_at r.log prev;
      leader_commit = r.commit_index;
      entries = entries_from r.log next (suc (last_index r.log) - next);
    }

unfoldable pub send_append_entries : NodeId → Raft → Raft
unfolding append_message send
send_append_entries peer r = send (append_message peer r) r

unfoldable pub broadcast_to : List NodeId → Raft → Raft
broadcast_to [] r = r
broadcast_to (peer ∷ peers) r =
    broadcast_to peers (if peer == r.config.id then r else send_append_entries peer r)

unfoldable pub broadcast_append_entries : Raft → Raft
broadcast_append_entries r = broadcast_to r.config.peers r

-- The loop that counts the peers known to hold index `n`.
unfoldable pub count_replicas : Raft → ℕ → List NodeId → ℕ → ℕ
count_replicas r n [] replicas = replicas
count_replicas r n (peer ∷ peers) replicas = count_replicas r n peers (
    if peer == r.config.id
    then replicas
    else if leb n (r.match_index peer)
    then replicas + 1
    else replicas)

-- The loop of `MaybeCommit` from `n` down to `commit_index_`.
unfoldable pub commit_from : ℕ → Raft → Raft
commit_from zero r = r
commit_from (suc n) r =
    let rest = commit_from n r in
    if leb (suc n) r.commit_index
    then r
    else if not (term_at r.log (suc n) == r.current_term)
    then rest
    else if leb (quorum_size r) (count_replicas r (suc n) r.config.peers 1)
    then record r { commit_index = suc n }
    else rest

unfoldable pub maybe_commit : Raft → Raft
maybe_commit r = commit_from (last_index r.log) r

unfoldable pub handle_append_entries_resp : Message → Raft → Raft
handle_append_entries_resp m r =
    if m.success
    then maybe_commit (record r {
      match_index = assign r.match_index m.from m.match_index;
      next_index = assign r.next_index m.from (add64 m.match_index 1);
    })
    else let next = r.next_index m.from in
      record r { next_index = assign r.next_index m.from (if ltb 1 next then next - 1 else next) }

-- The loop that resets the replication state of each peer.
unfoldable pub reset_peers : List NodeId → Raft → Raft
reset_peers [] r = r
reset_peers (peer ∷ peers) r = reset_peers peers (
    if peer == r.config.id then r else record r {
      next_index = assign r.next_index peer (add64 (last_index r.log) 1);
      match_index = assign r.match_index peer 0;
    })

-- What `BecomeLeader` sets before it broadcasts.
unfoldable pub take_office : Raft → Raft
take_office r = reset_peers r.config.peers (record r {
  role = leader;
  leader_id = r.config.id;
  heartbeat_elapsed = 0;
  next_index = clear;
  match_index = clear;
})

unfoldable pub become_leader : Raft → Raft
become_leader r = broadcast_append_entries (take_office r)
