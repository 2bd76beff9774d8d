-- ===== src/Raft/Follower.antt =====
-- src/raft/raft.cc, what a follower does: it votes, and takes entries from the leader. Also
-- the change of role to follower and to candidate.
use mini_lsm.Prelude.{
  Bool, not, true, ◌&&◌, ◌||◌, List, [], ◌∷◌, ◌++◌, ltb, leb, ◌==◌, if◌then◌else◌, length, take,
  min, add64, sub64,
}
use mini_lsm.Raft.Messages.{
  NodeId, Term, LogEntry, Message, message, request_vote, request_vote_resp, append_entries_resp,
}
use mini_lsm.Raft.State.{
  Raft, follower, candidate, last_index, last_term, term_at, quorum_size, send,
}
use mini_lsm.Raft.Leader.{become_leader}

unfoldable pub can_vote : Message → Raft → Bool
can_vote m r = r.voted_for == 0 || r.voted_for == m.from

unfoldable pub up_to_date : Message → Raft → Bool
up_to_date m r =
    ltb (last_term r.log) m.last_log_term
    || (m.last_log_term == last_term r.log && leb (last_index r.log) m.last_log_index)

unfoldable pub handle_request_vote : Message → Raft → Raft
handle_request_vote m r =
    let granted = can_vote m r && up_to_date m r in
    let resp = record (message request_vote_resp r.config.id m.from r.current_term) {
      vote_granted = granted;
    } in
    send resp (
      if granted
      then record r { voted_for = m.from; hard_state_dirty = true; election_elapsed = 0 }
      else r)

-- One round of the loop over the entries of a message.
unfoldable pub append_entry : LogEntry → Raft → Raft
append_entry e r =
    if leb e.index (last_index r.log)
    then (if term_at r.log e.index == e.term then r else record r {
      log = take e.index r.log ++ e ∷ [];
      stable_index = if leb e.index r.stable_index then sub64 e.index 1 else r.stable_index;
    })
    else record r { log = r.log ++ e ∷ [] }

unfoldable pub append_all : List LogEntry → Raft → Raft
append_all [] r = r
append_all (e ∷ es) r = append_all es (append_entry e r)

unfoldable pub advance_commit : Message → Raft → Raft
advance_commit m r =
    if ltb r.commit_index m.leader_commit
    then record r { commit_index = min m.leader_commit (last_index r.log) }
    else r

-- The consistency check on the entry before those of the message.
unfoldable pub is_consistent : Message → List LogEntry → Bool
is_consistent m log =
    not (
      ltb (last_index log) m.prev_log_index
      || not (term_at log m.prev_log_index == m.prev_log_term))

unfoldable pub handle_append_entries : Message → Raft → Raft
handle_append_entries m r =
    let heard = record r { leader_id = m.from; election_elapsed = 0 } in
    let resp = message append_entries_resp r.config.id m.from r.current_term in
    if not (is_consistent m r.log)
    then send resp heard
    else send
        (record resp { success = true; match_index = add64 m.prev_log_index (length m.entries) })
        (advance_commit m (append_all m.entries heard))

unfoldable pub become_follower : Term → NodeId → Raft → Raft
become_follower term lead r =
    let fresh =
      if ltb r.current_term term
      then record r { current_term = term; voted_for = 0; hard_state_dirty = true }
      else r in
    record fresh { role = follower; leader_id = lead; election_elapsed = 0 }

unfoldable pub request_message : NodeId → Raft → Message
request_message peer r = record (message request_vote r.config.id peer r.current_term) {
  last_log_index = last_index r.log;
  last_log_term = last_term r.log;
}

unfoldable pub request_votes : List NodeId → Raft → Raft
request_votes [] r = r
request_votes (peer ∷ peers) r =
    request_votes peers (if peer == r.config.id then r else send (request_message peer r) r)

-- What `BecomeCandidate` sets before it looks for a majority.
unfoldable pub stand : Raft → Raft
stand r = record r {
  current_term = add64 r.current_term 1;
  voted_for = r.config.id;
  hard_state_dirty = true;
  role = candidate;
  leader_id = 0;
  election_elapsed = 0;
  votes_granted = r.config.id ∷ [];
}

unfoldable pub become_candidate : Raft → Raft
become_candidate r =
    let c = stand r in
    if leb (quorum_size c) (length c.votes_granted)
    then become_leader c
    else request_votes c.config.peers c
