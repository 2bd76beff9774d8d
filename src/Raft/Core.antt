-- ===== src/Raft/Core.antt =====
-- src/raft/raft.cc, the public operations of the class Raft.
use mini_lsm.Prelude.{
  ℕ, ◌+◌, ◌-◌, Bool, true, false, List, [], ◌∷◌, ◌++◌, ltb, leb, ◌==◌, if◌then◌else◌, length,
  reached,
}
use mini_lsm.Raft.Messages.{
  NodeId, Term, LogEntry, Message, MessageType, message, request_vote, request_vote_resp,
  append_entries, append_entries_resp,
}
use mini_lsm.Raft.State.{Raft, Role, follower, candidate, leader, last_index, quorum_size, send}
use mini_lsm.Raft.Leader.{
  entries_from, broadcast_append_entries, maybe_commit, handle_append_entries_resp, become_leader,
}
use mini_lsm.Raft.Follower.{
  handle_request_vote, handle_append_entries, become_follower, become_candidate,
}

-- The two halves of `Tick`, by role.
unfoldable pub tick_heartbeat : Raft → Raft
tick_heartbeat r =
    let elapsed = r.heartbeat_elapsed + 1 in
    if reached elapsed r.config.heartbeat_timeout
    then broadcast_append_entries (record r { heartbeat_elapsed = 0 })
    else record r { heartbeat_elapsed = elapsed }

unfoldable pub tick_election : Raft → Raft
tick_election r =
    let elapsed = r.election_elapsed + 1 in
    let ticked = record r { election_elapsed = elapsed } in
    if reached elapsed r.config.election_timeout then become_candidate ticked else ticked

unfoldable pub tick_as : Role → Raft → Raft
tick_as leader r = tick_heartbeat r
tick_as follower r = tick_election r
tick_as candidate r = tick_election r

unfoldable pub tick : Raft → Raft
unfolding tick_as
tick r = tick_as r.role r

unfoldable pub step_follower : MessageType → Message → Raft → Raft
step_follower request_vote m r = handle_request_vote m r
step_follower append_entries m r = handle_append_entries m r
step_follower _ m r = r

-- `std::find(...) == end()` on the votes.
unfoldable pub has_vote : NodeId → List NodeId → Bool
has_vote id [] = false
has_vote id (v ∷ vs) = if v == id then true else has_vote id vs

-- Records a unique grant.
unfoldable pub with_vote : NodeId → List NodeId → List NodeId
with_vote from votes = if has_vote from votes then votes else votes ++ from ∷ []

unfoldable pub record_vote : NodeId → Raft → Raft
record_vote from r = record r { votes_granted = with_vote from r.votes_granted }

-- A granted vote at a candidate: recorded once, then checked for a majority.
unfoldable pub count_vote : Message → Raft → Raft
count_vote m r =
    let counted = record_vote m.from r in
    if leb (quorum_size counted) (length counted.votes_granted)
    then become_leader counted
    else counted

unfoldable pub step_candidate : MessageType → Message → Raft → Raft
step_candidate request_vote_resp m r = if m.vote_granted then count_vote m r else r
step_candidate append_entries m r = handle_append_entries m (become_follower m.term m.from r)
step_candidate request_vote m r = handle_request_vote m r
step_candidate append_entries_resp m r = r

unfoldable pub step_leader : MessageType → Message → Raft → Raft
step_leader request_vote m r = handle_request_vote m r
step_leader append_entries_resp m r = handle_append_entries_resp m r
step_leader _ m r = r

-- The `switch` on the role.
unfoldable pub step_as : Role → Message → Raft → Raft
step_as follower m r = step_follower m.type m r
step_as candidate m r = step_candidate m.type m r
step_as leader m r = step_leader m.type m r

-- The answer to a message of an earlier term; responses get none.
unfoldable pub reject_stale : MessageType → Message → Raft → Raft
reject_stale request_vote m r = send (message request_vote_resp r.config.id m.from r.current_term) r
reject_stale append_entries m r =
    send (message append_entries_resp r.config.id m.from r.current_term) r
reject_stale _ m r = r

unfoldable pub leader_of : MessageType → Message → NodeId
leader_of append_entries m = m.from
leader_of _ m = 0

unfoldable pub step : Message → Raft → Raft
step m r =
    if ltb r.current_term m.term
    then (let down = become_follower m.term (leader_of m.type m) r in step_as down.role m down)
    else if ltb m.term r.current_term
    then reject_stale m.type m r
    else step_as r.role m r

-- `Propose` returns whether the entry was taken.
unfoldable pub propose_as : Role → List ℕ → Raft → Raft × Bool
propose_as leader payload r =
    let entry : LogEntry = record {
      term = r.current_term;
      index = last_index r.log + 1;
      payload = payload;
    } in
    (maybe_commit (record r { log = r.log ++ entry ∷ [] }), true)
propose_as follower payload r = (r, false)
propose_as candidate payload r = (r, false)

unfoldable pub propose : List ℕ → Raft → Raft × Bool
unfolding propose_as
propose payload r = propose_as r.role payload r

-- The entries in (last_applied_, commit_index_], and the state with the cursor advanced.
unfoldable pub take_committed : Raft → Raft × List LogEntry
take_committed r = (
  record r { last_applied = r.commit_index },
  entries_from r.log (r.last_applied + 1) (r.commit_index - r.last_applied),
)

unfoldable pub take_messages : Raft → Raft × List Message
take_messages r = (record r { out_msgs = [] }, r.out_msgs)

unfoldable pub restore : Term → NodeId → List LogEntry → Raft → Raft
restore term vote entries r =
    let log = r.log ++ entries in
    record r {
      current_term = term;
      voted_for = vote;
      log = log;
      stable_index = last_index log;
      hard_state_dirty = false;
    }
