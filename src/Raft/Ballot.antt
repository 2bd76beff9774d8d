-- ===== src/Raft/Ballot.antt =====
-- The part of a node's state that elections read, and what the operations of src/raft/raft.cc
-- that are no votes do to it.
use mini_lsm.Prelude.{
  ℕ, zero, suc, true, ◌≡◌, refl, ◌∙◌, ap, Bool, List, [], ◌∷◌, ◌++◌, ◌==◌, if◌then◌else◌, arith,
  Bool-cases, inl, inr, All, add64, length,
}
use mini_lsm.Raft.Messages.{NodeId, Term, Message, LogEntry, append_entries_resp, message}
use mini_lsm.Raft.State.{Raft, Role, Config, leader, send, last_index}
use mini_lsm.Raft.Leader.{
  append_message, broadcast_append_entries, reset_peers, take_office, become_leader, commit_from,
  maybe_commit, handle_append_entries_resp,
}
use mini_lsm.Raft.Follower.{
  append_entry, append_all, advance_commit, is_consistent, handle_append_entries,
}
use mini_lsm.Raft.Frames.{to_others, broadcast_to-eq}

pub record Ballot : Type 0 where
  pub config : Config
  pub role : Role
  pub current_term : Term
  pub voted_for : NodeId
  pub votes_granted : List NodeId
  pub hard_state_dirty : Bool
  pub out_msgs : List Message

abbrev pub ballot : Raft → Ballot
ballot r = record {
  config = r.config;
  role = r.role;
  current_term = r.current_term;
  voted_for = r.voted_for;
  votes_granted = r.votes_granted;
  hard_state_dirty = r.hard_state_dirty;
  out_msgs = r.out_msgs;
}

pub All-to_others {κ} :
    (P : Message → Type κ) (f : NodeId → Message) (self : NodeId) (peers : List NodeId)
    → ((p : NodeId) → P (f p))
    → All P (to_others f self peers)
unfolding to_others
All-to_others P f self [] h = tt
All-to_others P f self (peer ∷ peers) h = elim (Bool-cases (peer == self)) [
  | inl same ↦ rw same (All-to_others P f self peers h)
  | inr other ↦ rw other (h peer, All-to_others P f self peers h)
]

commit_from-ballot : (n : ℕ) (r : Raft) → ballot (commit_from n r) ≡ ballot r
unfolding commit_from
commit_from-ballot zero r = refl
commit_from-ballot (suc n) r = ground (arith, commit_from-ballot n r)

pub maybe_commit-ballot : (r : Raft) → ballot (maybe_commit r) ≡ ballot r
unfolding maybe_commit
maybe_commit-ballot r = commit_from-ballot (last_index r.log) r

pub handle_append_entries_resp-ballot :
    (m : Message) (r : Raft) → ballot (handle_append_entries_resp m r) ≡ ballot r
unfolding handle_append_entries_resp
handle_append_entries_resp-ballot m r = elim (Bool-cases m.success) [
  | inl ok ↦ rw ok (maybe_commit-ballot _)
  | inr failed ↦ rw failed refl
]

reset_peers-ballot : (peers : List NodeId) (r : Raft) → ballot (reset_peers peers r) ≡ ballot r
unfolding reset_peers
reset_peers-ballot [] r = refl
reset_peers-ballot (peer ∷ peers) r = reset_peers-ballot peers _ ∙ ground arith

pub take_office-ballot : (r : Raft) → ballot (take_office r) ≡ record (ballot r) { role = leader }
unfolding take_office
take_office-ballot r = reset_peers-ballot r.config.peers _

-- A new leader has sent an AppendEntries to each other peer, and changed nothing else.
pub become_leader-ballot :
    (r : Raft)
    → ballot (become_leader r) ≡ record (ballot r) {
      role = leader;
      out_msgs =
          r.out_msgs
          ++ to_others (λ p. append_message p (take_office r)) r.config.id r.config.peers;
    }
unfolding become_leader broadcast_append_entries
become_leader-ballot r =
    ap ballot (broadcast_to-eq (take_office r).config.peers (take_office r))
    ∙ ap
        (λ (b : Ballot). record b {
          out_msgs =
              b.out_msgs
              ++ to_others (λ p. append_message p (take_office r)) b.config.id b.config.peers;
        })
        (take_office-ballot r)

append_all-ballot : (es : List LogEntry) (r : Raft) → ballot (append_all es r) ≡ ballot r
unfolding append_all append_entry
append_all-ballot [] r = refl
append_all-ballot (e ∷ es) r = append_all-ballot es (append_entry e r) ∙ ground arith

-- The answer to an AppendEntries of the node's own term.
unfoldable pub append_response : Message → Raft → Message
append_response m r =
    let resp = message append_entries_resp r.config.id m.from r.current_term in
    if is_consistent m r.log
    then record resp { success = true; match_index = add64 m.prev_log_index (length m.entries) }
    else resp

-- A node that handles AppendEntries answers once, and its election state is as before.
pub handle_append_entries-ballot :
    (m : Message) (r : Raft)
    → ballot (handle_append_entries m r)
      ≡ record (ballot r) { out_msgs = r.out_msgs ++ append_response m r ∷ [] }
unfolding handle_append_entries send advance_commit append_response
handle_append_entries-ballot m r =
    ground
      (arith, append_all-ballot m.entries (record r { leader_id = m.from; election_elapsed = 0 }))
