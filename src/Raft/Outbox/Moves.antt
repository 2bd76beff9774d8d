-- ===== src/Raft/Outbox/Moves.antt =====
-- Each operation of src/raft/raft.cc, as what it queues.
use mini_lsm.Prelude.{
  ◌<◌, ◌+◌, ◌≢◌, refl, ap, inl, inr, [], ◌∷◌, arith, Bool-cases, ◌&&◌, reached, ltb, leb, length,
  u64,
}
use mini_lsm.Raft.Messages.{
  message, NodeId, Term, Message, MessageType, request_vote, request_vote_resp, append_entries,
  append_entries_resp,
}
use mini_lsm.Raft.State.{Raft, quorum_size, Role, follower, candidate, leader, send}
use mini_lsm.Raft.Leader.{append_message, become_leader, take_office, broadcast_append_entries}
use mini_lsm.Raft.Follower.{
  handle_request_vote, handle_append_entries, become_follower, become_candidate, stand,
  request_message, request_votes, can_vote, up_to_date,
}
use mini_lsm.Raft.Core.{
  tick, tick_as, tick_election, tick_heartbeat, step, step_as, step_follower, step_candidate,
  step_leader, record_vote, count_vote, reject_stale, leader_of,
}
use mini_lsm.Raft.Frames.{to_others, broadcast_to-eq, request_votes-eq}
use mini_lsm.Raft.Ballot.{
  Ballot, take_office-ballot, All-to_others, append_response, become_leader-ballot,
  handle_append_entries-ballot, handle_append_entries_resp-ballot,
}
use mini_lsm.Raft.HardState.{
  hard, Tracks-refl, handle_append_entries-Tracks, handle_request_vote-Tracks, become_leader-Tracks,
  become_follower-Tracks,
}
use mini_lsm.Raft.Outbox.{OnGrant-true, Pledged, Queues, Queues-after, Queues-none, Silent, silent}

handle_append_entries-Queues : (m : Message) (r : Raft) → Queues r (handle_append_entries m r)
unfolding append_response
handle_append_entries-Queues m r = record {
  tracks = handle_append_entries-Tracks m r;
  config = ground (arith, handle_append_entries-ballot m r);
  sent = append_response m r ∷ [];
  queued = ground (arith, handle_append_entries-ballot m r);
  honest = ground arith;
}

-- A vote is granted to the sender, whose name is not 0.
handle_request_vote-Queues :
    (m : Message) (r : Raft) → m.from ≢ 0 → Queues r (handle_request_vote m r)
unfolding handle_request_vote send
handle_request_vote-Queues m r ne = record {
  tracks = handle_request_vote-Tracks m r;
  config = ground arith;
  sent =
      record (message request_vote_resp r.config.id m.from r.current_term) {
        vote_granted = can_vote m r && up_to_date m r;
      }
      ∷ [];
  queued = ground arith;
  honest = (
    (
      refl,
      OnGrant-true (can_vote m r && up_to_date m r)
          ((m.from ≢ 0) × Pledged (hard (handle_request_vote m r)) r.current_term m.from)
          (λ granted. (ne, (ground arith, ground arith))),
    ),
    tt,
  );
}

become_leader-Queues : (r : Raft) → Queues r (become_leader r)
become_leader-Queues r = record {
  tracks = become_leader-Tracks r;
  config = ground (arith, become_leader-ballot r);
  sent = to_others (λ p. append_message p (take_office r)) r.config.id r.config.peers;
  queued = ground (arith, become_leader-ballot r);
  honest =
      All-to_others _ _ _ _ (λ p.
        unfold append_message in (ap (λ (b : Ballot). b.config.id) (take_office-ballot r), tt));
}

become_follower-Silent : (t : Term) (l : NodeId) (r : Raft) → Silent r (become_follower t l r)
unfolding become_follower
become_follower-Silent t l r = silent (become_follower-Tracks t l r) (ground arith) (ground arith)

record_vote-Silent : (v : NodeId) (r : Raft) → Silent r (record_vote v r)
unfolding record_vote
record_vote-Silent v r = silent (ground arith) (ground arith) (ground arith)

count_vote-Queues : (m : Message) (r : Raft) → Queues r (count_vote m r)
unfolding count_vote
count_vote-Queues m r =
    let counted = record_vote m.from r in
    elim (Bool-cases (leb (quorum_size counted) (length counted.votes_granted))) [
      | inl won ↦ rw won (Queues-after (record_vote-Silent m.from r) (become_leader-Queues counted))
      | inr lost ↦ rw lost (Queues-none (record_vote-Silent m.from r))
    ]

Queues-refl : (r : Raft) → Queues r r
Queues-refl r = Queues-none (silent (Tracks-refl r) refl refl)

module _ (m : Message) (ne : m.from ≢ 0) (r : Raft) where
  step_follower-Queues : (t : MessageType) → Queues r (step_follower t m r)
  unfolding step_follower
  step_follower-Queues request_vote = handle_request_vote-Queues m r ne
  step_follower-Queues append_entries = handle_append_entries-Queues m r
  step_follower-Queues _ = Queues-refl r

  step_candidate-Queues : (t : MessageType) → Queues r (step_candidate t m r)
  unfolding step_candidate
  step_candidate-Queues request_vote = handle_request_vote-Queues m r ne
  step_candidate-Queues append_entries =
      Queues-after (become_follower-Silent m.term m.from r) (handle_append_entries-Queues m _)
  step_candidate-Queues request_vote_resp = elim (Bool-cases m.vote_granted) [
    | inl granted ↦ simp granted (count_vote-Queues m r)
    | inr refused ↦ rw refused (Queues-refl r)
  ]
  step_candidate-Queues append_entries_resp = Queues-refl r

  step_leader-Queues : (t : MessageType) → Queues r (step_leader t m r)
  unfolding step_leader
  step_leader-Queues request_vote = handle_request_vote-Queues m r ne
  step_leader-Queues append_entries_resp =
      let same = handle_append_entries_resp-ballot m r in
      Queues-none (silent (ground (arith, same)) (ground (arith, same)) (ground (arith, same)))
  step_leader-Queues _ = Queues-refl r

  step_as-Queues : (role : Role) → Queues r (step_as role m r)
  unfolding step_as
  step_as-Queues follower = step_follower-Queues m.type
  step_as-Queues candidate = step_candidate-Queues m.type
  step_as-Queues leader = step_leader-Queues m.type

reject_stale-Queues : (t : MessageType) (m : Message) (r : Raft) → Queues r (reject_stale t m r)
unfolding reject_stale send
reject_stale-Queues request_vote m r = record {
  tracks = ground arith;
  config = refl;
  sent = message request_vote_resp r.config.id m.from r.current_term ∷ [];
  queued = refl;
  honest = ((refl, tt), tt);
}
reject_stale-Queues append_entries m r = record {
  tracks = ground arith;
  config = refl;
  sent = message append_entries_resp r.config.id m.from r.current_term ∷ [];
  queued = refl;
  honest = ((refl, tt), tt);
}
reject_stale-Queues _ m r = Queues-refl r

-- A step only adds to the outbox, in the name of the node, and each vote that it grants is the
-- vote of the node's hard state afterwards, if the message has a sender other than 0.
pub step-Queues : (m : Message) (r : Raft) → m.from ≢ 0 → Queues r (step m r)
unfolding step
step-Queues m r ne = elim (Bool-cases (ltb r.current_term m.term)) [
  | inl newer ↦ rw newer (
      Queues-after (become_follower-Silent m.term (leader_of m.type m) r) (step_as-Queues m ne _ _))
  | inr same ↦ rw same (elim (Bool-cases (ltb m.term r.current_term)) [
    | inl stale ↦ rw stale (reject_stale-Queues m.type m r)
    | inr current ↦ rw current (step_as-Queues m ne r r.role)
  ])
]

broadcast-Queues : (r : Raft) → Queues r (broadcast_append_entries r)
unfolding broadcast_append_entries
broadcast-Queues r =
    let sends = broadcast_to-eq r.config.peers r in
    record {
      tracks = ground (arith, sends);
      config = ground (arith, sends);
      sent = to_others (λ p. append_message p r) r.config.id r.config.peers;
      queued = ground (arith, sends);
      honest = All-to_others _ _ _ _ (λ p. unfold append_message in (refl, tt));
    }

request_votes-Queues : (r : Raft) → Queues r (request_votes r.config.peers r)
request_votes-Queues r =
    let sends = request_votes-eq r.config.peers r in
    record {
      tracks = ground (arith, sends);
      config = ground (arith, sends);
      sent = to_others (λ p. request_message p r) r.config.id r.config.peers;
      queued = ground (arith, sends);
      honest = All-to_others _ _ _ _ (λ p. unfold request_message in (refl, tt));
    }

stand-Silent : (r : Raft) → r.current_term + 1 < u64 → Silent r (stand r)
unfolding stand
stand-Silent r h = silent (ground arith) refl refl

become_candidate-Queues : (r : Raft) → r.current_term + 1 < u64 → Queues r (become_candidate r)
unfolding become_candidate
become_candidate-Queues r h =
    let c = stand r in
    elim (Bool-cases (leb (quorum_size c) (length c.votes_granted))) [
      | inl won ↦ rw won (Queues-after (stand-Silent r h) (become_leader-Queues c))
      | inr more ↦ rw more (Queues-after (stand-Silent r h) (request_votes-Queues c))
    ]

tick_heartbeat-Queues : (r : Raft) → Queues r (tick_heartbeat r)
unfolding tick_heartbeat
tick_heartbeat-Queues r =
    elim (Bool-cases (reached (r.heartbeat_elapsed + 1) r.config.heartbeat_timeout)) [
      | inl due ↦ rw due (Queues-after (silent (ground arith) refl refl) (broadcast-Queues _))
      | inr wait ↦ rw wait (Queues-none (silent (ground arith) refl refl))
    ]

tick_election-Queues : (r : Raft) → r.current_term + 1 < u64 → Queues r (tick_election r)
unfolding tick_election
tick_election-Queues r h =
    elim (Bool-cases (reached (r.election_elapsed + 1) r.config.election_timeout)) [
      | inl due ↦
          rw due (Queues-after (silent (ground arith) refl refl) (become_candidate-Queues _ h))
      | inr wait ↦ rw wait (Queues-none (silent (ground arith) refl refl))
    ]

tick_as-Queues : (role : Role) (r : Raft) → r.current_term + 1 < u64 → Queues r (tick_as role r)
unfolding tick_as
tick_as-Queues leader r h = tick_heartbeat-Queues r
tick_as-Queues follower r h = tick_election-Queues r h
tick_as-Queues candidate r h = tick_election-Queues r h

pub tick-Queues : (r : Raft) → r.current_term + 1 < u64 → Queues r (tick r)
unfolding tick
tick-Queues r = tick_as-Queues r.role r
