-- ===== src/Raft/HardState.antt =====
-- The hard state of src/raft/raft.cc: the term only grows, a vote is given once in a term, and
-- the dirty flag says when either has changed.
use mini_lsm.Prelude.{
  ℕ, ◌+◌, ◌≤◌, ◌<◌, ◌≡◌, refl, ◌∙◌, ◌⊎◌, inl, inr, false, List, arith, Bool-cases, u64, ltb,
}
use mini_lsm.Raft.Messages.{
  NodeId, Term, Message, MessageType, request_vote, request_vote_resp, append_entries,
  append_entries_resp,
}
use mini_lsm.Raft.State.{Raft, Role, follower, candidate, leader, send}
use mini_lsm.Raft.Leader.{become_leader, broadcast_append_entries}
use mini_lsm.Raft.Follower.{
  can_vote, handle_request_vote, handle_append_entries, become_follower, become_candidate, stand,
}
use mini_lsm.Raft.Core.{
  tick, tick_as, tick_election, tick_heartbeat, step, step_as, step_follower, step_candidate,
  step_leader, count_vote, record_vote, reject_stale, leader_of, propose, propose_as,
}
use mini_lsm.Raft.Frames.{broadcast_to-eq, request_votes-eq}
use mini_lsm.Raft.Ballot.{
  ballot, become_leader-ballot, handle_append_entries-ballot, handle_append_entries_resp-ballot,
  maybe_commit-ballot,
}

pub record HardState : Type 0 where
  pub term : Term
  pub vote : NodeId

abbrev pub hard : Raft → HardState
hard r = record { term = r.current_term; vote = r.voted_for }

-- A later term, or the same term with a vote that is not taken back.
abbrev pub Extends : HardState → HardState → Type 0
Extends a b = (a.term < b.term) ⊎ ((a.term ≡ b.term) × ((a.vote ≡ 0) ⊎ (a.vote ≡ b.vote)))

pub Extends-refl : (a : HardState) → Extends a a
Extends-refl a = inr (refl, inr refl)

pub Extends-trans : (a b c : HardState) → Extends a b → Extends b c → Extends a c
Extends-trans a b c h k = ground arith

Extends-term_le : (a b : HardState) → Extends a b → a.term ≤ b.term
Extends-term_le a b h = ground arith

-- What one operation does to the hard state and to its dirty flag.
pub record Tracks (a b : Raft) : Type 0 where
  pub extends : Extends (hard a) (hard b)
  pub marks : b.hard_state_dirty ≡ false → (a.hard_state_dirty ≡ false) × (hard a ≡ hard b)

pub Tracks-refl : (a : Raft) → Tracks a a
Tracks-refl a = ground arith

pub Tracks-trans : {a b c : Raft} → Tracks a b → Tracks b c → Tracks a c
Tracks-trans {a} {b} {c} h k = record {
  extends = Extends-trans (hard a) (hard b) (hard c) h.extends k.extends;
  marks = λ e. let kept = k.marks e in let held = h.marks kept.0 in (held.0, held.1 ∙ kept.1);
}

pub handle_request_vote-Tracks : (m : Message) (r : Raft) → Tracks r (handle_request_vote m r)
unfolding handle_request_vote can_vote send
handle_request_vote-Tracks m r = ground arith

pub handle_append_entries-Tracks : (m : Message) (r : Raft) → Tracks r (handle_append_entries m r)
handle_append_entries-Tracks m r = ground (arith, handle_append_entries-ballot m r)

pub become_follower-Tracks : (t : Term) (l : NodeId) (r : Raft) → Tracks r (become_follower t l r)
unfolding become_follower
become_follower-Tracks t l r = ground arith

pub become_leader-Tracks : (r : Raft) → Tracks r (become_leader r)
become_leader-Tracks r = ground (arith, become_leader-ballot r)

count_vote-Tracks : (m : Message) (r : Raft) → Tracks r (count_vote m r)
unfolding count_vote record_vote
count_vote-Tracks m r = ground (arith, become_leader-Tracks (record_vote m.from r))

step_follower-Tracks : (t : MessageType) (m : Message) (r : Raft) → Tracks r (step_follower t m r)
unfolding step_follower
step_follower-Tracks request_vote m r = handle_request_vote-Tracks m r
step_follower-Tracks append_entries m r = handle_append_entries-Tracks m r
step_follower-Tracks _ m r = Tracks-refl r

step_candidate-Tracks : (t : MessageType) (m : Message) (r : Raft) → Tracks r (step_candidate t m r)
unfolding step_candidate
step_candidate-Tracks request_vote m r = handle_request_vote-Tracks m r
step_candidate-Tracks append_entries m r =
    Tracks-trans (become_follower-Tracks m.term m.from r) (handle_append_entries-Tracks m _)
step_candidate-Tracks request_vote_resp m r = ground (arith, count_vote-Tracks m r)
step_candidate-Tracks append_entries_resp m r = Tracks-refl r

step_leader-Tracks : (t : MessageType) (m : Message) (r : Raft) → Tracks r (step_leader t m r)
unfolding step_leader
step_leader-Tracks request_vote m r = handle_request_vote-Tracks m r
step_leader-Tracks append_entries_resp m r = ground (arith, handle_append_entries_resp-ballot m r)
step_leader-Tracks _ m r = Tracks-refl r

step_as-Tracks : (role : Role) (m : Message) (r : Raft) → Tracks r (step_as role m r)
unfolding step_as
step_as-Tracks follower m r = step_follower-Tracks m.type m r
step_as-Tracks candidate m r = step_candidate-Tracks m.type m r
step_as-Tracks leader m r = step_leader-Tracks m.type m r

pub reject_stale-Tracks : (t : MessageType) (m : Message) (r : Raft) → Tracks r (reject_stale t m r)
unfolding reject_stale send
reject_stale-Tracks request_vote m r = ground arith
reject_stale-Tracks append_entries m r = ground arith
reject_stale-Tracks _ m r = Tracks-refl r

-- Whatever message arrives: the term does not fall, a vote given in a term stays, and a node whose
-- dirty flag is off after the step has the hard state that it had before, with the flag off then.
pub step-Tracks : (m : Message) (r : Raft) → Tracks r (step m r)
unfolding step
step-Tracks m r = elim (Bool-cases (ltb r.current_term m.term)) [
  | inl newer ↦
      rw newer
        (Tracks-trans (become_follower-Tracks m.term (leader_of m.type m) r) (step_as-Tracks _ m _))
  | inr old ↦ rw old (ground (arith, reject_stale-Tracks m.type m r, step_as-Tracks r.role m r))
]

-- No node is in an earlier term than a message that it has taken.
pub step-term_le : (m : Message) (r : Raft) → m.term ≤ (step m r).current_term
step-term_le m r = elim (Bool-cases (ltb r.current_term m.term)) [
  | inl newer ↦
      let down = become_follower m.term (leader_of m.type m) r in
      let at : m.term ≤ down.current_term = unfold become_follower in ground arith in
      let on = Extends-term_le _ _ (step_as-Tracks down.role m down).extends in
      unfold step in rw newer (omega (arith, at, on))
  | inr old ↦
      let kept : r.current_term ≤ (step m r).current_term =
        Extends-term_le _ _ (step-Tracks m r).extends in
      let below : m.term ≤ r.current_term = ground arith in omega (arith, below, kept)
]

pub become_candidate-Tracks : (r : Raft) → r.current_term + 1 < u64 → Tracks r (become_candidate r)
unfolding become_candidate stand
become_candidate-Tracks r h =
    ground
      (arith, become_leader-ballot (stand r), request_votes-eq (stand r).config.peers (stand r))

pub tick_heartbeat-Tracks : (r : Raft) → Tracks r (tick_heartbeat r)
unfolding tick_heartbeat broadcast_append_entries
tick_heartbeat-Tracks r =
    ground (arith, broadcast_to-eq r.config.peers (record r { heartbeat_elapsed = 0 }))

tick_election-Tracks : (r : Raft) → r.current_term + 1 < u64 → Tracks r (tick_election r)
unfolding tick_election
tick_election-Tracks r h =
    ground
      (arith, become_candidate-Tracks (record r { election_elapsed = r.election_elapsed + 1 }) h)

tick_as-Tracks : (role : Role) (r : Raft) → r.current_term + 1 < u64 → Tracks r (tick_as role r)
unfolding tick_as
tick_as-Tracks leader r h = tick_heartbeat-Tracks r
tick_as-Tracks follower r h = tick_election-Tracks r h
tick_as-Tracks candidate r h = tick_election-Tracks r h

-- A tick does not let the term fall or a vote of the term change, and a node whose dirty flag is off
-- after it has the hard state that it had before, with the flag off then, unless the 64-bit term wraps
-- around.
pub tick-Tracks : (r : Raft) → r.current_term + 1 < u64 → Tracks r (tick r)
unfolding tick
tick-Tracks r = tick_as-Tracks r.role r

propose_as-ballot :
    (role : Role) (payload : List ℕ) (r : Raft) → ballot (propose_as role payload r).0 ≡ ballot r
unfolding propose_as
propose_as-ballot leader payload r = maybe_commit-ballot _
propose_as-ballot follower payload r = refl
propose_as-ballot candidate payload r = refl

-- A proposal changes nothing that elections read.
pub propose-ballot : (payload : List ℕ) (r : Raft) → ballot (propose payload r).0 ≡ ballot r
unfolding propose
propose-ballot payload r = propose_as-ballot r.role payload r
