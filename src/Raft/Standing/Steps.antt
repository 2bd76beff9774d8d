-- ===== src/Raft/Standing/Steps.antt =====
-- The claim to office under `Step` and `Tick` of src/raft/raft.cc.
use mini_lsm.Prelude.{
  ◌+◌, ◌≡◌, ◌≢◌, refl, sym, subst, inl, inr, true, arith, Bool-cases, ltb, leb, length, reached,
}
use mini_lsm.Raft.Messages.{
  NodeId, Term, Message, MessageType, request_vote, request_vote_resp, append_entries,
  append_entries_resp,
}
use mini_lsm.Raft.State.{Raft, Role, follower, candidate, leader, quorum_size}
use mini_lsm.Raft.Leader.{broadcast_append_entries}
use mini_lsm.Raft.Follower.{become_follower, become_candidate, stand}
use mini_lsm.Raft.Core.{
  tick, tick_as, tick_election, tick_heartbeat, step, step_as, step_follower, step_candidate,
  step_leader, has_vote, leader_of,
}
use mini_lsm.Raft.Frames.{broadcast_to-eq, request_votes-eq}
use mini_lsm.Raft.Outbox.{OnGrant}
use mini_lsm.Raft.Standing.{
  IsElectorate, Standing, IsStanding, request_vote-IsStanding,
  handle_append_entries_resp-IsStanding, handle_append_entries-IsStanding, count_vote-IsStanding,
  become_follower-IsStanding, reject_stale-IsStanding, become_leader-IsStanding,
}

-- A message of the node's own term: a granted vote in it has evidence, and comes from a peer.
module _ (voter : NodeId → Term → Type 0) (m : Message) (r : Raft) (ne : r.config.id ≢ 0)
    (from : OnGrant m.type m.vote_granted
      ((has_vote m.from r.config.peers ≡ true) × voter m.from r.current_term)) where
  step_follower-IsStanding :
      (t : MessageType) → IsStanding voter r → IsStanding voter (step_follower t m r)
  unfolding step_follower
  step_follower-IsStanding request_vote h = request_vote-IsStanding voter m r ne h
  step_follower-IsStanding append_entries h = handle_append_entries-IsStanding voter m r h
  step_follower-IsStanding _ h = h

  granted_vote :
      m.type ≡ request_vote_resp
      → m.vote_granted ≡ true
      → (has_vote m.from r.config.peers ≡ true) × voter m.from r.current_term
  granted_vote e g =
      subst
        (λ x.
          OnGrant x true ((has_vote m.from r.config.peers ≡ true) × voter m.from r.current_term))
        e
        (subst
          (λ x.
            OnGrant m.type x
              ((has_vote m.from r.config.peers ≡ true) × voter m.from r.current_term))
          g from)

  step_candidate-IsStanding :
      (t : MessageType)
      → m.type ≡ t
      → r.role ≡ candidate
      → IsStanding voter r
      → IsStanding voter (step_candidate t m r)
  unfolding step_candidate
  step_candidate-IsStanding request_vote k e h = request_vote-IsStanding voter m r ne h
  step_candidate-IsStanding append_entries k e h =
      handle_append_entries-IsStanding voter m (become_follower m.term m.from r)
        (become_follower-IsStanding voter m.term m.from r)
  step_candidate-IsStanding request_vote_resp k e h = elim (Bool-cases m.vote_granted) [
    | inl granted ↦
        let v = granted_vote k granted in
        simp granted (
          count_vote-IsStanding voter m r v.0 v.1 e
            (subst (λ x. Standing voter r.config x r.current_term r.voted_for r.votes_granted) e h))
    | inr refused ↦ simp refused h
  ]
  step_candidate-IsStanding append_entries_resp k e h = h

  step_leader-IsStanding :
      (t : MessageType) → IsStanding voter r → IsStanding voter (step_leader t m r)
  unfolding step_leader
  step_leader-IsStanding request_vote h = request_vote-IsStanding voter m r ne h
  step_leader-IsStanding append_entries_resp h = handle_append_entries_resp-IsStanding voter m r h
  step_leader-IsStanding _ h = h

  pub step_as-IsStanding :
      (role : Role) → r.role ≡ role → IsStanding voter r → IsStanding voter (step_as role m r)
  unfolding step_as
  step_as-IsStanding follower e h = step_follower-IsStanding m.type h
  step_as-IsStanding candidate e h = step_candidate-IsStanding m.type refl e h
  step_as-IsStanding leader e h = step_leader-IsStanding m.type h

module _ (voter : NodeId → Term → Type 0) (m : Message) (r : Raft) (ne : r.config.id ≢ 0)
    (from : OnGrant m.type m.vote_granted
      ((has_vote m.from r.config.peers ≡ true) × voter m.from m.term)) where
  step_current-IsStanding :
      m.term ≡ r.current_term → IsStanding voter r → IsStanding voter (step_as r.role m r)
  step_current-IsStanding e =
      step_as-IsStanding voter m r ne
        (subst
          (λ t.
            OnGrant m.type m.vote_granted
              ((has_vote m.from r.config.peers ≡ true) × voter m.from t))
          e from)
        r.role refl

  down : Raft
  unfolding become_follower
  down = become_follower m.term (leader_of m.type m) r

  down-config : (down.config ≡ r.config)
  unfolding down
  down-config = ground arith

  down-term : ltb r.current_term m.term ≡ true → down.current_term ≡ m.term
  unfolding down
  down-term newer = ground arith

  step_down-IsStanding :
      ltb r.current_term m.term ≡ true → IsStanding voter (step_as down.role m down)
  step_down-IsStanding newer =
      step_as-IsStanding voter m down (rw down-config ne) (rw (down-config, down-term newer) from)
        down.role refl (unfold down in tt)

  -- A step keeps the claim to office, if a granted vote of a current term that arrives has evidence
  -- behind it: the votes of a candidate or leader are from distinct peers, each with evidence, and a
  -- leader has a majority.
  pub step-IsStanding : IsStanding voter r → IsStanding voter (step m r)
  unfolding step
  step-IsStanding h = elim (Bool-cases (ltb r.current_term m.term)) [
    | inl newer ↦ rw newer (unfold down in step_down-IsStanding newer)
    | inr same ↦ rw same (elim (Bool-cases (ltb m.term r.current_term)) [
      | inl stale ↦ rw stale (reject_stale-IsStanding voter m.type m r h)
      | inr current ↦ rw current (step_current-IsStanding (ground arith) h)
    ])
  ]

become_candidate-IsStanding :
    (voter : NodeId → Term → Type 0) (r : Raft)
    → has_vote r.config.id r.config.peers ≡ true
    → IsStanding voter (become_candidate r)
unfolding become_candidate stand has_vote quorum_size
become_candidate-IsStanding voter r known =
    let c = stand r in
    let own : IsElectorate voter r.config c.current_term c.votes_granted =
      (((known, inl refl), tt), (refl, tt)) in
    elim (Bool-cases (leb (quorum_size c) (length c.votes_granted))) [
      | inl won ↦ rw won (become_leader-IsStanding voter c (refl, own, ground arith))
      | inr more ↦
          rw more
            (subst (λ x. IsStanding voter x) (sym (request_votes-eq c.config.peers c)) (refl, own))
    ]

tick_heartbeat-IsStanding :
    (voter : NodeId → Term → Type 0) (r : Raft)
    → IsStanding voter r
    → IsStanding voter (tick_heartbeat r)
unfolding tick_heartbeat broadcast_append_entries
tick_heartbeat-IsStanding voter r h =
    elim (Bool-cases (reached (r.heartbeat_elapsed + 1) r.config.heartbeat_timeout)) [
      | inl due ↦ rw due (
          subst (λ x. IsStanding voter x)
            (sym (broadcast_to-eq r.config.peers (record r { heartbeat_elapsed = 0 }))) h)
      | inr wait ↦ rw wait h
    ]

tick_election-IsStanding :
    (voter : NodeId → Term → Type 0) (r : Raft)
    → has_vote r.config.id r.config.peers ≡ true
    → IsStanding voter r
    → IsStanding voter (tick_election r)
unfolding tick_election
tick_election-IsStanding voter r known h =
    elim (Bool-cases (reached (r.election_elapsed + 1) r.config.election_timeout)) [
      | inl due ↦ rw due (become_candidate-IsStanding voter _ known)
      | inr wait ↦ rw wait h
    ]

tick_as-IsStanding :
    (voter : NodeId → Term → Type 0) (role : Role) (r : Raft)
    → has_vote r.config.id r.config.peers ≡ true
    → IsStanding voter r
    → IsStanding voter (tick_as role r)
unfolding tick_as
tick_as-IsStanding voter leader r known h = tick_heartbeat-IsStanding voter r h
tick_as-IsStanding voter follower r known h = tick_election-IsStanding voter r known h
tick_as-IsStanding voter candidate r known h = tick_election-IsStanding voter r known h

pub tick-IsStanding :
    (voter : NodeId → Term → Type 0) (r : Raft)
    → has_vote r.config.id r.config.peers ≡ true
    → IsStanding voter r
    → IsStanding voter (tick r)
unfolding tick
tick-IsStanding voter r = tick_as-IsStanding voter r.role r
