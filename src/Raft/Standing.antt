-- ===== src/Raft/Standing.antt =====
-- The claim to office of a node of src/raft/raft.cc: a candidate or leader has voted for itself,
-- its votes are distinct peers, and each of them but its own comes from a granted vote; a leader
-- has a majority of them.
pub mod Steps
use mini_lsm.Prelude.{
  ℕ, suc, ◌/◌, ◌<◌, ◌+◌, ◌≤◌, ◌≡◌, ◌≢◌, refl, sym, ap, subst, ◌∙◌, ◌⊎◌, inl, inr, Bool, true, false,
  List, [], ◌∷◌, ◌++◌, arith, Bool-cases, All, All-append, All-imp, ltb, leb, ◌==◌, if◌then◌else◌,
  eq_of_beq, beq_of_ne, beq_self, length, length-append, u64, reached,
}
use mini_lsm.Raft.Messages.{
  NodeId, Term, Message, MessageType, request_vote, request_vote_resp, append_entries,
  append_entries_resp,
}
use mini_lsm.Raft.State.{Raft, Config, Role, follower, candidate, leader, quorum_size, send}
use mini_lsm.Raft.Leader.{become_leader, handle_append_entries_resp, broadcast_append_entries}
use mini_lsm.Raft.Follower.{
  handle_request_vote, handle_append_entries, become_follower, become_candidate, stand,
  request_votes, can_vote,
}
use mini_lsm.Raft.Core.{
  tick, tick_as, tick_election, tick_heartbeat, step, step_as, step_follower, step_candidate,
  step_leader, has_vote, record_vote, with_vote, count_vote, reject_stale, leader_of, propose,
}
use mini_lsm.Raft.Frames.{broadcast_to-eq, request_votes-eq}
use mini_lsm.Raft.Ballot.{
  Ballot, ballot, become_leader-ballot, handle_append_entries-ballot,
  handle_append_entries_resp-ballot,
}
use mini_lsm.Raft.Outbox.{OnGrant}

-- No name twice.
abbrev pub Unique : List NodeId → Type 0
Unique [] = Unit
Unique (v ∷ vs) = (has_vote v vs ≡ false) × Unique vs

-- `voter v t` is the evidence that `v` has voted for this node in term `t`.
module _ (voter : NodeId → Term → Type 0) where
  abbrev pub IsElectorate : Config → Term → List NodeId → Type 0
  IsElectorate k t vs =
      All (λ v. (has_vote v k.peers ≡ true) × ((v ≡ k.id) ⊎ voter v t)) vs × Unique vs

  abbrev pub Standing : Config → Role → Term → NodeId → List NodeId → Type 0
  Standing k follower t vote vs = Unit
  Standing k candidate t vote vs = (vote ≡ k.id) × IsElectorate k t vs
  Standing k leader t vote vs =
      (vote ≡ k.id) × IsElectorate k t vs × (length k.peers / 2 + 1 ≤ length vs)

  abbrev pub Claims : Ballot → Type 0
  Claims b = Standing b.config b.role b.current_term b.voted_for b.votes_granted

  abbrev pub IsStanding : Raft → Type 0
  IsStanding r = Claims (ballot r)

IsElectorate-imp :
    (v w : NodeId → Term → Type 0) (k : Config) (t : Term) (vs : List NodeId)
    → ((n : NodeId) → v n t → w n t)
    → IsElectorate v k t vs
    → IsElectorate w k t vs
IsElectorate-imp v w k t vs f h =
    (All-imp _ _ vs (λ n p. (p.0, elim p.1 [ inl e ↦ inl e | inr q ↦ inr (f n q) ])) h.0, h.1)

-- More evidence keeps a claim.
pub Standing-imp :
    (v w : NodeId → Term → Type 0) (k : Config) (role : Role) (t : Term) (vote : NodeId)
    (vs : List NodeId)
    → ((n : NodeId) → v n t → w n t)
    → Standing v k role t vote vs
    → Standing w k role t vote vs
Standing-imp v w k follower t vote vs f h = tt
Standing-imp v w k candidate t vote vs f h = (h.0, IsElectorate-imp v w k t vs f h.1)
Standing-imp v w k leader t vote vs f h = (h.0, IsElectorate-imp v w k t vs f h.1, h.2)

pub has_vote-append :
    (v : NodeId) (xs ys : List NodeId)
    → has_vote v (xs ++ ys) ≡ (if has_vote v xs then true else has_vote v ys)
unfolding has_vote
has_vote-append v [] ys = refl
has_vote-append v (x ∷ xs) ys = ground (arith, has_vote-append v xs ys)

has_vote-append_one :
    (x v : NodeId) (vs : List NodeId)
    → has_vote x vs ≡ false
    → (x == v) ≡ false
    → has_vote x (vs ++ v ∷ []) ≡ false
unfolding has_vote
has_vote-append_one x v vs h e = ground (arith, has_vote-append x vs (v ∷ []))

Unique-append :
    (vs : List NodeId) (v : NodeId) → has_vote v vs ≡ false → Unique vs → Unique (vs ++ v ∷ [])
unfolding has_vote
Unique-append [] v h u = (refl, tt)
Unique-append (x ∷ xs) v h u =
    (has_vote-append_one x v xs u.0 (ground arith), Unique-append xs v (ground arith) u.1)

module _ (voter : NodeId → Term → Type 0) where
  pub handle_append_entries-IsStanding :
      (m : Message) (r : Raft) → IsStanding voter r → IsStanding voter (handle_append_entries m r)
  handle_append_entries-IsStanding m r =
      subst (Claims voter) (sym (handle_append_entries-ballot m r))

  pub become_leader-IsStanding :
      (r : Raft)
      → Standing voter r.config leader r.current_term r.voted_for r.votes_granted
      → IsStanding voter (become_leader r)
  become_leader-IsStanding r = subst (Claims voter) (sym (become_leader-ballot r))

  with_vote-IsElectorate :
      (v : NodeId) (r : Raft)
      → has_vote v r.config.peers ≡ true
      → voter v r.current_term
      → IsElectorate voter r.config r.current_term r.votes_granted
      → IsElectorate voter r.config r.current_term (with_vote v r.votes_granted)
  unfolding with_vote
  with_vote-IsElectorate v r known ev h = elim (Bool-cases (has_vote v r.votes_granted)) [
    | inl old ↦ rw old h
    | inr new ↦ rw new (
      All-append _ r.votes_granted (v ∷ []) h.0 ((known, inr ev), tt),
      Unique-append r.votes_granted v new h.1,
    )
  ]

  -- A granted vote of this term, from a peer, keeps the claim of a candidate, and makes it a leader
  -- only with a majority.
  pub count_vote-IsStanding :
      (m : Message) (r : Raft)
      → has_vote m.from r.config.peers ≡ true
      → voter m.from r.current_term
      → r.role ≡ candidate
      → Standing voter r.config candidate r.current_term r.voted_for r.votes_granted
      → IsStanding voter (count_vote m r)
  unfolding count_vote quorum_size record_vote
  count_vote-IsStanding m r known ev e h =
      let c = record_vote m.from r in
      let more = with_vote-IsElectorate m.from r known ev h.1 in
      elim (Bool-cases (leb (quorum_size c) (length c.votes_granted))) [
        | inl won ↦ rw won (become_leader-IsStanding c (h.0, more, ground arith))
        | inr lost ↦ rw (lost, e) (h.0, more)
      ]

  handle_request_vote-vote :
      (m : Message) (r : Raft)
      → r.config.id ≢ 0
      → r.voted_for ≡ r.config.id
      → (handle_request_vote m r).voted_for ≡ r.config.id
  unfolding handle_request_vote can_vote send
  handle_request_vote-vote m r ne e = ground arith

  -- A candidate or leader has voted for itself, and so keeps that vote.
  handle_request_vote-IsStanding :
      (m : Message) (r : Raft) (role : Role)
      → r.config.id ≢ 0
      → Standing voter r.config role r.current_term r.voted_for r.votes_granted
      → Standing voter r.config role r.current_term
          (handle_request_vote m r).voted_for
          r.votes_granted
  handle_request_vote-IsStanding m r follower ne h = tt
  handle_request_vote-IsStanding m r candidate ne h = (handle_request_vote-vote m r ne h.0, h.1)
  handle_request_vote-IsStanding m r leader ne h = (handle_request_vote-vote m r ne h.0, h.1, h.2)

  handle_request_vote-rest :
      (m : Message) (r : Raft)
      → ((handle_request_vote m r).config ≡ r.config)
        × ((handle_request_vote m r).role ≡ r.role)
        × ((handle_request_vote m r).current_term ≡ r.current_term)
        × ((handle_request_vote m r).votes_granted ≡ r.votes_granted)
  unfolding handle_request_vote send
  handle_request_vote-rest m r = (ground arith, ground arith, ground arith, ground arith)

  pub request_vote-IsStanding :
      (m : Message) (r : Raft)
      → r.config.id ≢ 0
      → IsStanding voter r
      → IsStanding voter (handle_request_vote m r)
  request_vote-IsStanding m r ne h =
      let same = handle_request_vote-rest m r in
      rw (same.0, same.1, same.2, same.3) (handle_request_vote-IsStanding m r r.role ne h)

  pub handle_append_entries_resp-IsStanding :
      (m : Message) (r : Raft)
      → IsStanding voter r
      → IsStanding voter (handle_append_entries_resp m r)
  handle_append_entries_resp-IsStanding m r =
      subst (Claims voter) (sym (handle_append_entries_resp-ballot m r))

  pub become_follower-IsStanding :
      (t : Term) (l : NodeId) (r : Raft) → IsStanding voter (become_follower t l r)
  unfolding become_follower
  become_follower-IsStanding t l r = tt

  pub reject_stale-IsStanding :
      (t : MessageType) (m : Message) (r : Raft)
      → IsStanding voter r
      → IsStanding voter (reject_stale t m r)
  unfolding reject_stale send
  reject_stale-IsStanding request_vote m r h = h
  reject_stale-IsStanding append_entries m r h = h
  reject_stale-IsStanding _ m r h = h
