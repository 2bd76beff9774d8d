-- ===== src/Replicated/Elect.antt =====
-- The loop of `ReplicatedDB::Open` of src/raft/replicated_db.cc in which a single node elects itself.
use mini_lsm.Prelude.{ℕ, suc, ◌≡◌, ap, List, [], ◌∷◌, some, add64}
use mini_lsm.Raft.Messages.{NodeId, Term, LogEntry}
use mini_lsm.Raft.State.{Raft, leader, init, quorum_size}
use mini_lsm.Raft.Leader.{become_leader}
use mini_lsm.Raft.Follower.{become_candidate, stand}
use mini_lsm.Raft.Core.{tick, tick_as, tick_election, restore}
use mini_lsm.Raft.Frames.{become_leader-log}
use mini_lsm.Raft.Ballot.{Ballot, become_leader-ballot}
use mini_lsm.Replicated.Store.{elect, open_config}

elect-leader : (n : ℕ) (r : Raft) → r.role ≡ leader → elect (suc n) r ≡ some r
unfolding elect
elect-leader n r e = simp (e, elect)

-- The node that `Open` restores.
abbrev pub restored : NodeId → Term → NodeId → List LogEntry → Raft
restored id term vote entries = restore term vote entries (init (open_config id (id ∷ [])))

-- What the loop leads to.
pub record IsElected (id : NodeId) (r out : Raft) : Type 0 where
  pub leads : out.role ≡ leader
  pub term : out.current_term ≡ add64 r.current_term 1
  pub vote : out.voted_for ≡ id
  pub log : out.log ≡ r.log

-- The loop ends after one tick: a single node leads in the term that follows, with its own vote and the
-- log that it recovered.
pub elect-IsElected :
    (id : NodeId) (term : Term) (vote : NodeId) (entries : List LogEntry)
    → let r = restored id term vote entries in
      (out : Raft) × (elect 2 r ≡ some out) × IsElected id r out
unfolding elect tick tick_as tick_election become_candidate stand restore init quorum_size
elect-IsElected id term vote entries =
    let c = stand (record (restored id term vote entries) { election_elapsed = 1 }) in
    let b = become_leader-ballot c in
    let leads : (become_leader c).role ≡ leader = ap (λ (x : Ballot). x.role) b in
    (
      become_leader c,
      elect-leader 0 (become_leader c) leads,
      record {
        leads = leads;
        term = ap (λ (x : Ballot). x.current_term) b;
        vote = ap (λ (x : Ballot). x.voted_for) b;
        log = become_leader-log c;
      },
    )
