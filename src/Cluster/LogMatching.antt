-- ===== src/Cluster/LogMatching.antt =====
-- Log matching and the order of the terms in the logs of src/raft/raft.cc.
use mini_lsm.Prelude.{suc, ◌≤◌, ◌<◌, ◌≡◌, take, length, ℕ}
use mini_lsm.Raft.Messages.{NodeId}
use mini_lsm.Raft.State.{entry_at}
use mini_lsm.Cluster.{Setup, IsMember, Cluster}
use mini_lsm.Cluster.Preserve.{Reach-IsSafe}
use mini_lsm.Cluster.Leading.{Leading, ReachLog, ReachLog-Reach}
use mini_lsm.Cluster.Leading.Agreement.{node-IsBacked, node-Matching}
use mini_lsm.Cluster.Leading.Preserve.{ReachLog-IsLed}

-- In every state that a cluster can reach with the contract of its storage, whatever is lost, repeated,
-- reordered or restarted: where the logs of two members have the same term at an index, they are the same
-- up to there.
pub log_matching :
    {s : Setup} {c : Cluster} {g : Leading} (i j : NodeId) (k : ℕ)
    → ReachLog s c g
    → IsMember s i
    → IsMember s j
    → k < length (c.nodes i).log
    → k < length (c.nodes j).log
    → (entry_at (c.nodes i).log k).term ≡ (entry_at (c.nodes j).log k).term
    → take (suc k) (c.nodes i).log ≡ take (suc k) (c.nodes j).log
log_matching {s} {c} {g} i j k r mi mj =
    let h = ReachLog-IsLed r in
    let safe = Reach-IsSafe (ReachLog-Reach r) in
    node-Matching s c g safe h i (c.nodes j).current_term (c.nodes j).log mi
      (node-IsBacked s c g safe h j mj) k

-- In every such state the terms along the log of a member do not fall, and none is later than the term
-- that the member is in.
pub terms_in_order :
    {s : Setup} {c : Cluster} {g : Leading} (i : NodeId) (j k : ℕ)
    → ReachLog s c g
    → IsMember s i
    → j ≤ k
    → k < length (c.nodes i).log
    → ((entry_at (c.nodes i).log j).term ≤ (entry_at (c.nodes i).log k).term)
      × ((entry_at (c.nodes i).log k).term ≤ (c.nodes i).current_term)
terms_in_order i j k r m le lt =
    let log = ((ReachLog-IsLed r).live i m).log in (log.sorted j k le lt, log.up_to k lt)
