-- ===== src/Cluster/MatchIndex.antt =====
-- What a leader of src/raft/raft.cc counts as replicated.
use mini_lsm.Prelude.{suc, ◌<◌, ◌≡◌, ◌≢◌, ◌⊎◌, inl, inr, take, length}
use mini_lsm.Raft.Messages.{NodeId}
use mini_lsm.Raft.State.{leader}
use mini_lsm.Cluster.{Setup, IsMember, Cluster}
use mini_lsm.Cluster.Preserve.{Reach-IsSafe}
use mini_lsm.Cluster.Leading.{Leading, ReachLog, ReachLog-Reach}
use mini_lsm.Cluster.Leading.Agreement.{leader_holds}
use mini_lsm.Cluster.Leading.Preserve.{ReachLog-IsLed}

-- In every state that a cluster can reach with the contract of its storage: where a leader has a match
-- index other than 0 for a node, that is a member and the index is in the leader's log, and what is on the
-- disk of the member is the leader's log up to there, or what is saved of the member is of a later term.
pub match_index_held :
    {s : Setup} {c : Cluster} {g : Leading} (i p : NodeId)
    → ReachLog s c g
    → IsMember s i
    → (c.nodes i).role ≡ leader
    → (c.nodes i).match_index p ≢ 0
    → IsMember s p
      × ((c.nodes i).match_index p < length (c.nodes i).log)
      × (((c.nodes i).current_term < (c.saved p).term)
          ⊎ (((c.nodes i).current_term ≡ (c.saved p).term)
              × (take (suc ((c.nodes i).match_index p)) (g.disk p)
                  ≡ take (suc ((c.nodes i).match_index p)) (c.nodes i).log)))
match_index_held {s} {c} {g} i p r mi lead ne =
    let h = ReachLog-IsLed r in
    let safe = Reach-IsSafe (ReachLog-Reach r) in
    elim (h.counted i mi lead p) [
      | inl none_ ↦ absurd (ne none_)
      | inr (mp, kept, now) ↦
          let found =
            leader_holds s c g safe h i ((c.nodes i).match_index p) (c.saved p).term (g.disk p) mi
              lead kept in
          (mp, found.0, found.1)
    ]
