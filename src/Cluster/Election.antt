-- ===== src/Cluster/Election.antt =====
-- Election safety of src/raft/raft.cc.
use mini_lsm.Prelude.{
  ◌+◌, ◌*◌, ◌/◌, ◌≤◌, ◌≡◌, ap, ◌<◌, sym, ◌∙◌, subst, ◌⊎◌, inl, inr, true, arith, All-imp, length,
}
use mini_lsm.Raft.Messages.{NodeId}
use mini_lsm.Raft.State.{Config, leader}
use mini_lsm.Raft.Core.{has_vote}
use mini_lsm.Raft.Standing.{Standing}
use mini_lsm.Cluster.{Setup, IsMember, Cluster, Reach}
use mini_lsm.Cluster.Invariant.{Voted, IsSafe, member-ne-zero}
use mini_lsm.Cluster.Quorum.{Within, quorums_meet, All-at}
use mini_lsm.Cluster.Preserve.{Reach-IsSafe}

module _ (s : Setup) (c : Cluster) (safe : IsSafe s c) (i : NodeId) (m : IsMember s i) where
  claim :
      (c.nodes i).role ≡ leader
      → Standing
          (Voted c.saved_votes i)
          (c.nodes i).config
          leader
          (c.nodes i).current_term
          (c.nodes i).voted_for
          (c.nodes i).votes_granted
  claim e =
      subst
        (λ x.
          Standing (Voted c.saved_votes i) (c.nodes i).config x (c.nodes i).current_term
            (c.nodes i).voted_for (c.nodes i).votes_granted)
        e (safe.nodes i m).standing

  self_vote :
      (v : NodeId)
      → (c.nodes i).role ≡ leader
      → v ≡ (c.nodes i).config.id
      → c.votes v (c.nodes i).current_term ≡ i
  self_vote v e own =
      let g = safe.nodes i m in
      let name : (c.nodes i).config.id ≡ i = ap (λ (k : Config). k.id) g.config in
      ap (λ k. c.votes k (c.nodes i).current_term) (own ∙ name)
      ∙ g.agrees.present
      ∙ (claim e).0
      ∙ name

  -- Every vote of a leader, its own too, stands in the history of the voter.
  voter_votes :
      (e : (c.nodes i).role ≡ leader) (v : NodeId)
      → has_vote v (c.nodes i).votes_granted ≡ true
      → c.votes v (c.nodes i).current_term ≡ i
  voter_votes e v h =
      let t = (c.nodes i).current_term in
      let k = (c.nodes i).config in
      let found =
        All-at (λ w. (has_vote w k.peers ≡ true) × ((w ≡ k.id) ⊎ Voted c.saved_votes i w t)) v
          (c.nodes i).votes_granted h (claim e).1.0 in
      elim found.1 [
        | inl own ↦ self_vote v e own
        | inr cast ↦
            (safe.nodes v (
                subst (λ (x : Config). has_vote v x.peers ≡ true) (safe.nodes i m).config
                  found.0)).grows
              t (λ z. member-ne-zero s i m (sym cast ∙ z))
            ∙ cast
      ]

  votes-Within : (e : (c.nodes i).role ≡ leader) → Within s.peers (c.nodes i).votes_granted
  votes-Within e =
      All-imp _ _ (c.nodes i).votes_granted
        (λ w p. subst (λ (x : Config). has_vote w x.peers ≡ true) (safe.nodes i m).config p.0)
        (claim e).1.0

  majority : (e : (c.nodes i).role ≡ leader) → length s.peers < 2 * length (c.nodes i).votes_granted
  majority e =
      let q : length s.peers / 2 + 1 ≤ length (c.nodes i).votes_granted =
        subst (λ (x : Config). length x.peers / 2 + 1 ≤ length (c.nodes i).votes_granted)
          (safe.nodes i m).config (claim e).2 in
      omega arith

-- In every state that a cluster can reach, whatever is lost, repeated, reordered or restarted, two
-- members that are leaders of the same term are one.
pub election_safety :
    {s : Setup} {c : Cluster} (i j : NodeId)
    → Reach s c
    → IsMember s i
    → IsMember s j
    → (c.nodes i).role ≡ leader
    → (c.nodes j).role ≡ leader
    → (c.nodes i).current_term ≡ (c.nodes j).current_term
    → i ≡ j
election_safety {s} {c} i j r mi mj ei ej same =
    let safe = Reach-IsSafe r in
    let a = (c.nodes i).votes_granted in
    let b = (c.nodes j).votes_granted in
    let shared =
      quorums_meet s.peers a b (claim s c safe i mi ei).1.1 (claim s c safe j mj ej).1.1
        (votes-Within s c safe i mi ei) (votes-Within s c safe j mj ej)
        (omega (arith, majority s c safe i mi ei, majority s c safe j mj ej)) in
    sym (voter_votes s c safe i mi ei shared.0 shared.1)
    ∙ ap (c.votes shared.0) same
    ∙ voter_votes s c safe j mj ej shared.0 shared.2
