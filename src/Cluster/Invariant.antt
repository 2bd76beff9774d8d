-- ===== src/Cluster/Invariant.antt =====
-- The invariant behind election safety, for one node of src/raft/raft.cc and for the cluster.
use mini_lsm.Prelude.{
  ◌≡◌, ◌≢◌, sym, ◌∙◌, subst, inl, inr, true, false, List, arith, Bool-cases, All, All-append,
  All-imp, ◌==◌, eq_of_beq,
}
use mini_lsm.Raft.Messages.{NodeId, Term, Message}
use mini_lsm.Raft.State.{Raft, Config}
use mini_lsm.Raft.HardState.{HardState, hard}
use mini_lsm.Raft.Outbox.{OnGrant, OnGrant-imp, IsHonest, Queues}
use mini_lsm.Raft.Standing.{IsStanding}
use mini_lsm.Raft.Core.{has_vote}
use mini_lsm.Cluster.{Setup, config_of, IsMember, Cluster, moved}
use mini_lsm.Cluster.History.{
  Votes, note, Agrees, Grows, Grows-trans, note-Agrees, note-Grows, note_same,
}

-- A message of `i`, and a vote granted in it stands in the history `v`.
abbrev pub Promised : Votes → NodeId → Message → Type 0
Promised v i m = (m.from ≡ i) × OnGrant m.type m.vote_granted ((m.to ≢ 0) × (v m.term ≡ m.to))

-- `w` has voted for `i`, by the saved histories.
abbrev pub Voted : (NodeId → Votes) → NodeId → NodeId → Term → Type 0
Voted sv i w t = sv w t ≡ i

-- Node `i` in state `r` with history `v`; `h` and `u` are its saved hard state and history.
pub record IsSound (s : Setup) (sv : NodeId → Votes) (h : HardState) (u v : Votes) (i : NodeId)
    (r : Raft) : Type 0 where
  pub config : r.config ≡ config_of s i
  pub agrees : Agrees v (hard r)
  pub kept : Agrees u h
  pub grows : Grows u v
  pub clean : r.hard_state_dirty ≡ false → (h ≡ hard r) × ((t : Term) → u t ≡ v t)
  pub outbox : All (Promised v i) r.out_msgs
  pub standing : IsStanding (Voted sv i) r

abbrev pub Carried : Setup → (NodeId → Votes) → Message → Type 0
Carried s sv m =
    IsMember s m.from × OnGrant m.type m.vote_granted ((m.to ≢ 0) × (sv m.from m.term ≡ m.to))

pub record IsSafe (s : Setup) (c : Cluster) : Type 0 where
  pub nodes :
      (i : NodeId)
      → IsMember s i
      → IsSound s c.saved_votes (c.saved i) (c.saved_votes i) (c.votes i) i (c.nodes i)
  pub network : All (Carried s c.saved_votes) c.network

pub member-ne-zero : (s : Setup) (i : NodeId) → IsMember s i → i ≢ 0
member-ne-zero s i h e = ground (arith, s.named, subst (λ x. has_vote x s.peers ≡ true) e h)

pub Promised-Grows :
    (v w : Votes) (i : NodeId) (ms : List Message)
    → Grows v w
    → All (Promised v i) ms
    → All (Promised w i) ms
Promised-Grows v w i ms g = All-imp _ _ ms λ m h. (
  h.0,
  OnGrant-imp m.type m.vote_granted _ _ (λ p. (p.0, g m.term (λ z. p.0 (sym p.1 ∙ z)) ∙ p.1)) h.1,
)

Honest-Promised :
    (h : HardState) (v : Votes) (i : NodeId) (ms : List Message)
    → All (IsHonest i h) ms
    → All (Promised (note h v) i) ms
Honest-Promised h v i ms =
    All-imp _ _ ms
      λ m p. (p.0, OnGrant-imp m.type m.vote_granted _ _ (λ q. (q.0, ground arith)) p.1)

-- An operation that only queues honest messages, and keeps the claim to office.
pub Queues-IsSound :
    (s : Setup) (sv : NodeId → Votes) (h : HardState) (u v : Votes) (i : NodeId) (a b : Raft)
    → Queues a b
    → IsStanding (Voted sv i) b
    → IsSound s sv h u v i a
    → IsSound s sv h u (note (hard b) v) i b
Queues-IsSound s sv h u v i a b q st g =
    let more = note-Grows v (hard a) (hard b) g.agrees q.tracks.extends in
    record {
      config = q.config ∙ g.config;
      agrees = note-Agrees v (hard a) (hard b) g.agrees q.tracks.extends;
      kept = g.kept;
      grows = Grows-trans u v (note (hard b) v) g.grows more;
      clean = λ e.
          let m = q.tracks.marks e in
          let k = g.clean m.0 in
          (k.0 ∙ m.1, λ t. k.1 t ∙ sym (note_same v (hard b) (subst (Agrees v) m.1 g.agrees) t));
      outbox = rw q.queued (
          All-append _ a.out_msgs q.sent
            (Promised-Grows v (note (hard b) v) i a.out_msgs more g.outbox)
            (Honest-Promised (hard b) v i q.sent
              (subst (λ (k : Config). All (IsHonest k.id (hard b)) q.sent) g.config q.honest)));
      standing = st;
    }

pub moved-IsSafe :
    (s : Setup) (c : Cluster) (i : NodeId) (r : Raft)
    → IsMember s i
    → Queues (c.nodes i) r
    → IsStanding (Voted c.saved_votes i) r
    → IsSafe s c
    → IsSafe s (moved c i r)
moved-IsSafe s c i r m q st g = record {
  nodes = λ j mj. elim (Bool-cases (i == j)) [
    | inl e ↦ rw e (
        subst
          (λ k.
            IsSound s c.saved_votes (c.saved k) (c.saved_votes k) (note (hard r) (c.votes i)) k r)
          (eq_of_beq i j e)
          (Queues-IsSound s c.saved_votes (c.saved i) (c.saved_votes i) (c.votes i) i (c.nodes i) r
            q st (g.nodes i m)))
    | inr e ↦ rw e (g.nodes j mj)
  ];
  network = g.network;
}
